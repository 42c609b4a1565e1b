-- ===== src/Metadata/System/Handlers.antt =====
-- What the handlers of internal/metadata/server.go do to a catalog, for any relation that their commands
-- keep.
use frag_kv.Base.{
  ◌≡◌, Str, ℕ, [], Option, none, some, Bool, Bool-cases, Option-cases, inl, inr, str_eq, codes,
}
use frag_kv.Base.Codec.{Codec}
use frag_kv.Base.GoMap.{RangeOrder}
use frag_kv.Base.Int.{ℤ}
use frag_kv.Placement.{Placer}
use frag_kv.Placement.Outside.{Floats}
use frag_kv.Transport.{Method, get_method, post_method, delete_method}
use frag_kv.Metadata.Setup.{Config, Raft}
use frag_kv.Metadata.Types.{
  NodeInfo, KeyEntry, Catalog, Command, bare, commit_key, delete_key, register_node, heartbeat,
}
use frag_kv.Metadata.Store.{
  Error, Result, ok, err, bare_node, commit_key_op, delete_key_op, register_node_op, heartbeat_op,
}
use frag_kv.Metadata.Server.{
  Request, Bodies, changed, prepared, parts_of, prepare_action, commit_action, key_action,
  list_action, route_key, handle_keys, registered, handle_nodes, heartbeat_action, node_action,
  handle_node_by_id,
}
use frag_kv.Metadata.Store.Updates.{completed}
use frag_kv.Metadata.System.Kept.{
  Relation, Allows, AllowsEntries, AllowsMoves, apply-keeps, prepare_key-keeps,
  trigger_rebalance-keeps,
}

-- The node that a heartbeat hands over.
abbrev pub beat_of : ℕ → Str → ℤ → ℤ → NodeInfo
beat_of now id used total = record (bare_node id) {
  last_seen = now;
  used_bytes = used;
  total_bytes = total;
}

-- The commands of `CommitKey` and `DeleteKey`, of `RegisterNode` and of `Heartbeat` keep the relation.
module _ (json : Codec Command) (R : Relation) where
  abbrev pub AllowsKeys : Str → Type 0
  AllowsKeys key =
      AllowsEntries json R key
      × Allows json R (record (bare commit_key) { key = key })
      × Allows json R (record (bare delete_key) { key = key })

  abbrev pub AllowsNode : ℕ → NodeInfo → Type 0
  AllowsNode now info =
      Allows json R (record (bare register_node) { node = some (completed now info) })

  abbrev pub AllowsBeat : ℕ → Str → ℤ × ℤ → Type 0
  AllowsBeat now id usage =
      Allows json R (record (bare heartbeat) { node = some (beat_of now id usage.0 usage.1) })

module _ (json : Codec Command) (R : Relation) (fl : Floats) (order : RangeOrder)
    (place : Placer fl) (cfg : Config) where
  changed-keeps :
      (code : ℕ) (s : Catalog) (p : Catalog × Option Error)
      → R.Rel s p.0
      → R.Rel s (changed code p).0
  changed-keeps code s (t, none) h = h
  changed-keeps code s (t, some e) h = h

  answered-keeps :
      (s : Catalog) (p : Catalog × Result KeyEntry) → R.Rel s p.0 → R.Rel s (prepared p).0
  answered-keeps s (t, ok e) h = h
  answered-keeps s (t, err e) h = h

  module _ (raft : Raft) (now : ℕ) (bodies : Bodies) where
    prepare_action-keeps :
        (key : Str)
        → AllowsKeys json R key
        → (method : Method) (body : Str) (s : Catalog)
        → R.Rel s (prepare_action fl json order place cfg raft now bodies method key body s).0
    prepare_action-keeps key allowed post_method body s =
        elim (Option-cases (bodies.total_size body)) [
          | inl bad ↦ rw (prepare_action, bad) (R.same s)
          | inr (total, good) ↦
              rw (prepare_action, good)
                (answered-keeps s _
                  (prepare_key-keeps json R fl order place cfg key allowed.0 raft now total s))
        ]
    prepare_action-keeps key allowed method body s = R.same s

    commit_action-keeps :
        (key : Str)
        → AllowsKeys json R key
        → (method : Method) (s : Catalog)
        → R.Rel s (commit_action fl json order place cfg raft now bodies method key s).0
    unfolding commit_key_op
    commit_action-keeps key allowed post_method s =
        changed-keeps 204 s _ (apply-keeps json R raft _ allowed.1 s)
    commit_action-keeps key allowed method s = R.same s

    key_action-keeps :
        (key : Str)
        → AllowsKeys json R key
        → (method : Method) (s : Catalog)
        → R.Rel s (key_action fl json order place cfg raft now bodies method key s).0
    unfolding delete_key_op
    key_action-keeps key allowed delete_method s =
        changed-keeps 204 s _ (apply-keeps json R raft _ allowed.2 s)
    key_action-keeps key allowed method s = R.same s

    list_action-keeps :
        (method : Method) (s : Catalog)
        → R.Rel s (list_action fl json order place cfg raft now bodies method s).0
    list_action-keeps get_method s = R.same s
    list_action-keeps method s = R.same s

    route_key-keeps :
        (key : Str)
        → AllowsKeys json R key
        → (action : Str) (r : Request) (s : Catalog)
        → R.Rel s (route_key fl json order place cfg raft now bodies key action r s).0
    route_key-keeps key allowed action r s = elim (Bool-cases (str_eq key [])) [
      | inl listing ↦ rw listing (list_action-keeps r.method s)
      | inr named ↦ elim (Bool-cases (str_eq action (codes "prepare"))) [
        | inl prepares ↦ rw (named, prepares) (prepare_action-keeps key allowed r.method r.body s)
        | inr other ↦ elim (Bool-cases (str_eq action (codes "commit"))) [
          | inl commits ↦ rw (named, other, commits) (commit_action-keeps key allowed r.method s)
          | inr rest ↦ elim (Bool-cases (str_eq action [])) [
            | inl plain ↦ rw (named, other, rest, plain) (key_action-keeps key allowed r.method s)
            | inr unknown ↦ rw (named, other, rest, unknown) (R.same s)
          ]
        ]
      ]
    ]

    pub handle_keys-keeps :
        (r : Request)
        → AllowsKeys json R (parts_of (codes "/keys/") r.path).0
        → (s : Catalog) → R.Rel s (handle_keys fl json order place cfg raft now bodies r s).0
    unfolding handle_keys
    handle_keys-keeps r allowed s = route_key-keeps _ allowed _ r s

    registered-keeps :
        AllowsMoves json R
        → (rafts : Str → Raft) (replicate : Str → Str → Str → Bool) (s : Catalog)
          (p : Catalog × Option Error)
        → R.Rel s p.0
        → R.Rel s (registered fl json order place cfg raft now bodies rafts replicate p).0
    registered-keeps moves rafts replicate s (t, none) h =
        R.after _ _ _ h
          (trigger_rebalance-keeps json R fl order place cfg moves rafts replicate raft.is_leader t)
    registered-keeps moves rafts replicate s (t, some e) h = h

    pub handle_nodes-keeps :
        AllowsMoves json R
        → (rafts : Str → Raft) (replicate : Str → Str → Str → Bool) (method : Method) (body : Str)
        → ((info : NodeInfo) → bodies.node_info body ≡ some info → AllowsNode json R now info)
        → (s : Catalog)
        → R.Rel s
            (handle_nodes fl json order place cfg raft now bodies rafts replicate method body s).0
    unfolding handle_nodes register_node_op
    handle_nodes-keeps moves rafts replicate get_method body registers s = R.same s
    handle_nodes-keeps moves rafts replicate post_method body registers s =
        elim (Option-cases (bodies.node_info body)) [
          | inl bad ↦ rw (handle_nodes, bad) (R.same s)
          | inr (info, good) ↦
              rw (handle_nodes, good)
                (registered-keeps moves rafts replicate s _
                  (apply-keeps json R raft _ (registers info good) s))
        ]
    handle_nodes-keeps moves rafts replicate method body registers s = R.same s

    heartbeat_action-keeps :
        (method : Method) (id body : Str)
        → ((usage : ℤ × ℤ) → bodies.usage body ≡ some usage → AllowsBeat json R now id usage)
        → (s : Catalog)
        → R.Rel s (heartbeat_action fl json order place cfg raft now bodies method id body s).0
    unfolding heartbeat_op
    heartbeat_action-keeps post_method id body beats s = elim (Option-cases (bodies.usage body)) [
      | inl bad ↦ rw (heartbeat_action, bad) (R.same s)
      | inr (usage, good) ↦
          rw (heartbeat_action, good)
            (changed-keeps 204 s _ (apply-keeps json R raft _ (beats usage good) s))
    ]
    heartbeat_action-keeps method id body beats s = R.same s

    node_action-keeps :
        (method : Method) (id : Str) (s : Catalog)
        → R.Rel s (node_action fl json order place cfg raft now bodies method id s).0
    node_action-keeps get_method id s = R.same s
    node_action-keeps method id s = R.same s

    pub handle_node_by_id-keeps :
        (r : Request)
        → ((usage : ℤ × ℤ)
            → bodies.usage r.body ≡ some usage
            → AllowsBeat json R now (parts_of (codes "/nodes/") r.path).0 usage)
        → (s : Catalog) → R.Rel s (handle_node_by_id fl json order place cfg raft now bodies r s).0
    unfolding handle_node_by_id
    handle_node_by_id-keeps r beats s =
        let parts = parts_of (codes "/nodes/") r.path in
        elim (Bool-cases (str_eq parts.1 (codes "heartbeat"))) [
          | inl beating ↦
              rw (handle_node_by_id, beating)
                (heartbeat_action-keeps r.method parts.0 r.body beats s)
          | inr other ↦ rw (handle_node_by_id, other) (node_action-keeps r.method parts.0 s)
        ]
