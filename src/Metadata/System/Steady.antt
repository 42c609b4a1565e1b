-- ===== src/Metadata/System/Steady.antt =====
-- A storage node that is heard of in time, in the metadata service of internal/metadata: heartbeats come
-- by handleNodeByID, and all else that the service does goes on between them.
use mathlib.Core.List.{Mem}
use frag_kv.Base.{
  Str, ℕ, ◌≤◌, ◌≡◌, refl, sym, ap, ◌∙◌, subst, Option, none, some, Bool, false, arith, codes,
  Option-cases, inl, inr, str_eq,
}
use frag_kv.Base.Codec.{Codec}
use frag_kv.Base.GoMap.{RangeOrder}
use frag_kv.Base.GoMap.Entries.{AllEntries, AllEntries-insert, AllEntries-modify, AllEntries-weaken}
use frag_kv.Base.Int.{ℤ, sub_ℕ, ltb_ℤ}
use frag_kv.Placement.{Placer}
use frag_kv.Placement.Outside.{Floats}
use frag_kv.Transport.{Method, post_method, get_method, put_method, delete_method, other_method}
use frag_kv.Metadata.Setup.{Config, Raft}
use frag_kv.Metadata.Types.{
  NodeInfo, Catalog, CmdType, Command, up, new_state, bare, put_key, register_node, heartbeat,
  mark_node_down,
}
use frag_kv.Metadata.Fsm.{apply_command, apply_log, get_node, list_nodes, set_down, refresh}
use frag_kv.Metadata.Store.{Error, heartbeat_op}
use frag_kv.Metadata.Store.Updates.{apply_done, completed}
use frag_kv.Metadata.Workers.{mark_stale, recover_under_replicated}
use frag_kv.Metadata.Rebalance.{trigger_rebalance}
use frag_kv.Metadata.Server.{
  Request, Bodies, changed, parts_of, heartbeat_action, route_node, handle_keys, handle_nodes,
  handle_node_by_id,
}
use frag_kv.Metadata.Server.Keys.{changed-204}
use frag_kv.Metadata.System.{Reaches}
use frag_kv.Metadata.System.Handlers.{
  beat_of, handle_keys-keeps, handle_nodes-keeps, handle_node_by_id-keeps,
}
use frag_kv.Metadata.System.Heard.{
  IsNamed, IsFresh, IsHeard, IsHeard-up, beat-IsHeard, staying, Allows-beat, Allows-registration,
  Allows-entries, Allows-commit, Allows-delete, Allows-moves, Allows-seen,
}
use frag_kv.Metadata.System.Kept.{
  Relation, mark_stale-keeps, recover_under_replicated-keeps, trigger_rebalance-keeps,
}
use frag_kv.Metadata.System.Reached.{Reaches-keeps}

-- Every node stands under its own ID.
abbrev NamedNodes : Catalog → Type 0
NamedNodes s = AllEntries IsNamed s.nodes

named_by_type :
    (cmd : Command) (t : CmdType) (o : Option NodeInfo) (s : Catalog)
    → NamedNodes s
    → NamedNodes (apply_command (record cmd { type = t; node = o }) s)
unfolding apply_command
named_by_type cmd put_key o s h = named_put cmd.entry
  where
    named_put :
        (e : _) → NamedNodes (apply_command (record cmd { type = put_key; node = o; entry = e }) s)
    named_put none = h
    named_put (some e) = h
named_by_type cmd register_node none s h = h
named_by_type cmd register_node (some n) s h = AllEntries-insert IsNamed n.id n s.nodes refl h
named_by_type cmd heartbeat none s h = h
named_by_type cmd heartbeat (some n) s h =
    AllEntries-modify IsNamed IsNamed n.id (refresh n) s.nodes (λ v e. e) (λ j v other e. e) h
named_by_type cmd mark_node_down none s h = h
named_by_type cmd mark_node_down (some n) s h =
    AllEntries-modify IsNamed IsNamed n.id set_down s.nodes (λ v e. e) (λ j v other e. e) h
named_by_type cmd _ o s h = h

abbrev naming : Relation
naming = record {
  Rel = λ s t. NamedNodes s → NamedNodes t;
  same = λ s h. h;
  after = λ s t u first later h. later (first h);
}

named_entry :
    (json : Codec Command) (log_entry : Str) (s : Catalog)
    → NamedNodes s
    → NamedNodes (apply_log json log_entry s).0
unfolding apply_log
named_entry json log_entry s h = elim (Option-cases (json.unmarshal log_entry)) [
  | inl bad ↦ rw (apply_log, bad) h
  | inr (cmd, good) ↦ rw (apply_log, good) (named_by_type cmd cmd.type cmd.node s h)
]

module _ (fl : Floats) (json : Codec Command) (order : RangeOrder) (place : Placer fl)
    (cfg : Config) (id : Str) where
  changed-done :
      (p : Catalog × Option Error) → (changed 204 p).1.status ≡ 204 → (changed 204 p).0 ≡ p.0
  changed-done (s, none) h = refl
  changed-done (s, some e) h = refl

  module _ (raft : Raft) (now : ℕ) (bodies : Bodies) where
    action_accepted :
        (method : Method) (body : Str) (s : Catalog)
        → (heartbeat_action fl json order place cfg raft now bodies method id body s).1.status ≡ 204
        → (usage : ℤ × ℤ) × ((heartbeat_action fl json order place cfg raft now bodies method id
              body s).0
            ≡ apply_command
                (record (bare heartbeat) { node = some (beat_of now id usage.0 usage.1) })
                s)
    unfolding heartbeat_op
    action_accepted post_method body s accepted = elim (Option-cases (bodies.usage body)) [
      | inl bad ↦ absurd (omega (arith, rw (heartbeat_action, bad) at accepted))
      | inr (usage, good) ↦
          let taken = rw (heartbeat_action, good) at accepted in
          (
            usage,
            rw (heartbeat_action, good)
                (changed-done _ taken ∙ apply_done json _ s raft (changed-204 _ taken)),
          )
    ]
    action_accepted get_method body s accepted = absurd (omega (arith, accepted))
    action_accepted put_method body s accepted = absurd (omega (arith, accepted))
    action_accepted delete_method body s accepted = absurd (omega (arith, accepted))
    action_accepted (other_method name) body s accepted = absurd (omega (arith, accepted))

    -- A heartbeat that is answered with 204 was applied, at the time of the request.
    request_accepted :
        (r : Request) (s : Catalog)
        → parts_of (codes "/nodes/") r.path ≡ (id, codes "heartbeat")
        → (handle_node_by_id fl json order place cfg raft now bodies r s).1.status ≡ 204
        → (usage : ℤ × ℤ) × ((handle_node_by_id fl json order place cfg raft now bodies r s).0
            ≡ apply_command
                (record (bare heartbeat) { node = some (beat_of now id usage.0 usage.1) })
                s)
    unfolding handle_node_by_id str_eq
    request_accepted r s ours accepted =
        let routed : handle_node_by_id fl json order place cfg raft now bodies r s
            ≡ heartbeat_action fl json order place cfg raft now bodies r.method id r.body s =
          ap (λ p. route_node fl json order place cfg raft now bodies p.0 p.1 r s) ours in
        let (usage, applied) =
          action_accepted r.method r.body s (sym (ap (λ p. p.1.status) routed) ∙ accepted) in
        (usage, ap (λ p. p.0) routed ∙ applied)

  -- What the service does from the catalog `s` on, in which the node was heard of at `first`, up to a
  -- catalog in which the last heartbeat of the node that was answered with 204 came at `heard`: any
  -- requests to the handlers and rounds of the workers, of which the registrations of the node itself
  -- announce it as up and as seen at `heard` or later. A round of the failure detector is a list of the
  -- nodes and then one turn for each, between which anything else may happen: each turn comes within the
  -- threshold of the last such heartbeat before the list was made.
  pub data Runs (first : ℕ) (s : Catalog) : ℕ → Catalog → Type 0 where
    begin : Runs first s first s
    beats :
        {heard : ℕ} {t : Catalog}
        → Runs first s heard t
        → (raft : Raft) (now : ℕ) (bodies : Bodies) (r : Request)
        → parts_of (codes "/nodes/") r.path ≡ (id, codes "heartbeat")
        → (handle_node_by_id fl json order place cfg raft now bodies r t).1.status ≡ 204
        → Runs first s now (handle_node_by_id fl json order place cfg raft now bodies r t).0
    node_request :
        {heard : ℕ} {t : Catalog}
        → Runs first s heard t
        → (raft : Raft) (now : ℕ) (bodies : Bodies) (r : Request) → heard ≤ now
        → Runs first s heard (handle_node_by_id fl json order place cfg raft now bodies r t).0
    keys_request :
        {heard : ℕ} {t : Catalog}
        → Runs first s heard t
        → (raft : Raft) (now : ℕ) (bodies : Bodies) (r : Request)
        → Runs first s heard (handle_keys fl json order place cfg raft now bodies r t).0
    nodes_request :
        {heard : ℕ} {t : Catalog}
        → Runs first s heard t
        → (raft : Raft) (now : ℕ) (bodies : Bodies) (rafts : Str → Raft)
          (replicate : Str → Str → Str → Bool) (method : Method) (body : Str)
        → ((info : NodeInfo)
            → bodies.node_info body ≡ some info
            → info.id ≡ id
            → ((completed now info).status ≡ up) × (heard ≤ (completed now info).last_seen))
        → Runs first s heard
            (handle_nodes fl json order place cfg raft now bodies rafts replicate method body t).0
    -- A node is marked of a list that was made at another moment of the run.
    marking :
        {heard before : ℕ} {t listed : Catalog}
        → Runs first s heard t
        → Runs first s before listed
        → (seen : NodeInfo) → Mem seen (list_nodes order listed)
        → (raft : Raft) (now : ℕ) → ltb_ℤ cfg.dead_threshold (sub_ℕ now before) ≡ false
        → Runs first s heard (mark_stale json raft now cfg.dead_threshold seen t)
    recovery :
        {heard : ℕ} {t : Catalog}
        → Runs first s heard t
        → (rafts : Str → Raft) (replicate : Str → Str → Str → Bool)
        → Runs first s heard (recover_under_replicated json order cfg rafts replicate t)
    rebalancing :
        {heard : ℕ} {t : Catalog}
        → Runs first s heard t
        → (rafts : Str → Raft) (replicate : Str → Str → Str → Bool) (is_leader : Bool)
        → Runs first s heard (trigger_rebalance fl json order place cfg rafts replicate is_leader t)

  beaten-IsHeard :
      (raft : Raft) (now : ℕ) (bodies : Bodies) (r : Request) (t : Catalog)
      → parts_of (codes "/nodes/") r.path ≡ (id, codes "heartbeat")
      → (handle_node_by_id fl json order place cfg raft now bodies r t).1.status ≡ 204
      → (n : NodeInfo) × (get_node id t ≡ some n)
      → NamedNodes t
      → IsHeard id now (handle_node_by_id fl json order place cfg raft now bodies r t).0
  beaten-IsHeard raft now bodies r t ours accepted registered named =
      let (usage, applied) = request_accepted raft now bodies r t ours accepted in
      subst (IsHeard id now) (sym applied)
        (beat-IsHeard id now (beat_of now id usage.0 usage.1) t refl refl registered named)

  run-IsHeard :
      {first : ℕ} {s : Catalog} {heard : ℕ} {t : Catalog}
      → Runs first s heard t
      → IsHeard id first s
      → IsHeard id heard t
  run-IsHeard begin h = h
  run-IsHeard (beats {heard = heard} {t = t} run raft now bodies r ours accepted) h =
      let before = run-IsHeard run h in
      beaten-IsHeard raft now bodies r t ours accepted before.registered
        (AllEntries-weaken (IsFresh id heard) IsNamed t.nodes (λ k v fresh. fresh.0) before.fresh)
  run-IsHeard (node_request {heard = heard} {t = t} run raft now bodies r later) h =
      handle_node_by_id-keeps json (staying id heard) fl order place cfg raft now bodies r
        (λ usage good. Allows-beat id json heard _ (λ e. later)) t (run-IsHeard run h)
  run-IsHeard (keys_request {heard = heard} {t = t} run raft now bodies r) h =
      handle_keys-keeps json (staying id heard) fl order place cfg raft now bodies r
        (
          Allows-entries id json heard _,
          Allows-commit id json heard _,
          Allows-delete id json heard _,
        )
        t (run-IsHeard run h)
  run-IsHeard
        (nodes_request {heard = heard} {t = t} run raft now bodies rafts replicate method body
          announces)
        h =
      handle_nodes-keeps json (staying id heard) fl order place cfg raft now bodies
        (Allows-moves id json heard) rafts replicate method body
        (λ info good. Allows-registration id json heard _ (announces info good)) t
        (run-IsHeard run h)
  run-IsHeard
        (marking {heard = heard} {before = before} {t = t} {listed = listed} run listing seen member
          raft now in_time)
        h =
      mark_stale-keeps json (staying id heard) fl order place cfg raft now cfg.dead_threshold seen
        (Allows-seen id json heard order now cfg.dead_threshold before listed seen in_time
          (run-IsHeard listing h) member)
        t (run-IsHeard run h)
  run-IsHeard (recovery {heard = heard} {t = t} run rafts replicate) h =
      recover_under_replicated-keeps json (staying id heard) fl order place cfg
        (Allows-moves id json heard) rafts replicate t (run-IsHeard run h)
  run-IsHeard (rebalancing {heard = heard} {t = t} run rafts replicate is_leader) h =
      trigger_rebalance-keeps json (staying id heard) fl order place cfg
        (Allows-moves id json heard) rafts replicate is_leader t (run-IsHeard run h)

  reachable-NamedNodes : (s : Catalog) → Reaches fl json order place cfg new_state s → NamedNodes s
  reachable-NamedNodes s reached =
      Reaches-keeps fl json order place cfg naming (named_entry json) reached tt

  -- A node that is heard of in time is never taken for down. Let it be registered in a catalog that the
  -- metadata service has reached in whatever way, and let a heartbeat of it be answered with 204 there.
  -- From then on any requests to the handlers and rounds of the workers may follow in any order, whatever
  -- Raft and the storage nodes do, with the rounds of the failure detector taken apart into the list of
  -- the nodes and a turn for each, which anything may come between. Let each turn look at the clock within
  -- the threshold of the last heartbeat of the node that was answered with 204 when the list was made, no
  -- heartbeat come at a time before the last one that was so answered, and every registration of the node
  -- itself announce it as up and as seen at that one or later. Then the node is up at the end, and was
  -- last seen at the last heartbeat that was answered with 204 or later.
  pub heartbeats_keep_up :
      (s : Catalog) (n : NodeInfo)
      → Reaches fl json order place cfg new_state s
      → get_node id s ≡ some n
      → (raft : Raft) (first : ℕ) (bodies : Bodies) (r : Request)
      → parts_of (codes "/nodes/") r.path ≡ (id, codes "heartbeat")
      → (handle_node_by_id fl json order place cfg raft first bodies r s).1.status ≡ 204
      → (heard : ℕ) (t : Catalog)
      → Runs first (handle_node_by_id fl json order place cfg raft first bodies r s).0 heard t
      → (m : NodeInfo) × (get_node id t ≡ some m) × (m.status ≡ up) × (heard ≤ m.last_seen)
  heartbeats_keep_up s n reached registered raft first bodies r ours accepted heard t run =
      IsHeard-up id heard t (
        run-IsHeard run (
          beaten-IsHeard raft first bodies r s ours accepted (n, registered)
            (reachable-NamedNodes s reached)))
