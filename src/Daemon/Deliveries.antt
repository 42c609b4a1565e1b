-- ===== src/Daemon/Deliveries.antt =====
-- The requests of cmd/storaged/main.go to internal/metadata/server.go: what becomes of each on its way,
-- and what handleNodes makes of a registration.
use frag_kv.Base.{
  Str, ℕ, ◌≡◌, refl, sym, ap, ◌∙◌, Option, none, some, Bool, true, arith, ==_iff, if◌then◌else◌,
  Bool-cases, inl, inr, str_eq_refl, str_eq,
}
use frag_kv.Base.Codec.{Codec}
use frag_kv.Base.GoMap.{RangeOrder}
use frag_kv.Base.Int.{pos}
use frag_kv.Placement.{Placer}
use frag_kv.Placement.Outside.{Floats}
use frag_kv.Transport.{post_method}
use frag_kv.Metadata.Setup.{Raft}
use frag_kv.Metadata.Setup
use frag_kv.Metadata.Types.{
  NodeInfo, Catalog, Command, up, status_of, bare, register_node, update_fragment,
}
use frag_kv.Metadata.Fsm.{get_node}
use frag_kv.Metadata.Fsm.Lookups.{apply_pointwise}
use frag_kv.Metadata.Store.{Error, not_leader, panicked, register_node_op}
use frag_kv.Metadata.Store.Updates.{apply_done, apply-leading, completed, leading}
use frag_kv.Metadata.Server
use frag_kv.Metadata.Server.{Bodies, failure, registered, handle_nodes, handle_node_by_id}
use frag_kv.Metadata.System.Heard.{decoded}
use frag_kv.Metadata.System.Kept.{Relation, AllowsMoves, trigger_rebalance-keeps}
use frag_kv.Daemon.{Config, Announcement, announcement, Metad, accepted}

-- The node that an announcement describes: encoding/json gives each field to the field of its name, and
-- the fields that it does not have are zero.
abbrev pub node_from : Announcement → NodeInfo
node_from a = record {
  id = a.id;
  addr = a.addr;
  total_bytes = a.total_bytes;
  used_bytes = pos 0;
  last_seen = 0;
  status = status_of a.status;
}

-- The node of the process, up and with its address and its size.
abbrev pub announced : Config → NodeInfo
announced cfg = record {
  id = cfg.node_id;
  addr = cfg.public_addr;
  total_bytes = cfg.total_bytes;
  used_bytes = pos 0;
  last_seen = 0;
  status = up;
}

pub announces_up : (cfg : Config) → node_from (announcement cfg) ≡ announced cfg
unfolding announcement status_of str_eq
announces_up cfg = refl

-- What becomes of one request: what else happens to the catalog before it, whether it is delivered and
-- whether its answer arrives, the time, and what Raft and the storage nodes do meanwhile.
pub record Delivery : Type 0 where
  pub meanwhile : Catalog → Catalog
  pub delivered : Bool
  pub answered : Bool
  pub now : ℕ
  pub raft : Raft
  pub rafts : Str → Raft
  pub replicate : Str → Str → Str → Bool

abbrev pub heard_back : Bool → ℕ → Option ℕ
heard_back answered status = if answered then some status else none

-- The commands of a rebalance leave the nodes.
abbrev same_node : Str → Relation
same_node id = record {
  Rel = λ s t. get_node id t ≡ get_node id s;
  same = λ s. refl;
  after = λ s t u first later. later ∙ first;
}

moves_leave_node : (json : Codec Command) (id : Str) → AllowsMoves json (same_node id)
moves_leave_node json id fragment_id ids s =
    let cmd : Command = record (bare update_fragment) {
      fragment_id = fragment_id;
      node_ids = ids;
    } in
    ap (get_node id) (decoded json cmd s) ∙ (apply_pointwise cmd s).1 id

module _ (fl : Floats) (json : Codec Command) (order : RangeOrder) (place : Placer fl)
    (cfg : Setup.Config) (bodies : Bodies) where
  -- A request, if it is delivered, with the status of its answer, if that arrives.
  abbrev pub run_delivery :
      Delivery → (Catalog → Catalog × Server.Response) → Catalog → Catalog × Option ℕ
  run_delivery d handler s =
      if d.delivered
      then ((handler (d.meanwhile s)).0, heard_back d.answered (handler (d.meanwhile s)).1.status)
      else (d.meanwhile s, none)

  -- A catalog of metad as the world of the process.
  abbrev pub deliver : (ℕ → Delivery) → Metad Catalog
  deliver deliveries = record {
    nodes = λ i body.
        let d = deliveries i in
        run_delivery d (
          handle_nodes fl json order place cfg d.raft d.now bodies d.rafts d.replicate post_method
            body);
    node = λ i r.
        let d = deliveries i in
        run_delivery d (handle_node_by_id fl json order place cfg d.raft d.now bodies r);
  }

  failure_not_201 : (e : Error) → failure e ≡ 201 → ⊥
  failure_not_201 not_leader p = omega (arith, p)
  failure_not_201 panicked p = omega (arith, p)
  failure_not_201 e p = omega (arith, p)

  module _ (raft : Raft) (now : ℕ) (rafts : Str → Raft) (replicate : Str → Str → Str → Bool) where
    abbrev after_register : Catalog × Option Error → Catalog × Server.Response
    after_register = registered fl json order place cfg raft now bodies rafts replicate

    abbrev pub posted : Str → Catalog → Catalog × Server.Response
    posted = handle_nodes fl json order place cfg raft now bodies rafts replicate post_method

    registered_created :
        (id : Str) (p : Catalog × Option Error)
        → (after_register p).1.status ≡ 201
        → (p.1 ≡ none) × (get_node id (after_register p).0 ≡ get_node id p.0)
    registered_created id (t, none) created = (
      refl,
      trigger_rebalance-keeps json (same_node id) fl order place cfg (moves_leave_node json id)
          rafts replicate raft.is_leader t,
    )
    registered_created id (t, some e) created = absurd (failure_not_201 e created)

    decoded_post :
        (body : Str) (info : NodeInfo) (s : Catalog)
        → bodies.node_info body ≡ some info
        → posted body s ≡ after_register (register_node_op json raft now info s)
    unfolding handle_nodes
    decoded_post body info s good = rw (handle_nodes, good) refl

    -- A registration that is answered with 201 is in the catalog behind the rebalance that it starts.
    pub nodes_created :
        (body : Str) (info : NodeInfo) (s : Catalog)
        → bodies.node_info body ≡ some info
        → (posted body s).1.status ≡ 201
        → get_node info.id (posted body s).0 ≡ some (completed now info)
    unfolding register_node_op
    nodes_created body info s good created =
        let runs = decoded_post body info s good in
        let (done, kept) =
          registered_created info.id (register_node_op json raft now info s)
            (sym (ap (λ p. p.1.status) runs) ∙ created) in
        let cmd : Command = record (bare register_node) { node = some (completed now info) } in
        ap (λ p. get_node info.id p.0) runs
        ∙ kept
        ∙ ap (get_node info.id) (apply_done json cmd s raft done)
        ∙ (apply_pointwise cmd s).1 info.id
        ∙ rw (str_eq_refl info.id) refl

  -- A registration on a leader that Raft applies is answered with 201.
  pub leading_created :
      (now : ℕ) (rafts : Str → Raft) (replicate : Str → Str → Str → Bool) (body : Str)
      (info : NodeInfo) (s : Catalog)
      → bodies.node_info body ≡ some info
      → (posted leading now rafts replicate body s).1.status ≡ 201
  unfolding register_node_op
  leading_created now rafts replicate body info s good =
      let cmd : Command = record (bare register_node) { node = some (completed now info) } in
      ap (λ p. p.1.status) (decoded_post leading now rafts replicate body info s good)
      ∙ ap (λ p. (after_register leading now rafts replicate p).1.status) (apply-leading json cmd s)

  pub delivered_accepted :
      (d : Delivery) (handler : Catalog → Catalog × Server.Response) (s : Catalog)
      → accepted (run_delivery d handler s).1 ≡ true
      → ((run_delivery d handler s).0 ≡ (handler (d.meanwhile s)).0)
        × ((handler (d.meanwhile s)).1.status ≡ 201)
  delivered_accepted d handler s h = elim (Bool-cases d.delivered) [
    | inr lost ↦ absurd (cc (rw lost at h))
    | inl here ↦ elim (Bool-cases d.answered) [
      | inr silent ↦ absurd (cc (rw (here, silent) at h))
      | inl answered ↦ (
        rw here refl,
        (==_iff (handler (d.meanwhile s)).1.status 201).0 (rw (here, answered) at h),
      )
    ]
  ]

-- A request that comes to a leader, is applied there, and whose answer arrives.
pub record IsServed (d : Delivery) : Type 0 where
  pub arrives : d.delivered ≡ true
  pub answers : d.answered ≡ true
  pub leads : d.raft ≡ leading
