-- ===== src/Metadata/System/Reached.antt =====
-- What every catalog that the metadata service of internal/metadata reaches has in common.
use frag_kv.Base.{Str, ℕ, ◌≡◌, sym, subst, List, [], ◌∷◌, All}
use frag_kv.Base.Codec.{Codec}
use frag_kv.Base.GoMap.{RangeOrder}
use frag_kv.Placement.{Placer}
use frag_kv.Placement.Outside.{Floats}
use frag_kv.Metadata.Setup.{Config}
use frag_kv.Metadata.Types.{NodeInfo, Catalog, Command, new_state}
use frag_kv.Metadata.Fsm.{apply_log, replay, list_nodes}
use frag_kv.Metadata.Fsm.Invariant.{IsKeyed, replay-IsKeyed}
use frag_kv.Metadata.System.{Step, Reaches, start, then_step}
use frag_kv.Metadata.System.Handlers.{
  handle_keys-keeps, handle_nodes-keeps, handle_node_by_id-keeps,
}
use frag_kv.Metadata.System.Kept.{
  Relation, Allows, AllowsMark, mark_stale-keeps, failure_detector_tick-keeps,
  recover_under_replicated-keeps, trigger_rebalance-keeps,
}
use frag_kv.Metadata.System.Logged.{one_entry, logged}

module _ (fl : Floats) (json : Codec Command) (order : RangeOrder) (place : Placer fl)
    (cfg : Config) where
  -- A relation that every entry of a log keeps is kept by every step.
  module _ (R : Relation)
      (entries : (log_entry : Str) (s : Catalog) → R.Rel s (apply_log json log_entry s).0) where
    any : (cmd : Command) → Allows json R cmd
    any cmd = entries (json.marshal cmd)

    any_mark :
        (clock : Str → ℕ) (ns : List NodeInfo)
        → All (λ n. AllowsMark json R (clock n.id) cfg.dead_threshold n) ns
    any_mark clock [] = tt
    any_mark clock (n ∷ ns) = (λ stale. any _, any_mark clock ns)

    Step-keeps : {s t : Catalog} → Step fl json order place cfg s t → R.Rel s t
    Step-keeps (Step.keys_request raft now bodies r s) =
        handle_keys-keeps json R fl order place cfg raft now bodies r
          (λ e named. any _, any _, any _) s
    Step-keeps (Step.nodes_request raft now bodies rafts replicate method body s) =
        handle_nodes-keeps json R fl order place cfg raft now bodies (λ id ids. any _) rafts
          replicate method body (λ info good. any _) s
    Step-keeps (Step.node_request raft now bodies r s) =
        handle_node_by_id-keeps json R fl order place cfg raft now bodies r (λ usage good. any _) s
    Step-keeps (Step.detection is_leader rafts clock s) =
        failure_detector_tick-keeps json R fl order place cfg is_leader rafts clock s
          (any_mark clock (list_nodes order s))
    Step-keeps (Step.marking raft now seen s) =
        mark_stale-keeps json R fl order place cfg raft now cfg.dead_threshold seen (λ stale. any _)
          s
    Step-keeps (Step.recovery rafts replicate s) =
        recover_under_replicated-keeps json R fl order place cfg (λ id ids. any _) rafts replicate s
    Step-keeps (Step.rebalancing rafts replicate is_leader s) =
        trigger_rebalance-keeps json R fl order place cfg (λ id ids. any _) rafts replicate
          is_leader s
    Step-keeps (Step.replicated log_entry s) = entries log_entry s

    pub Reaches-keeps : {s t : Catalog} → Reaches fl json order place cfg s t → R.Rel s t
    Reaches-keeps {s} start = R.same s
    Reaches-keeps (then_step before step) = R.after _ _ _ (Reaches-keeps before) (Step-keeps step)

  -- Every catalog that a node of the metadata service reaches from the initial one, by any requests to
  -- the handlers, rounds of the workers and entries that Raft hands over, in any order and whatever Raft,
  -- the storage nodes and the clock do, is what the replay of some log gives: so a replica that applies
  -- that log has the same catalog. And in it every key and every node is found under the name that its
  -- value has.
  pub reachable-IsLogged :
      (s : Catalog)
      → Reaches fl json order place cfg new_state s
      → (log : List Str) × (s ≡ replay json log new_state) × IsKeyed s
  reachable-IsLogged s reached =
      let by_log = Reaches-keeps (logged json) (one_entry json) reached in
      (by_log.log, by_log.gives, subst IsKeyed (sym by_log.gives) (replay-IsKeyed json by_log.log))
