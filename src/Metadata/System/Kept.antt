-- ===== src/Metadata/System/Kept.antt =====
-- What the operations of internal/metadata do to a catalog, for any relation that their commands keep:
-- they hand commands to Raft, and change nothing by themselves.
use frag_kv.Base.{
  Str, ℕ, ◌≡◌, refl, List, [], ◌∷◌, Option, none, some, Bool, true, false, Bool-cases, inl, inr,
  All,
}
use frag_kv.Base.Codec.{Codec}
use frag_kv.Base.GoMap.{RangeOrder}
use frag_kv.Base.Int.{ℤ, pos, negsuc}
use frag_kv.Fragment.{Info}
use frag_kv.Placement.{Node, Placer}
use frag_kv.Placement.Outside.{Floats}
use frag_kv.Metadata.Setup.{Config, Raft, RaftOutcome, applied, failed, failed_applied}
use frag_kv.Metadata.Types.{
  NodeInfo, KeyEntry, Catalog, Command, bare, put_key, mark_node_down, update_fragment,
}
use frag_kv.Metadata.Fsm.{apply_log, list_nodes}
use frag_kv.Metadata.Store.{
  Error, bare_node, apply, hand_to_raft, after_apply, prepare_key, prepare_fragments, prepare_on,
  live_nodes, mark_node_down_op, update_fragment_nodes,
}
use frag_kv.Metadata.Workers.{
  mark_stale, detect, is_stale, failure_detector_tick, recover_all, recover_under_replicated,
  update_nodes,
}
use frag_kv.Metadata.Rebalance.{rebalance_all, rebalance_on, rebalance, trigger_rebalance}

-- A relation between a catalog and a later one.
pub record Relation : Type 1 where
  pub Rel : Catalog → Catalog → Type 0
  pub same : (s : Catalog) → Rel s s
  pub after : (s t u : Catalog) → Rel s t → Rel t u → Rel s u

module _ (json : Codec Command) (R : Relation) where
  -- The command, applied to any catalog, keeps the relation.
  abbrev pub Allows : Command → Type 0
  Allows cmd = (s : Catalog) → R.Rel s (apply_log json (json.marshal cmd) s).0

  -- So do the commands of `PrepareKey`, of a mark of the failure detector, of recovery and rebalancing.
  abbrev pub AllowsEntries : Str → Type 0
  AllowsEntries key =
      (e : KeyEntry) → e.key ≡ key → Allows (record (bare put_key) { entry = some e })

  abbrev pub AllowsMark : ℕ → ℤ → NodeInfo → Type 0
  AllowsMark now threshold n =
      is_stale now threshold n ≡ true
      → Allows (record (bare mark_node_down) { node = some (bare_node n.id) })

  abbrev pub AllowsMoves : Type 0
  AllowsMoves =
      (id : Str) (ids : List Str)
      → Allows (record (bare update_fragment) { fragment_id = id; node_ids = ids })

module _ (json : Codec Command) (R : Relation) where
  hand_to_raft-keeps :
      (outcome : RaftOutcome) (cmd : Command)
      → Allows json R cmd
      → (s : Catalog) → R.Rel s (hand_to_raft json outcome cmd s).0
  unfolding hand_to_raft
  hand_to_raft-keeps applied cmd allowed s = allowed s
  hand_to_raft-keeps (failed e) cmd allowed s = R.same s
  hand_to_raft-keeps (failed_applied e) cmd allowed s = allowed s

  pub apply-keeps :
      (raft : Raft) (cmd : Command)
      → Allows json R cmd
      → (s : Catalog) → R.Rel s (apply json raft cmd s).0
  unfolding apply
  apply-keeps raft cmd allowed s = elim (Bool-cases raft.is_leader) [
    | inl leads ↦ rw (apply, leads) (hand_to_raft-keeps raft.outcome cmd allowed s)
    | inr follows ↦ rw (apply, follows) (R.same s)
  ]

  module _ (fl : Floats) (order : RangeOrder) (place : Placer fl) (cfg : Config) where
    after_apply-keeps :
        (entry : KeyEntry) (s : Catalog) (p : Catalog × Option Error)
        → R.Rel s p.0
        → R.Rel s (after_apply entry p).0
    after_apply-keeps entry s (t, none) h = h
    after_apply-keeps entry s (t, some e) h = h

    prepare_fragments-keeps :
        (key : Str)
        → AllowsEntries json R key
        → (raft : Raft) (now : ℕ) (total num : ℤ) (nodes : List (Node fl)) (s : Catalog)
        → R.Rel s (prepare_fragments fl json place cfg raft now key total nodes num s).0
    prepare_fragments-keeps key puts raft now total (negsuc n) nodes s = R.same s
    prepare_fragments-keeps key puts raft now total (pos n) nodes s =
        after_apply-keeps _ s _ (apply-keeps raft _ (puts _ refl) s)

    prepare_on-keeps :
        (key : Str)
        → AllowsEntries json R key
        → (raft : Raft) (now : ℕ) (total : ℤ) (nodes : List (Node fl)) (s : Catalog)
        → R.Rel s (prepare_on fl json place cfg raft now key total nodes s).0
    prepare_on-keeps key puts raft now total [] s = R.same s
    prepare_on-keeps key puts raft now total (nd ∷ nds) s =
        prepare_fragments-keeps key puts raft now total _ (nd ∷ nds) s

    pub prepare_key-keeps :
        (key : Str)
        → AllowsEntries json R key
        → (raft : Raft) (now : ℕ) (total : ℤ) (s : Catalog)
        → R.Rel s (prepare_key fl json order place cfg raft now key total s).0
    unfolding prepare_key
    prepare_key-keeps key puts raft now total s =
        prepare_on-keeps key puts raft now total (live_nodes fl order s) s

    pub mark_stale-keeps :
        (raft : Raft) (now : ℕ) (threshold : ℤ) (n : NodeInfo)
        → AllowsMark json R now threshold n
        → (s : Catalog) → R.Rel s (mark_stale json raft now threshold n s)
    unfolding mark_stale mark_node_down_op
    mark_stale-keeps raft now threshold n mark s = elim (Bool-cases (is_stale now threshold n)) [
      | inl stale ↦ rw (mark_stale, stale) (apply-keeps raft _ (mark stale) s)
      | inr fresh ↦ rw (mark_stale, fresh) (R.same s)
    ]

    detect-keeps :
        (rafts : Str → Raft) (clock : Str → ℕ) (threshold : ℤ) (ns : List NodeInfo)
        → All (λ n. AllowsMark json R (clock n.id) threshold n) ns
        → (s : Catalog) → R.Rel s (detect json rafts clock threshold ns s)
    unfolding detect
    detect-keeps rafts clock threshold [] _ s = R.same s
    detect-keeps rafts clock threshold (n ∷ ns) (mark, marks) s =
        R.after _ _ _ (mark_stale-keeps (rafts n.id) (clock n.id) threshold n mark s) (
          detect-keeps rafts clock threshold ns marks
            (mark_stale json (rafts n.id) (clock n.id) threshold n s))

    update_nodes-keeps :
        AllowsMoves json R
        → (rafts : Str → Raft) (id : Str) (ids : Option (List Str)) (s : Catalog)
        → R.Rel s (update_nodes json rafts id ids s)
    unfolding update_nodes update_fragment_nodes
    update_nodes-keeps moves rafts id none s = R.same s
    update_nodes-keeps moves rafts id (some ids) s = apply-keeps (rafts id) _ (moves id ids) s

    recover_all-keeps :
        AllowsMoves json R
        → (rafts : Str → Raft) (replicate : Str → Str → Str → Bool) (factor : ℕ) (live : _)
          (frags : List Info) (s : Catalog)
        → R.Rel s (recover_all json order rafts replicate factor live frags s)
    unfolding recover_all
    recover_all-keeps moves rafts replicate factor live [] s = R.same s
    recover_all-keeps moves rafts replicate factor live (f ∷ fs) s =
        R.after _ _ _ (update_nodes-keeps moves rafts f.id _ s)
          (recover_all-keeps moves rafts replicate factor live fs _)

    rebalance_all-keeps :
        AllowsMoves json R
        → (rafts : Str → Raft) (replicate : Str → Str → Str → Bool) (nodes : List (Node fl))
          (frags : List Info) (s : Catalog)
        → R.Rel s (rebalance_all fl json order place cfg rafts replicate nodes frags s)
    unfolding rebalance_all update_fragment_nodes
    rebalance_all-keeps moves rafts replicate nodes [] s = R.same s
    rebalance_all-keeps moves rafts replicate nodes (f ∷ fs) s =
        R.after _ _ _ (apply-keeps (rafts f.id) _ (moves f.id _) s)
          (rebalance_all-keeps moves rafts replicate nodes fs _)

    rebalance_on-keeps :
        AllowsMoves json R
        → (rafts : Str → Raft) (replicate : Str → Str → Str → Bool) (nodes : List (Node fl))
          (s : Catalog)
        → R.Rel s (rebalance_on fl json order place cfg rafts replicate nodes s)
    rebalance_on-keeps moves rafts replicate [] s = R.same s
    rebalance_on-keeps moves rafts replicate (nd ∷ nds) s =
        rebalance_all-keeps moves rafts replicate (nd ∷ nds) _ s

    -- The rounds of the workers.
    pub failure_detector_tick-keeps :
        (is_leader : Bool) (rafts : Str → Raft) (clock : Str → ℕ) (s : Catalog)
        → All (λ n. AllowsMark json R (clock n.id) cfg.dead_threshold n) (list_nodes order s)
        → R.Rel s (failure_detector_tick json order cfg is_leader rafts clock s)
    unfolding failure_detector_tick
    failure_detector_tick-keeps true rafts clock s marks =
        detect-keeps rafts clock cfg.dead_threshold _ marks s
    failure_detector_tick-keeps false rafts clock s marks = R.same s

    pub recover_under_replicated-keeps :
        AllowsMoves json R
        → (rafts : Str → Raft) (replicate : Str → Str → Str → Bool) (s : Catalog)
        → R.Rel s (recover_under_replicated json order cfg rafts replicate s)
    unfolding recover_under_replicated
    recover_under_replicated-keeps moves rafts replicate s =
        recover_all-keeps moves rafts replicate cfg.replication_factor _ _ s

    pub trigger_rebalance-keeps :
        AllowsMoves json R
        → (rafts : Str → Raft) (replicate : Str → Str → Str → Bool) (is_leader : Bool) (s : Catalog)
        → R.Rel s (trigger_rebalance fl json order place cfg rafts replicate is_leader s)
    unfolding trigger_rebalance rebalance
    trigger_rebalance-keeps moves rafts replicate true s =
        rebalance_on-keeps moves rafts replicate (live_nodes fl order s) s
    trigger_rebalance-keeps moves rafts replicate false s = R.same s
