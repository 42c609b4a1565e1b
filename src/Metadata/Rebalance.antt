-- ===== src/Metadata/Rebalance.antt =====
-- `rebalance` of internal/metadata/workers.go.
pub mod Bounds
use frag_kv.Base.{Str, ℕ, List, [], ◌∷◌, ◌++◌, map, none, some, Bool, if◌then◌else◌, str_eq}
use frag_kv.Base.Codec.{Codec}
use frag_kv.Base.GoMap.{GoMap, RangeOrder, lookup}
use frag_kv.Fragment.{Info}
use frag_kv.Placement.{Node, Placer}
use frag_kv.Placement.Outside.{Floats}
use frag_kv.Metadata.Setup.{Config, Raft}
use frag_kv.Metadata.Types.{NodeInfo, Catalog, Command}
use frag_kv.Metadata.Fsm.{list_nodes, all_entries}
use frag_kv.Metadata.Store.{update_fragment_nodes, live_nodes}
use frag_kv.Metadata.Workers.{contains, live_map, all_fragments}

-- The address of the first live node of a fragment, or the empty text.
unfoldable pub first_source : GoMap NodeInfo → List Str → Str
first_source live [] = []
first_source live (cur ∷ ids) =
    let rest = first_source live ids in elim (lookup cur live) [ none ↦ rest | some n ↦ n.addr ]

-- One turn of the loop over the desired nodes, on the set of the nodes that have the fragment.
unfoldable pub copy_if_missing :
    (Str → Str → Str → Bool) → GoMap NodeInfo → Str → Str → Str → List Str → List Str
copy_if_missing replicate live fragment_id source id current =
    if contains current id
    then current
    else if str_eq source []
    then current
    else elim (lookup id live) [
      | none ↦ current
      | some target ↦ if replicate target.addr fragment_id source then id ∷ current else current
    ]

unfoldable pub copy_missing :
    (Str → Str → Str → Bool) → GoMap NodeInfo → Str → Str → List Str → List Str → List Str
unfolding copy_if_missing
copy_missing replicate live fragment_id source [] current = current
copy_missing replicate live fragment_id source (id ∷ ids) current =
    copy_missing replicate live fragment_id source ids
      (copy_if_missing replicate live fragment_id source id current)

unfoldable pub keep_contained : List Str → List Str → List Str
keep_contained current [] = []
keep_contained current (id ∷ ids) =
    let rest = keep_contained current ids in if contains current id then id ∷ rest else rest

-- The body of `rebalance` for one fragment: its new nodes.
unfoldable pub rebalance_fragment :
    (Str → Str → Str → Bool) → GoMap NodeInfo → List Str → Info → List Str
unfolding copy_missing keep_contained
rebalance_fragment replicate live desired frag =
    keep_contained
      (copy_missing replicate live frag.id (first_source live frag.node_ids) desired frag.node_ids)
      desired

module _ (fl : Floats) (json : Codec Command) (order : RangeOrder) (place : Placer fl)
    (cfg : Config) (raft : Str → Raft) (replicate : Str → Str → Str → Bool) where
  unfoldable pub rebalance_all : List (Node fl) → List Info → Catalog → Catalog
  rebalance_all nodes [] s = s
  rebalance_all nodes (frag ∷ frags) s =
      let desired = map (λ nd. nd.id) (place frag.id nodes cfg.replication_factor) in
      let updated = rebalance_fragment replicate (live_map (list_nodes order s)) desired frag in
      rebalance_all nodes frags (update_fragment_nodes json (raft frag.id) frag.id updated s).0

  abbrev pub rebalance_on : List (Node fl) → Catalog → Catalog
  rebalance_on [] s = s
  rebalance_on (nd ∷ nds) s = rebalance_all (nd ∷ nds) (all_fragments (all_entries order s)) s

  -- rebalance, and TriggerRebalance on a leader
  unfoldable pub rebalance : Catalog → Catalog
  unfolding rebalance_all all_fragments
  rebalance s = rebalance_on (live_nodes fl order s) s

  unfoldable pub trigger_rebalance : Bool → Catalog → Catalog
  unfolding rebalance
  trigger_rebalance is_leader s = let s' = rebalance s in if is_leader then s' else s
