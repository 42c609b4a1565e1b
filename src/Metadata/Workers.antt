-- ===== src/Metadata/Workers.antt =====
-- internal/metadata/workers.go: one round of the failure detector and of recovery.
-- The storage nodes are an argument: `replicate target fragment source` tells whether the node at
-- `target` answers the request to pull the fragment from `source` with 201 Created.
pub mod Detector
pub mod Live
pub mod Recovery
pub mod Restores
pub mod Tests
use frag_kv.Base.{
  Str, ℕ, zero, suc, ◌+◌, ◌-◌, List, [], ◌∷◌, ◌++◌, map, Option, none, some, Bool, true, false,
  ◌&&◌, not, if◌then◌else◌, length, leb, str_eq,
}
use frag_kv.Base.Codec.{Codec}
use frag_kv.Base.GoMap.{GoMap, RangeOrder, lookup, insert, keys}
use frag_kv.Base.Int.{ℤ, pos, sub_ℕ, ltb_ℤ}
use frag_kv.Fragment.{Info}
use frag_kv.Placement.{Node, Placer}
use frag_kv.Placement.Outside.{Floats}
use frag_kv.Metadata.Setup.{Config, Raft}
use frag_kv.Metadata.Types.{NodeInfo, KeyEntry, Catalog, Command, is_up}
use frag_kv.Metadata.Fsm.{list_nodes, all_entries}
use frag_kv.Metadata.Store.{Error, mark_node_down_op, update_fragment_nodes, live_nodes}

-- contains
unfoldable pub contains : List Str → Str → Bool
contains [] s = false
contains (v ∷ vs) s = if str_eq v s then true else contains vs s

-- The test of the failure detector on one node: time.Since(n.LastSeen) > threshold, on a node up.
unfoldable pub is_stale : ℕ → ℤ → NodeInfo → Bool
is_stale now threshold n = is_up n.status && ltb_ℤ threshold (sub_ℕ now n.last_seen)

-- The body of the loop of failureDetectorLoop, on a node as it was listed, with the time that the clock
-- shows then.
unfoldable pub mark_stale : Codec Command → Raft → ℕ → ℤ → NodeInfo → Catalog → Catalog
unfolding is_stale
mark_stale json raft now threshold n s =
    if is_stale now threshold n then (mark_node_down_op json raft n.id s).0 else s

-- The loop over the nodes; what Raft does and what the clock shows may differ from node to node.
unfoldable pub detect :
    Codec Command → (Str → Raft) → (Str → ℕ) → ℤ → List NodeInfo → Catalog → Catalog
unfolding mark_stale
detect json raft clock threshold [] s = s
detect json raft clock threshold (n ∷ ns) s =
    detect json raft clock threshold ns (mark_stale json (raft n.id) (clock n.id) threshold n s)

-- One tick of failureDetectorLoop that nothing comes between. Where requests are served during the
-- tick, it is a list of nodes and then a `mark_stale` for each of them, at different times.
unfoldable pub failure_detector_tick :
    Codec Command → RangeOrder → Config → Bool → (Str → Raft) → (Str → ℕ) → Catalog → Catalog
failure_detector_tick json order cfg is_leader raft clock s =
    let marked = detect json raft clock cfg.dead_threshold (list_nodes order s) s in
    if is_leader then marked else s

add_live : GoMap NodeInfo → List NodeInfo → GoMap NodeInfo
add_live m [] = m
add_live m (n ∷ ns) = add_live (if is_up n.status then insert n.id n m else m) ns

-- liveMap
unfoldable pub live_map : List NodeInfo → GoMap NodeInfo
unfolding add_live
live_map ns = add_live [] ns

abbrev pub is_some {ℓ} : {A : Type ℓ} → Option A → Bool
is_some none = false
is_some (some a) = true

-- filterLive
unfoldable pub filter_live : GoMap NodeInfo → List Str → List Str
filter_live live [] = []
filter_live live (id ∷ ids) =
    let rest = filter_live live ids in if is_some (lookup id live) then id ∷ rest else rest

-- The live nodes that hold no replica.
unfoldable pub without : List Str → List Str → List Str
without replicas [] = []
without replicas (id ∷ ids) =
    let rest = without replicas ids in if contains replicas id then rest else id ∷ rest

-- The copies that recovery asks for: at most `needed` candidates are tried.
unfoldable pub add_replicas :
    (Str → Str → Str → Bool) → GoMap NodeInfo → Str → Str → ℕ → List Str → List Str → List Str
add_replicas replicate live fragment_id source zero candidates replicas = replicas
add_replicas replicate live fragment_id source (suc needed) [] replicas = replicas
add_replicas replicate live fragment_id source (suc needed) (c ∷ cs) replicas =
    add_replicas replicate live fragment_id source needed cs (elim (lookup c live) [
      | none ↦ replicas
      | some target ↦
          if replicate target.addr fragment_id source then replicas ++ target.id ∷ [] else replicas
    ])

-- The body of recoverUnderReplicated for live replicas and candidates: the new nodes of the
-- fragment, or `none` where it goes on to the next one.
unfoldable pub recover_with :
    (Str → Str → Str → Bool) → ℕ → GoMap NodeInfo → Str → List Str → List Str → Option (List Str)
unfolding add_replicas
recover_with replicate factor live fragment_id [] candidates = none
recover_with replicate factor live fragment_id (r ∷ rs) [] = none
recover_with replicate factor live fragment_id (r ∷ rs) (c ∷ cs) = elim (lookup r live) [
  | none ↦ none
  | some source ↦ some (
      add_replicas replicate live fragment_id source.addr (factor - length (r ∷ rs)) (c ∷ cs)
        (r ∷ rs))
]

unfoldable pub recover_fragment :
    RangeOrder → (Str → Str → Str → Bool) → ℕ → GoMap NodeInfo → Info → Option (List Str)
unfolding filter_live without
recover_fragment order replicate factor live frag =
    let replicas = filter_live live frag.node_ids in
    if leb factor (length replicas)
    then none
    else recover_with replicate factor live frag.id replicas
        (without replicas (keys (order.range NodeInfo live)))

-- UpdateFragmentNodes with its error logged, where there is a new list.
unfoldable pub update_nodes :
    Codec Command → (Str → Raft) → Str → Option (List Str) → Catalog → Catalog
update_nodes json raft fragment_id none s = s
update_nodes json raft fragment_id (some ids) s =
    (update_fragment_nodes json (raft fragment_id) fragment_id ids s).0

-- The loops of recoverUnderReplicated.
unfoldable pub recover_all :
    Codec Command
    → RangeOrder
    → (Str → Raft)
    → (Str → Str → Str → Bool)
    → ℕ
    → GoMap NodeInfo
    → List Info
    → Catalog
    → Catalog
unfolding update_nodes
recover_all json order raft replicate factor live [] s = s
recover_all json order raft replicate factor live (frag ∷ frags) s =
    recover_all json order raft replicate factor live frags
      (update_nodes json raft frag.id (recover_fragment order replicate factor live frag) s)

unfoldable pub all_fragments : List KeyEntry → List Info
all_fragments [] = []
all_fragments (e ∷ es) = e.fragments ++ all_fragments es

-- recoverUnderReplicated
unfoldable pub recover_under_replicated :
    Codec Command
    → RangeOrder
    → Config
    → (Str → Raft)
    → (Str → Str → Str → Bool)
    → Catalog
    → Catalog
unfolding all_fragments
recover_under_replicated json order cfg raft replicate s =
    recover_all json order raft replicate cfg.replication_factor (live_map (list_nodes order s))
      (all_fragments (all_entries order s)) s
