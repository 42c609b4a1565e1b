-- ===== src/Metadata/Workers/Tests.antt =====
-- Runs of the failure detector, of recovery and of rebalancing in internal/metadata/workers.go, on two nodes that are up.
use frag_kv.Base.{
  Str, ℕ, ◌≡◌, refl, List, [], ◌∷◌, ◌++◌, Option, none, some, Bool, true, false, codes, ◌&&◌, All,
}
use frag_kv.Base.GoMap.{listed}
use frag_kv.Metadata.Setup.{Raft}
use frag_kv.Metadata.Types.{NodeInfo}
use frag_kv.Metadata.Fsm.Tests.{k_0, node_1, node_2}
use frag_kv.Base.Int.{pos}
use frag_kv.Metadata.Encoded.{json_command}
use frag_kv.Metadata.Fsm.{get_node, list_nodes}
use frag_kv.Metadata.Fsm.Tests.{one_key}
use frag_kv.Metadata.Store.Tests.{small_chunks}
use frag_kv.Metadata.Store.Updates.{leading}
use frag_kv.Metadata.Workers.Detector.{overdue_in, down_if, failure_detector_tick_exact}
use frag_kv.Metadata.Workers.{failure_detector_tick, is_stale, live_map, recover_fragment, contains}
use frag_kv.Metadata.Workers.Recovery.{live_of, IsRecovered, recover_fragment-IsRecovered}
use frag_kv.Metadata.Rebalance.{rebalance_fragment, first_source}
use frag_kv.Metadata.Rebalance.Bounds.{
  HasFragment, rebalance_fragment_has, rebalance_fragment_loses,
}

abbrev two_nodes : List NodeInfo
two_nodes = node_1 ∷ node_2 ∷ []

abbrev copies : Str → Str → Str → Bool
copies target fragment_id source = true

abbrev no_copies : Str → Str → Str → Bool
no_copies target fragment_id source = false

abbrev n1 : Str
n1 = codes "n1"

abbrev n2 : Str
n2 = codes "n2"

recovers : recover_fragment listed copies 2 (live_map two_nodes) k_0 ≡ some (n1 ∷ n2 ∷ [])
unfolding recover_fragment frag_kv.Base.GoMap.lookup live_map frag_kv.Metadata.Types.is_up
    frag_kv.Base.GoMap.insert frag_kv.Metadata.Workers.recover_with frag_kv.Base.GoMap.keys contains
recovers = refl

recover_fragment-IsRecovered_example :
    IsRecovered listed copies 2 two_nodes k_0 (live_of two_nodes k_0) (n1 ∷ n2 ∷ [])
recover_fragment-IsRecovered_example =
    recover_fragment-IsRecovered listed copies 2 two_nodes k_0 (n1 ∷ n2 ∷ []) recovers

rebalances : contains (rebalance_fragment copies (live_map two_nodes) (n2 ∷ []) k_0) n2 ≡ true
unfolding contains rebalance_fragment frag_kv.Base.str_eq first_source frag_kv.Base.GoMap.lookup
    live_map frag_kv.Metadata.Types.is_up frag_kv.Base.GoMap.insert
rebalances = refl

rebalance_fragment_has_example :
    (contains (n2 ∷ []) n2 ≡ true)
    × HasFragment copies
        (live_map two_nodes)
        (codes "k/0")
        (first_source (live_map two_nodes) (n1 ∷ []))
        (n1 ∷ [])
        n2
rebalance_fragment_has_example =
    rebalance_fragment_has copies (live_map two_nodes) (n2 ∷ []) k_0 n2 rebalances

n2_not_listed : All (λ x. contains (n1 ∷ []) x ≡ false) (n2 ∷ [])
unfolding contains frag_kv.Base.str_eq
n2_not_listed = (refl, tt)

rebalance_fragment_loses_example :
    rebalance_fragment no_copies (live_map two_nodes) (n2 ∷ []) k_0 ≡ []
rebalance_fragment_loses_example =
    rebalance_fragment_loses no_copies (live_map two_nodes) (n2 ∷ []) k_0 (λ target source. refl)
      n2_not_listed

-- The only replica is on n1, placement wants n2, and the copy fails: the fragment is listed nowhere.
rebalance_loses_all : rebalance_fragment no_copies (live_map two_nodes) (n2 ∷ []) k_0 ≡ []
unfolding rebalance_fragment contains frag_kv.Base.str_eq first_source frag_kv.Base.GoMap.lookup
    live_map frag_kv.Metadata.Types.is_up frag_kv.Base.GoMap.insert
rebalance_loses_all = refl

failure_detector_tick_exact_example :
    ((j : Str)
      → get_node j (
          failure_detector_tick json_command listed small_chunks true
            (λ _. leading)
            (λ _. 100)
            one_key)
        ≡ down_if
            (overdue_in (λ _. 100) (pos 15) j (list_nodes listed one_key))
            (get_node j one_key))
    × ((raft : Str → Raft)
        → failure_detector_tick json_command listed small_chunks false raft (λ _. 100) one_key
          ≡ one_key)
failure_detector_tick_exact_example =
    failure_detector_tick_exact json_command listed small_chunks (λ _. 100) one_key

-- A node that was last heard of 97 time units ago is set down.
tick_runs : overdue_in (λ _. 100) (pos 15) n1 (node_1 ∷ []) ≡ true
unfolding frag_kv.Base.str_eq
tick_runs = refl
