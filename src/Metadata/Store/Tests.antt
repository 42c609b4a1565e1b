-- ===== src/Metadata/Store/Tests.antt =====
-- Runs of internal/metadata/store.go on a leader, with two nodes up and chunks of eight bytes.
use mathlib.Core.Option
use frag_kv.Base.{
  ◌≡◌, ◌≢◌, refl, [], none, some, false, codes, arith, length, All, if◌then◌else◌, str_eq,
}
use frag_kv.Base.GoMap.{listed, values}
use frag_kv.Base.Int.{pos}
use frag_kv.Fragment.{Fault, Reader}
use frag_kv.Fragment.Splits.{input_chunks}
use frag_kv.Placement.{Placer}
use frag_kv.Placement.Insertion.{by_insertion}
use frag_kv.Placement.Tests.{whole_numbers, plain_sum}
use frag_kv.Metadata.Setup.{Config, Raft, applied, failed_applied}
use frag_kv.Metadata.Encoded.{json_command}
use frag_kv.Metadata.Types.{is_up, KeyEntry, Catalog}
use frag_kv.Metadata.Fsm.{get_node, list_nodes, set_down}
use frag_kv.Metadata.Fsm.Tests.{k, node_1, one_key}
use frag_kv.Metadata.Store.{
  ok, register_node_op, heartbeat_op, mark_node_down_op, prepare_key, new_placer, live_nodes,
}
use frag_kv.Metadata.Store.Updates.{leading, completed, beaten, node_life}
use frag_kv.Metadata.Store.Prepares.{IsPrepared, prepare_key-IsPrepared, prepare_key_empty}

abbrev pub small_chunks : Config
small_chunks = record { replication_factor = 2; chunk_size = 8; dead_threshold = pos 15 }

abbrev following : Raft
following = record { is_leader = false; outcome = applied }

abbrev pub rendezvous_placer : Placer whole_numbers
rendezvous_placer = new_placer whole_numbers by_insertion plain_sum (codes "rendezvous")

abbrev file : Reader
file = record { unread = codes "twenty bytes of text"; fault = none }

abbrev empty_file : Reader
empty_file = record { unread = []; fault = none }

no_timeout : (f : Fault) → following.outcome ≢ failed_applied f
no_timeout f e = cc

node_life_example :
    (get_node (codes "n1") (register_node_op json_command leading 9 node_1 one_key).0 ≡ (
      if str_eq (codes "n1") (codes "n1")
      then some (completed 9 node_1)
      else get_node (codes "n1") one_key))
    × (get_node
          (codes "n1")
          (heartbeat_op json_command leading 9 (codes "n1") (pos 1) (pos 2) one_key).0
        ≡ (if str_eq (codes "n1") (codes "n1")
            then Option.map (beaten 9 (pos 1) (pos 2)) (get_node (codes "n1") one_key)
            else get_node (codes "n1") one_key))
    × (get_node (codes "n1") (mark_node_down_op json_command leading (codes "n1") one_key).0 ≡ (
        if str_eq (codes "n1") (codes "n1")
        then Option.map set_down (get_node (codes "n1") one_key)
        else get_node (codes "n1") one_key))
node_life_example = node_life json_command one_key node_1 9 (pos 1) (pos 2) (codes "n1")

two_live : live_nodes whole_numbers listed one_key ≢ []
unfolding live_nodes list_nodes values is_up
two_live e = cc

prepare_key-IsPrepared_example :
    (s' : Catalog) × (e : KeyEntry) × (prepare_key whole_numbers json_command listed
        rendezvous_placer small_chunks leading 4 k
        (pos (length (codes "twenty bytes of text")))
        one_key
      ≡ (s', ok e))
    × IsPrepared whole_numbers json_command listed rendezvous_placer small_chunks k 4 file one_key
        s' e
prepare_key-IsPrepared_example =
    prepare_key-IsPrepared whole_numbers json_command listed rendezvous_placer small_chunks k 4 file
      one_key two_live (omega arith) (omega arith) (omega arith)

prepare_key_empty_example :
    (s' : Catalog) × (e : KeyEntry) × (prepare_key whole_numbers json_command listed
        rendezvous_placer small_chunks leading 4 k
        (pos (length empty_file.unread))
        one_key
      ≡ (s', ok e))
    × (length e.fragments ≡ 1)
    × All (λ f. f.size ≡ pos 8) e.fragments
    × (input_chunks empty_file e.chunk_size ≡ [])
prepare_key_empty_example =
    prepare_key_empty whole_numbers json_command listed rendezvous_placer small_chunks k 4
      empty_file one_key two_live (omega arith) (omega arith) refl
