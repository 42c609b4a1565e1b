-- ===== src/Experiments/Tests.antt =====
-- Runs of the experiments of experiments/harness against the whole system of two storage nodes.
use frag_kv.Base.{Str, ℕ, ◌≡◌, refl, List, [], ◌∷◌, ◌++◌, none, some, true, codes, length, All}
use frag_kv.Base.GoMap.{listed}
use frag_kv.Base.Int.{pos}
use frag_kv.Cluster.{World, services}
use frag_kv.Kvctl.{ok}
use frag_kv.Kvctl.Tests.{json, setup, net, world, in_order}
use frag_kv.Experiments.{Files, Row, run_rolling, run_availability}
use frag_kv.Experiments.Chaos.{Docker, Turn, chaos_turn, writer_turn, measure_turn}
use frag_kv.Experiments.Chaos.Guarded.{IsDown}
use frag_kv.Experiments.Chaos.Invariant.{IsCounted, reached, one_node_down, chaos-IsCounted}

abbrev writable : Files
writable = record { mkdir = none; create = none }

-- The storage nodes lose what they have.
abbrev disks_lost : World → World
disks_lost w = record w { stores = [] }

abbrev rounds : List (ℕ × (World → World))
rounds = (2, λ w. w) ∷ (7, disks_lost) ∷ []

rolls :
    (run_rolling (services setup net 7) json (pos 1) (codes "ab") writable (pos 2) 1 rounds world).1
    ≡ ok (record { label = 2; good = 1; bad = 0 } ∷ record { label = 7; good = 0; bad = 1 } ∷ [])
unfolding run_rolling frag_kv.Metadata.Encoded.json_command frag_kv.Storage.Tests.json
    frag_kv.Kvctl.Commands.prepare_plan frag_kv.Cluster.to_metad frag_kv.Metadata.Server.handle_keys
    frag_kv.Base.str_eq frag_kv.Metadata.Store.prepare_key frag_kv.Metadata.Store.live_nodes
    frag_kv.Metadata.Fsm.list_nodes frag_kv.Base.GoMap.values frag_kv.Metadata.Types.is_up
    frag_kv.Metadata.Store.num_fragments frag_kv.Base.Int.div_pos frag_kv.Base.Int.◌-ℤ◌
    frag_kv.Base.Int.◌+ℤ◌ frag_kv.Metadata.Store.apply frag_kv.Metadata.Fsm.apply_log
    frag_kv.Base.Encode.list frag_kv.Base.Encode.take_all frag_kv.Base.Encode.put_all
    frag_kv.Metadata.Store.plan_from frag_kv.Metadata.Store.planned frag_kv.Fragment.id
    frag_kv.Base.Decimal.itoa frag_kv.Metadata.Store.new_placer frag_kv.Placement.Scored.rendezvous
    frag_kv.Placement.Insertion.by_insertion frag_kv.Placement.Scored.random_part
    frag_kv.Placement.Hashing.hash64 frag_kv.Metadata.Types.to_placement_node
    frag_kv.Metadata.Fsm.get_node frag_kv.Base.GoMap.lookup frag_kv.Fragment.split
    frag_kv.Fragment.split_loop frag_kv.Fragment.Collects.collect frag_kv.Kvctl.Commands.put_chunks
    frag_kv.Kvctl.upload_fragment frag_kv.Cluster.to_node frag_kv.Transport.handle_fragment
    frag_kv.Transport.put_fragment frag_kv.Storage.put frag_kv.Kvctl.join frag_kv.Base.GoMap.insert
    frag_kv.Kvctl.Commands.commit frag_kv.Metadata.Store.commit_key_op frag_kv.Base.GoMap.erase
    frag_kv.Base.GoMap.keys frag_kv.Base.GoMap.map_values frag_kv.Base.GoMap.modify
    frag_kv.Base.Int.mod_pos frag_kv.Base.Int.wrap64 frag_kv.Base.has_prefix frag_kv.Base.split_two
    frag_kv.Base.trim_prefix frag_kv.Experiments.count_reads frag_kv.Experiments.measure
    frag_kv.Experiments.numbered frag_kv.Experiments.write_all frag_kv.Fragment.effective_size
    frag_kv.Harness.chunk_of frag_kv.Harness.copy_at frag_kv.Harness.fetch frag_kv.Harness.fill
    frag_kv.Harness.get_value frag_kv.Harness.send frag_kv.Harness.send_all frag_kv.Harness.slice
    frag_kv.Harness.slice_bounds frag_kv.Harness.slices frag_kv.Harness.zeros
    frag_kv.Kvctl.Commands.get_key_entry frag_kv.Metadata.Fsm.apply_command
    frag_kv.Metadata.Fsm.get_key frag_kv.Metadata.Fsm.list_keys frag_kv.Metadata.Fsm.move_fragment
    frag_kv.Metadata.Fsm.move_fragments frag_kv.Metadata.Server.parts_of
    frag_kv.Metadata.Store.delete_key_op frag_kv.Metadata.Store.fragment_size
    frag_kv.Metadata.Store.get_key_op frag_kv.Metadata.Store.hand_to_raft
    frag_kv.Metadata.Store.node_url frag_kv.Metadata.Store.up_nodes
    frag_kv.Metadata.Types.free_bytes frag_kv.Harness.put_value frag_kv.Storage.get
    frag_kv.Transport.get_fragment frag_kv.Storage.get_stream frag_kv.Storage.chunk_path
    frag_kv.Base.replace_all frag_kv.Experiments.sized
rolls = refl

falls :
    (run_availability
      (services setup net 7)
      json
      (pos 1)
      (codes "ab")
      writable
      (λ label. in_order)
      1
      (λ k. disks_lost)
      world).1
    ≡ ok (
        record { label = 0; good = 1; bad = 0 }
        ∷ record { label = 1; good = 0; bad = 1 }
        ∷ record { label = 2; good = 0; bad = 1 }
        ∷ [])
unfolding run_availability frag_kv.Metadata.Encoded.json_command frag_kv.Storage.Tests.json
    frag_kv.Kvctl.Commands.prepare_plan frag_kv.Cluster.to_metad frag_kv.Metadata.Server.handle_keys
    frag_kv.Base.str_eq frag_kv.Metadata.Store.prepare_key frag_kv.Metadata.Store.live_nodes
    frag_kv.Metadata.Fsm.list_nodes frag_kv.Base.GoMap.values frag_kv.Metadata.Types.is_up
    frag_kv.Metadata.Store.num_fragments frag_kv.Base.Int.div_pos frag_kv.Base.Int.◌-ℤ◌
    frag_kv.Base.Int.◌+ℤ◌ frag_kv.Metadata.Store.apply frag_kv.Metadata.Fsm.apply_log
    frag_kv.Base.Encode.list frag_kv.Base.Encode.take_all frag_kv.Base.Encode.put_all
    frag_kv.Metadata.Store.plan_from frag_kv.Metadata.Store.planned frag_kv.Fragment.id
    frag_kv.Base.Decimal.itoa frag_kv.Metadata.Store.new_placer frag_kv.Placement.Scored.rendezvous
    frag_kv.Placement.Insertion.by_insertion frag_kv.Placement.Scored.random_part
    frag_kv.Placement.Hashing.hash64 frag_kv.Metadata.Types.to_placement_node
    frag_kv.Metadata.Fsm.get_node frag_kv.Base.GoMap.lookup frag_kv.Fragment.split
    frag_kv.Fragment.split_loop frag_kv.Fragment.Collects.collect frag_kv.Kvctl.Commands.put_chunks
    frag_kv.Kvctl.upload_fragment frag_kv.Cluster.to_node frag_kv.Transport.handle_fragment
    frag_kv.Transport.put_fragment frag_kv.Storage.put frag_kv.Kvctl.join frag_kv.Base.GoMap.insert
    frag_kv.Kvctl.Commands.commit frag_kv.Metadata.Store.commit_key_op frag_kv.Base.GoMap.erase
    frag_kv.Base.GoMap.keys frag_kv.Base.GoMap.map_values frag_kv.Base.GoMap.modify
    frag_kv.Base.Int.mod_pos frag_kv.Base.Int.wrap64 frag_kv.Base.has_prefix frag_kv.Base.split_two
    frag_kv.Base.trim_prefix frag_kv.Experiments.count_reads frag_kv.Experiments.measure
    frag_kv.Experiments.numbered frag_kv.Experiments.write_all frag_kv.Fragment.effective_size
    frag_kv.Harness.chunk_of frag_kv.Harness.copy_at frag_kv.Harness.fetch frag_kv.Harness.fill
    frag_kv.Harness.get_value frag_kv.Harness.send frag_kv.Harness.send_all frag_kv.Harness.slice
    frag_kv.Harness.slice_bounds frag_kv.Harness.slices frag_kv.Harness.zeros
    frag_kv.Kvctl.Commands.get_key_entry frag_kv.Metadata.Fsm.apply_command
    frag_kv.Metadata.Fsm.get_key frag_kv.Metadata.Fsm.list_keys frag_kv.Metadata.Fsm.move_fragment
    frag_kv.Metadata.Fsm.move_fragments frag_kv.Metadata.Server.parts_of
    frag_kv.Metadata.Store.delete_key_op frag_kv.Metadata.Store.fragment_size
    frag_kv.Metadata.Store.get_key_op frag_kv.Metadata.Store.hand_to_raft
    frag_kv.Metadata.Store.node_url frag_kv.Metadata.Store.up_nodes
    frag_kv.Metadata.Types.free_bytes frag_kv.Harness.put_value frag_kv.Storage.get
    frag_kv.Transport.get_fragment frag_kv.Storage.get_stream frag_kv.Storage.chunk_path
    frag_kv.Base.replace_all
falls = refl

abbrev docker : Docker World
docker = record { run = λ action node w. (w, true) }

-- A write, a kill of a node, a row, the restore of the node, and a kill of another.
abbrev turns : List Turn
turns =
    writer_turn
    ∷ chaos_turn 0 3
    ∷ measure_turn 5 (λ keys. keys)
    ∷ chaos_turn 1 9
    ∷ writer_turn
    ∷ chaos_turn 1 21
    ∷ []

abbrev kills : List Turn
kills = chaos_turn 0 3 ∷ chaos_turn 1 9 ∷ measure_turn 10 (λ keys. keys) ∷ chaos_turn 1 21 ∷ []

abbrev containers : List Str
containers = codes "s1" ∷ codes "s2" ∷ []

second-IsDown :
    IsDown
      (reached
        (services setup net 7)
        json
        (pos 1)
        docker
        listed
        containers
        (pos 4)
        (codes "ab")
        kills
        (world, [])).node_status
      (codes "s2")
unfolding frag_kv.Experiments.Chaos.take_turns frag_kv.Base.GoMap.lookup
    frag_kv.Experiments.Chaos.all_up frag_kv.Base.GoMap.insert
second-IsDown = refl

one_node_down_example : codes "s2" ≡ codes "s2"
one_node_down_example =
    one_node_down (services setup net 7) json (pos 1) docker listed containers (pos 4) (codes "ab")
      kills (world, []) (codes "s2") (codes "s2") second-IsDown second-IsDown

chaos-IsCounted_example : IsCounted 1 (
    reached
      (services setup net 7)
      json
      (pos 1)
      docker
      listed
      containers
      (pos 4)
      (codes "ab")
      turns
      (world, codes "k" ∷ []))
chaos-IsCounted_example =
    chaos-IsCounted (services setup net 7) json (pos 1) docker listed containers (pos 4)
      (codes "ab") turns (world, codes "k" ∷ [])

abbrev kills_in_turn : List (ℕ × (World → World))
kills_in_turn = (0, λ w. w) ∷ (1, disks_lost) ∷ (2, disks_lost) ∷ []
