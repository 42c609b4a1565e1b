-- ===== src/Harness/Tests.antt =====
-- Runs of PutValue and GetValue of experiments/harness/harness.go: fragments of eight bytes.
use frag_kv.Base.{◌≡◌, refl, List, [], ◌∷◌, Option, none, some, true, codes, arith}
use frag_kv.Base.Int.{pos}
use frag_kv.Fragment.{Info, Reader, bytes_of, effective_size}
use frag_kv.Fragment.Collects.{infos}
use frag_kv.Fragment.Splits.{input_chunks}
use frag_kv.Kvctl.{pair_up}
use frag_kv.Kvctl.{ok, Failure}
use frag_kv.Kvctl.Tests.{json, setup, sizes, net, far, world, k_lacks_slash, k_named}
use frag_kv.Kvctl.Others.Between.{run_put, run_puts}
use frag_kv.Kvctl.Others.Tests.{
  first, second, first_done, names_apart, k-IsPlainKey, other-IsPlainKey,
}
use frag_kv.Metadata.Fsm.Tests.{k}
use frag_kv.Cluster.{World, services}
use frag_kv.Harness.{slices, get_value, put_value}
use frag_kv.Metadata.Fsm.{get_key}
use frag_kv.Metadata.Types.{KeyEntry}
use frag_kv.Harness.RoundTrip.{get_value-put_value}
use frag_kv.Harness.Gets.{get_value-put_between}
use frag_kv.Harness.Slices.{slices-pair_up}

abbrev text : Reader
text = record { unread = codes "twenty bytes of text"; fault = none }

abbrev planned : List Info
planned = infos (codes "k") 0 (input_chunks text (pos 8))

slices-pair_up_example :
    slices (bytes_of (effective_size (pos 8))) (codes "twenty bytes of text") planned
    ≡ pair_up planned (input_chunks text (pos 8))
slices-pair_up_example = slices-pair_up (codes "k") text (pos 8) planned (omega arith) refl

get_value-put_between_example :
    (get_value
      (services setup far 9)
      json
      k
      (run_puts setup json (second ∷ []) (run_put setup json first world).0)).1
    ≡ ok (codes "twenty bytes of text")
get_value-put_between_example =
    get_value-put_between setup json (λ e. refl) (omega arith) sizes.unmarshal-marshal first
      (second ∷ []) world far 9 k-IsPlainKey refl (omega arith) (omega arith)
      (
        record {
          apart = names_apart;
          plain = other-IsPlainKey;
          sound = refl;
          some_bytes = omega arith;
          fits = omega arith;
        },
        tt,
      )
      first_done

abbrev put_run : World × Option Failure
put_run = put_value (services setup net 7) json (pos 1) k (codes "ab") world

puts_value : put_run.1 ≡ none
unfolding frag_kv.Metadata.Encoded.json_command frag_kv.Storage.Tests.json
    frag_kv.Kvctl.Commands.prepare_plan frag_kv.Cluster.to_metad frag_kv.Metadata.Server.handle_keys
    frag_kv.Base.str_eq frag_kv.Metadata.Store.prepare_key frag_kv.Metadata.Store.live_nodes
    frag_kv.Metadata.Fsm.list_nodes frag_kv.Base.GoMap.values frag_kv.Metadata.Types.is_up
    frag_kv.Metadata.Store.num_fragments frag_kv.Base.Int.div_pos frag_kv.Base.Int.◌-ℤ◌
    frag_kv.Base.Int.◌+ℤ◌ frag_kv.Metadata.Store.apply frag_kv.Metadata.Fsm.apply_log
    frag_kv.Base.Encode.list frag_kv.Base.Encode.take_all frag_kv.Base.Encode.put_all
    frag_kv.Metadata.Store.plan_from frag_kv.Metadata.Store.planned frag_kv.Fragment.id
    frag_kv.Base.Decimal.itoa frag_kv.Metadata.Store.new_placer frag_kv.Placement.Scored.rendezvous
    frag_kv.Placement.Insertion.by_insertion frag_kv.Placement.Scored.random_part
    frag_kv.Placement.Hashing.hash64 frag_kv.Metadata.Types.to_placement_node
    frag_kv.Metadata.Fsm.get_node frag_kv.Base.GoMap.lookup frag_kv.Fragment.split
    frag_kv.Fragment.split_loop frag_kv.Fragment.Collects.collect frag_kv.Kvctl.Commands.put_chunks
    frag_kv.Kvctl.upload_fragment frag_kv.Cluster.to_node frag_kv.Transport.handle_fragment
    frag_kv.Transport.put_fragment frag_kv.Storage.put frag_kv.Kvctl.join frag_kv.Base.GoMap.insert
    frag_kv.Kvctl.Commands.commit frag_kv.Metadata.Store.commit_key_op frag_kv.Base.GoMap.erase
    frag_kv.Base.GoMap.keys frag_kv.Base.GoMap.map_values frag_kv.Base.GoMap.modify
    frag_kv.Base.Int.mod_pos frag_kv.Base.Int.wrap64 frag_kv.Base.has_prefix frag_kv.Base.split_two
    frag_kv.Base.trim_prefix frag_kv.Experiments.count_reads frag_kv.Experiments.measure
    frag_kv.Experiments.numbered frag_kv.Experiments.write_all frag_kv.Fragment.effective_size
    frag_kv.Harness.chunk_of frag_kv.Harness.copy_at frag_kv.Harness.fetch frag_kv.Harness.fill
    frag_kv.Harness.get_value frag_kv.Harness.send frag_kv.Harness.send_all frag_kv.Harness.slice
    frag_kv.Harness.slice_bounds frag_kv.Harness.slices frag_kv.Harness.zeros
    frag_kv.Kvctl.Commands.get_key_entry frag_kv.Metadata.Fsm.apply_command
    frag_kv.Metadata.Fsm.get_key frag_kv.Metadata.Fsm.list_keys frag_kv.Metadata.Fsm.move_fragment
    frag_kv.Metadata.Fsm.move_fragments frag_kv.Metadata.Server.parts_of
    frag_kv.Metadata.Store.delete_key_op frag_kv.Metadata.Store.fragment_size
    frag_kv.Metadata.Store.get_key_op frag_kv.Metadata.Store.hand_to_raft
    frag_kv.Metadata.Store.node_url frag_kv.Metadata.Store.up_nodes
    frag_kv.Metadata.Types.free_bytes frag_kv.Harness.put_value frag_kv.Storage.get
    frag_kv.Transport.get_fragment frag_kv.Storage.get_stream frag_kv.Storage.chunk_path
    frag_kv.Base.replace_all
puts_value = refl

abbrev value_entry : KeyEntry
value_entry = record {
  key = k;
  total_size = pos 2;
  chunk_size = pos 8;
  fragments =
      record {
        id = codes "k/0";
        key = k;
        index = 0;
        size = pos 2;
        node_ids = codes "n2" ∷ codes "n1" ∷ [];
        node_addrs = codes "http://h2" ∷ codes "http://h1" ∷ [];
      }
      ∷ [];
  created_at = 7;
  committed = true;
}

value_entered : get_key k put_run.0.catalog ≡ some value_entry
unfolding frag_kv.Metadata.Encoded.json_command frag_kv.Storage.Tests.json
    frag_kv.Kvctl.Commands.prepare_plan frag_kv.Cluster.to_metad frag_kv.Metadata.Server.handle_keys
    frag_kv.Base.str_eq frag_kv.Metadata.Store.prepare_key frag_kv.Metadata.Store.live_nodes
    frag_kv.Metadata.Fsm.list_nodes frag_kv.Base.GoMap.values frag_kv.Metadata.Types.is_up
    frag_kv.Metadata.Store.num_fragments frag_kv.Base.Int.div_pos frag_kv.Base.Int.◌-ℤ◌
    frag_kv.Base.Int.◌+ℤ◌ frag_kv.Metadata.Store.apply frag_kv.Metadata.Fsm.apply_log
    frag_kv.Base.Encode.list frag_kv.Base.Encode.take_all frag_kv.Base.Encode.put_all
    frag_kv.Metadata.Store.plan_from frag_kv.Metadata.Store.planned frag_kv.Fragment.id
    frag_kv.Base.Decimal.itoa frag_kv.Metadata.Store.new_placer frag_kv.Placement.Scored.rendezvous
    frag_kv.Placement.Insertion.by_insertion frag_kv.Placement.Scored.random_part
    frag_kv.Placement.Hashing.hash64 frag_kv.Metadata.Types.to_placement_node
    frag_kv.Metadata.Fsm.get_node frag_kv.Base.GoMap.lookup frag_kv.Fragment.split
    frag_kv.Fragment.split_loop frag_kv.Fragment.Collects.collect frag_kv.Kvctl.Commands.put_chunks
    frag_kv.Kvctl.upload_fragment frag_kv.Cluster.to_node frag_kv.Transport.handle_fragment
    frag_kv.Transport.put_fragment frag_kv.Storage.put frag_kv.Kvctl.join frag_kv.Base.GoMap.insert
    frag_kv.Kvctl.Commands.commit frag_kv.Metadata.Store.commit_key_op frag_kv.Base.GoMap.erase
    frag_kv.Base.GoMap.keys frag_kv.Base.GoMap.map_values frag_kv.Base.GoMap.modify
    frag_kv.Base.Int.mod_pos frag_kv.Base.Int.wrap64 frag_kv.Base.has_prefix frag_kv.Base.split_two
    frag_kv.Base.trim_prefix frag_kv.Experiments.count_reads frag_kv.Experiments.measure
    frag_kv.Experiments.numbered frag_kv.Experiments.write_all frag_kv.Fragment.effective_size
    frag_kv.Harness.chunk_of frag_kv.Harness.copy_at frag_kv.Harness.fetch frag_kv.Harness.fill
    frag_kv.Harness.get_value frag_kv.Harness.send frag_kv.Harness.send_all frag_kv.Harness.slice
    frag_kv.Harness.slice_bounds frag_kv.Harness.slices frag_kv.Harness.zeros
    frag_kv.Kvctl.Commands.get_key_entry frag_kv.Metadata.Fsm.apply_command
    frag_kv.Metadata.Fsm.get_key frag_kv.Metadata.Fsm.list_keys frag_kv.Metadata.Fsm.move_fragment
    frag_kv.Metadata.Fsm.move_fragments frag_kv.Metadata.Server.parts_of
    frag_kv.Metadata.Store.delete_key_op frag_kv.Metadata.Store.fragment_size
    frag_kv.Metadata.Store.get_key_op frag_kv.Metadata.Store.hand_to_raft
    frag_kv.Metadata.Store.node_url frag_kv.Metadata.Store.up_nodes
    frag_kv.Metadata.Types.free_bytes frag_kv.Harness.put_value frag_kv.Storage.get
    frag_kv.Transport.get_fragment frag_kv.Storage.get_stream frag_kv.Storage.chunk_path
    frag_kv.Base.replace_all
value_entered = refl

get_value-put_value_example :
    (get_value (services setup far 9) json k put_run.0).1 ≡ ok (codes "ab")
get_value-put_value_example =
    get_value-put_value setup json k k_lacks_slash k_named (λ e. refl) net 7 (pos 1) world
      (codes "ab") (omega arith) (omega arith) (omega arith) sizes.unmarshal-marshal far 9
      value_entry puts_value value_entered (λ e. absurd (cc e), tt)
