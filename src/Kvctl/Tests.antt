-- ===== src/Kvctl/Tests.antt =====
-- A run of cmd/kvctl/main.go against the whole system: two storage nodes and chunks of eight bytes.
use mathlib.Core.List
use frag_kv.Base.{
  Str, ℕ, ◌<◌, ◌≤◌, ◌≡◌, ◌≢◌, refl, List, [], ◌∷◌, Option, none, some, false, codes, arith, slash,
  Lacks, length,
}
use frag_kv.Base.Codec.{Codec}
use frag_kv.Base.Encode.{int, codec_of}
use frag_kv.Base.GoMap.{listed}
use frag_kv.Base.Int.{ℤ, pos}
use frag_kv.Fragment.{Reader}
use frag_kv.Placement.Tests.{whole_numbers}
use frag_kv.Storage.{Store}
use frag_kv.Transport.{HttpClient, get_method}
use frag_kv.Metadata.Encoded.{json_command}
use frag_kv.Metadata.Types.{KeyEntry}
use frag_kv.Metadata.Fsm.Tests.{k, one_key}
use frag_kv.Metadata.Store.Tests.{small_chunks, rendezvous_placer}
use frag_kv.Metadata.Store.Updates.{leading}
use frag_kv.Metadata.Server.{Payload, entry, names, handle_keys, json_resp}
use frag_kv.Metadata.Server.Keys.{action_request}
use frag_kv.Metadata.Setup.{applied}
use frag_kv.Metadata.Fsm.{get_key}
use frag_kv.Kvctl.Failures.{put_failed_pending, get-delete_key}
use frag_kv.Kvctl.{Json, Schedule, KeyPlan, Failure, in_fragment, no_answer, key_not_found, opened}
use frag_kv.Kvctl.Commands.{put, get, delete}
use frag_kv.Kvctl.Downloads.{append}
use frag_kv.Kvctl.Planned.{view}
use frag_kv.Cluster.{Setup, Network, World, services}

abbrev pub sizes : Codec ℤ
sizes = codec_of int

abbrev pub plan_in : Payload → Option KeyPlan
plan_in (entry e) = some (view e)
plan_in p = none

abbrev pub names_in : Payload → List Str
names_in (names ks) = ks
names_in p = []

abbrev pub json : Json
json = record { total_size = sizes.marshal; key_plan = plan_in; names = names_in }

abbrev pub setup : Setup
setup = record {
  floats = whole_numbers;
  commands = json_command;
  metas = frag_kv.Storage.Tests.json;
  order = listed;
  place = rendezvous_placer;
  config = small_chunks;
  bodies = record { total_size = sizes.unmarshal; node_info = λ body. none; usage = λ body. none };
  source_of = λ body. none;
}

abbrev pub willing : HttpClient
willing = record { upload = λ url content. some 201; download = λ url. none }

abbrev pub net : Network
net = record { raft = λ r. leading; peers = λ addr. willing; reached = λ addr r. [] }

abbrev pub empty_store : Store
empty_store = record { chunks_dir = codes "d"; files = []; index = [] }

abbrev pub world : World
world = record {
  catalog = one_key;
  stores = (codes "http://h1", empty_store) ∷ (codes "http://h2", empty_store) ∷ [];
}

abbrev pub in_order : Schedule
in_order = record { arrange = λ A xs. xs; arrange_perm = λ A xs. List.Permᴰ.refl xs }

abbrev pub file : Reader
file = record { unread = codes "twenty bytes of text"; fault = none }

pub puts :
    (put (services setup net 7) json in_order (pos 2) k (opened (pos 20) file) world).1 ≡ none
unfolding put frag_kv.Metadata.Encoded.json_command frag_kv.Storage.Tests.json
    frag_kv.Kvctl.Commands.prepare_plan frag_kv.Cluster.to_metad frag_kv.Metadata.Server.handle_keys
    frag_kv.Base.str_eq frag_kv.Metadata.Store.prepare_key frag_kv.Metadata.Store.live_nodes
    frag_kv.Metadata.Fsm.list_nodes frag_kv.Base.GoMap.values frag_kv.Metadata.Types.is_up
    frag_kv.Metadata.Store.num_fragments frag_kv.Base.Int.div_pos frag_kv.Base.Int.◌-ℤ◌
    frag_kv.Base.Int.◌+ℤ◌ frag_kv.Metadata.Store.apply frag_kv.Metadata.Fsm.apply_log
    frag_kv.Base.Encode.list frag_kv.Base.Encode.take_all frag_kv.Base.Encode.put_all
    frag_kv.Metadata.Store.plan_from frag_kv.Metadata.Store.planned frag_kv.Fragment.id
    frag_kv.Base.Decimal.itoa frag_kv.Metadata.Store.new_placer frag_kv.Placement.Scored.rendezvous
    frag_kv.Placement.Insertion.by_insertion frag_kv.Placement.Scored.random_part
    frag_kv.Placement.Hashing.hash64 frag_kv.Metadata.Types.to_placement_node
    frag_kv.Metadata.Fsm.get_node frag_kv.Base.GoMap.lookup frag_kv.Fragment.split
    frag_kv.Fragment.split_loop frag_kv.Fragment.Collects.collect frag_kv.Kvctl.Commands.put_chunks
    frag_kv.Kvctl.upload_fragment frag_kv.Cluster.to_node frag_kv.Transport.handle_fragment
    frag_kv.Transport.put_fragment frag_kv.Storage.put frag_kv.Kvctl.join frag_kv.Base.GoMap.insert
    frag_kv.Kvctl.Commands.commit frag_kv.Metadata.Store.commit_key_op
puts = refl

-- Behind a put from another node, with Raft lost and the downloads in the other order.
abbrev pub far : Network
far = record net { raft = λ r. record { is_leader = false; outcome = applied } }

abbrev pub reversed : Schedule
reversed = record {
  arrange = λ A xs. List.reverse xs;
  arrange_perm = λ A xs. List.Permᴰ.reverse xs;
}

abbrev cut_off : World
cut_off = record world { stores = [] }

pub k_lacks_slash : Lacks slash k
k_lacks_slash = (omega arith, tt)

pub k_named : k ≢ []
k_named e = absurd (cc e)

put_fails :
    (put (services setup net 7) json in_order (pos 2) k (opened (pos 20) file) cut_off).1
    ≡ some (in_fragment no_answer)
unfolding put frag_kv.Metadata.Encoded.json_command frag_kv.Storage.Tests.json
    frag_kv.Kvctl.Commands.prepare_plan frag_kv.Cluster.to_metad frag_kv.Metadata.Server.handle_keys
    frag_kv.Base.str_eq frag_kv.Metadata.Store.prepare_key frag_kv.Metadata.Store.live_nodes
    frag_kv.Metadata.Fsm.list_nodes frag_kv.Base.GoMap.values frag_kv.Metadata.Types.is_up
    frag_kv.Metadata.Store.num_fragments frag_kv.Base.Int.div_pos frag_kv.Base.Int.◌-ℤ◌
    frag_kv.Base.Int.◌+ℤ◌ frag_kv.Metadata.Store.apply frag_kv.Metadata.Fsm.apply_log
    frag_kv.Base.Encode.list frag_kv.Base.Encode.take_all frag_kv.Base.Encode.put_all
    frag_kv.Metadata.Store.plan_from frag_kv.Metadata.Store.planned frag_kv.Fragment.id
    frag_kv.Base.Decimal.itoa frag_kv.Metadata.Store.new_placer frag_kv.Placement.Scored.rendezvous
    frag_kv.Placement.Insertion.by_insertion frag_kv.Placement.Scored.random_part
    frag_kv.Placement.Hashing.hash64 frag_kv.Metadata.Types.to_placement_node
    frag_kv.Metadata.Fsm.get_node frag_kv.Base.GoMap.lookup frag_kv.Fragment.split
    frag_kv.Fragment.split_loop frag_kv.Fragment.Collects.collect frag_kv.Kvctl.Commands.put_chunks
    frag_kv.Kvctl.upload_fragment frag_kv.Cluster.to_node frag_kv.Transport.handle_fragment
    frag_kv.Transport.put_fragment frag_kv.Storage.put frag_kv.Kvctl.join frag_kv.Base.GoMap.insert
    frag_kv.Kvctl.Commands.commit frag_kv.Metadata.Store.commit_key_op
put_fails = refl

deletes : (delete (services setup net 7) json k world).1 ≡ none
unfolding delete frag_kv.Cluster.to_metad frag_kv.Metadata.Server.handle_keys frag_kv.Base.str_eq
    frag_kv.Metadata.Store.delete_key_op frag_kv.Metadata.Store.apply frag_kv.Metadata.Fsm.apply_log
    json_command frag_kv.Base.Encode.list frag_kv.Base.Encode.take_all frag_kv.Base.Encode.put_all
deletes = refl

prepares :
    (handle_keys whole_numbers json_command listed rendezvous_placer small_chunks leading 7
      setup.bodies
      (action_request k (codes "prepare") (sizes.marshal (pos 20)))
      one_key).1.status
    ≡ 200
unfolding frag_kv.Metadata.Server.handle_keys frag_kv.Base.str_eq frag_kv.Metadata.Store.prepare_key
    frag_kv.Metadata.Store.live_nodes frag_kv.Metadata.Fsm.list_nodes frag_kv.Base.GoMap.values
    frag_kv.Metadata.Types.is_up frag_kv.Metadata.Store.num_fragments frag_kv.Base.Int.div_pos
    frag_kv.Base.Int.◌-ℤ◌ frag_kv.Base.Int.◌+ℤ◌ frag_kv.Metadata.Store.apply
    frag_kv.Metadata.Fsm.apply_log json_command frag_kv.Base.Encode.list
    frag_kv.Base.Encode.take_all frag_kv.Base.Encode.put_all delete frag_kv.Cluster.to_metad
    frag_kv.Metadata.Store.delete_key_op frag_kv.Metadata.Store.plan_from
    frag_kv.Metadata.Store.planned frag_kv.Fragment.id frag_kv.Base.Decimal.itoa
    frag_kv.Metadata.Store.new_placer frag_kv.Placement.Scored.rendezvous
    frag_kv.Placement.Insertion.by_insertion frag_kv.Placement.Scored.random_part
    frag_kv.Placement.Hashing.hash64 frag_kv.Metadata.Types.to_placement_node
    frag_kv.Metadata.Fsm.get_node frag_kv.Base.GoMap.lookup
prepares = refl

put_failed_pending_example :
    (e : KeyEntry) × (get_key k
        (put
          (services setup net 7)
          json
          in_order
          (pos 2)
          k
          (opened (pos 20) file)
          cut_off).0.catalog
      ≡ some e)
    × (e.committed ≡ false)
put_failed_pending_example =
    put_failed_pending setup json k k_lacks_slash k_named net 7 in_order (pos 2) (λ e. refl) cut_off
      file no_answer refl (omega arith) (omega arith) (omega arith) sizes.unmarshal-marshal
      put_fails

get-delete_key_example :
    get
      (services setup far 9)
      json
      in_order
      (pos 2)
      append
      k
      none
      (delete (services setup net 7) json k world).0
      []
    ≡ ((delete (services setup net 7) json k world).0, [], some key_not_found)
get-delete_key_example =
    get-delete_key setup json k k_lacks_slash k_named net far 7 9 in_order (pos 2) world append none
      [] deletes
