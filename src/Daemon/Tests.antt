-- ===== src/Daemon/Tests.antt =====
-- Runs of cmd/storaged/main.go: a process whose first request is lost and whose second meets a follower,
-- and a heartbeat of a node that is registered.
use mathlib.Core.List.{Mem, mem-cons_self}
use frag_kv.Metadata.Fsm.{list_nodes}
use frag_kv.Base.{
  subst, sym, Str, ℕ, zero, suc, ◌≤◌, ◌≡◌, ◌≢◌, refl, List, [], ◌∷◌, ◌++◌, Option, none, some, true,
  false, codes, arith, Lacks, slash,
}
use frag_kv.Base.Codec.{Codec}
use frag_kv.Base.Encode.{int, pair, codec_of}
use frag_kv.Base.GoMap.{listed}
use frag_kv.Base.Int.{ℤ, pos}
use frag_kv.Placement.Tests.{whole_numbers}
use frag_kv.Storage
use frag_kv.Storage.{healthy, ok, disk_usage}
use frag_kv.Storage.Tests.{one_stored}
use frag_kv.Storage.Tests
use frag_kv.Metadata.Encoded.{json_command, node_info}
use frag_kv.Metadata.Setup.{Raft, applied}
use frag_kv.Metadata.Types.{NodeInfo, Catalog, up, new_state, bare, register_node}
use frag_kv.Metadata.Fsm.{apply_log, get_node}
use frag_kv.Metadata.Fsm.Tests.{one_key, node_1}
use frag_kv.Metadata.Store.Tests.{small_chunks, rendezvous_placer}
use frag_kv.Metadata.Store.Updates.{leading}
use frag_kv.Metadata.System.{Step, start, then_step}
use frag_kv.Metadata.System.Steady.{Runs, heartbeats_keep_up}
use frag_kv.Metadata.Workers.{mark_stale}
use frag_kv.Metadata.Server.{Request, Bodies, handle_node_by_id}
use frag_kv.Daemon
use frag_kv.Daemon.{
  heartbeat_request, Config, default_config, with_public_addr, Announcement, announcement, Wire,
}
use frag_kv.Daemon.Deliveries.{Delivery, deliver, node_from}
use frag_kv.Daemon.Heartbeats.{heartbeat_parts}
use frag_kv.Daemon.Registration.{ReturnsBy, register_node_joins}

abbrev process : Config
process = record default_config {
  node_id = codes "n3";
  addr = codes ":8003";
  public_addr = codes "h3";
  total_bytes = pos 100;
}

with_public_addr_kept : with_public_addr process ≡ process
unfolding with_public_addr
with_public_addr_kept = refl

abbrev nodes : Codec NodeInfo
nodes = codec_of node_info

abbrev usages : Codec (ℤ × ℤ)
usages = codec_of (pair int int)

abbrev wire : Wire
wire = record {
  announce = λ a. nodes.marshal (node_from a);
  usage = λ used total. usages.marshal (used, total);
}

abbrev bodies : Bodies
bodies = record { total_size = λ body. none; node_info = nodes.unmarshal; usage = usages.unmarshal }

abbrev follower : Raft
follower = record { is_leader = false; outcome = applied }

abbrev served : Delivery
served = record {
  meanwhile = λ s. s;
  delivered = true;
  answered = true;
  now = 7;
  raft = leading;
  rafts = λ id. leading;
  replicate = λ target id source. true;
}

abbrev delivery_at : ℕ → Delivery
delivery_at zero = record served { delivered = false }
delivery_at (suc zero) = record served { raft = follower }
delivery_at (suc (suc i)) = served

reads_announcement : (a : Announcement) → bodies.node_info (wire.announce a) ≡ some (node_from a)
reads_announcement a = nodes.unmarshal-marshal (node_from a)

register_node_joins_example :
    ReturnsBy whole_numbers json_command listed rendezvous_placer small_chunks bodies delivery_at
      wire process reads_announcement 2
      (Daemon.register_node
        (deliver whole_numbers json_command listed rendezvous_placer small_chunks bodies
          delivery_at)
        wire
        process
        3
        0
        one_key)
register_node_joins_example =
    register_node_joins whole_numbers json_command listed rendezvous_placer small_chunks bodies
      delivery_at wire process reads_announcement 2 one_key
      (record { arrives = refl; answers = refl; leads = refl })

abbrev heartbeats : ℕ → Delivery
heartbeats i = record served { now = 20 }

abbrev stores_one : Config
stores_one = record process { node_id = codes "n1" }

lacks_slash : Lacks slash (codes "n1")
lacks_slash = (λ e. omega arith, (λ e. omega arith, tt))

disk_usage_one : disk_usage Storage.Tests.json listed healthy one_stored ≡ ok (pos 3)
unfolding disk_usage frag_kv.Base.GoMap.values Tests.json frag_kv.Base.Encode.list
    frag_kv.Base.Encode.take_all frag_kv.Base.Encode.put_all frag_kv.Base.Int.◌+ℤ◌
disk_usage_one = refl

-- Node n1 is registered, sends a heartbeat at time 20, and the failure detector comes at time 35.
abbrev registration : Str
registration = json_command.marshal (record (bare register_node) { node = some node_1 })

abbrev joined : Catalog
joined = (apply_log json_command registration new_state).0

abbrev beat : Request
beat = heartbeat_request (codes "n1") (wire.usage (pos 3) (pos 100))

abbrev heard_of : Catalog
heard_of =
    (handle_node_by_id whole_numbers json_command listed rendezvous_placer small_chunks leading 20
      bodies beat joined).0

-- The node as it is listed behind the heartbeat.
abbrev seen : NodeInfo
seen = record node_1 { last_seen = 20; used_bytes = pos 3; total_bytes = pos 100; status = up }

abbrev detected : Catalog
detected = mark_stale json_command leading 35 small_chunks.dead_threshold seen heard_of

lists_seen : list_nodes listed heard_of ≡ seen ∷ []
unfolding list_nodes frag_kv.Base.GoMap.values handle_node_by_id frag_kv.Base.str_eq
    heartbeat_request frag_kv.Metadata.Store.heartbeat_op frag_kv.Metadata.Store.apply apply_log
    json_command frag_kv.Base.Encode.list frag_kv.Base.Encode.take_all frag_kv.Base.Encode.put_all
    frag_kv.Base.GoMap.modify frag_kv.Base.GoMap.insert
lists_seen = refl

seen_listed : Mem seen (list_nodes listed heard_of)
seen_listed = subst (λ ns. Mem seen ns) (sym lists_seen) mem-cons_self

is_registered : get_node (codes "n1") joined ≡ some node_1
unfolding get_node frag_kv.Base.GoMap.lookup apply_log json_command frag_kv.Base.Encode.list
    frag_kv.Base.Encode.take_all frag_kv.Base.Encode.put_all frag_kv.Base.GoMap.insert
is_registered = refl

is_answered :
    (handle_node_by_id whole_numbers json_command listed rendezvous_placer small_chunks leading 20
      bodies beat joined).1.status
    ≡ 204
unfolding handle_node_by_id frag_kv.Base.str_eq heartbeat_request
    frag_kv.Metadata.Store.heartbeat_op frag_kv.Metadata.Store.apply apply_log json_command
    frag_kv.Base.Encode.list frag_kv.Base.Encode.take_all frag_kv.Base.Encode.put_all
is_answered = refl

heartbeats_keep_up_example :
    (m : NodeInfo) × (get_node (codes "n1") detected ≡ some m)
    × (m.status ≡ up)
    × (20 ≤ m.last_seen)
heartbeats_keep_up_example =
    heartbeats_keep_up whole_numbers json_command listed rendezvous_placer small_chunks (codes "n1")
      joined node_1 (then_step start (Step.replicated registration new_state)) is_registered leading
      20 bodies beat (heartbeat_parts (codes "n1") (wire.usage (pos 3) (pos 100)) lacks_slash)
      is_answered 20 detected (Runs.marking Runs.begin Runs.begin seen seen_listed leading 35 refl)
