-- ===== src/Metadata/Fsm.antt =====
-- internal/metadata/fsm.go: the state machine that Raft applies its log to, and the reads. A read
-- returns the values at the time of the call; the slice of fragments that its copy shares with the
-- state is not followed further.
pub mod Lookups
pub mod Fragments
pub mod Invariant
pub mod Replay
pub mod Tests
use frag_kv.Base.{
  Str, ℕ, List, [], ◌∷◌, ◌++◌, map, Option, none, some, Bool, true, false, str_eq, if◌then◌else◌,
}
use frag_kv.Base.Codec.{Codec}
use frag_kv.Base.GoMap.{GoMap, RangeOrder, lookup, insert, erase, modify, map_values, keys, values}
use frag_kv.Fragment.{Info}
use frag_kv.Metadata.Types.{
  NodeInfo, KeyEntry, Catalog, CmdType, Command, put_key, commit_key, delete_key, register_node,
  heartbeat, mark_node_down, update_fragment, unknown, up, down, new_state,
}

-- e.Committed = true
abbrev pub commit_entry : KeyEntry → KeyEntry
commit_entry e = record e { committed = true }

abbrev pub refresh : NodeInfo → NodeInfo → NodeInfo
refresh seen n = record n {
  last_seen = seen.last_seen;
  used_bytes = seen.used_bytes;
  total_bytes = seen.total_bytes;
  status = up;
}

abbrev pub set_down : NodeInfo → NodeInfo
set_down n = record n { status = down }

-- The inner loop of cmdUpdateFragment.
unfoldable pub move_fragment : Str → List Str → Info → Info
move_fragment fragment_id node_ids fr =
    if str_eq fr.id fragment_id then record fr { node_ids = node_ids } else fr

unfoldable pub move_fragments : Str → List Str → KeyEntry → KeyEntry
unfolding move_fragment
move_fragments fragment_id node_ids e = record e {
  fragments = map (move_fragment fragment_id node_ids) e.fragments;
}

abbrev with_node : Option NodeInfo → (NodeInfo → Catalog → Catalog) → Catalog → Catalog
with_node none f s = s
with_node (some n) f s = f n s

abbrev put_entry : Option KeyEntry → Catalog → Catalog
put_entry none s = s
put_entry (some e) s = record s { keys = insert e.key e s.keys }

-- The switch of `Apply`.
abbrev dispatch : CmdType → Command → Catalog → Catalog
dispatch put_key cmd s = put_entry cmd.entry s
dispatch commit_key cmd s = record s { keys = modify cmd.key commit_entry s.keys }
dispatch delete_key cmd s = record s { keys = erase cmd.key s.keys }
dispatch register_node cmd s =
    with_node cmd.node (λ n t. record t { nodes = insert n.id n t.nodes }) s
dispatch heartbeat cmd s =
    with_node cmd.node (λ n t. record t { nodes = modify n.id (refresh n) t.nodes }) s
dispatch mark_node_down cmd s =
    with_node cmd.node (λ n t. record t { nodes = modify n.id set_down t.nodes }) s
dispatch update_fragment cmd s = record s {
  keys = map_values (move_fragments cmd.fragment_id cmd.node_ids) s.keys;
}
dispatch (unknown t) cmd s = s

unfoldable pub apply_command : Command → Catalog → Catalog
unfolding move_fragments
apply_command cmd s = dispatch cmd.type cmd s

-- The response of `Apply`: nil, or the error of a log entry that does not decode.
pub data Response : Type 0 where
  done undecodable : Response

-- Apply
unfoldable pub apply_log : Codec Command → Str → Catalog → Catalog × Response
unfolding apply_command
apply_log json entry s = elim (json.unmarshal entry) [
  | none ↦ (s, undecodable)
  | some cmd ↦ (apply_command cmd s, done)
]

-- Raft applies the committed entries in order.
unfoldable pub replay : Codec Command → List Str → Catalog → Catalog
unfolding apply_log
replay json [] s = s
replay json (entry ∷ log) s = replay json log (apply_log json entry s).0

-- Snapshot, and Persist to a sink that takes it
unfoldable pub snapshot : Codec Catalog → Catalog → Str
snapshot json s = json.marshal s

-- Restore: the state after it, which is the old one where the snapshot does not decode
unfoldable pub restore : Codec Catalog → Str → Catalog → Catalog × Bool
restore json bytes s = elim (json.unmarshal bytes) [ none ↦ (s, false) | some t ↦ (t, true) ]

-- getKey, getNode
unfoldable pub get_key : Str → Catalog → Option KeyEntry
get_key key s = lookup key s.keys

unfoldable pub get_node : Str → Catalog → Option NodeInfo
get_node id s = lookup id s.nodes

-- listKeys, listNodes, allEntries, in the order of the range statements
unfoldable pub list_keys : RangeOrder → Catalog → List Str
list_keys order s = keys (order.range KeyEntry s.keys)

unfoldable pub list_nodes : RangeOrder → Catalog → List NodeInfo
list_nodes order s = values (order.range NodeInfo s.nodes)

unfoldable pub all_entries : RangeOrder → Catalog → List KeyEntry
all_entries order s = values (order.range KeyEntry s.keys)
