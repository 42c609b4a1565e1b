-- ===== src/Metadata/Fsm/Tests.antt =====
-- Runs of internal/metadata/fsm.go on a state with one key and one node.
use frag_kv.Base.{
  Str, ℕ, ◌≡◌, refl, List, [], ◌∷◌, ◌++◌, Option, none, some, Bool, true, false, codes, get_elem?,
}
use frag_kv.Base.GoMap.{GoMap, lookup}
use frag_kv.Base.Int.{pos}
use frag_kv.Fragment.{Info}
use frag_kv.Metadata.Encoded.{json_command, json_catalog}
use frag_kv.Metadata.Types.{
  NodeInfo, KeyEntry, Catalog, Command, bare, commit_key, mark_node_down, up, new_state,
}
use frag_kv.Metadata.Fsm.{apply_command, replay, snapshot, restore, get_key, get_node}
use frag_kv.Metadata.Fsm.Lookups.{apply_pointwise, key_after, node_after, node_never_removed}
use frag_kv.Metadata.Fsm.Replay.{restore-snapshot}
use frag_kv.Metadata.Fsm.Fragments.{moving, IsUpdated, names_in, update_fragment_keeps_addrs}

abbrev pub k : Str
k = codes "k"

abbrev pub k_0 : Info
k_0 = record {
  id = codes "k/0";
  key = k;
  index = 0;
  size = pos 5;
  node_ids = codes "n1" ∷ [];
  node_addrs = codes "http://h1" ∷ [];
}

abbrev pub pending : KeyEntry
pending = record {
  key = k;
  total_size = pos 5;
  chunk_size = pos 8;
  fragments = k_0 ∷ [];
  created_at = 3;
  committed = false;
}

abbrev pub node_1 : NodeInfo
node_1 = record {
  id = codes "n1";
  addr = codes "h1";
  total_bytes = pos 100;
  used_bytes = pos 40;
  last_seen = 3;
  status = up;
}

abbrev pub node_2 : NodeInfo
node_2 = record node_1 { id = codes "n2"; addr = codes "h2" }

abbrev pub one_key : Catalog
one_key = record {
  keys = (k, pending) ∷ [];
  nodes = (codes "n1", node_1) ∷ (codes "n2", node_2) ∷ [];
}

abbrev commit_k : Command
commit_k = record (bare commit_key) { key = k }

abbrev down_1 : Command
down_1 = record (bare mark_node_down) { node = some node_1 }

abbrev log : List Str
log = json_command.marshal commit_k ∷ [] ∷ json_command.marshal down_1 ∷ []

apply_pointwise_example :
    ((j : Str)
      → get_key j (apply_command commit_k one_key)
        ≡ key_after commit_key commit_k j (get_key j one_key))
    × ((i : Str)
        → get_node i (apply_command commit_k one_key)
          ≡ node_after commit_key commit_k i (get_node i one_key))
apply_pointwise_example = apply_pointwise commit_k one_key

node_never_removed_example :
    (m : NodeInfo) × (get_node (codes "n1") (replay json_command log one_key) ≡ some m)
unfolding get_node lookup
node_never_removed_example = node_never_removed json_command log one_key (codes "n1") node_1 refl

restore-snapshot_example :
    (replay json_command log
        (restore json_catalog (snapshot json_catalog (replay json_command log new_state)) one_key).0
      ≡ replay json_command (log ++ log) new_state)
    × ((restore json_catalog (snapshot json_catalog (replay json_command log new_state)) one_key).1
        ≡ true)
restore-snapshot_example = restore-snapshot json_command json_catalog log log one_key

update_fragment_keeps_addrs_example :
    ((e' : KeyEntry) × (get_key k (apply_command (moving (codes "k/0") (codes "n2" ∷ [])) one_key)
        ≡ some e')
      × IsUpdated (codes "k/0") (codes "n2" ∷ []) pending e')
    × (names_in (apply_command (moving (codes "k/0") (codes "n2" ∷ [])) one_key) ≡ names_in one_key)
    × ((apply_command (moving (codes "k/0") (codes "n2" ∷ [])) one_key).nodes ≡ one_key.nodes)
unfolding get_key lookup
update_fragment_keeps_addrs_example =
    update_fragment_keeps_addrs (codes "k/0") (codes "n2" ∷ []) one_key k pending refl

-- The update moves the fragment to the second node and leaves the address of the first.
moved_keeps_address :
    get_key k (apply_command (moving (codes "k/0") (codes "n2" ∷ [])) one_key)
    ≡ some (record pending { fragments = record k_0 { node_ids = codes "n2" ∷ [] } ∷ [] })
unfolding get_key apply_command lookup frag_kv.Base.GoMap.map_values
moved_keeps_address = refl
