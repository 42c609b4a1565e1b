-- ===== src/Metadata/Store.antt =====
-- internal/metadata/store.go: the service on one node of the Raft group. Raft itself is an argument:
-- whether this node leads, and what becomes of a command that is handed to it.
pub mod Updates
pub mod Sizes
pub mod Prepares
pub mod Tests
use frag_kv.Base.{
  Str, ℕ, zero, suc, ◌+◌, ◌-◌, List, [], ◌∷◌, ◌++◌, map, Option, none, some, Bool, true, false,
  str_eq, if◌then◌else◌, codes, ◌==◌,
}
use frag_kv.Base.Codec.{Codec}
use frag_kv.Base.GoMap.{RangeOrder}
use frag_kv.Base.Int.{ℤ, pos, negsuc, ◌+ℤ◌, ◌-ℤ◌, div_pos, mod_pos, ltb_ℤ}
use frag_kv.Fragment
use frag_kv.Fragment.{Fault, Info}
use frag_kv.Placement.{Node, Placer}
use frag_kv.Placement.Outside.{Floats, SortSlice, Sum256}
use frag_kv.Placement.Scored.{rendezvous, weighted}
use frag_kv.Placement.Ring.{consistent_hash}
use frag_kv.Metadata.Setup.{Config, RaftOutcome, applied, failed, failed_applied, Raft}
use frag_kv.Metadata.Types.{
  NodeInfo, NodeStatus, KeyEntry, Catalog, Command, CmdType, put_key, commit_key, delete_key,
  register_node, heartbeat, mark_node_down, update_fragment, bare, unset, up, is_up,
  to_placement_node,
}
use frag_kv.Metadata.Fsm.{
  Response, done, undecodable, apply_log, get_key, get_node, list_keys, list_nodes,
}

pub data Error : Type 0 where
  not_leader not_found no_live_nodes rejected panicked : Error
  raft_error : Fault → Error

pub data Result {ℓ} (A : Type ℓ) : Type ℓ where
  ok : A → Result A
  err : Error → Result A

abbrev of_response : Response → Option Error
of_response done = none
of_response undecodable = some rejected

abbrev default_status : NodeStatus → NodeStatus
default_status unset = up
default_status status = status

abbrev pub bare_node : Str → NodeInfo
bare_node id = record {
  id = id;
  addr = [];
  total_bytes = pos 0;
  used_bytes = pos 0;
  last_seen = 0;
  status = unset;
}

module _ (json : Codec Command) where
  unfoldable pub hand_to_raft : RaftOutcome → Command → Catalog → Catalog × Option Error
  hand_to_raft applied cmd s =
      let (s', response) = apply_log json (json.marshal cmd) s in (s', of_response response)
  hand_to_raft (failed e) cmd s = (s, some (raft_error e))
  hand_to_raft (failed_applied e) cmd s =
      ((apply_log json (json.marshal cmd) s).0, some (raft_error e))

  -- apply
  unfoldable pub apply : Raft → Command → Catalog → Catalog × Option Error
  unfolding hand_to_raft
  apply raft cmd s =
      if raft.is_leader then hand_to_raft raft.outcome cmd s else (s, some not_leader)

  -- CommitKey, DeleteKey
  unfoldable pub commit_key_op : Raft → Str → Catalog → Catalog × Option Error
  commit_key_op raft key s = apply raft (record (bare commit_key) { key = key }) s

  unfoldable pub delete_key_op : Raft → Str → Catalog → Catalog × Option Error
  delete_key_op raft key s = apply raft (record (bare delete_key) { key = key }) s

  -- RegisterNode
  unfoldable pub register_node_op : Raft → ℕ → NodeInfo → Catalog → Catalog × Option Error
  register_node_op raft now info s =
      let info' : NodeInfo = record info {
        status = default_status info.status;
        last_seen = if info.last_seen == 0 then now else info.last_seen;
      } in
      apply raft (record (bare register_node) { node = some info' }) s

  -- Heartbeat
  unfoldable pub heartbeat_op : Raft → ℕ → Str → ℤ → ℤ → Catalog → Catalog × Option Error
  heartbeat_op raft now id used total s =
      apply raft
        (record (bare heartbeat) {
          node =
              some
                (record (bare_node id) { last_seen = now; used_bytes = used; total_bytes = total });
        })
        s

  -- MarkNodeDown
  unfoldable pub mark_node_down_op : Raft → Str → Catalog → Catalog × Option Error
  mark_node_down_op raft id s =
      apply raft (record (bare mark_node_down) { node = some (bare_node id) }) s

  -- UpdateFragmentNodes
  unfoldable pub update_fragment_nodes : Raft → Str → List Str → Catalog → Catalog × Option Error
  update_fragment_nodes raft fragment_id node_ids s =
      apply raft (record (bare update_fragment) { fragment_id = fragment_id; node_ids = node_ids })
        s

abbrev pub found : {A : Type 0} → Option A → Result A
found none = err not_found
found (some a) = ok a

-- GetKey, GetNode
unfoldable pub get_key_op : Str → Catalog → Result KeyEntry
get_key_op key s = found (get_key key s)

unfoldable pub get_node_op : Str → Catalog → Result NodeInfo
get_node_op id s = found (get_node id s)

unfoldable pub up_nodes : (fl : Floats) → List NodeInfo → List (Node fl)
up_nodes fl [] = []
up_nodes fl (n ∷ ns) =
    let rest = up_nodes fl ns in if is_up n.status then to_placement_node fl n ∷ rest else rest

-- liveNodes
unfoldable pub live_nodes : (fl : Floats) → RangeOrder → Catalog → List (Node fl)
unfolding up_nodes
live_nodes fl order s = up_nodes fl (list_nodes order s)

-- newPlacer: the strategy by its name
unfoldable pub new_placer : (fl : Floats) → SortSlice → Sum256 → Str → Placer fl
new_placer fl sorter sum strategy =
    if str_eq strategy (codes "rendezvous")
    then rendezvous fl sorter sum
    else if str_eq strategy (codes "weighted")
    then weighted fl sorter sum
    else consistent_hash fl sorter sum 0

-- `if numFragments == 0 { numFragments = 1 }`
abbrev at_least_one : ℤ → ℤ
at_least_one (pos zero) = pos 1
at_least_one z = z

-- The number of fragments that `PrepareKey` computes for a size, in int64.
unfoldable pub num_fragments : ℕ → ℤ → ℤ
num_fragments chunk total = at_least_one (div_pos (total +ℤ pos chunk -ℤ pos 1) chunk)

-- The size that `PrepareKey` gives a fragment; the last one takes the remainder.
unfoldable pub fragment_size : ℕ → ℤ → Bool → ℤ
fragment_size chunk total false = pos chunk
fragment_size chunk total true =
    let rem = mod_pos total chunk in if ltb_ℤ (pos 0) rem then rem else pos chunk

-- "http://" + info.Addr, or the empty text where the node is not registered
unfoldable pub node_url : Catalog → Str → Str
node_url s id = elim (get_node id s) [ none ↦ [] | some info ↦ codes "http://" ++ info.addr ]

module _ (fl : Floats) (place : Placer fl) (cfg : Config) (key : Str) (total : ℤ)
    (nodes : List (Node fl)) (s : Catalog) where
  unfoldable pub planned : ℕ → ℕ → Info
  unfolding fragment_size node_url
  planned num i =
      let fid = Fragment.id key i in
      let placed = place fid nodes cfg.replication_factor in
      record {
        id = fid;
        key = key;
        index = i;
        size = fragment_size cfg.chunk_size total (i == (num - 1));
        node_ids = map (λ nd. nd.id) placed;
        node_addrs = map (λ nd. node_url s nd.id) placed;
      }

  -- The loop of `PrepareKey`, with `left` fragments to come.
  unfoldable pub plan_from : ℕ → ℕ → ℕ → List Info
  plan_from num zero i = []
  plan_from num (suc left) i = planned num i ∷ plan_from num left (i + 1)

abbrev pub after_apply : KeyEntry → Catalog × Option Error → Catalog × Result KeyEntry
after_apply entry (s, none) = (s, ok entry)
after_apply entry (s, some e) = (s, err e)

-- The rest of `PrepareKey` for a number of fragments; a negative one makes `make` panic. So
-- does one for which the memory is too small, which depends on the machine and is left out.
abbrev pub prepare_fragments :
    (fl : Floats)
    → Codec Command
    → Placer fl
    → Config
    → Raft
    → ℕ
    → Str
    → ℤ
    → List (Node fl)
    → ℤ
    → Catalog
    → Catalog × Result KeyEntry
prepare_fragments fl json place cfg raft now key total nodes (negsuc n) s = (s, err panicked)
prepare_fragments fl json place cfg raft now key total nodes (pos num) s =
    let entry : KeyEntry = record {
      key = key;
      total_size = total;
      chunk_size = pos cfg.chunk_size;
      fragments = plan_from fl place cfg key total nodes s num num 0;
      created_at = now;
      committed = false;
    } in
    after_apply entry (apply json raft (record (bare put_key) { entry = some entry }) s)

-- `PrepareKey` on the live nodes.
abbrev pub prepare_on :
    (fl : Floats)
    → Codec Command
    → Placer fl
    → Config
    → Raft
    → ℕ
    → Str
    → ℤ
    → List (Node fl)
    → Catalog
    → Catalog × Result KeyEntry
prepare_on fl json place cfg raft now key total [] s = (s, err no_live_nodes)
prepare_on fl json place cfg raft now key total (nd ∷ nds) s =
    prepare_fragments fl json place cfg raft now key total (nd ∷ nds)
      (num_fragments cfg.chunk_size total) s

-- PrepareKey
unfoldable pub prepare_key :
    (fl : Floats)
    → Codec Command
    → RangeOrder
    → Placer fl
    → Config
    → Raft
    → ℕ
    → Str
    → ℤ
    → Catalog
    → Catalog × Result KeyEntry
prepare_key fl json order place cfg raft now key total s =
    prepare_on fl json place cfg raft now key total (live_nodes fl order s) s
