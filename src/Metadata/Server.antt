-- ===== src/Metadata/Server.antt =====
-- internal/metadata/server.go: the HTTP handlers over the metadata store. A response is its status and
-- the value that is encoded in its body; the texts of errors and the header with the leader's address
-- are left out. A handler that panics sends no response: its status is 0 here.
pub mod Keys
pub mod Prepared
pub mod Tests
use frag_kv.Base.{
  Str, ℕ, List, [], ◌∷◌, Option, none, some, Bool, true, false, slash, codes, str_eq, trim_prefix,
  split_two, if◌then◌else◌,
}
use frag_kv.Base.Codec.{Codec}
use frag_kv.Base.GoMap.{RangeOrder}
use frag_kv.Base.Int.{ℤ}
use frag_kv.Placement.{Placer}
use frag_kv.Placement.Outside.{Floats}
use frag_kv.Transport.{Method, get_method, put_method, post_method, delete_method, other_method}
use frag_kv.Metadata.Setup.{Config, Raft}
use frag_kv.Metadata.Types.{NodeInfo, KeyEntry, Catalog, Command}
use frag_kv.Metadata.Fsm.{list_keys, list_nodes}
use frag_kv.Metadata.Store.{
  Error, not_leader, not_found, panicked, Result, ok, err, prepare_key, commit_key_op,
  delete_key_op, get_key_op, get_node_op, register_node_op, heartbeat_op,
}
use frag_kv.Metadata.Rebalance.{trigger_rebalance}

pub record Request : Type 0 where
  pub method : Method
  pub path : Str
  pub body : Str

pub data Payload : Type 0 where
  nothing : Payload
  entry : KeyEntry → Payload
  names : List Str → Payload
  node : NodeInfo → Payload
  nodes : List NodeInfo → Payload

pub record Response : Type 0 where
  pub status : ℕ
  pub payload : Payload

abbrev pub status_only : ℕ → Response
status_only code = record { status = code; payload = nothing }

abbrev pub json_resp : Payload → Response
json_resp p = record { status = 200; payload = p }

-- The bodies of requests, as encoding/json decodes them.
pub record Bodies : Type 0 where
  pub total_size : Str → Option ℤ
  pub node_info : Str → Option NodeInfo
  pub usage : Str → Option (ℤ × ℤ)

-- The status of an error of a command.
abbrev pub failure : Error → ℕ
failure not_leader = 421
failure panicked = 0
failure _ = 500

abbrev pub changed : ℕ → Catalog × Option Error → Catalog × Response
changed code (s, none) = (s, status_only code)
changed code (s, some e) = (s, status_only (failure e))

abbrev pub prepared : Catalog × Result KeyEntry → Catalog × Response
prepared (s, ok e) = (s, json_resp (entry e))
prepared (s, err e) = (s, status_only (failure e))

-- The response to a read: 404 where nothing is found.
abbrev pub read_response : {A : Type 0} → (A → Payload) → Result A → Response
read_response f (ok a) = json_resp (f a)
read_response f (err not_found) = status_only 404
read_response f (err e) = status_only 500

abbrev action_of : Option Str → Str
action_of none = []
action_of (some action) = action

-- The name and the action of a path: strings.SplitN(strings.TrimPrefix(path, prefix), "/", 2)
unfoldable pub parts_of : Str → Str → Str × Str
unfolding trim_prefix split_two
parts_of prefix path =
    let (name, rest) = split_two slash (trim_prefix path prefix) in (name, action_of rest)

module _ (fl : Floats) (json : Codec Command) (order : RangeOrder) (place : Placer fl)
    (cfg : Config) (raft : Raft) (now : ℕ) (bodies : Bodies) where
  abbrev pub prepare_action : Method → Str → Str → Catalog → Catalog × Response
  prepare_action post_method key body s = elim (bodies.total_size body) [
    | none ↦ (s, status_only 400)
    | some total ↦ prepared (prepare_key fl json order place cfg raft now key total s)
  ]
  prepare_action method key body s = (s, status_only 405)

  abbrev pub commit_action : Method → Str → Catalog → Catalog × Response
  commit_action post_method key s = changed 204 (commit_key_op json raft key s)
  commit_action method key s = (s, status_only 405)

  abbrev pub key_action : Method → Str → Catalog → Catalog × Response
  key_action get_method key s = (s, read_response entry (get_key_op key s))
  key_action delete_method key s = changed 204 (delete_key_op json raft key s)
  key_action method key s = (s, status_only 405)

  abbrev pub list_action : Method → Catalog → Catalog × Response
  list_action get_method s = (s, json_resp (names (list_keys order s)))
  list_action method s = (s, status_only 404)

  -- handleKeys, for a key and an action
  abbrev pub route_key : Str → Str → Request → Catalog → Catalog × Response
  route_key key action r s =
      if str_eq key []
      then list_action r.method s
      else if str_eq action (codes "prepare")
      then prepare_action r.method key r.body s
      else if str_eq action (codes "commit")
      then commit_action r.method key s
      else if str_eq action []
      then key_action r.method key s
      else (s, status_only 404)

  -- handleKeys
  unfoldable pub handle_keys : Request → Catalog → Catalog × Response
  unfolding parts_of
  handle_keys r s = let (key, action) = parts_of (codes "/keys/") r.path in route_key key action r s

  -- A registration that succeeds starts a rebalance. It runs in a goroutine beside later requests; here
  -- it runs to its end before the response.
  abbrev pub registered :
      (Str → Raft) → (Str → Str → Str → Bool) → Catalog × Option Error → Catalog × Response
  registered rafts replicate (s, none) =
      (trigger_rebalance fl json order place cfg rafts replicate raft.is_leader s, status_only 201)
  registered rafts replicate (s, some e) = (s, status_only (failure e))

  -- handleNodes
  unfoldable pub handle_nodes :
      (Str → Raft) → (Str → Str → Str → Bool) → Method → Str → Catalog → Catalog × Response
  handle_nodes rafts replicate get_method body s = (s, json_resp (nodes (list_nodes order s)))
  handle_nodes rafts replicate post_method body s = elim (bodies.node_info body) [
    | none ↦ (s, status_only 400)
    | some info ↦ registered rafts replicate (register_node_op json raft now info s)
  ]
  handle_nodes rafts replicate method body s = (s, status_only 405)

  abbrev pub heartbeat_action : Method → Str → Str → Catalog → Catalog × Response
  heartbeat_action post_method id body s = elim (bodies.usage body) [
    | none ↦ (s, status_only 400)
    | some (used, total) ↦ changed 204 (heartbeat_op json raft now id used total s)
  ]
  heartbeat_action method id body s = (s, status_only 405)

  abbrev pub node_action : Method → Str → Catalog → Catalog × Response
  node_action get_method id s = (s, read_response node (get_node_op id s))
  node_action method id s = (s, status_only 405)

  -- handleNodeByID, for an ID and an action
  abbrev pub route_node : Str → Str → Request → Catalog → Catalog × Response
  route_node id action r s =
      if str_eq action (codes "heartbeat")
      then heartbeat_action r.method id r.body s
      else node_action r.method id s

  -- handleNodeByID
  unfoldable pub handle_node_by_id : Request → Catalog → Catalog × Response
  unfolding parts_of
  handle_node_by_id r s =
      let (id, action) = parts_of (codes "/nodes/") r.path in route_node id action r s
