-- ===== src/Metadata/Types.antt =====
-- internal/metadata/types.go: nodes, keys, the state of the machine and its commands. A time is a
-- number, the zero time is 0.
use frag_kv.Base.{Str, ℕ, List, [], Option, none, Bool, true, false, if◌then◌else◌, str_eq, codes}
use frag_kv.Base.GoMap.{GoMap}
use frag_kv.Base.Int.{ℤ, pos, ◌-ℤ◌, ltb_ℤ}
use frag_kv.Fragment.{Info}
use frag_kv.Placement.{Node}
use frag_kv.Placement.Outside.{Floats}

-- NodeStatus, a string: the empty one, the three named ones and any other.
pub data NodeStatus : Type 0 where
  unset up down draining : NodeStatus
  other : Str → NodeStatus

-- The status that a string is.
unfoldable pub status_of : Str → NodeStatus
unfolding str_eq
status_of s =
    if str_eq s []
    then unset
    else if str_eq s (codes "up")
    then up
    else if str_eq s (codes "down")
    then down
    else if str_eq s (codes "draining")
    then draining
    else other s

pub record NodeInfo : Type 0 where
  pub id : Str
  pub addr : Str
  pub total_bytes : ℤ
  pub used_bytes : ℤ
  pub last_seen : ℕ
  pub status : NodeStatus

-- n.Status == NodeUp
unfoldable pub is_up : NodeStatus → Bool
is_up up = true
is_up _ = false

unfoldable pub free_bytes : NodeInfo → ℤ
free_bytes n =
    let free = n.total_bytes -ℤ n.used_bytes in if ltb_ℤ free (pos 0) then pos 0 else free

unfoldable pub to_placement_node : (fl : Floats) → NodeInfo → Node fl
unfolding free_bytes
to_placement_node fl n = record {
  id = n.id;
  free_bytes = free_bytes n;
  total_bytes = n.total_bytes;
  weight = fl.zero;
}

pub record KeyEntry : Type 0 where
  pub key : Str
  pub total_size : ℤ
  pub chunk_size : ℤ
  pub fragments : List Info
  pub created_at : ℕ
  pub committed : Bool

-- state
pub record Catalog : Type 0 where
  pub keys : GoMap KeyEntry
  pub nodes : GoMap NodeInfo

-- newState
abbrev pub new_state : Catalog
new_state = record { keys = []; nodes = [] }

-- cmdType, a string: the seven named ones and any other.
pub data CmdType : Type 0 where
  put_key commit_key delete_key register_node heartbeat mark_node_down update_fragment : CmdType
  unknown : Str → CmdType

pub record Command : Type 0 where
  pub type : CmdType
  pub entry : Option KeyEntry
  pub key : Str
  pub node : Option NodeInfo
  pub fragment_id : Str
  pub node_ids : List Str

-- A command with its other fields left out.
abbrev pub bare : CmdType → Command
bare t = record { type = t; entry = none; key = []; node = none; fragment_id = []; node_ids = [] }
