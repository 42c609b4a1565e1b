-- ===== src/Daemon.antt =====
-- cmd/storaged/main.go: the process of a storage node, which announces itself to metad until metad
-- accepts it, and then reports at every tick of its timer how much it stores. The file of the
-- configuration, the HTTP listener, the gauge of the used bytes and the log are left out.
pub mod Deliveries
pub mod Registration
pub mod Heartbeats
pub mod Tests
use frag_kv.Base.{
  Str, ℕ, zero, suc, List, [], ◌∷◌, ◌++◌, Option, none, some, Bool, true, false, ◌==◌, codes, slash,
  str_eq, if◌then◌else◌,
}
use frag_kv.Base.Codec.{Codec}
use frag_kv.Base.GoMap.{RangeOrder}
use frag_kv.Base.Int.{ℤ, pos}
use frag_kv.Storage.{FragmentMeta, Store, Faults, Result, ok, err, disk_usage}
use frag_kv.Transport.{post_method}
use frag_kv.Metadata.Server.{Request}

-- The addresses of the HTTP listener and of metad are where the requests of others and its own go.
pub record Config : Type 0 where
  pub node_id : Str
  pub addr : Str
  pub public_addr : Str
  pub data_dir : Str
  pub meta_addr : Str
  pub total_bytes : ℤ
  pub heartbeat_interval : ℕ

-- What main starts from; a duration is in nanoseconds.
abbrev pub default_config : Config
default_config = record {
  node_id = codes "storage-1";
  addr = codes ":8001";
  public_addr = codes "localhost:8001";
  data_dir = codes "/data";
  meta_addr = codes "http://localhost:9000";
  total_bytes = pos 10737418240;
  heartbeat_interval = 5000000000;
}

-- `if cfg.PublicAddr == ""`, behind the reading of the file
unfoldable pub with_public_addr : Config → Config
unfolding str_eq
with_public_addr cfg =
    if str_eq cfg.public_addr []
    then record cfg { public_addr = codes "localhost" ++ cfg.addr }
    else cfg

-- The nodeInfo of registerNode.
pub record Announcement : Type 0 where
  pub id : Str
  pub addr : Str
  pub total_bytes : ℤ
  pub status : Str

unfoldable pub announcement : Config → Announcement
announcement cfg = record {
  id = cfg.node_id;
  addr = cfg.public_addr;
  total_bytes = cfg.total_bytes;
  status = codes "up";
}

-- The bodies as encoding/json makes them: of an announcement, and of the used and the total bytes.
pub record Wire : Type 0 where
  pub announce : Announcement → Str
  pub usage : ℤ → ℤ → Str

-- metad as the process reaches it: a POST to /nodes with a body, and a POST to a path below it. The
-- first argument counts the requests; an answer is its status, or there is none.
pub record Metad (W : Type 0) : Type 0 where
  pub nodes : ℕ → Str → W → W × Option ℕ
  pub node : ℕ → Request → W → W × Option ℕ

-- err == nil && resp.StatusCode == http.StatusCreated
abbrev pub accepted : Option ℕ → Bool
accepted none = false
accepted (some status) = status == 201

-- /nodes/{id}/heartbeat
unfoldable pub heartbeat_request : Str → Str → Request
heartbeat_request id body = record {
  method = post_method;
  path = codes "/nodes/" ++ id ++ slash ∷ codes "heartbeat";
  body = body;
}

module _ {W : Type 0} (metad : Metad W) (wire : Wire) (cfg : Config) where
  -- registerNode from its attempt `i` on, with fuel for the attempts: the one that metad accepts, or
  -- `none` where it goes on.
  unfoldable pub register_node : ℕ → ℕ → W → W × Option ℕ
  register_node zero i w = (w, none)
  register_node (suc fuel) i w =
      let (w', answer) = metad.nodes i (wire.announce (announcement cfg)) w in
      elim (accepted answer) [ true ↦ (w', some i) | false ↦ register_node fuel (suc i) w' ]

  -- The body of the loop of heartbeatLoop, with what DiskUsage returns.
  unfoldable pub heartbeat : ℕ → Result ℤ → W → W
  unfolding heartbeat_request
  heartbeat i (err e) w = w
  heartbeat i (ok used) w =
      (metad.node i (heartbeat_request cfg.node_id (wire.usage used cfg.total_bytes)) w).0

  -- heartbeatLoop over the ticks of its timer, each with the store at its time and what fails in it.
  unfoldable pub heartbeat_loop :
      Codec FragmentMeta → RangeOrder → ℕ → List (Faults × Store) → W → W
  unfolding heartbeat
  heartbeat_loop json order i [] w = w
  heartbeat_loop json order i ((faults, store) ∷ ticks) w =
      heartbeat_loop json order (suc i) ticks (heartbeat i (disk_usage json order faults store) w)
