-- ===== src/Daemon/Heartbeats.antt =====
-- The heartbeats of cmd/storaged/main.go against handleNodeByID of internal/metadata/server.go.
use mathlib.Core.Option
use frag_kv.Base.{Str, ℕ, ◌≡◌, Option, some, slash, Lacks, codes, if◌then◌else◌, str_eq}
use frag_kv.Base.Codec.{Codec}
use frag_kv.Base.GoMap.{RangeOrder}
use frag_kv.Base.Int.{ℤ}
use frag_kv.Placement.{Placer}
use frag_kv.Placement.Outside.{Floats}
use frag_kv.Storage
use frag_kv.Storage.{Store}
use frag_kv.Metadata.Setup
use frag_kv.Metadata.Types.{NodeInfo, Catalog, Command}
use frag_kv.Metadata.Fsm.{get_node}
use frag_kv.Metadata.Store.Updates.{beaten}
use frag_kv.Metadata.Server.{Bodies, parts_of}
use frag_kv.Metadata.Server.Keys.{split_two-append}
use frag_kv.Daemon.{Config, Wire, heartbeat_request, heartbeat}
use frag_kv.Daemon.Deliveries.{Delivery, deliver}

-- The server takes the ID and the action out of the path that the process writes.
pub heartbeat_parts :
    (id body : Str)
    → Lacks slash id
    → parts_of (codes "/nodes/") (heartbeat_request id body).path ≡ (id, codes "heartbeat")
unfolding parts_of heartbeat_request
heartbeat_parts id body h = rw (split_two-append id (codes "heartbeat") h)

module _ (fl : Floats) (json : Codec Command) (order : RangeOrder) (place : Placer fl)
    (cfg : Setup.Config) (bodies : Bodies) where
  module _ (deliveries : ℕ → Delivery) (wire : Wire) (process : Config)
      (single : Lacks slash process.node_id)
      (reads : (used : ℤ)
        → bodies.usage (wire.usage used process.total_bytes)
          ≡ some (used, process.total_bytes)) where
    -- What metad has of the node `j` behind the tick `i`, by what DiskUsage returned.
    abbrev pub reported : ℕ → Storage.Result ℤ → Str → Catalog → Option NodeInfo
    reported i (Storage.err e) j s = get_node j s
    reported i (Storage.ok used) j s =
        let d = deliveries i in
        let before = get_node j (d.meanwhile s) in
        if str_eq process.node_id j
        then Option.map (beaten d.now used process.total_bytes) before
        else before

    abbrev pub beating : ℕ → Storage.Result ℤ → Catalog → Catalog
    beating = heartbeat (deliver fl json order place cfg bodies deliveries) wire process
