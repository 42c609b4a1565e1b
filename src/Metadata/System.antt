-- ===== src/Metadata/System.antt =====
-- The catalog of one node of the Raft group in time: everything that changes it in internal/metadata,
-- in any order. A step is one request to a handler of server.go, one round of a worker of workers.go, or
-- one entry of the log that Raft hands to `Apply` of fsm.go; what Raft does may differ from step to step.
-- The installation of a snapshot is not a step here; Metadata/Fsm/Replay is about it.
pub mod Kept
pub mod Logged
pub mod Handlers
pub mod Heard
pub mod Reached
pub mod Steady
pub mod Tests
use frag_kv.Base.{Str, ℕ, Bool}
use frag_kv.Base.Codec.{Codec}
use frag_kv.Base.GoMap.{RangeOrder}
use frag_kv.Placement.{Placer}
use frag_kv.Placement.Outside.{Floats}
use frag_kv.Transport.{Method}
use frag_kv.Metadata.Setup.{Config, Raft}
use frag_kv.Metadata.Types.{NodeInfo, Catalog, Command}
use frag_kv.Metadata.Fsm.{apply_log}
use frag_kv.Metadata.Workers.{mark_stale, failure_detector_tick, recover_under_replicated}
use frag_kv.Metadata.Rebalance.{trigger_rebalance}
use frag_kv.Metadata.Server.{Request, Bodies, handle_keys, handle_nodes, handle_node_by_id}

module _ (fl : Floats) (json : Codec Command) (order : RangeOrder) (place : Placer fl)
    (cfg : Config) where
  pub data Step : Catalog → Catalog → Type 0 where
    keys_request :
        (raft : Raft) (now : ℕ) (bodies : Bodies) (r : Request) (s : Catalog)
        → Step s (handle_keys fl json order place cfg raft now bodies r s).0
    nodes_request :
        (raft : Raft) (now : ℕ) (bodies : Bodies) (rafts : Str → Raft)
        (replicate : Str → Str → Str → Bool) (method : Method) (body : Str) (s : Catalog)
        → Step s
            (handle_nodes fl json order place cfg raft now bodies rafts replicate method body s).0
    node_request :
        (raft : Raft) (now : ℕ) (bodies : Bodies) (r : Request) (s : Catalog)
        → Step s (handle_node_by_id fl json order place cfg raft now bodies r s).0
    detection :
        (is_leader : Bool) (rafts : Str → Raft) (clock : Str → ℕ) (s : Catalog)
        → Step s (failure_detector_tick json order cfg is_leader rafts clock s)
    -- A part of a tick, on a node that was listed before.
    marking :
        (raft : Raft) (now : ℕ) (seen : NodeInfo) (s : Catalog)
        → Step s (mark_stale json raft now cfg.dead_threshold seen s)
    recovery :
        (rafts : Str → Raft) (replicate : Str → Str → Str → Bool) (s : Catalog)
        → Step s (recover_under_replicated json order cfg rafts replicate s)
    rebalancing :
        (rafts : Str → Raft) (replicate : Str → Str → Str → Bool) (is_leader : Bool) (s : Catalog)
        → Step s (trigger_rebalance fl json order place cfg rafts replicate is_leader s)
    replicated : (log_entry : Str) (s : Catalog) → Step s (apply_log json log_entry s).0

  -- Any number of steps.
  pub data Reaches (s : Catalog) : Catalog → Type 0 where
    start : Reaches s s
    then_step : {t u : Catalog} → Reaches s t → Step t u → Reaches s u
