-- ===== src/Metadata/Setup.antt =====
-- The configuration of internal/metadata/store.go, with the defaults of `Open`, and the Raft library as
-- the store sees it.
use frag_kv.Base.{ℕ, zero, suc, Bool}
use frag_kv.Base.Int.{ℤ, pos, negsuc}
use frag_kv.Fragment.{Fault}

-- The configuration as it is given, and as `Open` completes it.
pub record RawConfig : Type 0 where
  pub replication_factor : ℤ
  pub chunk_size : ℤ
  pub dead_threshold : ℤ

pub record Config : Type 0 where
  pub replication_factor : ℕ
  pub chunk_size : ℕ
  pub dead_threshold : ℤ

-- `if v <= 0 { v = def }`
abbrev pub positive_or : ℕ → ℤ → ℕ
positive_or def (pos zero) = def
positive_or def (pos (suc n)) = suc n
positive_or def (negsuc n) = def

-- `if v == 0 { v = def }`
abbrev nonzero_or : ℕ → ℤ → ℤ
nonzero_or def (pos zero) = pos def
nonzero_or def z = z

-- The first part of Open. A duration is in nanoseconds.
unfoldable pub complete_config : RawConfig → Config
complete_config raw = record {
  replication_factor = positive_or 3 raw.replication_factor;
  chunk_size = positive_or 8388608 raw.chunk_size;
  dead_threshold = nonzero_or 15000000000 raw.dead_threshold;
}

-- What becomes of a command that the leader hands to Raft: it is applied; it is not, with an error;
-- or there is an error and it is applied all the same, as when the wait for it timed out.
pub data RaftOutcome : Type 0 where
  applied : RaftOutcome
  failed failed_applied : Fault → RaftOutcome

pub record Raft : Type 0 where
  pub is_leader : Bool
  pub outcome : RaftOutcome
