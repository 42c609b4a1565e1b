-- ===== src/Metadata.antt =====
-- internal/metadata: the replicated catalog of keys and nodes.
pub mod Types
pub mod Encoded
pub mod Fsm
pub mod Setup
pub mod Store
pub mod Workers
pub mod Rebalance
pub mod Server
pub mod System
