-- ===== src/Raft.antt =====
-- internal/cluster/raft: the replicated state machine and what reads it.
pub mod Command
pub mod Fsm
pub mod Reads
pub mod Snapshot
pub mod Revocation
pub mod AclCache
