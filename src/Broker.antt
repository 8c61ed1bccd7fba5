-- ===== src/Broker.antt =====
-- internal/broker/hooks.go: what the gateway decides at the broker's hooks.
pub mod Device
pub mod Topics
pub mod Connections
pub mod Filters
pub mod Authenticate
pub mod Publish
pub mod Limits
pub mod Retained
pub mod PacketIds
pub mod Inflight
pub mod OfflineQueue
pub mod Dispatch
