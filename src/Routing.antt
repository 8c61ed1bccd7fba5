-- ===== src/Routing.antt =====
-- internal/cluster/routing: which nodes have a subscriber for a topic.
pub mod Keys
pub mod Table
pub mod Offline
pub mod Reassert
pub mod Shared
