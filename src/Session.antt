-- ===== src/Session.antt =====
-- internal/session: sessions that outlive a connection, where they are placed, and what is queued
-- for them.
pub mod Placement
pub mod Offline
pub mod Delivery
pub mod Ownership
pub mod Reconciler
