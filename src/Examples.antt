-- ===== src/Examples.antt =====
-- Concrete inputs at which the theorems apply, one module for each component.
mod Decisions
mod Replication
mod Sessions
mod Buffers
mod Rebalancing
mod Routes
mod Owners
mod Sweeps
mod Failovers
mod Hooks
mod Publishes
mod Connections
mod Dispatches
mod Logins
mod Caches
mod Retained
mod Queues
