-- ===== src/Lifecycle.antt =====
-- internal/cluster/lifecycle: moving sessions between edge nodes.
pub mod Rebalance
pub mod Sweep
