-- ===== src/Membership.antt =====
-- internal/cluster/membership: which core's Redis is the primary.
pub mod Failover
