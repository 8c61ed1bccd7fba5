-- ===== src/Acl.antt =====
-- internal/cluster/acl: topic filters, rules, and the evaluation of an access-control decision.
pub mod Topic
pub mod Model
pub mod Evaluate
pub mod Standard
