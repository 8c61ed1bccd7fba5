-- ===== src/Connector.antt =====
-- internal/connector: the bounded buffer between the publish path and a downstream connector.
pub mod Buffer
pub mod Buffered
