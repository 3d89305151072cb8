-- ===== src/Qos.antt =====
-- The quality-of-service queue of yacul/qos.
pub mod Items
pub mod Buckets
pub mod Queues
mod Tests
