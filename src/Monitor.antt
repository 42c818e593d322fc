-- ===== src/Monitor.antt =====
-- executor/src/stack/blockchain_monitor.rs and blockchain_monitor/stack_collection.rs.
pub mod Collection
pub mod Events
pub mod Tests
