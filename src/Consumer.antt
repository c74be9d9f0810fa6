-- ===== src/Consumer.antt =====
-- clientlibrary/worker: the shard consumers.
pub mod Limits
pub mod Common
pub mod Polling
pub mod FanOut
