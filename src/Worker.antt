-- ===== src/Worker.antt =====
-- clientlibrary/worker/worker.go: the worker, its cache of shards, and what one round of its event
-- loop does. The cache is a list in the order in which a `range` visits it.
pub mod Shards
pub mod Rebalance
pub mod Acquire
pub mod FanOut
pub mod Loop
pub mod Lifecycle
