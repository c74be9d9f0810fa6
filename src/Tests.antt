-- ===== src/Tests.antt =====
-- The theorems at concrete inputs: a lease table and a stream in memory, and two workers.
mod Samples
mod Leases
mod Checkpoints
mod Consumers
mod Workers
mod Subscriptions
mod Claims
mod Metrics
mod Rounds
mod Names
mod Prometheus
mod Steals
mod Logs
