-- ===== src/Lib.antt =====
-- The Kinesis client library for Go: how a fleet of workers shares the shards of a stream
-- through a lease table in DynamoDB and processes its records.
--
-- The program. Each worker (clientlibrary/worker/worker.go) keeps a cache of the stream's
-- shards, a ShardStatus for each (clientlibrary/partition/partition.go). In a round of its event
-- loop it synchronises the cache with Kinesis, takes at most one lease of a shard by GetLease of
-- the checkpointer (clientlibrary/checkpoint/dynamodb-checkpointer.go), and with lease stealing
-- on may claim a shard of a busier worker. For a shard that it leases it starts a consumer
-- (polling-shard-consumer.go and common-shard-consumer.go in clientlibrary/worker), which waits
-- for the parent shard, renews the lease, reads records under limits of calls and bytes, and
-- hands them to the application. The application checkpoints through a
-- RecordProcessorCheckpointer (record-processor-checkpointer.go), which writes the same table.
-- Consumer, event loop and checkpointer share the ShardStatus.
--
-- The model. State is passed explicitly: an operation takes the state of the services and the
-- cached shard and returns them, with an optional error in the place of a Go error. A function
-- that may panic returns an Outcome. A reading of the clock is an argument; a time is a number
-- of nanoseconds since Go's zero time, over the integers.
--   * Prelude: shared names, Boolean tests, integers over the native numbers, lists, Outcome.
--   * Config, Config/Builder: config/config.go, initial-stream-pos.go and kcl-config.go: the
--     configuration, its defaults, and the setters as a type of requests that are applied in a
--     chain. An interface value in it is an opaque number, none for nil.
--   * Partition: partition/partition.go.
--   * Checkpoint: the rows of the lease table, errors, and condition expressions as lists of
--     clauses. Below it Service (the DynamoDB client), Dynamo (item access, Init), Lease
--     (GetLease), Rows (CheckpointSequence, FetchCheckpoint and the removals), Claim
--     (ClaimShard), Workers (syncLeases and ListActiveWorkers) and Checkpointer (the interface,
--     and DynamoCheckpoint as one).
--   * Processor: record-processor-checkpointer.go.
--   * Kinesis: the Kinesis client.
--   * Consumer/Limits: callGetRecordsAPI and checkCoolOffPeriod. Consumer/Common: what the
--     consumers share. Consumer/Polling: getRecords, a turn at a time. Consumer/FanOut:
--     fan-out-shard-consumer.go, an event of the subscription at a time.
--   * Metrics: clientlibrary/metrics: the interface with the service that does nothing (Service,
--     from interfaces.go), float64 (Float), and cloudwatch/cloudwatch.go (CloudWatch with its
--     counters, Flush with flushShard, flush and its event loop), and prometheus/prometheus.go
--     (Prometheus, over the client library in PrometheusClient).
--   * Worker/Shards: getShardIDs and syncShard. Worker/Acquire: the part of eventLoop that takes
--     leases. Worker/Rebalance: rebalance. Worker/FanOut: worker-fan-out.go. Worker/Loop:
--     eventLoop, a round at a time. Worker/Lifecycle: NewWorker, initialize, Start, Shutdown and
--     newShardConsumer.
--   * Utils/Random: clientlibrary/utils/random.go.
--   * Logging: logger/logger.go, and in Adapters what logger/logrus.go, logger/zap/zap.go and
--     logger/zerolog/zerolog.go make of a configuration.
--   * Tests: the theorems at concrete inputs, over a lease table and a stream in memory.
--
-- Parameters. The DynamoDB, Kinesis and CloudWatch clients, the Prometheus client library,
-- float64, the record processor and the deaggregation of records are no part of the repository.
-- They are records of operations over a state of their own, so each call may fail at any time.
-- What is documented of DynamoDB is the record of laws Checkpoint.Service.IsDynamoDb, with a
-- table in memory for an instance in Tests.Samples.Tables: a consistent read returns the row, a
-- write is done when its condition holds and not when it does not. The texts of lease timeouts
-- are instants or unparsable texts, since RFC 3339 with nanoseconds determines the instant. A
-- mutex guards single accesses, so it has no counterpart.
--
-- Loops and fuel. Loops over shards, rows, workers and records are structural recursions. The
-- pages of a listing are read on fuel, with none when it runs out; the theorem on syncShard asks
-- for a listing that ends within it, and any fuel above the number of pages is enough. The wait
-- for a parent and the loop of getRecords have no bound in the code: the first takes a number of
-- polls, the second the list of the inputs of its turns (the events, for the fan-out consumer),
-- and both return none when they are still going, so a statement on every prefix of a run is one
-- for every list. Go iterates over a map in any order; the cache and the workers are lists here,
-- and where the order matters the second order is an argument of its own.
--
-- The worker's event loop and that of the CloudWatch service are recursions on the inputs of
-- their rounds, with what the other goroutines do to the shared state between two rounds and
-- whether the stop channel is closed at the select. A random string is filled from a list of
-- random numbers, and is none when they run out. The counters of the metrics are 64-bit words
-- that wrap around.
--
-- Not modelled: the calls by which the consumers report metrics, log lines and the cache times
-- of ProcessRecordsInput, which nothing depends on; the writing of logs by the logging
-- libraries; the waits of Shutdown for the goroutines, which are taken to end; the goroutines
-- themselves, whose effect on the lease table and on the caches of a fleet is the interleaving
-- of the steps of Checkpoint/Lease/Cluster. There a conditional write of GetLease is a step that
-- may come long after its read, and the two parts of releaseLease are steps of their own, while
-- a FetchCheckpoint and a Checkpoint are one step each; the gap between the read and the write
-- of Checkpoint is looked at in Processor/Guards, and a removal that comes late in
-- Checkpoint/Lease/LateRemoval. Two first reports of a shard to the CloudWatch service at the
-- same time are not modelled: it looks the shard up before it takes the mutex. Products of
-- float64 are exact.
pub mod Prelude
pub mod Config
pub mod Partition
pub mod Checkpoint
pub mod Processor
pub mod Kinesis
pub mod Metrics
pub mod Utils
pub mod Logging
pub mod Consumer
pub mod Worker
pub mod Tests
