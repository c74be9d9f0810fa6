-- ===== src/Consumer/Polling.antt =====
-- clientlibrary/worker/polling-shard-consumer.go and processRecords of common-shard-consumer.go: the
-- loop that polls one shard, turn by turn. Metrics and log lines are left out, and so are the cache
-- times of ProcessRecordsInput.
pub mod Loop
pub mod Leases
pub mod Retries
pub mod Replies
use vmware_go_kcl_v2_test.Prelude.{
  ℕ, zero, suc, ◌+◌, ◌*◌, String, Bool, true, false, not, ◌&&◌, ◌||◌, Option, none, some, List, [],
  ◌∷◌, length, ltb, ◌==◌, if◌then◌else◌,
}
use vmware_go_kcl_v2_test.Prelude.Int.{ℤ, pos, ◌-ℤ◌, ltb_ℤ}
use vmware_go_kcl_v2_test.Prelude.Outcome.{Outcome, returns, panics}
use vmware_go_kcl_v2_test.Config.{KinesisClientLibConfiguration}
use vmware_go_kcl_v2_test.Partition.{
  Time, ShardStatus, zero_time, milliseconds, get_checkpoint, get_lease_timeout,
}
use vmware_go_kcl_v2_test.Checkpoint.{
  Error, Reply, ok, failed, local_tps_exceeded, max_bytes_exceeded, provisioned_throughput_exceeded,
  kms_throttling, is_lease_not_acquired,
}
use vmware_go_kcl_v2_test.Checkpoint.Lease.{Instants}
use vmware_go_kcl_v2_test.Checkpoint.Claim.{blocking}
use vmware_go_kcl_v2_test.Checkpoint.Checkpointer.{Checkpointer}
use vmware_go_kcl_v2_test.Kinesis.{Record, StartingPosition, GetRecordsOutput, KinesisApi}
use vmware_go_kcl_v2_test.Consumer.Limits.{Limits, CallInstants, start_limits, call_get_records_api}
use vmware_go_kcl_v2_test.Consumer.Common.{
  ShutdownReason, requested, terminate, release_lease, get_starting_position, wait_on_parent_shard,
}

-- IRecordProcessor, which the application implements. It is given the shard and the table, for it
-- may checkpoint.
pub record RecordProcessor (c : Checkpointer) : Type 1 where
  pub State : Type 0
  pub initialize : (shard_id sequence_number : String) → State → State
  pub process_records :
      List Record → ℤ → State → ShardStatus → c.State → State × ShardStatus × c.State × Option Error
  pub shutdown : ShutdownReason → State → ShardStatus → c.State → State × ShardStatus × c.State

-- What the loop works on.
pub record Consumer (c : Checkpointer) (k : KinesisApi) (p : RecordProcessor c) : Type 0 where
  pub table : c.State
  pub stream : k.State
  pub processor : p.State
  pub shard : ShardStatus
  pub limits : Limits
  pub shard_iterator : Option String
  pub retried_errors : ℕ

-- What a turn takes from outside: the readings of the clock, whether the stop channel is closed,
-- and what others do to the table and the stream before it.
pub record TurnInput (c : Checkpointer) (k : KinesisApi) : Type 0 where
  pub refresh : Time
  pub lease : Instants
  pub call : CallInstants
  pub wait : Time
  pub stop : Bool
  pub others : c.State → c.State
  pub arrivals : k.State → k.State

-- How a turn ends: with a pause (in nanoseconds) before the next one, or with the loop.
pub data Turn : Type 0 where
  goes_on : ℤ → Turn
  ends : Option Error → Turn
  panicked : String → Turn

exp2 : ℕ → ℕ
exp2 zero = 1
exp2 (suc n) = 2 * exp2 n

-- waitASecond: the time that is slept.
unfoldable pub wait_a_second : Time → Time → ℤ
wait_a_second now time_passed =
    let wait_time = now -ℤ time_passed in
    if ltb_ℤ wait_time (pos 1_000_000_000) then pos 1_000_000_000 -ℤ wait_time else pos 0

module _ (c : Checkpointer) (k : KinesisApi) (p : RecordProcessor c)
    (cfg : KinesisClientLibConfiguration) (consumer_id : String)
    (deaggregate : List Record → List Record) where
  abbrev refresh_reply : Option Error → Consumer c k p → Consumer c k p × Option Turn
  refresh_reply none w = (w, none)
  refresh_reply (some e) w = (w, some (ends (if is_lease_not_acquired e then none else some e)))

  -- The refresh of the lease, with the end of the loop when it fails.
  unfoldable pub refresh_lease : TurnInput c k → Consumer c k p → Consumer c k p × Option Turn
  unfolding get_lease_timeout
  refresh_lease now w =
      let (t, shard, e) = c.get_lease now.lease w.shard consumer_id w.table in
      let refreshed = refresh_reply e (record w { table = t; shard = shard }) in
      if ltb_ℤ (get_lease_timeout w.shard -ℤ milliseconds cfg.lease_refresh_period_millis)
        now.refresh
      then refreshed
      else (w, none)

  -- A retry after a pause, until there were too many.
  unfoldable pub retry : Error → ℤ → Consumer c k p → Consumer c k p × Turn
  retry e pause w =
      let w' = record w { retried_errors = w.retried_errors + 1 } in
      if ltb_ℤ cfg.max_retry_count (pos w'.retried_errors)
      then (w', ends (some e))
      else (w', goes_on pause)

  -- The errors of callGetRecordsAPI. The float64 power of the backoff is exact here.
  unfoldable pub after_error : Error → ℕ → TurnInput c k → Consumer c k p → Consumer c k p × Turn
  unfolding exp2
  after_error provisioned_throughput_exceeded cool_down now w =
      retry provisioned_throughput_exceeded (wait_a_second now.wait w.limits.curr_time) w
  after_error local_tps_exceeded cool_down now w =
      (w, goes_on (wait_a_second now.wait w.limits.curr_time))
  after_error max_bytes_exceeded cool_down now w = (w, goes_on (pos (cool_down * 1_000_000_000)))
  after_error kms_throttling cool_down now w =
      retry kms_throttling (milliseconds (pos (exp2 (w.retried_errors + 1) * 100))) w
  after_error e cool_down now w = (w, ends (some e))

  -- processRecords: the records are handed over, unless there are none and the application does
  -- not want to be called for none.
  unfoldable pub process_records :
      List Record → Option ℤ → Consumer c k p → Consumer c k p × Outcome (Option Error)
  process_records records none w = (w, panics "nil pointer dereference")
  process_records records (some millis_behind_latest) w =
      let dars = deaggregate records in
      let (processor, shard, table, e) =
        p.process_records dars millis_behind_latest w.processor w.shard w.table in
      if ltb 0 (length dars) || cfg.call_process_records_even_for_empty_record_list
      then (record w { processor = processor; shard = shard; table = table }, returns e)
      else (w, returns none)

  unfoldable pub shutdown : ShutdownReason → Consumer c k p → Consumer c k p
  shutdown reason w =
      let (processor, shard, table) = p.shutdown reason w.processor w.shard w.table in
      record w { processor = processor; shard = shard; table = table }

  -- int64 0 for nil, as aws.ToInt64 has it.
  abbrev to_int : Option ℤ → ℤ
  to_int none = pos 0
  to_int (some n) = n

  unfoldable pub idle_time : GetRecordsOutput → ℤ
  idle_time out =
      if length out.records == 0
        && ltb_ℤ (to_int out.millis_behind_latest) cfg.idle_time_between_reads_in_millis
      then milliseconds cfg.idle_time_between_reads_in_millis
      else pos 0

  -- What follows a batch that was processed: the end of a closed shard, the next read, or a stop.
  unfoldable pub next_read :
      Option String → GetRecordsOutput → TurnInput c k → Consumer c k p → Consumer c k p × Turn
  unfolding shutdown
  next_read none out now w = (shutdown terminate w, ends none)
  next_read (some iterator) out now w =
      let w' = record w { shard_iterator = some iterator } in
      if now.stop then (shutdown requested w', ends none) else (w', goes_on (idle_time out))

  abbrev after_batch :
      GetRecordsOutput
      → TurnInput c k
      → Consumer c k p × Outcome (Option Error)
      → Consumer c k p × Turn
  after_batch out now (w, panics why) = (w, panicked why)
  after_batch out now (w, returns (some e)) = (w, ends (some e))
  after_batch out now (w, returns none) = next_read out.next_shard_iterator out now w

  unfoldable pub after_call :
      Reply GetRecordsOutput → ℕ → TurnInput c k → Consumer c k p → Consumer c k p × Turn
  after_call (failed e) cool_down now w = after_error e cool_down now w
  after_call (ok out) cool_down now w =
      let w' = record w { retried_errors = 0 } in
      after_batch out now (process_records out.records out.millis_behind_latest w')

  unfoldable pub read_turn : Option Turn → TurnInput c k → Consumer c k p → Consumer c k p × Turn
  read_turn (some turn) now w = (w, turn)
  read_turn none now w =
      let (stream, limits, cool_down, reply) =
        call_get_records_api k now.call cfg.max_records w.shard_iterator w.limits w.stream in
      after_call reply cool_down now (record w { stream = stream; limits = limits })

  -- One turn of the loop of getRecords.
  unfoldable pub turn : TurnInput c k → Consumer c k p → Consumer c k p × Turn
  turn now w = let (w', over) = refresh_lease now w in read_turn over now w'
