-- ===== src/Consumer/Limits.antt =====
-- clientlibrary/worker/polling-shard-consumer.go: callGetRecordsAPI and checkCoolOffPeriod, which
-- keep a shard's reads under its limits of calls and bytes. The product of float64 seconds and
-- bytes per second is the exact quotient here, rounded towards zero.
pub mod Calls
pub mod Bytes
pub mod Rate
use vmware_go_kcl_v2_test.Prelude.{
  ℕ, zero, suc, ◌+◌, ◌-◌, ◌*◌, ◌/◌, ◌%◌, String, Bool, true, false, Option, List, [], ◌∷◌, length,
  ltb, ◌==◌, if◌then◌else◌,
}
use vmware_go_kcl_v2_test.Prelude.Int.{ℤ, pos, negsuc, sub_ℕ, ◌+ℤ◌, ◌-ℤ◌, ltb_ℤ, ◌==ℤ◌}
use vmware_go_kcl_v2_test.Partition.{Time, zero_time}
use vmware_go_kcl_v2_test.Checkpoint.{Reply, ok, failed, local_tps_exceeded, max_bytes_exceeded}
use vmware_go_kcl_v2_test.Kinesis.{Record, GetRecordsOutput, KinesisApi}

abbrev pub kinesis_read_tps_limit : ℕ
kinesis_read_tps_limit = 5

abbrev pub max_bytes : ℕ
max_bytes = 10_000_000

abbrev pub max_bytes_per_second : ℕ
max_bytes_per_second = 2_000_000

-- The fields of PollingShardConsumer by which it limits its calls. `calls_left` never falls below
-- 0, for it is only reduced when it is at least 1.
pub record Limits : Type 0 where
  pub curr_time : Time
  pub calls_left : ℕ
  pub rem_bytes : ℤ
  pub last_check_time : Time
  pub bytes_read : ℕ

-- How getRecords sets them before its loop.
unfoldable pub start_limits : Time → Time → Limits
start_limits now last_check_time = record {
  curr_time = now;
  calls_left = kinesis_read_tps_limit;
  rem_bytes = pos max_bytes;
  last_check_time = last_check_time;
  bytes_read = 0;
}

-- int(secondsPassed * MaxBytesPerSecond) for a number of nanoseconds.
unfoldable pub refill : ℤ → ℤ
refill (pos n) = pos (n * max_bytes_per_second / 1_000_000_000)
refill (negsuc n) = sub_ℕ 0 (suc n * max_bytes_per_second / 1_000_000_000)

-- The seconds after which the bytes of a read are paid for.
unfoldable pub cool_down : ℕ → ℕ
cool_down bytes_read =
    if ltb 0 (bytes_read % max_bytes_per_second)
    then bytes_read / max_bytes_per_second + 1
    else bytes_read / max_bytes_per_second

cap_bytes : ℤ → ℤ
cap_bytes n = if ltb_ℤ (pos max_bytes) n then pos max_bytes else n

-- The cached budget after the refill of this check.
unfoldable pub refilled : Time → Limits → ℤ
unfolding cap_bytes
refilled now l = cap_bytes (l.rem_bytes +ℤ refill (now -ℤ l.last_check_time))

-- The seconds to wait, with `true` for the error.
unfoldable pub check_cool_off_period : Time → Limits → Limits × ℕ × Bool
check_cool_off_period now l =
    let budget = refilled now l in
    if ltb_ℤ budget (pos 1)
    then (record l { last_check_time = now; rem_bytes = budget }, cool_down l.bytes_read, true)
    else (record l { last_check_time = now; rem_bytes = budget -ℤ pos l.bytes_read }, 0, false)

-- The readings of the clock: in the check, for the time since the window began, for a new window,
-- and after the read.
pub record CallInstants : Type 0 where
  pub check : Time
  pub since : Time
  pub renew : Time
  pub done : Time

unfoldable pub check_if_read : Time → Limits → Limits × ℕ × Bool
check_if_read now l = if l.bytes_read == 0 then (l, 0, false) else check_cool_off_period now l

-- Every new second there is a fresh set of calls.
unfoldable pub renew_window : Time → Time → Limits → Limits
renew_window since renew l =
    if ltb_ℤ (pos 1_000_000_000) (since -ℤ l.curr_time)
    then record l { calls_left = kinesis_read_tps_limit; curr_time = renew }
    else l

unfoldable pub count_bytes : List Record → ℕ
count_bytes [] = 0
count_bytes (r ∷ rs) = length r.bytes + count_bytes rs

unfoldable pub record_read : Time → Reply GetRecordsOutput → Limits → Limits
unfolding count_bytes
record_read done (failed e) l = l
record_read done (ok out) l = record l {
  bytes_read = count_bytes out.records;
  last_check_time = if l.last_check_time ==ℤ zero_time then done else l.last_check_time;
}

module _ (k : KinesisApi) where
  -- After the check has passed.
  unfoldable pub call_in_window :
      CallInstants
      → ℤ
      → Option String
      → Limits
      → k.State
      → k.State × Limits × ℕ × Reply GetRecordsOutput
  unfolding record_read
  call_in_window now limit iterator l s =
      let (s', reply) = k.get_records limit iterator s in
      if ltb l.calls_left 1
      then (s, l, 0, failed local_tps_exceeded)
      else (s', record_read now.done reply (record l { calls_left = l.calls_left - 1 }), 0, reply)

  unfoldable pub call_get_records_api :
      CallInstants
      → ℤ
      → Option String
      → Limits
      → k.State
      → k.State × Limits × ℕ × Reply GetRecordsOutput
  call_get_records_api now limit iterator l s =
      let (l', wait, over) = check_if_read now.check l in
      if over
      then (s, l', wait, failed max_bytes_exceeded)
      else call_in_window now limit iterator (renew_window now.since now.renew l') s
