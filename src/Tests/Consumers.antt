-- ===== src/Tests/Consumers.antt =====
-- The theorems on the shard consumers and the configuration at concrete inputs.
use vmware_go_kcl_v2_test.Prelude.{
  ◌⊎◌, List, ℕ, ◌+◌, ◌*◌, ◌≤◌, ◌≡◌, ◌⊎◌, refl, inl, String, true, false, Option, none, some, List,
  [], ◌∷◌, arith,
}
use vmware_go_kcl_v2_test.Prelude.Int.{pos, ◌≤ℤ◌, ◌+ℤ◌, ◌-ℤ◌, ◌*ℤ◌}
use vmware_go_kcl_v2_test.Prelude.Outcome.{Outcome, returns, panics, ◌>>=◌}
use vmware_go_kcl_v2_test.Config.{KinesisClientLibConfiguration}
use vmware_go_kcl_v2_test.Config.Builder.{
  Setter, apply_all, new_kinesis_client_lib_config_with_credentials,
}
use vmware_go_kcl_v2_test.Partition.{get_checkpoint, get_lease_timeout, milliseconds}
use vmware_go_kcl_v2_test.Checkpoint.{parse, lease_text_is_empty}
use vmware_go_kcl_v2_test.Checkpoint.Dynamo.{get_item}
use vmware_go_kcl_v2_test.Checkpoint.Rows.{fetch_checkpoint, fetch_reply, fetch_row, fetch_timeout}
use vmware_go_kcl_v2_test.Consumer.Common.{
  wait_on_parent_shard, get_starting_position, position_after, starting_position,
}
use vmware_go_kcl_v2_test.Consumer.Limits.{
  Limits, refill, refilled, count_bytes, kinesis_read_tps_limit, check_cool_off_period,
  call_get_records_api, call_in_window, check_if_read, renew_window, record_read, start_limits,
}
use vmware_go_kcl_v2_test.Consumer.Limits.Rate.{run_calls, IsWithin, bytes_read_bounded}
use vmware_go_kcl_v2_test.Consumer.Limits.Calls.{make_calls, calls_reached_bounded}
use vmware_go_kcl_v2_test.Consumer.Polling.{
  TurnInput, ends, turn, refresh_lease, read_turn, after_call, process_records, next_read, shutdown,
}
use vmware_go_kcl_v2_test.Consumer.Polling.Loop.{
  run, get_records, after_parent, start_reading, get_shard_iterator,
}
use vmware_go_kcl_v2_test.Consumer.Polling.Leases.{
  HoldsLease, GaveUp, get_records_releases, reads_under_lease,
}
use vmware_go_kcl_v2_test.Consumer.Polling.Replies.{failures, retries_bounded}
use vmware_go_kcl_v2_test.Tests.Samples.{
  sample_config, checkpointer, stream, counter, fresh_limits, call_at, consumer, turn_at,
}

-- Some limits in the middle of a run: the last read had 5,000,000 bytes.
abbrev limits : Limits
limits = record {
  curr_time = pos 1;
  calls_left = 0;
  rem_bytes = pos 100;
  last_check_time = pos 1;
  bytes_read = 5_000_000;
}

bytes_fit :
    (t : Option String) (u : ℕ)
    → count_bytes ((record { sequence_number = some "9"; bytes = 1 ∷ 2 ∷ [] }) ∷ []) ≤ 5_000_000
unfolding count_bytes
bytes_fit t u = omega arith

within : IsWithin stream (pos 100) 5_000_000 limits
unfolding ◌+ℤ◌
within = record { bytes = omega arith; debt = omega arith; known = omega arith }

bytes_read_bounded_example :
    pos
      (run_calls stream
        (pos 100)
        ((call_at (pos 2), some "first") ∷ (call_at (pos 3), some "next") ∷ [])
        limits
        0).1
    ≤ℤ pos 100
      +ℤ pos (2 * 5_000_000)
      +ℤ refill (
          (run_calls stream
            (pos 100)
            ((call_at (pos 2), some "first") ∷ (call_at (pos 3), some "next") ∷ [])
            limits
            0).0.last_check_time
          -ℤ pos 1)
bytes_read_bounded_example =
    bytes_read_bounded stream (pos 100) 5_000_000
      ((call_at (pos 2), some "first") ∷ (call_at (pos 3), some "next") ∷ []) limits 0 bytes_fit
      (omega arith, (omega arith, tt)) within

calls_reached_bounded_example :
    (make_calls stream
      (pos 100)
      (λ n. n)
      (λ iterator n. omega arith)
      ((call_at (pos 2), some "first") ∷ (call_at (pos 3), some "next") ∷ [])
      fresh_limits
      0).0
    ≤ 0 + kinesis_read_tps_limit * (1 + 1)
unfolding ◌+ℤ◌
calls_reached_bounded_example =
    calls_reached_bounded stream (pos 100) (λ n. n) (λ iterator n. omega arith)
      ((call_at (pos 2), some "first") ∷ (call_at (pos 3), some "next") ∷ []) fresh_limits 0 (pos 3)
      1 (omega arith) ((omega arith, omega arith), ((omega arith, omega arith), tt)) (omega arith)

-- The budget is used up.
abbrev in_debt : Limits
in_debt = record limits { rem_bytes = pos 0 }

debt : pos 1 ≤ℤ (check_cool_off_period (pos 2) in_debt).0.rem_bytes +ℤ pos 5_000_000
unfolding check_cool_off_period refilled refill ◌+ℤ◌ ◌-ℤ◌
debt = omega arith

-- Two turns, the second one with the stop channel closed.
ended :
    (get_records checkpointer stream counter sample_config "ann"
      (λ rs. rs)
      1
      (λ s. s)
      (pos 1)
      (turn_at (pos 2) false ∷ turn_at (pos 3) true ∷ [])
      consumer).1
    ≡ some (ends none)
unfolding get_records after_parent wait_on_parent_shard start_reading get_shard_iterator
    get_starting_position position_after starting_position fetch_checkpoint get_item fetch_reply
    fetch_row fetch_timeout lease_text_is_empty parse start_limits get_checkpoint shutdown run turn
    refresh_lease read_turn after_call process_records next_read call_get_records_api call_in_window
    check_if_read renew_window record_read count_bytes milliseconds get_lease_timeout ◌+ℤ◌ ◌-ℤ◌ ◌*ℤ◌
    check_cool_off_period refilled refill
ended = refl

get_records_releases_example :
    (get_records checkpointer stream counter sample_config "ann"
      (λ rs. rs)
      1
      (λ s. s)
      (pos 1)
      (turn_at (pos 2) false ∷ turn_at (pos 3) true ∷ [])
      consumer).0.shard.assigned_to
    ≡ ""
get_records_releases_example =
    get_records_releases checkpointer stream counter sample_config "ann" (λ rs. rs) 1 (λ s. s)
      (pos 1) (turn_at (pos 2) false ∷ turn_at (pos 3) true ∷ []) consumer ended

reads_under_lease_example :
    HoldsLease checkpointer stream counter sample_config "ann"
      (λ rs. rs)
      (turn_at (pos 2) false)
      consumer
    ⊎ GaveUp checkpointer stream counter sample_config "ann"
        (λ rs. rs)
        (turn_at (pos 2) false)
        consumer
reads_under_lease_example =
    reads_under_lease checkpointer stream counter sample_config "ann" (λ rs. rs)
      (turn_at (pos 2) false) consumer

going :
    (run checkpointer stream counter sample_config "ann"
      (λ rs. rs)
      (turn_at (pos 2) false ∷ turn_at (pos 3) false ∷ [])
      consumer).1
    ≡ none
unfolding run turn refresh_lease read_turn after_call process_records next_read call_get_records_api
    call_in_window check_if_read renew_window record_read count_bytes milliseconds get_lease_timeout
    ◌+ℤ◌ ◌-ℤ◌ ◌*ℤ◌ check_cool_off_period refilled refill
going = refl

abbrev two_turns : List (TurnInput checkpointer stream)
two_turns = turn_at (pos 2) false ∷ turn_at (pos 3) false ∷ []

retries_bounded_example :
    (failures checkpointer stream counter sample_config "ann" (λ rs. rs) two_turns 0 consumer ≡ 0)
    ⊎ (pos
          (failures checkpointer stream counter sample_config "ann" (λ rs. rs) two_turns 0 consumer)
        ≤ℤ sample_config.max_retry_count)
retries_bounded_example =
    retries_bounded checkpointer stream counter sample_config "ann" (λ rs. rs) two_turns consumer
      (inl refl) going

abbrev setters : List Setter
setters = Setter.with_failover_time_millis (pos 10) ∷ Setter.with_lease_stealing true ∷ []

abbrev built : Outcome KinesisClientLibConfiguration
built =
    new_kinesis_client_lib_config_with_credentials 1 "uuid" "app" "stream" "region" "" none none
    >>= apply_all setters

abbrev or_sample : Outcome KinesisClientLibConfiguration → KinesisClientLibConfiguration
or_sample (returns c) = c
or_sample (panics why) = sample_config
