-- ===== src/Consumer/Polling/Retries.antt =====
-- clientlibrary/worker/polling-shard-consumer.go: the retries in the loop of getRecords.
use vmware_go_kcl_v2_test.Prelude.{
  ℕ, ◌+◌, ◌≡◌, ◌⊎◌, inl, inr, refl, sym, subst, ◌∙◌, String, Option, none, some, List, [], ◌∷◌,
  arith, Bool-cases, Option-cases,
}
use vmware_go_kcl_v2_test.Prelude.Int.{ℤ, pos, ◌-ℤ◌, ◌≤ℤ◌, ltb_ℤ, ltb_ℤ→le}
use vmware_go_kcl_v2_test.Prelude.Outcome.{Outcome, returns, panics}
use vmware_go_kcl_v2_test.Config.{KinesisClientLibConfiguration}
use vmware_go_kcl_v2_test.Partition.{milliseconds}
use vmware_go_kcl_v2_test.Checkpoint.{
  Error, Reply, ok, failed, lease_not_acquired, conditional_check_failed, shard_claimed,
  sequence_id_not_found, shard_not_assigned, no_lease_owner, bad_timestamp, shutdown_error,
  lease_expired_error, local_tps_exceeded, max_bytes_exceeded, provisioned_throughput_exceeded,
  kms_throttling, resource_not_found, service_error, processor_error,
}
use vmware_go_kcl_v2_test.Checkpoint.Checkpointer.{Checkpointer}
use vmware_go_kcl_v2_test.Kinesis.{Record, GetRecordsOutput, KinesisApi}
use vmware_go_kcl_v2_test.Consumer.Polling.{
  RecordProcessor, Consumer, TurnInput, Turn, goes_on, ends, panicked, refresh_lease, retry,
  after_error, process_records, shutdown, next_read, after_batch, after_call, read_turn, turn,
}
use vmware_go_kcl_v2_test.Consumer.Polling.Loop.{run, run_rest}

module _ (c : Checkpointer) (k : KinesisApi) (p : RecordProcessor c)
    (cfg : KinesisClientLibConfiguration) (consumer_id : String)
    (deaggregate : List Record → List Record) where
  -- The retries so far are within the limit.
  abbrev pub IsWithinRetries : Consumer c k p → Type 0
  IsWithinRetries w = (w.retried_errors ≡ 0) ⊎ (pos w.retried_errors ≤ℤ cfg.max_retry_count)

  -- The result of a turn has retries within the limit if the loop goes on.
  abbrev Bounded : Consumer c k p × Turn → Type 0
  Bounded r = (pause : ℤ) → r.1 ≡ goes_on pause → IsWithinRetries r.0

  retry-Bounded :
      (e : Error) (wait : ℤ) (w : Consumer c k p)
      → Bounded (retry c k p cfg consumer_id deaggregate e wait w)
  unfolding retry
  retry-Bounded e wait w pause h =
      elim (Bool-cases (ltb_ℤ cfg.max_retry_count (pos (w.retried_errors + 1)))) [
        | inl spent ↦ absurd (ground arith)
        | inr left ↦ rw left (inr (ltb_ℤ→le cfg.max_retry_count (pos (w.retried_errors + 1)) left))
      ]

  after_error-Bounded :
      (e : Error) (cool_down : ℕ) (now : TurnInput c k) (w : Consumer c k p)
      → IsWithinRetries w
      → Bounded (after_error c k p cfg consumer_id deaggregate e cool_down now w)
  unfolding after_error
  after_error-Bounded provisioned_throughput_exceeded cool_down now w b =
      retry-Bounded provisioned_throughput_exceeded _ w
  after_error-Bounded kms_throttling cool_down now w b = retry-Bounded kms_throttling _ w
  after_error-Bounded local_tps_exceeded cool_down now w b = λ pause h. b
  after_error-Bounded max_bytes_exceeded cool_down now w b = λ pause h. b
  after_error-Bounded shard_claimed cool_down now w b = λ pause h. cc
  after_error-Bounded sequence_id_not_found cool_down now w b = λ pause h. cc
  after_error-Bounded shard_not_assigned cool_down now w b = λ pause h. cc
  after_error-Bounded no_lease_owner cool_down now w b = λ pause h. cc
  after_error-Bounded bad_timestamp cool_down now w b = λ pause h. cc
  after_error-Bounded shutdown_error cool_down now w b = λ pause h. cc
  after_error-Bounded lease_expired_error cool_down now w b = λ pause h. cc
  after_error-Bounded resource_not_found cool_down now w b = λ pause h. cc
  after_error-Bounded (lease_not_acquired why) cool_down now w b = λ pause h. cc
  after_error-Bounded (conditional_check_failed why) cool_down now w b = λ pause h. cc
  after_error-Bounded (service_error why) cool_down now w b = λ pause h. cc
  after_error-Bounded (processor_error why) cool_down now w b = λ pause h. cc

  pub process_records-retries :
      (records : List Record) (millis : Option ℤ) (w : Consumer c k p)
      → (process_records c k p cfg consumer_id deaggregate records millis w).0.retried_errors
        ≡ w.retried_errors
  unfolding process_records
  process_records-retries records none w = refl
  process_records-retries records (some m) w = ground arith

  next_read-retries :
      (next : Option String) (out : GetRecordsOutput) (now : TurnInput c k) (w : Consumer c k p)
      → (next_read c k p cfg consumer_id deaggregate next out now w).0.retried_errors
        ≡ w.retried_errors
  unfolding next_read shutdown
  next_read-retries none out now w = refl
  next_read-retries (some iterator) out now w = ground arith

  pub after_batch-retries :
      (out : GetRecordsOutput) (now : TurnInput c k)
      (batch : Consumer c k p × Outcome (Option Error))
      → (after_batch c k p cfg consumer_id deaggregate out now batch).0.retried_errors
        ≡ batch.0.retried_errors
  after_batch-retries out now (w, panics why) = refl
  after_batch-retries out now (w, returns (some e)) = refl
  after_batch-retries out now (w, returns none) =
      next_read-retries out.next_shard_iterator out now w

  after_call-Bounded :
      (reply : Reply GetRecordsOutput) (cool_down : ℕ) (now : TurnInput c k) (w : Consumer c k p)
      → IsWithinRetries w
      → Bounded (after_call c k p cfg consumer_id deaggregate reply cool_down now w)
  unfolding after_call
  after_call-Bounded (failed e) cool_down now w b = after_error-Bounded e cool_down now w b
  after_call-Bounded (ok out) cool_down now w b = λ pause h. inl (
      after_batch-retries out now _
      ∙ process_records-retries out.records out.millis_behind_latest _)

  read_turn-Bounded :
      (over : Option Turn) (now : TurnInput c k) (w : Consumer c k p)
      → IsWithinRetries w
      → Bounded (read_turn c k p cfg consumer_id deaggregate over now w)
  unfolding read_turn
  read_turn-Bounded (some turn) now w b = λ pause h. b
  read_turn-Bounded none now w b = after_call-Bounded _ _ now _ b

  pub refresh_lease-retries :
      (now : TurnInput c k) (w : Consumer c k p)
      → (refresh_lease c k p cfg consumer_id deaggregate now w).0.retried_errors ≡ w.retried_errors
  unfolding refresh_lease
  refresh_lease-retries now w =
      let due =
        ltb_ℤ (w.shard.lease_timeout -ℤ milliseconds cfg.lease_refresh_period_millis) now.refresh in
      elim (Bool-cases due) [
        | inr fresh ↦ rw fresh refl
        | inl late ↦ elim (Option-cases (c.get_lease now.lease w.shard consumer_id w.table).2) [
          | inl renewed ↦ rw (late, renewed) refl
          | inr (e, lost) ↦ rw (late, lost) refl
        ]
      ]

  turn-Bounded :
      (now : TurnInput c k) (w : Consumer c k p)
      → IsWithinRetries w
      → Bounded (turn c k p cfg consumer_id deaggregate now w)
  unfolding turn
  turn-Bounded now w b =
      let (w', over) = refresh_lease c k p cfg consumer_id deaggregate now w in
      read_turn-Bounded over now w' (
        subst (λ n. (n ≡ 0) ⊎ (pos n ≤ℤ cfg.max_retry_count)) (sym (refresh_lease-retries now w)) b)

  run_rest-IsWithinRetries :
      (t : Consumer c k p × Turn) (rest : Consumer c k p → Consumer c k p × Option Turn)
      → Bounded t
      → ((w : Consumer c k p) → IsWithinRetries w → (rest w).1 ≡ none → IsWithinRetries (rest w).0)
      → (run_rest c k p cfg consumer_id deaggregate t rest).1 ≡ none
      → IsWithinRetries (run_rest c k p cfg consumer_id deaggregate t rest).0
  run_rest-IsWithinRetries (w, goes_on pause) rest b later h = later w (b pause refl) h
  run_rest-IsWithinRetries (w, ends e) rest b later h = cc
  run_rest-IsWithinRetries (w, panicked why) rest b later h = cc

  pub run-IsWithinRetries :
      (nows : List (TurnInput c k)) (w : Consumer c k p)
      → IsWithinRetries w
      → (run c k p cfg consumer_id deaggregate nows w).1 ≡ none
      → IsWithinRetries (run c k p cfg consumer_id deaggregate nows w).0
  unfolding run
  run-IsWithinRetries [] w b h = b
  run-IsWithinRetries (now ∷ nows) w b h =
      run_rest-IsWithinRetries _ (run c k p cfg consumer_id deaggregate nows) (turn-Bounded now _ b)
        (run-IsWithinRetries nows) h
