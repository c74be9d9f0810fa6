-- ===== src/Consumer/Polling/Replies.antt =====
-- clientlibrary/worker/polling-shard-consumer.go: the retries in the loop of getRecords, as the
-- replies of callGetRecordsAPI show them.
use vmware_go_kcl_v2_test.Prelude.{
  ℕ, ◌+◌, ◌≡◌, ◌⊎◌, inl, inr, refl, subst, ap, ◌∙◌, String, Option, none, some, List, [], ◌∷◌,
  arith, Bool-cases, Option-cases,
}
use vmware_go_kcl_v2_test.Prelude.Int.{ℤ, pos, ◌-ℤ◌, ◌≤ℤ◌, ltb_ℤ}
use vmware_go_kcl_v2_test.Config.{KinesisClientLibConfiguration}
use vmware_go_kcl_v2_test.Partition.{milliseconds}
use vmware_go_kcl_v2_test.Checkpoint.{
  Error, Reply, ok, failed, lease_not_acquired, conditional_check_failed, shard_claimed,
  sequence_id_not_found, shard_not_assigned, no_lease_owner, bad_timestamp, shutdown_error,
  lease_expired_error, local_tps_exceeded, max_bytes_exceeded, provisioned_throughput_exceeded,
  kms_throttling, resource_not_found, service_error, processor_error,
}
use vmware_go_kcl_v2_test.Checkpoint.Checkpointer.{Checkpointer}
use vmware_go_kcl_v2_test.Kinesis.{Record, GetRecordsOutput, KinesisApi}
use vmware_go_kcl_v2_test.Consumer.Limits.{call_get_records_api}
use vmware_go_kcl_v2_test.Consumer.Polling.{
  RecordProcessor, Consumer, TurnInput, Turn, goes_on, ends, panicked, refresh_lease, retry,
  after_error, after_call, read_turn, turn,
}
use vmware_go_kcl_v2_test.Consumer.Polling.Loop.{run, run_rest}
use vmware_go_kcl_v2_test.Consumer.Polling.Retries.{
  IsWithinRetries, process_records-retries, after_batch-retries, refresh_lease-retries,
  run-IsWithinRetries,
}

module _ (c : Checkpointer) (k : KinesisApi) (p : RecordProcessor c)
    (cfg : KinesisClientLibConfiguration) (consumer_id : String)
    (deaggregate : List Record → List Record) where
  -- What callGetRecordsAPI answers in a turn.
  abbrev pub reply_in : TurnInput c k → Consumer c k p → Reply GetRecordsOutput
  reply_in now w =
      let (w', _) = refresh_lease c k p cfg consumer_id deaggregate now w in
      (call_get_records_api k now.call cfg.max_records w'.shard_iterator w'.limits w'.stream).3

  -- A count of the retried errors since the last success, from the replies alone.
  abbrev pub count_reply : Reply GetRecordsOutput → ℕ → ℕ
  count_reply (ok out) n = 0
  count_reply (failed provisioned_throughput_exceeded) n = n + 1
  count_reply (failed kms_throttling) n = n + 1
  count_reply (failed e) n = n

  -- The consumer that a turn starts from, after what others have done.
  abbrev pub arrived : TurnInput c k → Consumer c k p → Consumer c k p
  arrived now w = record w { table = now.others w.table; stream = now.arrivals w.stream }

  -- The errors since the last success over the turns of a run, from `n` before it.
  pub failures : List (TurnInput c k) → ℕ → Consumer c k p → ℕ
  failures [] n w = n
  failures (now ∷ nows) n w =
      failures nows (count_reply (reply_in now (arrived now w)) n)
        (turn c k p cfg consumer_id deaggregate now (arrived now w)).0

  -- A turn after which the loop goes on counts its reply.
  abbrev Counted : Reply GetRecordsOutput → ℕ → Consumer c k p × Turn → Type 0
  Counted reply n r = (pause : ℤ) → r.1 ≡ goes_on pause → r.0.retried_errors ≡ count_reply reply n

  retry-Counted :
      (e : Error) (wait : ℤ) (w : Consumer c k p) (pause : ℤ)
      → (retry c k p cfg consumer_id deaggregate e wait w).1 ≡ goes_on pause
      → (retry c k p cfg consumer_id deaggregate e wait w).0.retried_errors ≡ w.retried_errors + 1
  unfolding retry
  retry-Counted e wait w pause h = ground arith

  after_error-Counted :
      (e : Error) (cool_down : ℕ) (now : TurnInput c k) (w : Consumer c k p)
      → Counted
          (failed e)
          w.retried_errors
          (after_error c k p cfg consumer_id deaggregate e cool_down now w)
  unfolding after_error
  after_error-Counted provisioned_throughput_exceeded cool_down now w =
      retry-Counted provisioned_throughput_exceeded _ w
  after_error-Counted kms_throttling cool_down now w = retry-Counted kms_throttling _ w
  after_error-Counted local_tps_exceeded cool_down now w = λ pause h. refl
  after_error-Counted max_bytes_exceeded cool_down now w = λ pause h. refl
  after_error-Counted shard_claimed cool_down now w = λ pause h. refl
  after_error-Counted sequence_id_not_found cool_down now w = λ pause h. refl
  after_error-Counted shard_not_assigned cool_down now w = λ pause h. refl
  after_error-Counted no_lease_owner cool_down now w = λ pause h. refl
  after_error-Counted bad_timestamp cool_down now w = λ pause h. refl
  after_error-Counted shutdown_error cool_down now w = λ pause h. refl
  after_error-Counted lease_expired_error cool_down now w = λ pause h. refl
  after_error-Counted resource_not_found cool_down now w = λ pause h. refl
  after_error-Counted (lease_not_acquired why) cool_down now w = λ pause h. refl
  after_error-Counted (conditional_check_failed why) cool_down now w = λ pause h. refl
  after_error-Counted (service_error why) cool_down now w = λ pause h. refl
  after_error-Counted (processor_error why) cool_down now w = λ pause h. refl

  after_call-Counted :
      (reply : Reply GetRecordsOutput) (cool_down : ℕ) (now : TurnInput c k) (w : Consumer c k p)
      → Counted reply w.retried_errors
          (after_call c k p cfg consumer_id deaggregate reply cool_down now w)
  unfolding after_call
  after_call-Counted (failed e) cool_down now w = after_error-Counted e cool_down now w
  after_call-Counted (ok out) cool_down now w = λ pause h.
      after_batch-retries c k p cfg consumer_id deaggregate out now _
      ∙ process_records-retries c k p cfg consumer_id deaggregate out.records
          out.millis_behind_latest _

  refresh_lease-ends :
      (now : TurnInput c k) (w : Consumer c k p) (pause : ℤ)
      → (refresh_lease c k p cfg consumer_id deaggregate now w).1 ≡ some (goes_on pause)
      → ⊥
  unfolding refresh_lease
  refresh_lease-ends now w pause h =
      let due =
        ltb_ℤ (w.shard.lease_timeout -ℤ milliseconds cfg.lease_refresh_period_millis) now.refresh in
      elim (Bool-cases due) [
        | inr fresh ↦ cc (rw fresh at h)
        | inl late ↦ elim (Option-cases (c.get_lease now.lease w.shard consumer_id w.table).2) [
          | inl renewed ↦ cc (rw (late, renewed) at h)
          | inr (e, lost) ↦ cc (rw (late, lost) at h)
        ]
      ]

  read_turn-Counted :
      (over : Option Turn) (now : TurnInput c k) (w : Consumer c k p)
      → ((pause : ℤ) → over ≡ some (goes_on pause) → ⊥)
      → let (_, _, _, reply) =
          call_get_records_api k now.call cfg.max_records w.shard_iterator w.limits w.stream in
        Counted reply w.retried_errors (read_turn c k p cfg consumer_id deaggregate over now w)
  unfolding read_turn
  read_turn-Counted (some turn) now w over = λ pause h. absurd (over pause (ap some h))
  read_turn-Counted none now w over = after_call-Counted _ _ now _

  turn-Counted :
      (now : TurnInput c k) (w : Consumer c k p)
      → Counted (reply_in now w) w.retried_errors (turn c k p cfg consumer_id deaggregate now w)
  unfolding turn
  turn-Counted now w pause h =
      let (w', over) = refresh_lease c k p cfg consumer_id deaggregate now w in
      read_turn-Counted over now w' (refresh_lease-ends now w) pause h
      ∙ ap (count_reply (reply_in now w))
          (refresh_lease-retries c k p cfg consumer_id deaggregate now w)

  run_rest-Counted :
      (t : Consumer c k p × Turn) (rest : Consumer c k p → Consumer c k p × Option Turn) (n : ℕ)
      (final : Consumer c k p → ℕ)
      → ((pause : ℤ) → t.1 ≡ goes_on pause → t.0.retried_errors ≡ n)
      → ((w : Consumer c k p)
          → w.retried_errors ≡ n
          → (rest w).1 ≡ none
          → (rest w).0.retried_errors ≡ final w)
      → (run_rest c k p cfg consumer_id deaggregate t rest).1 ≡ none
      → (run_rest c k p cfg consumer_id deaggregate t rest).0.retried_errors ≡ final t.0
  run_rest-Counted (w, goes_on pause) rest n final now later h = later w (now pause refl) h
  run_rest-Counted (w, ends e) rest n final now later h = cc
  run_rest-Counted (w, panicked why) rest n final now later h = cc

  run-Counted :
      (nows : List (TurnInput c k)) (n : ℕ) (w : Consumer c k p)
      → w.retried_errors ≡ n
      → (run c k p cfg consumer_id deaggregate nows w).1 ≡ none
      → (run c k p cfg consumer_id deaggregate nows w).0.retried_errors ≡ failures nows n w
  unfolding run failures
  run-Counted [] n w e h = e
  run-Counted (now ∷ nows) n w e h =
      let w' = arrived now w in
      let m = count_reply (reply_in now w') n in
      run_rest-Counted (turn c k p cfg consumer_id deaggregate now w')
        (run c k p cfg consumer_id deaggregate nows) m (failures nows m)
        (λ pause g. turn-Counted now w' pause g ∙ ap (count_reply (reply_in now w')) e)
        (run-Counted nows m) h

  -- The loop does not retry for ever: as long as it goes on, whatever the service, the processor and
  -- other workers do, the replies of callGetRecordsAPI since its last success were none or at most
  -- MaxRetryCount times an error that is retried (exceeded throughput or throttled keys), if the
  -- count at the start is so.
  pub retries_bounded :
      (nows : List (TurnInput c k)) (w : Consumer c k p)
      → IsWithinRetries c k p cfg consumer_id deaggregate w
      → (run c k p cfg consumer_id deaggregate nows w).1 ≡ none
      → (failures nows w.retried_errors w ≡ 0)
        ⊎ (pos (failures nows w.retried_errors w) ≤ℤ cfg.max_retry_count)
  retries_bounded nows w b h =
      subst (λ n. (n ≡ 0) ⊎ (pos n ≤ℤ cfg.max_retry_count))
        (run-Counted nows w.retried_errors w refl h)
        (run-IsWithinRetries c k p cfg consumer_id deaggregate nows w b h)
