-- ===== src/Consumer/Polling/Leases.antt =====
-- clientlibrary/worker/polling-shard-consumer.go: the lease in the loop of getRecords.
use vmware_go_kcl_v2_test.Prelude.{
  ℕ, ◌≡◌, ◌⊎◌, inl, inr, refl, sym, ◌∙◌, String, Option, none, some, List, Bool-cases, Option-cases,
  if◌then◌else◌,
}
use vmware_go_kcl_v2_test.Prelude.Int.{◌-ℤ◌, ◌≤ℤ◌, ltb_ℤ, ltb_ℤ→le}
use vmware_go_kcl_v2_test.Config.{KinesisClientLibConfiguration}
use vmware_go_kcl_v2_test.Partition.{Time, milliseconds, get_lease_timeout, set_lease_owner}
use vmware_go_kcl_v2_test.Checkpoint.{Error, is_lease_not_acquired}
use vmware_go_kcl_v2_test.Checkpoint.Checkpointer.{Checkpointer}
use vmware_go_kcl_v2_test.Kinesis.{Record, KinesisApi}
use vmware_go_kcl_v2_test.Consumer.Common.{release_lease}
use vmware_go_kcl_v2_test.Consumer.Polling.{
  RecordProcessor, Consumer, TurnInput, Turn, ends, refresh_lease, read_turn, turn,
}
use vmware_go_kcl_v2_test.Consumer.Polling.Loop.{get_records, deferred_release}

module _ (c : Checkpointer) (k : KinesisApi) (p : RecordProcessor c)
    (cfg : KinesisClientLibConfiguration) (consumer_id : String)
    (deaggregate : List Record → List Record) where
  deferred_release-owner :
      (result : Consumer c k p × Option Turn) {over : Turn}
      → result.1 ≡ some over
      → (deferred_release c k p cfg consumer_id deaggregate result).0.shard.assigned_to ≡ ""
  unfolding release_lease set_lease_owner
  deferred_release-owner (w, none) h = cc
  deferred_release-owner (w, some over) h = refl

  deferred_release-result :
      (result : Consumer c k p × Option Turn)
      → (deferred_release c k p cfg consumer_id deaggregate result).1 ≡ result.1
  deferred_release-result (w, none) = refl
  deferred_release-result (w, some over) = refl

  -- However getRecords ends, by an error, a lost lease, a closed shard, a stop or a panic, the
  -- cached shard has no owner then.
  pub get_records_releases :
      (polls : ℕ) (pause : c.State → c.State) (now : Time) (nows : List (TurnInput c k))
      (w : Consumer c k p) {over : Turn}
      → (get_records c k p cfg consumer_id deaggregate polls pause now nows w).1 ≡ some over
      → (get_records c k p cfg consumer_id deaggregate polls pause now nows w).0.shard.assigned_to
        ≡ ""
  unfolding get_records
  get_records_releases polls pause now nows w h =
      deferred_release-owner _ (sym (deferred_release-result _) ∙ h)

  -- The lease is not due for a refresh in this turn, or the refresh succeeds.
  abbrev pub HoldsLease : TurnInput c k → Consumer c k p → Type 0
  HoldsLease now w =
      (now.refresh ≤ℤ (w.shard.lease_timeout -ℤ milliseconds cfg.lease_refresh_period_millis))
      ⊎ ((c.get_lease now.lease w.shard consumer_id w.table).2 ≡ none)

  -- A turn that neither reads the stream nor calls the processor, and ends the loop.
  pub record GaveUp (now : TurnInput c k) (w : Consumer c k p) : Type 0 where
    pub result : Option Error
    pub ended : (turn c k p cfg consumer_id deaggregate now w).1 ≡ ends result
    pub stream : (turn c k p cfg consumer_id deaggregate now w).0.stream ≡ w.stream
    pub processor : (turn c k p cfg consumer_id deaggregate now w).0.processor ≡ w.processor

  -- The loop reads only under a lease: in each turn the lease is not due for a refresh or the
  -- refresh succeeds, or else the loop ends with neither a read nor a call of the processor.
  pub reads_under_lease :
      (now : TurnInput c k) (w : Consumer c k p) → HoldsLease now w ⊎ GaveUp now w
  unfolding turn refresh_lease read_turn get_lease_timeout
  reads_under_lease now w =
      let due =
        ltb_ℤ (w.shard.lease_timeout -ℤ milliseconds cfg.lease_refresh_period_millis) now.refresh in
      elim (Bool-cases due) [
        | inr fresh ↦ inl (
            inl (
              ltb_ℤ→le (w.shard.lease_timeout -ℤ milliseconds cfg.lease_refresh_period_millis)
                now.refresh fresh))
        | inl late ↦ elim (Option-cases (c.get_lease now.lease w.shard consumer_id w.table).2) [
          | inl renewed ↦ inl (inr renewed)
          | inr (e, lost) ↦ inr record {
            result = if is_lease_not_acquired e then none else some e;
            ended = rw (late, lost) refl;
            stream = rw (late, lost) refl;
            processor = rw (late, lost) refl;
          }
        ]
      ]
