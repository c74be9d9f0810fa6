-- ===== src/Consumer/FanOut/Events.antt =====
-- clientlibrary/worker/fan-out-shard-consumer.go: what the loop does with the events.
use vmware_go_kcl_v2_test.Prelude.{
  ℕ, ltb, length, ◌||◌, ◌≡◌, ◌≢◌, inl, inr, refl, sym, ap, ◌∙◌, String, Bool, Option, none, some,
  List, [], ◌∷◌, str_eq, str_ne, Bool-cases,
}
use vmware_go_kcl_v2_test.Prelude.Int.{ℤ, pos}
use vmware_go_kcl_v2_test.Prelude.Outcome.{Outcome, returns, panics}
use vmware_go_kcl_v2_test.Config.{KinesisClientLibConfiguration, after_sequence_number}
use vmware_go_kcl_v2_test.Partition.{set_lease_owner}
use vmware_go_kcl_v2_test.Checkpoint.{Error}
use vmware_go_kcl_v2_test.Checkpoint.Checkpointer.{Checkpointer}
use vmware_go_kcl_v2_test.Kinesis.{Record, KinesisApi}
use vmware_go_kcl_v2_test.Consumer.Common.{release_lease}
use vmware_go_kcl_v2_test.Consumer.Polling.{
  RecordProcessor, Consumer, Turn, goes_on, ends, panicked, process_records,
}
use vmware_go_kcl_v2_test.Consumer.FanOut.{
  error_turn, Subscriber, Event, stopped, refresh_due, stream_ended, unexpected, batch, refresh,
  resubscribe, after_end, after_records, take_event, events_rest, take_events, lease_released,
  get_records_by_events,
}

-- The number of the last batch among the events, or the one before them.
abbrev pub last_number : List Event → Option String → Option String
last_number [] number = number
last_number (batch n records millis ∷ es) number = last_number es n
last_number (e ∷ es) number = last_number es number

module _ (c : Checkpointer) (k : KinesisApi) (p : RecordProcessor c)
    (cfg : KinesisClientLibConfiguration) (consumer_id consumer_arn : String)
    (deaggregate : List Record → List Record) where
  lease_released-result :
      (r : Consumer c k p × Option Turn)
      → (lease_released c k p cfg consumer_id consumer_arn deaggregate r).1 ≡ r.1
  lease_released-result (w, none) = refl
  lease_released-result (w, some over) = refl

  lease_released-owner :
      (r : Consumer c k p × Option Turn) {over : Turn}
      → r.1 ≡ some over
      → (lease_released c k p cfg consumer_id consumer_arn deaggregate r).0.shard.assigned_to ≡ ""
  unfolding release_lease set_lease_owner
  lease_released-owner (w, none) h = cc
  lease_released-owner (w, some over) h = refl

  -- However getRecords of the fan-out consumer ends, by an error, a lost lease, a closed shard, a
  -- stop, a stream that cannot be renewed or a panic, the cached shard has no owner then.
  pub get_records_by_events_releases :
      (polls : ℕ) (pause : c.State → c.State) (es : List Event) (w : Consumer c k p) {over : Turn}
      → (get_records_by_events c k p cfg consumer_id consumer_arn deaggregate polls pause es w).1
        ≡ some over
      → (get_records_by_events c k p cfg consumer_id consumer_arn deaggregate polls pause es
          w).0.shard.assigned_to
        ≡ ""
  unfolding get_records_by_events
  get_records_by_events_releases polls pause es w h =
      lease_released-owner _ (sym (lease_released-result _) ∙ h)

  -- The continuation number after an event.
  resubscribe-number :
      (number : String) (w : Subscriber c k p)
      → (resubscribe c k p cfg consumer_id consumer_arn deaggregate number
          w).0.continuation_sequence_number
        ≡ w.continuation_sequence_number
  unfolding resubscribe
  resubscribe-number number w = refl

  after_end-number :
      (number : Option String) (w : Subscriber c k p)
      → (after_end c k p cfg consumer_id consumer_arn deaggregate number
          w).0.continuation_sequence_number
        ≡ w.continuation_sequence_number
  unfolding after_end
  after_end-number none w = refl
  after_end-number (some number) w = elim (Bool-cases (str_eq number "")) [
    | inl blank ↦ rw blank refl
    | inr named ↦ rw named (resubscribe-number number w)
  ]

  after_records-number :
      (number : Option String) (is_open : Bool) (r : Consumer c k p × Outcome (Option Error))
      → (after_records c k p cfg consumer_id consumer_arn deaggregate number is_open
          r).0.continuation_sequence_number
        ≡ number
  after_records-number number is_open (w, panics why) = refl
  after_records-number none is_open (w, returns e) = refl
  after_records-number (some number) is_open (w, returns e) = refl

  take_event-number :
      (e : Event) (w : Subscriber c k p)
      → (take_event c k p cfg consumer_id consumer_arn deaggregate e
          w).0.continuation_sequence_number
        ≡ last_number (e ∷ []) w.continuation_sequence_number
  unfolding take_event refresh
  take_event-number stopped w = refl
  take_event-number (refresh_due now) w = refl
  take_event-number stream_ended w = after_end-number w.continuation_sequence_number w
  take_event-number unexpected w = refl
  take_event-number (batch number records millis) w =
      after_records-number number w.has_subscription _

  last_number-cons :
      (e : Event) (es : List Event) (number : Option String)
      → last_number (e ∷ es) number ≡ last_number es (last_number (e ∷ []) number)
  last_number-cons stopped es number = refl
  last_number-cons (refresh_due now) es number = refl
  last_number-cons stream_ended es number = refl
  last_number-cons unexpected es number = refl
  last_number-cons (batch n records millis) es number = refl

  events_rest-number :
      (es : List Event) (r : Subscriber c k p × Turn)
      (rest : Subscriber c k p → Subscriber c k p × Option Turn)
      → ((w : Subscriber c k p)
          → (rest w).1 ≡ none
          → (rest w).0.continuation_sequence_number ≡ last_number es w.continuation_sequence_number)
      → (events_rest c k p cfg consumer_id consumer_arn deaggregate r rest).1 ≡ none
      → (events_rest c k p cfg consumer_id consumer_arn deaggregate r
          rest).0.continuation_sequence_number
        ≡ last_number es r.0.continuation_sequence_number
  events_rest-number es (w, goes_on pause) rest later h = later w h
  events_rest-number es (w, ends e) rest later h = cc
  events_rest-number es (w, panicked why) rest later h = cc

  take_events-number :
      (es : List Event) (w : Subscriber c k p)
      → (take_events c k p cfg consumer_id consumer_arn deaggregate es w).1 ≡ none
      → (take_events c k p cfg consumer_id consumer_arn deaggregate es
          w).0.continuation_sequence_number
        ≡ last_number es w.continuation_sequence_number
  unfolding take_events
  take_events-number [] w h = refl
  take_events-number (e ∷ es) w h =
      events_rest-number es (take_event c k p cfg consumer_id consumer_arn deaggregate e w)
        (take_events c k p cfg consumer_id consumer_arn deaggregate es) (take_events-number es) h
      ∙ ap (last_number es) (take_event-number e w)
      ∙ sym (last_number-cons e es w.continuation_sequence_number)

  -- A subscription that ends is renewed where the records stopped: after any events that leave the
  -- loop going, when the last batch had a continuation number that is not empty and the old stream
  -- closes without an error, the end of the stream makes the consumer subscribe to its shard after
  -- that number, and the loop goes on unless that call fails.
  pub take_events-resubscribe :
      (es : List Event) (w : Subscriber c k p) (number : String)
      → let r = take_events c k p cfg consumer_id consumer_arn deaggregate es w in
        (r.1 ≡ none)
        → last_number es w.continuation_sequence_number ≡ some number
        → number ≢ ""
        → (k.close_stream r.0.consumer.stream).1 ≡ none
        → let (s, e) =
            k.subscribe_to_shard consumer_arn r.0.consumer.shard.id
              (record {
                kind = after_sequence_number;
                sequence_number = some number;
                timestamp = none;
              })
              (k.close_stream r.0.consumer.stream).0 in
          let ended = take_event c k p cfg consumer_id consumer_arn deaggregate stream_ended r.0 in
          (ended.0.consumer.stream ≡ s)
          × (ended.1 ≡ error_turn c k p cfg consumer_id consumer_arn deaggregate e)
  unfolding take_event after_end resubscribe
  take_events-resubscribe es w number going last named closes =
      let at = take_events-number es w going ∙ last in
      rw (at, str_ne number "" named, closes) (refl, refl)

  -- Whether the application is called for a batch.
  abbrev delivers : List Record → Bool
  delivers records =
      ltb 0 (length (deaggregate records)) || cfg.call_process_records_even_for_empty_record_list

  -- An error of the application's ProcessRecords is lost: whatever it returns for a batch that
  -- says how far behind it is, the loop goes on after a batch with a continuation number, and
  -- ends without an error after the last one.
  pub process_records_error_lost :
      (number : Option String) (records : List Record) (millis : ℤ) (w : Subscriber c k p)
      → (take_event c k p cfg consumer_id consumer_arn deaggregate
          (batch number records (some millis))
          w).1
        ≡ elim number [ none ↦ ends none | some _ ↦ goes_on (pos 0) ]
  unfolding take_event process_records
  process_records_error_lost none records millis w = elim (Bool-cases (delivers records)) [
    | inl called ↦ rw called refl
    | inr quiet ↦ rw quiet refl
  ]
  process_records_error_lost (some number) records millis w = elim (Bool-cases (delivers records)) [
    | inl called ↦ rw called refl
    | inr quiet ↦ rw quiet refl
  ]
