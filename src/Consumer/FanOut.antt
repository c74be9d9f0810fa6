-- ===== src/Consumer/FanOut.antt =====
-- clientlibrary/worker/fan-out-shard-consumer.go: the loop over the events of a subscription, one at
-- a time. Metrics and log lines are left out.
pub mod Events
use vmware_go_kcl_v2_test.Prelude.{
  ℕ, String, Bool, true, false, ◌||◌, Option, none, some, List, [], ◌∷◌, str_eq, if◌then◌else◌,
}
use vmware_go_kcl_v2_test.Prelude.Int.{ℤ, pos}
use vmware_go_kcl_v2_test.Prelude.Outcome.{Outcome, returns, panics}
use vmware_go_kcl_v2_test.Config.{KinesisClientLibConfiguration, after_sequence_number}
use vmware_go_kcl_v2_test.Partition.{ShardStatus, get_checkpoint}
use vmware_go_kcl_v2_test.Checkpoint.{Error, Reply, ok, failed, is_lease_not_acquired}
use vmware_go_kcl_v2_test.Checkpoint.Lease.{Instants}
use vmware_go_kcl_v2_test.Checkpoint.Claim.{blocking}
use vmware_go_kcl_v2_test.Checkpoint.Checkpointer.{Checkpointer}
use vmware_go_kcl_v2_test.Kinesis.{Record, StartingPosition, KinesisApi}
use vmware_go_kcl_v2_test.Consumer.Common.{
  requested, terminate, release_lease, get_starting_position, wait_on_parent_shard,
}
use vmware_go_kcl_v2_test.Consumer.Polling.{
  RecordProcessor, Consumer, Turn, goes_on, ends, panicked, process_records, shutdown,
}

-- The Consumer of the loop, whose limits and iterator it does not use, the number to resubscribe
-- from, and whether shardSub is not nil.
pub record Subscriber (c : Checkpointer) (k : KinesisApi) (p : RecordProcessor c) : Type 0 where
  pub consumer : Consumer c k p
  pub continuation_sequence_number : Option String
  pub has_subscription : Bool

-- What the select takes: the closed stop channel, the timer with the clock in GetLease, the end of
-- the event stream, an event of another type, or a batch of records.
pub data Event : Type 0 where
  stopped : Event
  refresh_due : Instants → Event
  stream_ended : Event
  unexpected : Event
  batch : (continuation_sequence_number : Option String) → List Record → Option ℤ → Event

module _ (c : Checkpointer) (k : KinesisApi) (p : RecordProcessor c)
    (cfg : KinesisClientLibConfiguration) (consumer_id consumer_arn : String)
    (deaggregate : List Record → List Record) where
  abbrev pub error_turn : Option Error → Turn
  error_turn none = goes_on (pos 0)
  error_turn (some e) = ends (some e)

  abbrev lease_turn : Option Error → Turn
  lease_turn none = goes_on (pos 0)
  lease_turn (some e) = ends (if is_lease_not_acquired e then none else some e)

  unfoldable pub refresh : Instants → Subscriber c k p → Subscriber c k p × Turn
  refresh now w =
      let (t, shard, e) = c.get_lease now w.consumer.shard consumer_id w.consumer.table in
      (record w { consumer = record w.consumer { table = t; shard = shard } }, lease_turn e)

  abbrev subscribe_after : Option Error → String → k.State → String → k.State × Option Error
  subscribe_after (some e) shard_id s number = (s, some e)
  subscribe_after none shard_id s number =
      k.subscribe_to_shard consumer_arn shard_id
        (record { kind = after_sequence_number; sequence_number = some number; timestamp = none }) s

  -- The old stream is closed, and the new one starts after the continuation number.
  unfoldable pub resubscribe : String → Subscriber c k p → Subscriber c k p × Turn
  resubscribe number w =
      let (s, e) = k.close_stream w.consumer.stream in
      let (s', e') = subscribe_after e w.consumer.shard.id s number in
      (
        record w {
          consumer = record w.consumer { stream = s' };
          has_subscription = elim e' [ none ↦ true | some _ ↦ false ];
        },
        error_turn e',
      )

  unfoldable pub after_end : Option String → Subscriber c k p → Subscriber c k p × Turn
  after_end none w = (w, ends none)
  after_end (some number) w =
      let next = resubscribe number w in if str_eq number "" then (w, ends none) else next

  -- The error of processRecords is not looked at.
  abbrev after_records :
      Option String → Bool → Consumer c k p × Outcome (Option Error) → Subscriber c k p × Turn
  after_records number open_stream (w, panics why) = (
    record { consumer = w; continuation_sequence_number = number; has_subscription = open_stream },
    panicked why,
  )
  after_records none open_stream (w, returns e) = (
    record {
      consumer = shutdown c k p cfg consumer_id deaggregate terminate w;
      continuation_sequence_number = none;
      has_subscription = open_stream;
    },
    ends none,
  )
  after_records (some number) open_stream (w, returns e) = (
    record {
      consumer = w;
      continuation_sequence_number = some number;
      has_subscription = open_stream;
    },
    goes_on (pos 0),
  )

  -- A turn of the loop.
  unfoldable pub take_event : Event → Subscriber c k p → Subscriber c k p × Turn
  take_event stopped w = (
    record w { consumer = shutdown c k p cfg consumer_id deaggregate requested w.consumer },
    ends none,
  )
  take_event (refresh_due now) w = refresh now w
  take_event stream_ended w = after_end w.continuation_sequence_number w
  take_event unexpected w = (w, goes_on (pos 0))
  take_event (batch number records millis) w =
      after_records number w.has_subscription
        (process_records c k p cfg consumer_id deaggregate records millis w.consumer)

  abbrev events_rest :
      Subscriber c k p × Turn
      → (Subscriber c k p → Subscriber c k p × Option Turn)
      → Subscriber c k p × Option Turn
  events_rest (w, goes_on pause) rest = rest w
  events_rest (w, over) rest = (w, some over)

  -- The loop over a list of events; `none` when it is still going.
  unfoldable pub take_events : List Event → Subscriber c k p → Subscriber c k p × Option Turn
  take_events [] w = (w, none)
  take_events (e ∷ es) w = events_rest (take_event e w) (take_events es)

  abbrev subscribe_at :
      Outcome (Reply StartingPosition) → Consumer c k p → Consumer c k p × Outcome (Option Error)
  subscribe_at (panics why) w = (w, panics why)
  subscribe_at (returns (failed e)) w = (w, returns (some e))
  subscribe_at (returns (ok start)) w =
      let (s, e) = k.subscribe_to_shard consumer_arn w.shard.id start w.stream in
      (record w { stream = s }, returns e)

  unfoldable pub subscribe_to_shard : Consumer c k p → Consumer c k p × Outcome (Option Error)
  subscribe_to_shard w =
      let (t, shard, start) = get_starting_position c cfg w.shard w.table in
      subscribe_at start (record w { table = t; shard = shard })

  -- The deferred close of the stream; its error is only logged.
  abbrev closed : Subscriber c k p × Option Turn → Consumer c k p × Option Turn
  closed (w, none) = (w.consumer, none)
  closed (w, some over) = (
    record w.consumer {
      stream =
          if w.has_subscription then (k.close_stream w.consumer.stream).0 else w.consumer.stream;
    },
    some over,
  )

  unfoldable pub subscribed :
      List Event → Consumer c k p × Outcome (Option Error) → Consumer c k p × Option Turn
  unfolding get_checkpoint
  subscribed es (w, panics why) = (w, some (panicked why))
  subscribed es (w, returns (some e)) = (w, some (ends (some e)))
  subscribed es (w, returns none) = closed (
      take_events es (record {
        consumer = record w {
          processor = p.initialize w.shard.id (get_checkpoint w.shard) w.processor;
        };
        continuation_sequence_number = none;
        has_subscription = true;
      }))

  unfoldable pub parent_waited :
      Option (Option Error) → List Event → Consumer c k p → Consumer c k p × Option Turn
  parent_waited none es w = (w, none)
  parent_waited (some e) es w = elim (blocking e) [
    | some err ↦ (w, some (ends (some err)))
    | none ↦ subscribed es (subscribe_to_shard w)
  ]

  abbrev pub lease_released : Consumer c k p × Option Turn → Consumer c k p × Option Turn
  lease_released (w, none) = (w, none)
  lease_released (w, some over) =
      let (t, shard) = release_lease c w.shard w.table in
      (record w { table = t; shard = shard }, some over)

  -- getRecords, with the polls of the parent and what others do between them.
  unfoldable pub get_records_by_events :
      ℕ → (c.State → c.State) → List Event → Consumer c k p → Consumer c k p × Option Turn
  get_records_by_events polls pause es w =
      let (t, parent) = wait_on_parent_shard c polls pause w.shard w.table in
      lease_released (parent_waited parent es (record w { table = t }))
