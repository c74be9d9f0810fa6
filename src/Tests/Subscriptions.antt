-- ===== src/Tests/Subscriptions.antt =====
-- The theorems on the fan-out consumer and its ARN at concrete events.
use vmware_go_kcl_v2_test.Prelude.{◌≡◌, refl, true, none, some, List, [], ◌∷◌, apart}
use vmware_go_kcl_v2_test.Prelude.Int.{pos}
use vmware_go_kcl_v2_test.Kinesis.{Record}
use vmware_go_kcl_v2_test.Consumer.Polling.{goes_on, process_records}
use vmware_go_kcl_v2_test.Consumer.FanOut.{
  Subscriber, Event, batch, stream_ended, take_event, take_events,
}
use vmware_go_kcl_v2_test.Consumer.FanOut.Events.{take_events-resubscribe}
use vmware_go_kcl_v2_test.Worker.FanOut.{fetch_consumer_arn_with_retry}
use vmware_go_kcl_v2_test.Worker.FanOut.Retries.{Settled, fetch_consumer_arn_with_retry-Settled}
use vmware_go_kcl_v2_test.Tests.Samples.{sample_config, checkpointer, stream, counter, consumer}

abbrev records : List Record
records = (record { sequence_number = some "9"; bytes = 1 ∷ [] }) ∷ []

abbrev subscriber : Subscriber checkpointer stream counter
subscriber = record {
  consumer = consumer;
  continuation_sequence_number = none;
  has_subscription = true;
}

abbrev one_batch : List Event
one_batch = batch (some "9") records (some (pos 0)) ∷ []

going :
    (take_events checkpointer stream counter sample_config "ann" "arn"
      (λ rs. rs)
      one_batch
      subscriber).1
    ≡ none
unfolding take_events take_event process_records
going = refl

take_events-resubscribe_example :
    ((take_event checkpointer stream counter sample_config "ann" "arn"
        (λ rs. rs)
        stream_ended
        (take_events checkpointer stream counter sample_config "ann" "arn"
          (λ rs. rs)
          one_batch
          subscriber).0).0.consumer.stream
      ≡ (take_events checkpointer stream counter sample_config "ann" "arn"
          (λ rs. rs)
          one_batch
          subscriber).0.consumer.stream)
    × ((take_event checkpointer stream counter sample_config "ann" "arn"
          (λ rs. rs)
          stream_ended
          (take_events checkpointer stream counter sample_config "ann" "arn"
            (λ rs. rs)
            one_batch
            subscriber).0).1
        ≡ goes_on (pos 0))
take_events-resubscribe_example =
    take_events-resubscribe checkpointer stream counter sample_config "ann" "arn" (λ rs. rs)
      one_batch subscriber "9" going refl (apart "9" "" refl) refl

fetch_consumer_arn_with_retry-Settled_example :
    Settled stream sample_config 10 0 (fetch_consumer_arn_with_retry stream sample_config 0)
fetch_consumer_arn_with_retry-Settled_example =
    fetch_consumer_arn_with_retry-Settled stream sample_config 0
