-- ===== src/Worker/FanOut.antt =====
-- clientlibrary/worker/worker-fan-out.go: the ARN of the enhanced fan-out consumer.
pub mod Retries
use vmware_go_kcl_v2_test.Prelude.{
  ℕ, zero, suc, ◌+◌, String, Bool, true, false, Option, none, some, if◌then◌else◌,
}
use vmware_go_kcl_v2_test.Config.{KinesisClientLibConfiguration}
use vmware_go_kcl_v2_test.Checkpoint.{Error, Reply, ok, failed, resource_not_found, service_error}
use vmware_go_kcl_v2_test.Kinesis.{ConsumerDescription, KinesisApi}

-- The ARN of a consumer that is active.
unfoldable pub active_arn : ConsumerDescription → Reply String
active_arn consumer =
    if consumer.is_active
    then ok consumer.consumer_arn
    else failed (service_error "consumer is not in active status yet")

unfoldable pub registered_arn : Reply ConsumerDescription → Reply String
unfolding active_arn
registered_arn (failed e) = failed e
registered_arn (ok consumer) = active_arn consumer

module _ (k : KinesisApi) (cfg : KinesisClientLibConfiguration) where
  -- After DescribeStreamConsumer: a consumer that is not found is registered.
  unfoldable pub described_arn :
      String → Reply ConsumerDescription → k.State → k.State × Reply String
  unfolding active_arn registered_arn
  described_arn stream_arn (ok consumer) s = (s, active_arn consumer)
  described_arn stream_arn (failed resource_not_found) s =
      let (s', reply) =
        k.register_stream_consumer cfg.enhanced_fan_out_consumer_name stream_arn s in
      (s', registered_arn reply)
  described_arn stream_arn (failed e) s = (s, failed e)

  unfoldable pub stream_described : Reply String → k.State → k.State × Reply String
  unfolding described_arn
  stream_described (failed e) s = (s, failed e)
  stream_described (ok stream_arn) s =
      let (s', reply) =
        k.describe_stream_consumer cfg.enhanced_fan_out_consumer_name stream_arn s in
      described_arn stream_arn reply s'

  unfoldable pub fetch_consumer_arn : k.State → k.State × Reply String
  unfolding stream_described
  fetch_consumer_arn s =
      let (s', reply) = k.describe_stream cfg.stream_name s in stream_described reply s'

  abbrev pub retry_arn :
      k.State × Reply String → (k.State → k.State × Reply String) → k.State × Reply String
  retry_arn (s, ok arn) again = (s, ok arn)
  retry_arn (s, failed e) again = again s

  -- The loop with so many retries left, without its pauses.
  unfoldable pub fetch_retrying : ℕ → k.State → k.State × Reply String
  fetch_retrying zero s = fetch_consumer_arn s
  fetch_retrying (suc left) s = retry_arn (fetch_consumer_arn s) (fetch_retrying left)

  unfoldable pub fetch_consumer_arn_with_retry : k.State → k.State × Reply String
  fetch_consumer_arn_with_retry s = fetch_retrying 10 s
