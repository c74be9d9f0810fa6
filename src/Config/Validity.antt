-- ===== src/Config/Validity.antt =====
-- What the checks of the constructor and of the `With…` methods guarantee of a configuration.
use vmware_go_kcl_v2_test.Prelude.{ℕ, ◌≡◌, ◌≢◌, String, false, Option, none, arith}
use vmware_go_kcl_v2_test.Prelude.Int.{pos, ◌<ℤ◌}
use vmware_go_kcl_v2_test.Prelude.Outcome.{returns}
use vmware_go_kcl_v2_test.Config.{KinesisClientLibConfiguration, empty}
use vmware_go_kcl_v2_test.Config.Builder.{
  Setter, with_logger, apply, new_kinesis_client_lib_config_with_credentials,
}

-- The four names are there, the checked periods and counts are positive, there is a logger, and
-- the two records of the starting position agree.
pub record IsValid (c : KinesisClientLibConfiguration) : Type 0 where
  pub named : empty c.application_name ≡ false
  pub streamed : empty c.stream_name ≡ false
  pub regional : empty c.region_name ≡ false
  pub identified : empty c.worker_id ≡ false
  pub consumer_named : empty c.enhanced_fan_out_consumer_name ≡ false
  pub failover : pos 0 <ℤ c.failover_time_millis
  pub refresh : pos 0 <ℤ c.lease_refresh_period_millis
  pub sync : pos 0 <ℤ c.shard_sync_interval_millis
  pub records : pos 0 <ℤ c.max_records
  pub leases : pos 0 <ℤ c.max_leases_for_worker
  pub idle : pos 0 <ℤ c.idle_time_between_reads_in_millis
  pub backoff : pos 0 <ℤ c.task_backoff_time_millis
  pub retries : pos 0 <ℤ c.max_retry_count
  pub logged : c.logger ≢ none
  pub positions_agree :
      c.initial_position_in_stream_extended.position ≡ c.initial_position_in_stream

pub apply-IsValid :
    (s : Setter) (c : KinesisClientLibConfiguration) {d : KinesisClientLibConfiguration}
    → IsValid c
    → apply s c ≡ returns d
    → IsValid d
unfolding apply
apply-IsValid (with_logger none) c v h = cc
apply-IsValid s c v h = ground arith

pub new-IsValid :
    (default_logger : ℕ) (uuid application stream region worker : String)
    (kinesis_creds dynamodb_creds : Option ℕ) {c : KinesisClientLibConfiguration}
    → empty uuid ≡ false
    → new_kinesis_client_lib_config_with_credentials default_logger uuid application stream region
        worker kinesis_creds dynamodb_creds
      ≡ returns c
    → IsValid c
unfolding new_kinesis_client_lib_config_with_credentials
new-IsValid default_logger uuid application stream region worker kinesis_creds dynamodb_creds u h =
    ground arith
