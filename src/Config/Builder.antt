-- ===== src/Config/Builder.antt =====
-- clientlibrary/config/kcl-config.go: the constructor with its default values, and the `With…`
-- methods, one constructor of `Setter` for each.
use vmware_go_kcl_v2_test.Prelude.{
  ℕ, String, Bool, true, false, Option, none, some, List, [], ◌∷◌, if◌then◌else◌,
}
use vmware_go_kcl_v2_test.Prelude.Int.{ℤ, pos}
use vmware_go_kcl_v2_test.Prelude.Outcome.{Outcome, returns, panics, ◌>>=◌, ◌>>◌}
use vmware_go_kcl_v2_test.Config.{
  KinesisClientLibConfiguration, InitialPositionInStream, latest, at_timestamp,
  new_initial_position, new_initial_position_at_timestamp, empty, check_is_value_not_empty,
  check_is_value_positive,
}

-- The literal of the constructor, after its checks. `default_logger` is what
-- logger.GetDefaultLogger returns.
unfoldable pub default_config :
    ℕ
    → (application_name stream_name region_name worker_id : String)
    → (kinesis_creds dynamodb_creds : Option ℕ) → KinesisClientLibConfiguration
unfolding new_initial_position
default_config default_logger application stream region worker kinesis_creds dynamodb_creds =
    record {
      application_name = application;
      dynamodb_endpoint = "";
      kinesis_endpoint = "";
      kinesis_credentials = kinesis_creds;
      dynamodb_credentials = dynamodb_creds;
      table_name = application;
      stream_name = stream;
      enable_enhanced_fan_out_consumer = false;
      enhanced_fan_out_consumer_name = application;
      enhanced_fan_out_consumer_arn = "";
      worker_id = worker;
      initial_position_in_stream = latest;
      initial_position_in_stream_extended = new_initial_position latest;
      failover_time_millis = pos 10000;
      lease_refresh_period_millis = pos 5000;
      max_records = pos 10000;
      idle_time_between_reads_in_millis = pos 1000;
      call_process_records_even_for_empty_record_list = false;
      parent_shard_poll_interval_millis = pos 10000;
      shard_sync_interval_millis = pos 60000;
      cleanup_terminated_shards_before_expiry = true;
      task_backoff_time_millis = pos 500;
      validate_sequence_number_before_checkpointing = true;
      region_name = region;
      shutdown_grace_millis = pos 5000;
      max_leases_for_worker = pos 32767;
      max_leases_to_steal_at_one_time = pos 1;
      initial_lease_table_read_capacity = pos 10;
      initial_lease_table_write_capacity = pos 10;
      skip_shard_sync_at_worker_initialization_if_leases_exist = false;
      logger = some default_logger;
      monitoring_service = none;
      enable_lease_stealing = false;
      lease_stealing_interval_millis = pos 5000;
      lease_stealing_claim_timeout_millis = pos 120000;
      lease_syncing_time_interval_millis = pos 60000;
      max_retry_count = pos 5;
    }

-- `uuid` is what utils.MustNewUUID returns.
unfoldable pub new_kinesis_client_lib_config_with_credentials :
    ℕ
    → String
    → (application_name stream_name region_name worker_id : String)
    → (kinesis_creds dynamodb_creds : Option ℕ) → Outcome KinesisClientLibConfiguration
unfolding check_is_value_not_empty default_config
new_kinesis_client_lib_config_with_credentials default_logger uuid application stream region worker
      kinesis_creds dynamodb_creds =
    do
      check_is_value_not_empty "ApplicationName" application
      check_is_value_not_empty "StreamName" stream
      check_is_value_not_empty "RegionName" region
      returns (
          default_config default_logger application stream region
            (if empty worker then uuid else worker) kinesis_creds dynamodb_creds)

unfoldable pub new_kinesis_client_lib_config :
    ℕ
    → String
    → (application_name stream_name region_name worker_id : String)
    → Outcome KinesisClientLibConfiguration
new_kinesis_client_lib_config default_logger uuid application stream region worker =
    new_kinesis_client_lib_config_with_credentials default_logger uuid application stream region
      worker none none

unfoldable pub new_kinesis_client_lib_config_with_credential :
    ℕ
    → String
    → (application_name stream_name region_name worker_id : String) → Option ℕ
    → Outcome KinesisClientLibConfiguration
new_kinesis_client_lib_config_with_credential default_logger uuid application stream region worker
      creds =
    new_kinesis_client_lib_config_with_credentials default_logger uuid application stream region
      worker creds creds

-- A method of the configuration with its argument.
pub data Setter : Type 0 where
  with_kinesis_endpoint with_dynamodb_endpoint with_table_name : String → Setter
  with_initial_position_in_stream : InitialPositionInStream → Setter
  with_timestamp_at_initial_position_in_stream : Option ℤ → Setter
  with_failover_time_millis with_lease_refresh_period_millis : ℤ → Setter
  with_shard_sync_interval_millis with_max_records with_max_leases_for_worker : ℤ → Setter
  with_idle_time_between_reads_in_millis : ℤ → Setter
  with_call_process_records_even_for_empty_record_list : Bool → Setter
  with_task_backoff_time_millis : ℤ → Setter
  with_logger : Option ℕ → Setter
  with_max_retry_count : ℤ → Setter
  with_monitoring_service : Option ℕ → Setter
  with_enhanced_fan_out_consumer : Bool → Setter
  with_enhanced_fan_out_consumer_name with_enhanced_fan_out_consumer_arn : String → Setter
  with_lease_stealing : Bool → Setter
  with_lease_stealing_interval_millis with_lease_syncing_interval_millis : ℤ → Setter

unfoldable pub apply :
    Setter → KinesisClientLibConfiguration → Outcome KinesisClientLibConfiguration
unfolding check_is_value_not_empty check_is_value_positive new_initial_position
    new_initial_position_at_timestamp
apply (with_kinesis_endpoint endpoint) c = returns (record c { kinesis_endpoint = endpoint })
apply (with_dynamodb_endpoint endpoint) c = returns (record c { dynamodb_endpoint = endpoint })
apply (with_table_name name) c = returns (record c { table_name = name })
apply (with_initial_position_in_stream position) c = returns (record c {
  initial_position_in_stream = position;
  initial_position_in_stream_extended = new_initial_position position;
})
apply (with_timestamp_at_initial_position_in_stream timestamp) c = returns (record c {
  initial_position_in_stream = at_timestamp;
  initial_position_in_stream_extended = new_initial_position_at_timestamp timestamp;
})
apply (with_failover_time_millis n) c = do
  check_is_value_positive "FailoverTimeMillis" n
  returns (record c { failover_time_millis = n })
apply (with_lease_refresh_period_millis n) c = do
  check_is_value_positive "LeaseRefreshPeriodMillis" n
  returns (record c { lease_refresh_period_millis = n })
apply (with_shard_sync_interval_millis n) c = do
  check_is_value_positive "ShardSyncIntervalMillis" n
  returns (record c { shard_sync_interval_millis = n })
apply (with_max_records n) c = do
  check_is_value_positive "MaxRecords" n
  returns (record c { max_records = n })
apply (with_max_leases_for_worker n) c = do
  check_is_value_positive "MaxLeasesForWorker" n
  returns (record c { max_leases_for_worker = n })
apply (with_idle_time_between_reads_in_millis n) c = do
  check_is_value_positive "IdleTimeBetweenReadsInMillis" n
  returns (record c { idle_time_between_reads_in_millis = n })
apply (with_call_process_records_even_for_empty_record_list enable) c =
    returns (record c { call_process_records_even_for_empty_record_list = enable })
apply (with_task_backoff_time_millis n) c = do
  check_is_value_positive "TaskBackoffTimeMillis" n
  returns (record c { task_backoff_time_millis = n })
apply (with_logger none) c = panics "Logger cannot be null"
apply (with_logger (some l)) c = returns (record c { logger = some l })
apply (with_max_retry_count n) c = do
  check_is_value_positive "maxRetryCount" n
  returns (record c { max_retry_count = n })
apply (with_monitoring_service service) c = returns (record c { monitoring_service = service })
apply (with_enhanced_fan_out_consumer enable) c =
    returns (record c { enable_enhanced_fan_out_consumer = enable })
apply (with_enhanced_fan_out_consumer_name name) c = do
  check_is_value_not_empty "EnhancedFanOutConsumerName" name
  returns
      (record c { enhanced_fan_out_consumer_name = name; enable_enhanced_fan_out_consumer = true })
apply (with_enhanced_fan_out_consumer_arn arn) c = do
  check_is_value_not_empty "EnhancedFanOutConsumerARN" arn
  returns
      (record c { enhanced_fan_out_consumer_arn = arn; enable_enhanced_fan_out_consumer = true })
apply (with_lease_stealing enable) c = returns (record c { enable_lease_stealing = enable })
apply (with_lease_stealing_interval_millis n) c =
    returns (record c { lease_stealing_interval_millis = n })
apply (with_lease_syncing_interval_millis n) c =
    returns (record c { lease_syncing_time_interval_millis = n })

-- A chain of method calls.
unfoldable pub apply_all :
    List Setter → KinesisClientLibConfiguration → Outcome KinesisClientLibConfiguration
apply_all [] c = returns c
apply_all (s ∷ ss) c = apply s c >>= apply_all ss
