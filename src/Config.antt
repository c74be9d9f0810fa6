-- ===== src/Config.antt =====
-- clientlibrary/config/config.go and initial-stream-pos.go: the configuration record, its defaults
-- and the checks that panic. An interface value (credentials, logger, monitoring service) is an
-- opaque reference, `none` for nil.
pub mod Builder
pub mod Validity
use Prim.Native.Char.{code}
use vmware_go_kcl_v2_test.Prelude.{
  ℕ, ◌≡◌, String, Bool, true, false, ◌&&◌, ◌||◌, Option, none, some, leb, ◌==◌, if◌then◌else◌,
}
use vmware_go_kcl_v2_test.Prelude.Int.{ℤ, pos, leb_ℤ}
use vmware_go_kcl_v2_test.Prelude.Outcome.{Outcome, returns, panics}

-- The constants are 1, 2 and 3; Go admits any other integer of the type.
pub data InitialPositionInStream : Type 0 where
  latest trim_horizon at_timestamp : InitialPositionInStream
  undeclared : ℤ → InitialPositionInStream

pub record InitialPositionInStreamExtended : Type 0 where
  pub position : InitialPositionInStream
  pub timestamp : Option ℤ

unfoldable pub new_initial_position_at_timestamp : Option ℤ → InitialPositionInStreamExtended
new_initial_position_at_timestamp t = record { position = at_timestamp; timestamp = t }

unfoldable pub new_initial_position : InitialPositionInStream → InitialPositionInStreamExtended
new_initial_position p = record { position = p; timestamp = none }

pub data ShardIteratorType : Type 0 where
  latest_type trim_horizon_type at_timestamp_type after_sequence_number : ShardIteratorType

-- A key that the map lacks gives nil.
unfoldable pub initial_position_to_shard_iterator_type :
    InitialPositionInStream → Option ShardIteratorType
initial_position_to_shard_iterator_type latest = some latest_type
initial_position_to_shard_iterator_type trim_horizon = some trim_horizon_type
initial_position_to_shard_iterator_type at_timestamp = some at_timestamp_type
initial_position_to_shard_iterator_type (undeclared n) = none

pub record KinesisClientLibConfiguration : Type 0 where
  pub application_name : String
  pub dynamodb_endpoint : String
  pub kinesis_endpoint : String
  pub kinesis_credentials : Option ℕ
  pub dynamodb_credentials : Option ℕ
  pub table_name : String
  pub stream_name : String
  pub enable_enhanced_fan_out_consumer : Bool
  pub enhanced_fan_out_consumer_name : String
  pub enhanced_fan_out_consumer_arn : String
  pub worker_id : String
  pub initial_position_in_stream : InitialPositionInStream
  pub initial_position_in_stream_extended : InitialPositionInStreamExtended
  pub failover_time_millis : ℤ
  pub lease_refresh_period_millis : ℤ
  pub max_records : ℤ
  pub idle_time_between_reads_in_millis : ℤ
  pub call_process_records_even_for_empty_record_list : Bool
  pub parent_shard_poll_interval_millis : ℤ
  pub shard_sync_interval_millis : ℤ
  pub cleanup_terminated_shards_before_expiry : Bool
  pub task_backoff_time_millis : ℤ
  pub validate_sequence_number_before_checkpointing : Bool
  pub region_name : String
  pub shutdown_grace_millis : ℤ
  pub max_leases_for_worker : ℤ
  pub max_leases_to_steal_at_one_time : ℤ
  pub initial_lease_table_read_capacity : ℤ
  pub initial_lease_table_write_capacity : ℤ
  pub skip_shard_sync_at_worker_initialization_if_leases_exist : Bool
  pub logger : Option ℕ
  pub monitoring_service : Option ℕ
  pub enable_lease_stealing : Bool
  pub lease_stealing_interval_millis : ℤ
  pub lease_stealing_claim_timeout_millis : ℤ
  pub lease_syncing_time_interval_millis : ℤ
  pub max_retry_count : ℤ

-- unicode.IsSpace
is_space : ℕ → Bool
is_space c =
    (leb 9 c && leb c 13)
    || c == 32
    || c == 0x85
    || c == 0xa0
    || c == 0x1680
    || (leb 0x2000 c && leb c 0x200a)
    || c == 0x2028
    || c == 0x2029
    || c == 0x202f
    || c == 0x205f
    || c == 0x3000

-- len(strings.TrimSpace(s)) == 0: every character is a space.
unfoldable pub empty : String → Bool
unfolding is_space
empty String.[] = true
empty (String.◌∷◌ c s) = is_space (code c) && empty s

unfoldable pub check_is_value_not_empty : String → String → Outcome (Unit {0})
check_is_value_not_empty key value =
    if empty value then panics "Non-empty value expected" else returns tt

unfoldable pub check_is_value_positive : String → ℤ → Outcome (Unit {0})
check_is_value_positive key value =
    if leb_ℤ value (pos 0) then panics "Positive value expected" else returns tt
