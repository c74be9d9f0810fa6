-- ===== src/Tests/Samples.antt =====
-- A stream in memory, a configuration and a few shards, for the tests, with the lease table of
-- Tables.
mod Tables
use vmware_go_kcl_v2_test.Prelude.{
  ltb, ℕ, suc, ◌+◌, length, ◌≡◌, refl, sym, ap, String, Bool, true, false, Option, none, some, [],
  ◌∷◌, arith, str_eq, eq_refl, if◌then◌else◌, Bool-cases, inl, inr,
}
use vmware_go_kcl_v2_test.Prelude.Int.{pos}
use vmware_go_kcl_v2_test.Config.{KinesisClientLibConfiguration, latest}
use vmware_go_kcl_v2_test.Partition.{Time, ShardStatus}
use vmware_go_kcl_v2_test.Checkpoint.{
  Reply, failed, service_error, Item, Condition, Error, conditional_check_failed, ok, holds, has,
  stamp,
}
use vmware_go_kcl_v2_test.Checkpoint.Service.{DynamoDbApi, IsDynamoDb, stored}
use vmware_go_kcl_v2_test.Checkpoint.Dynamo.{DynamoCheckpoint}
use vmware_go_kcl_v2_test.Checkpoint.Lease.{Instants}
use vmware_go_kcl_v2_test.Checkpoint.Checkpointer.{Checkpointer, dynamo_checkpointer}
use vmware_go_kcl_v2_test.Kinesis.{ConsumerDescription, Shard, KinesisApi}
use vmware_go_kcl_v2_test.Consumer.Limits.{Limits, CallInstants}
use vmware_go_kcl_v2_test.Consumer.Polling.{RecordProcessor, Consumer, TurnInput}
pub use vmware_go_kcl_v2_test.Tests.Samples.Tables.{Table, table_db, table_db-IsDynamoDb}

abbrev pub sample_config : KinesisClientLibConfiguration
sample_config = record {
  application_name = "app";
  dynamodb_endpoint = "";
  kinesis_endpoint = "";
  kinesis_credentials = none;
  dynamodb_credentials = none;
  table_name = "app";
  stream_name = "stream";
  enable_enhanced_fan_out_consumer = false;
  enhanced_fan_out_consumer_name = "app";
  enhanced_fan_out_consumer_arn = "";
  worker_id = "ann";
  initial_position_in_stream = latest;
  initial_position_in_stream_extended = record { position = latest; timestamp = none };
  failover_time_millis = pos 10;
  lease_refresh_period_millis = pos 5;
  max_records = pos 100;
  idle_time_between_reads_in_millis = pos 1;
  call_process_records_even_for_empty_record_list = false;
  parent_shard_poll_interval_millis = pos 10;
  shard_sync_interval_millis = pos 60;
  cleanup_terminated_shards_before_expiry = true;
  task_backoff_time_millis = pos 500;
  validate_sequence_number_before_checkpointing = true;
  region_name = "region";
  shutdown_grace_millis = pos 5;
  max_leases_for_worker = pos 3;
  max_leases_to_steal_at_one_time = pos 1;
  initial_lease_table_read_capacity = pos 10;
  initial_lease_table_write_capacity = pos 10;
  skip_shard_sync_at_worker_initialization_if_leases_exist = false;
  logger = some 1;
  monitoring_service = none;
  enable_lease_stealing = false;
  lease_stealing_interval_millis = pos 5;
  lease_stealing_claim_timeout_millis = pos 2;
  lease_syncing_time_interval_millis = pos 60;
  max_retry_count = pos 5;
}

abbrev pub stealing_config : KinesisClientLibConfiguration
stealing_config = record sample_config { enable_lease_stealing = true }

abbrev pub lease_table : KinesisClientLibConfiguration → DynamoCheckpoint
lease_table cfg = record {
  table_name = cfg.table_name;
  lease_table_read_capacity = pos 10;
  lease_table_write_capacity = pos 10;
  lease_duration = cfg.failover_time_millis;
  kcl_config = cfg;
  retries = pos 10;
  last_lease_sync = pos 0;
}

-- A cached shard with an owner and a timeout.
abbrev pub cached : String → Time → ShardStatus
cached owner timeout = record {
  id = "shard";
  parent_shard_id = "";
  checkpoint = "";
  assigned_to = owner;
  lease_timeout = timeout;
  starting_sequence_number = "0";
  ending_sequence_number = "";
  claim_request = "";
}

-- A row with an owner, a timeout, a checkpoint and perhaps a claim.
abbrev pub leased_row : String → Time → String → Option String → Item
leased_row owner timeout checkpoint claim = record {
  shard_id = some "shard";
  assigned_to = some owner;
  lease_timeout = some (stamp timeout);
  checkpoint = some checkpoint;
  parent_shard_id = none;
  claim_request = claim;
}

-- A table with the row of the one shard.
abbrev pub table_of : Item → Table
table_of row k = if str_eq "shard" k then some row else none

-- All readings of the clock are one.
abbrev pub at_time : Time → Instants
at_time t = record { start = t; claim = t; check = t }

abbrev pub checkpointer : Checkpointer
checkpointer = dynamo_checkpointer table_db

-- A shard of Kinesis.
abbrev pub listed : String → Shard
listed id = record {
  shard_id = id;
  parent_shard_id = none;
  starting_sequence_number = some "0";
  ending_sequence_number = none;
}

-- A consumer of the stream that is active from the third look on.
abbrev pub active_after : ℕ → Reply ConsumerDescription
active_after n = ok (record { is_active = ltb 1 n; consumer_arn = "arn" })

-- A stream that answers each read with one record of two bytes, and lists two shards on one page.
-- Its state is the number of reads.
abbrev pub stream : KinesisApi
stream = record {
  State = ℕ;
  get_shard_iterator = λ id start n. (n, ok (some "first"));
  get_records = λ limit iterator n. (
    suc n,
    ok (record {
      records = (record { sequence_number = some "9"; bytes = 1 ∷ 2 ∷ [] }) ∷ [];
      next_shard_iterator = some "next";
      millis_behind_latest = some (pos 0);
    }),
  );
  list_shards = λ token n.
      (n, ok (record { shards = listed "shard" ∷ listed "child" ∷ []; next_token = none }));
  subscribe_to_shard = λ arn id start n. (n, none);
  close_stream = λ n. (n, none);
  describe_stream = λ name n. (n, ok "stream-arn");
  describe_stream_consumer = λ name arn n. (suc n, active_after n);
  register_stream_consumer = λ name arn n. (n, failed (service_error "exists"));
}

-- An application that counts the records that it is given.
abbrev pub counter : RecordProcessor checkpointer
counter = record {
  State = ℕ;
  initialize = λ shard_id sequence_number n. n;
  process_records = λ records millis n shard s. (n + length records, shard, s, none);
  shutdown = λ reason n shard s. (n, shard, s);
}

abbrev pub fresh_limits : Limits
fresh_limits = record {
  curr_time = pos 0;
  calls_left = 5;
  rem_bytes = pos 10_000_000;
  last_check_time = pos 0;
  bytes_read = 0;
}

abbrev pub call_at : Time → CallInstants
call_at t = record { check = t; since = t; renew = t; done = t }

abbrev pub consumer : Consumer checkpointer stream counter
consumer = record {
  table = (lease_table sample_config, table_of (leased_row "ann" (pos 100_000_000) "7" none));
  stream = 0;
  processor = 0;
  shard = cached "ann" (pos 100_000_000);
  limits = fresh_limits;
  shard_iterator = some "first";
  retried_errors = 0;
}

-- A turn at a time, with the stop channel open or closed.
abbrev pub turn_at : Time → Bool → TurnInput checkpointer stream
turn_at t stop = record {
  refresh = t;
  lease = at_time t;
  call = call_at t;
  wait = t;
  stop = stop;
  others = λ s. s;
  arrivals = λ n. n;
}
