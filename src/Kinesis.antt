-- ===== src/Kinesis.antt =====
-- The calls of the Kinesis client that the shard consumers and the worker make, as a parameter: the
-- service is no part of the repository.
use vmware_go_kcl_v2_test.Prelude.{Bool, ℕ, String, Option, List}
use vmware_go_kcl_v2_test.Prelude.Int.{ℤ}
use vmware_go_kcl_v2_test.Config.{ShardIteratorType}
use vmware_go_kcl_v2_test.Partition.{Time}
use vmware_go_kcl_v2_test.Checkpoint.{Error, Reply}

-- types.Record: its data as bytes.
pub record Record : Type 0 where
  pub sequence_number : Option String
  pub bytes : List ℕ

-- types.StartingPosition
pub record StartingPosition : Type 0 where
  pub kind : ShardIteratorType
  pub sequence_number : Option String
  pub timestamp : Option Time

pub record GetRecordsOutput : Type 0 where
  pub records : List Record
  pub next_shard_iterator : Option String
  pub millis_behind_latest : Option ℤ

-- types.Shard
pub record Shard : Type 0 where
  pub shard_id : String
  pub parent_shard_id : Option String
  pub starting_sequence_number : Option String
  pub ending_sequence_number : Option String

pub record ListShardsOutput : Type 0 where
  pub shards : List Shard
  pub next_token : Option String

-- types.ConsumerDescription: whether its status is ACTIVE, and its ARN.
pub record ConsumerDescription : Type 0 where
  pub is_active : Bool
  pub consumer_arn : String

-- `State` is the whole service with whatever decides which calls fail.
pub record KinesisApi : Type 1 where
  pub State : Type 0
  -- GetShardIterator for a shard and a position
  pub get_shard_iterator : String → StartingPosition → State → State × Reply (Option String)
  -- GetRecords with a limit and an iterator
  pub get_records : ℤ → Option String → State → State × Reply GetRecordsOutput
  -- ListShards from a token, or from the start for the empty one
  pub list_shards : String → State → State × Reply ListShardsOutput
  -- SubscribeToShard for a consumer's ARN, a shard and a position, and Close of the event stream
  pub subscribe_to_shard : String → String → StartingPosition → State → State × Option Error
  pub close_stream : State → State × Option Error
  -- DescribeStream, for the stream's ARN
  pub describe_stream : String → State → State × Reply String
  -- DescribeStreamConsumer and RegisterStreamConsumer for a consumer's name and a stream's ARN
  pub describe_stream_consumer : String → String → State → State × Reply ConsumerDescription
  pub register_stream_consumer : String → String → State → State × Reply ConsumerDescription
