-- ===== src/Checkpoint/Dynamo.antt =====
-- clientlibrary/checkpoint/dynamodb-checkpointer.go: the checkpointer's record, its set-up and the
-- calls by which it reads and writes rows.
use vmware_go_kcl_v2_test.Prelude.{String, Bool, Option, none, some, []}
use vmware_go_kcl_v2_test.Prelude.Int.{ℤ}
use vmware_go_kcl_v2_test.Config.{KinesisClientLibConfiguration}
use vmware_go_kcl_v2_test.Partition.{Time, zero_time}
use vmware_go_kcl_v2_test.Checkpoint.{Item, empty_item, Condition, Error, Reply, ok, failed}
use vmware_go_kcl_v2_test.Checkpoint.Service.{DynamoDbApi}

pub record DynamoCheckpoint : Type 0 where
  pub table_name : String
  pub lease_table_read_capacity : ℤ
  pub lease_table_write_capacity : ℤ
  pub lease_duration : ℤ
  pub kcl_config : KinesisClientLibConfiguration
  pub retries : ℤ
  pub last_lease_sync : Time

unfoldable pub new_dynamo_checkpoint : KinesisClientLibConfiguration → DynamoCheckpoint
new_dynamo_checkpoint cfg = record {
  table_name = cfg.table_name;
  lease_table_read_capacity = cfg.initial_lease_table_read_capacity;
  lease_table_write_capacity = cfg.initial_lease_table_write_capacity;
  lease_duration = cfg.failover_time_millis;
  kcl_config = cfg;
  retries = ℤ.pos 10;
  last_lease_sync = zero_time;
}

-- What a found row, a missing row (no attributes) or an error is for the callers.
abbrev pub row_or_nil : Reply (Option Item) → Reply Item
row_or_nil (ok (some i)) = ok i
row_or_nil (ok none) = ok empty_item
row_or_nil (failed e) = failed e

module _ (db : DynamoDbApi) where
  unfoldable pub put_item : Condition → Item → db.State → db.State × Option Error
  put_item c i s = db.put_item c i s

  unfoldable pub save_item : Item → db.State → db.State × Option Error
  unfolding put_item
  save_item i s = put_item [] i s

  unfoldable pub conditional_update : Condition → Item → db.State → db.State × Option Error
  unfolding put_item
  conditional_update c i s = put_item c i s

  unfoldable pub get_item : String → db.State → db.State × Reply Item
  get_item shard_id s = let (s', r) = db.get_item shard_id s in (s', row_or_nil r)

  unfoldable pub remove_item : String → db.State → db.State × Option Error
  remove_item shard_id s = db.delete_item shard_id s

  unfoldable pub create_table : DynamoCheckpoint → db.State → db.State × Option Error
  create_table c s = db.create_table c.lease_table_read_capacity c.lease_table_write_capacity s

  unfoldable pub does_table_exist : db.State → db.State × Bool
  does_table_exist s =
      let (s', e) = db.describe_table s in (s', elim e [ none ↦ Bool.true | some _ ↦ Bool.false ])

  -- The client itself is the parameter `db`, so its set-up is not part of the model.
  unfoldable pub init : DynamoCheckpoint → db.State → db.State × Option Error
  unfolding does_table_exist create_table
  init c s =
      let (s', there) = does_table_exist s in
      elim there [ Bool.true ↦ (s', none) | Bool.false ↦ create_table c s' ]
