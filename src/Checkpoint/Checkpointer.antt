-- ===== src/Checkpoint/Checkpointer.antt =====
-- clientlibrary/checkpoint/checkpointer.go: the Checkpointer interface, by which the worker and the
-- shard consumers reach the lease table, and the DynamoDB implementation of it.
use vmware_go_kcl_v2_test.Prelude.{String, Option}
use vmware_go_kcl_v2_test.Partition.{ShardStatus}
use vmware_go_kcl_v2_test.Checkpoint.{Error, Reply}
use vmware_go_kcl_v2_test.Checkpoint.Service.{DynamoDbApi}
use vmware_go_kcl_v2_test.Checkpoint.Dynamo.{DynamoCheckpoint, init}
use vmware_go_kcl_v2_test.Checkpoint.Lease.{Instants, get_lease}
use vmware_go_kcl_v2_test.Checkpoint.Rows.{
  checkpoint_sequence, fetch_checkpoint, remove_lease_info, remove_lease_owner, get_lease_owner_of,
}
use vmware_go_kcl_v2_test.Checkpoint.Claim.{claim_shard}
use vmware_go_kcl_v2_test.Checkpoint.Workers.{
  ShardMap, WorkerMap, SyncInstants, list_active_workers,
}

-- A method that is given a pointer to a shard returns the shard as it leaves it, and a method that
-- reads the clock is given the readings.
pub record Checkpointer : Type 1 where
  pub State : Type 0
  pub init : State → State × Option Error
  pub get_lease : Instants → ShardStatus → String → State → State × ShardStatus × Option Error
  pub checkpoint_sequence : ShardStatus → State → State × Option Error
  pub fetch_checkpoint : ShardStatus → State → State × ShardStatus × Option Error
  pub remove_lease_info : String → State → State × Option Error
  pub remove_lease_owner : String → State → State × Option Error
  pub get_lease_owner : String → State → State × Reply String
  pub list_active_workers : SyncInstants → ShardMap → State → State × ShardMap × Reply WorkerMap
  pub claim_shard : ShardStatus → String → State → State × ShardStatus × Option Error

-- DynamoCheckpoint as a Checkpointer: only ListActiveWorkers changes its record.
abbrev pub dynamo_checkpointer : DynamoDbApi → Checkpointer
dynamo_checkpointer db = record {
  State = DynamoCheckpoint × db.State;
  init = λ s. let (t, e) = init db s.0 s.1 in ((s.0, t), e);
  get_lease = λ now shard owner s.
      let (t, shard', e) = get_lease db s.0 now shard owner s.1 in ((s.0, t), shard', e);
  checkpoint_sequence = λ shard s. let (t, e) = checkpoint_sequence db shard s.1 in ((s.0, t), e);
  fetch_checkpoint =
      λ shard s. let (t, shard', e) = fetch_checkpoint db shard s.1 in ((s.0, t), shard', e);
  remove_lease_info = λ shard_id s. let (t, e) = remove_lease_info db shard_id s.1 in ((s.0, t), e);
  remove_lease_owner =
      λ shard_id s. let (t, e) = remove_lease_owner db s.0 shard_id s.1 in ((s.0, t), e);
  get_lease_owner =
      λ shard_id s. let (t, owner) = get_lease_owner_of db shard_id s.1 in ((s.0, t), owner);
  list_active_workers = λ now shards s.
      let (t, c, shards', r) = list_active_workers db s.0 now shards s.1 in ((c, t), shards', r);
  claim_shard = λ shard claim_id s.
      let (t, shard', e) = claim_shard db shard claim_id s.1 in ((s.0, t), shard', e);
}
