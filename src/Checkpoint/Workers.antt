-- ===== src/Checkpoint/Workers.antt =====
-- clientlibrary/checkpoint/dynamodb-checkpointer.go: syncLeases and ListActiveWorkers. The map of
-- shards is a list in the order in which a `range` visits it; its key is the shard's id.
pub mod Grouping
use vmware_go_kcl_v2_test.Prelude.{
  String, Option, none, some, List, [], ◌∷◌, ◌++◌, str_eq, if◌then◌else◌,
}
use vmware_go_kcl_v2_test.Prelude.Int.{◌+ℤ◌, ltb_ℤ}
use vmware_go_kcl_v2_test.Partition.{
  Time, ShardStatus, milliseconds, get_checkpoint, get_lease_owner, set_checkpoint, set_lease_owner,
}
use vmware_go_kcl_v2_test.Checkpoint.{Item, shard_end, Error, Reply, ok, failed, shard_not_assigned}
use vmware_go_kcl_v2_test.Checkpoint.Service.{DynamoDbApi}
use vmware_go_kcl_v2_test.Checkpoint.Dynamo.{DynamoCheckpoint}

abbrev pub ShardMap : Type 0
ShardMap = List ShardStatus

abbrev pub WorkerMap : Type 0
WorkerMap = List (String × List ShardStatus)

-- The cached shard with the given id takes the scanned owner and checkpoint.
unfoldable pub sync_shard_status : String → String → String → ShardMap → ShardMap
unfolding set_lease_owner set_checkpoint
sync_shard_status shard_id owner checkpoint [] = []
sync_shard_status shard_id owner checkpoint (shard ∷ shards) =
    if str_eq shard.id shard_id
    then set_checkpoint checkpoint (set_lease_owner owner shard) ∷ shards
    else shard ∷ sync_shard_status shard_id owner checkpoint shards

-- A scanned row without one of the three attributes is passed over.
unfoldable pub sync_row : Option String → Option String → Option String → ShardMap → ShardMap
unfolding sync_shard_status
sync_row (some shard_id) (some owner) (some checkpoint) shards =
    sync_shard_status shard_id owner checkpoint shards
sync_row _ _ _ shards = shards

unfoldable pub sync_rows : List Item → ShardMap → ShardMap
unfolding sync_row
sync_rows [] shards = shards
sync_rows (i ∷ is) shards = sync_rows is (sync_row i.shard_id i.assigned_to i.checkpoint shards)

unfoldable pub add_to_worker : ShardStatus → String → WorkerMap → WorkerMap
add_to_worker shard owner [] = (owner, shard ∷ []) ∷ []
add_to_worker shard owner ((worker, shards) ∷ workers) =
    if str_eq worker owner
    then (worker, shards ++ shard ∷ []) ∷ workers
    else (worker, shards) ∷ add_to_worker shard owner workers

-- The loop of ListActiveWorkers over the shards.
unfoldable pub group_by_owner : ShardMap → WorkerMap → Reply WorkerMap
unfolding add_to_worker get_checkpoint get_lease_owner
group_by_owner [] workers = ok workers
group_by_owner (shard ∷ shards) workers =
    let skip = group_by_owner shards workers in
    let keep = group_by_owner shards (add_to_worker shard (get_lease_owner shard) workers) in
    if str_eq (get_checkpoint shard) shard_end
    then skip
    else if str_eq (get_lease_owner shard) ""
    then failed shard_not_assigned
    else keep

-- The two readings of the clock in syncLeases.
pub record SyncInstants : Type 0 where
  pub check : Time
  pub stamp : Time

module _ (db : DynamoDbApi) where
  unfoldable pub sync_reply :
      Reply (List Item)
      → DynamoCheckpoint
      → ShardMap
      → db.State
      → db.State × DynamoCheckpoint × ShardMap × Option Error
  unfolding sync_rows
  sync_reply (failed e) c shards s = (s, c, shards, some e)
  sync_reply (ok items) c shards s = (s, c, sync_rows items shards, none)

  unfoldable pub sync_leases :
      DynamoCheckpoint
      → SyncInstants
      → ShardMap
      → db.State
      → db.State × DynamoCheckpoint × ShardMap × Option Error
  unfolding sync_reply
  sync_leases c now shards s =
      let next =
        c.last_lease_sync +ℤ milliseconds c.kcl_config.lease_syncing_time_interval_millis in
      let (s', items) = db.scan s in
      if ltb_ℤ now.check next
      then (s, c, shards, none)
      else sync_reply items (record c { last_lease_sync = now.stamp }) shards s'

  unfoldable pub active_workers :
      Option Error
      → db.State
      → DynamoCheckpoint
      → ShardMap
      → db.State × DynamoCheckpoint × ShardMap × Reply WorkerMap
  unfolding group_by_owner
  active_workers (some e) s c shards = (s, c, shards, failed e)
  active_workers none s c shards = (s, c, shards, group_by_owner shards [])

  unfoldable pub list_active_workers :
      DynamoCheckpoint
      → SyncInstants
      → ShardMap
      → db.State
      → db.State × DynamoCheckpoint × ShardMap × Reply WorkerMap
  unfolding sync_leases active_workers
  list_active_workers c now shards s =
      let (s', c', shards', e) = sync_leases c now shards s in active_workers e s' c' shards'
