-- ===== src/Checkpoint/Rows.antt =====
-- clientlibrary/checkpoint/dynamodb-checkpointer.go: CheckpointSequence, FetchCheckpoint,
-- RemoveLeaseInfo, RemoveLeaseOwner and GetLeaseOwner.
use vmware_go_kcl_v2_test.Prelude.{String, Option, none, some, if◌then◌else◌}
use vmware_go_kcl_v2_test.Partition.{
  ShardStatus, get_checkpoint, get_lease_owner, get_lease_timeout, set_checkpoint, set_lease_owner,
}
use vmware_go_kcl_v2_test.Checkpoint.{
  Item, LeaseText, format, parse, lease_text_is_empty, Error, Reply, ok, failed, bad_timestamp,
  sequence_id_not_found, no_lease_owner,
}
use vmware_go_kcl_v2_test.Checkpoint.Service.{DynamoDbApi}
use vmware_go_kcl_v2_test.Checkpoint.Dynamo.{DynamoCheckpoint, get_item, save_item, remove_item}
use vmware_go_kcl_v2_test.Checkpoint.Lease.{unless_empty}

unfoldable pub checkpoint_item : ShardStatus → Item
unfolding get_checkpoint get_lease_owner get_lease_timeout
checkpoint_item shard = record {
  shard_id = some shard.id;
  assigned_to = some (get_lease_owner shard);
  lease_timeout = some (format (get_lease_timeout shard));
  checkpoint = some (get_checkpoint shard);
  parent_shard_id = unless_empty shard.parent_shard_id;
  claim_request = none;
}

abbrev pub set_owner_if_there : Option String → ShardStatus → ShardStatus
set_owner_if_there none shard = shard
set_owner_if_there (some owner) shard = set_lease_owner owner shard

-- The last step of FetchCheckpoint: the timeout, where the row has one that is not empty.
unfoldable pub fetch_timeout : Option LeaseText → ShardStatus → ShardStatus × Option Error
fetch_timeout none shard = (shard, none)
fetch_timeout (some text) shard =
    if lease_text_is_empty text then (shard, none) else elim (parse text) [
      | none ↦ (shard, some bad_timestamp)
      | some timeout ↦ (record shard { lease_timeout = timeout }, none)
    ]

-- What FetchCheckpoint makes of a row.
unfoldable pub fetch_row : Item → Option String → ShardStatus → ShardStatus × Option Error
unfolding fetch_timeout set_checkpoint set_lease_owner
fetch_row row none shard = (shard, some sequence_id_not_found)
fetch_row row (some sequence_id) shard =
    fetch_timeout row.lease_timeout
      (set_owner_if_there row.assigned_to (set_checkpoint sequence_id shard))

unfoldable pub fetch_reply : Reply Item → ShardStatus → ShardStatus × Option Error
unfolding fetch_row
fetch_reply (failed e) shard = (shard, some e)
fetch_reply (ok row) shard = fetch_row row row.checkpoint shard

unfoldable pub owner_reply : Reply Item → Reply String
owner_reply (failed e) = failed e
owner_reply (ok row) = elim row.assigned_to [ none ↦ failed no_lease_owner | some owner ↦ ok owner ]

module _ (db : DynamoDbApi) where
  unfoldable pub checkpoint_sequence : ShardStatus → db.State → db.State × Option Error
  unfolding save_item checkpoint_item
  checkpoint_sequence shard s = save_item db (checkpoint_item shard) s

  unfoldable pub fetch_checkpoint : ShardStatus → db.State → db.State × ShardStatus × Option Error
  unfolding get_item fetch_reply
  fetch_checkpoint shard s =
      let (s', row) = get_item db shard.id s in
      let (shard', e) = fetch_reply row shard in (s', shard', e)

  unfoldable pub remove_lease_info : String → db.State → db.State × Option Error
  unfolding remove_item
  remove_lease_info shard_id s = remove_item db shard_id s

  unfoldable pub remove_lease_owner : DynamoCheckpoint → String → db.State → db.State × Option Error
  remove_lease_owner c shard_id s = db.remove_assigned_to shard_id c.kcl_config.worker_id s

  unfoldable pub get_lease_owner_of : String → db.State → db.State × Reply String
  unfolding get_item owner_reply
  get_lease_owner_of shard_id s = let (s', row) = get_item db shard_id s in (s', owner_reply row)
