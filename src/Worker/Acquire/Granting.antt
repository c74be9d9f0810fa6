-- ===== src/Worker/Acquire/Granting.antt =====
-- clientlibrary/checkpoint/dynamodb-checkpointer.go: GetLease and FetchCheckpoint as a round of
-- eventLoop relies on them.
use vmware_go_kcl_v2_test.Prelude.{◌≡◌, refl, String, Option, none, some}
use vmware_go_kcl_v2_test.Partition.{ShardStatus}
use vmware_go_kcl_v2_test.Checkpoint.{Item, Error, Reply, ok, failed}
use vmware_go_kcl_v2_test.Checkpoint.Service.{DynamoDbApi}
use vmware_go_kcl_v2_test.Checkpoint.Dynamo.{DynamoCheckpoint, get_item}
use vmware_go_kcl_v2_test.Checkpoint.Lease.{
  Instants, LeaseRequest, put_lease, lease_of_row, lease_taken, get_lease, map_error,
}
use vmware_go_kcl_v2_test.Checkpoint.Rows.{fetch_checkpoint}
use vmware_go_kcl_v2_test.Checkpoint.Checkpointer.{dynamo_checkpointer}
use vmware_go_kcl_v2_test.Checkpoint.Fetch.{fetch_reply-id}
use vmware_go_kcl_v2_test.Worker.Acquire.Round.{GrantsLeases}

-- A shard as GetLease may leave it.
record Leased (worker : String) (shard : ShardStatus) (shard' : ShardStatus) (e : Option Error)
    : Type 0 where
  same_id : shard'.id ≡ shard.id
  same_checkpoint : shard'.checkpoint ≡ shard.checkpoint
  same_claim : shard'.claim_request ≡ shard.claim_request
  owner : e ≡ none → shard'.assigned_to ≡ worker

lease_taken-Leased :
    (shard : ShardStatus) (worker : String) (r : LeaseRequest) (e : Option Error)
    → Leased worker shard (lease_taken shard worker r.timeout e) (map_error e)
unfolding lease_taken
lease_taken-Leased shard worker r none = record {
  same_id = refl;
  same_checkpoint = refl;
  same_claim = refl;
  owner = λ _. refl;
}
lease_taken-Leased shard worker r (some e) = record {
  same_id = refl;
  same_checkpoint = refl;
  same_claim = refl;
  owner = λ h. cc;
}

module _ (db : DynamoDbApi) where
  put_lease-Leased :
      (shard : ShardStatus) (worker : String) (r : Reply LeaseRequest) (s : db.State)
      → Leased worker shard (put_lease db shard worker r s).1 (put_lease db shard worker r s).2
  unfolding put_lease
  put_lease-Leased shard worker (failed e) s = record {
    same_id = refl;
    same_checkpoint = refl;
    same_claim = refl;
    owner = λ h. cc;
  }
  put_lease-Leased shard worker (ok r) s = lease_taken-Leased shard worker r _

  lease_of_row-Leased :
      (c : DynamoCheckpoint) (now : Instants) (shard : ShardStatus) (worker : String)
      (row : Reply Item) (s : db.State)
      → Leased worker shard
          (lease_of_row db c now shard worker row s).1
          (lease_of_row db c now shard worker row s).2
  unfolding lease_of_row
  lease_of_row-Leased c now shard worker (failed e) s = record {
    same_id = refl;
    same_checkpoint = refl;
    same_claim = refl;
    owner = λ h. cc;
  }
  lease_of_row-Leased c now shard worker (ok row) s = put_lease-Leased shard worker _ s

  get_lease-Leased :
      (c : DynamoCheckpoint) (now : Instants) (shard : ShardStatus) (worker : String) (s : db.State)
      → Leased worker shard
          (get_lease db c now shard worker s).1
          (get_lease db c now shard worker s).2
  unfolding get_lease
  get_lease-Leased c now shard worker s =
      let (s', row) = get_item db shard.id s in lease_of_row-Leased c now shard worker row s'

-- The DynamoDB checkpointer is one that a round can rely on, whatever the service answers.
pub dynamo_grants : (db : DynamoDbApi) → GrantsLeases (dynamo_checkpointer db)
unfolding fetch_checkpoint
dynamo_grants db = record {
  keeps_id = λ now shard w s. (get_lease-Leased db s.0 now shard w s.1).same_id;
  keeps_checkpoint = λ now shard w s. (get_lease-Leased db s.0 now shard w s.1).same_checkpoint;
  owns = λ now shard w s. (get_lease-Leased db s.0 now shard w s.1).owner;
  fetch_keeps_id = λ shard s. fetch_reply-id (get_item db shard.id s.1).1 shard;
}
