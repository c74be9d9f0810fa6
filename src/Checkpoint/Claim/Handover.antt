-- ===== src/Checkpoint/Claim/Handover.antt =====
-- clientlibrary/checkpoint/dynamodb-checkpointer.go: from a claim to the lease of the claimant,
-- whatever the other workers try in between.
use vmware_go_kcl_v2_test.Prelude.{◌≡◌, ◌≢◌, String, true, false, none, some, List, [], ◌∷◌}
use vmware_go_kcl_v2_test.Partition.{ShardStatus}
use vmware_go_kcl_v2_test.Checkpoint.{Item, ok, holds, Condition}
use vmware_go_kcl_v2_test.Checkpoint.Service.{DynamoDbApi, IsDynamoDb, stored}
use vmware_go_kcl_v2_test.Checkpoint.Dynamo.{DynamoCheckpoint}
use vmware_go_kcl_v2_test.Checkpoint.Lease.{Instants, get_lease}
use vmware_go_kcl_v2_test.Checkpoint.Lease.Decision.{expired}

-- A call of GetLease by a worker, with its configuration and its copy of the shard.
pub record Attempt : Type 0 where
  pub table : DynamoCheckpoint
  pub now : Instants
  pub copy : ShardStatus
  pub worker : String

module _ (db : DynamoDbApi) (is : IsDynamoDb db) (claim_id : String) where
  -- The calls of GetLease one after the other.
  abbrev pub attempts : List Attempt → db.State → db.State
  attempts [] s = s
  attempts (a ∷ xs) s = attempts xs (get_lease db a.table a.now a.copy a.worker s).0

  -- The service answers each read, and takes each write whose condition the row meets.
  pub record Serves : Type 0 where
    pub reads : (k : String) (s : db.State) → (db.get_item k s).1 ≡ ok (is.row s k)
    pub writes :
        (d : Condition) (i : Item) (k : String) (s : db.State)
        → i.shard_id ≡ some k
        → holds d (stored (is.row s k)) ≡ true
        → (db.put_item d i s).1 ≡ none

  -- Another worker, with lease stealing on and a cached timeout that does not make the claim expired.
  pub record Refusable (id : String) (a : Attempt) : Type 0 where
    pub stealing : a.table.kcl_config.enable_lease_stealing ≡ true
    pub other : a.worker ≢ claim_id
    pub same : a.copy.id ≡ id
    pub current : expired a.table a.now a.copy a.worker ≡ false
