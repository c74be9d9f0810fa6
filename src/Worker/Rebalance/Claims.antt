-- ===== src/Worker/Rebalance/Claims.antt =====
-- clientlibrary/worker/worker.go: the claim that rebalance places.
use vmware_go_kcl_v2_test.Prelude.{
  ℕ, ◌≡◌, ◌≢◌, String, true, false, Option, none, some, List, get_elem?, length, ◌%◌, str_eq,
}
use vmware_go_kcl_v2_test.Config.{KinesisClientLibConfiguration}
use vmware_go_kcl_v2_test.Partition.{ShardStatus}
use vmware_go_kcl_v2_test.Checkpoint.{shard_end}
use vmware_go_kcl_v2_test.Checkpoint.Service.{DynamoDbApi, IsDynamoDb}
use vmware_go_kcl_v2_test.Checkpoint.Dynamo.{DynamoCheckpoint}
use vmware_go_kcl_v2_test.Checkpoint.Claim.Placed.{Placed}
use vmware_go_kcl_v2_test.Checkpoint.Workers.{ShardMap, WorkerMap}
use vmware_go_kcl_v2_test.Kinesis.{KinesisApi}
use vmware_go_kcl_v2_test.Worker.Shards.{find_shard}
use vmware_go_kcl_v2_test.Worker.Rebalance.{Rebalanced, shards_of, worker_to_steal_from}

module _ (db : DynamoDbApi) (is : IsDynamoDb db) (k : KinesisApi)
    (cfg : KinesisClientLibConfiguration) (worker_id : String) where
  abbrev State : Type 0
  State = DynamoCheckpoint × db.State

  -- A steal that was started: no error, and the flag is set.
  pub record HasClaimed (r : Rebalanced k.State State) : Type 0 where
    pub error : r.error ≡ none
    pub flag : r.steal_in_progress ≡ true

  -- The claim of a steal: the worker that it is from, its shard, and the claim in the row of the
  -- shard.
  pub record Steals (workers visited : WorkerMap) (cache : ShardMap) (rnd : ℕ) (s t : db.State)
      : Type 0 where
    pub theirs : List ShardStatus
    pub chosen : ShardStatus
    pub cached : ShardStatus
    pub worker :
        shards_of (worker_to_steal_from cfg worker_id workers visited) workers ≡ some theirs
    pub drawn : get_elem? theirs (rnd % length theirs) ≡ some chosen
    pub found : find_shard chosen.id cache ≡ some cached
    pub placed : Placed db is worker_id chosen.id s t

  -- The shard that a rebalance has claimed.
  pub record Claimed (workers visited : WorkerMap) (s t : db.State) : Type 0 where
    pub chosen : ShardStatus
    pub owner : chosen.assigned_to ≡ worker_to_steal_from cfg worker_id workers visited
    pub other : worker_to_steal_from cfg worker_id workers visited ≢ worker_id
    pub unfinished : str_eq chosen.checkpoint shard_end ≡ false
    pub placed : Placed db is worker_id chosen.id s t
