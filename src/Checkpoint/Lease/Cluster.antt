-- ===== src/Checkpoint/Lease/Cluster.antt =====
-- The workers of a fleet on one shard, interleaved: GetLease, FetchCheckpoint and RemoveLeaseOwner
-- (clientlibrary/checkpoint/dynamodb-checkpointer.go), Checkpoint
-- (clientlibrary/worker/record-processor-checkpointer.go) and the two parts of releaseLease
-- (clientlibrary/worker/common-shard-consumer.go), which are steps of their own. GetLease is its
-- conditional write here: the row and the cached copy of the shard that its request was computed from
-- may be any, so the reads and the writes of GetLease interleave freely, and a write may be delayed. Checkpoint, and FetchCheckpoint with its writes to the cache, are single steps.
use vmware_go_kcl_v2_test.Prelude.{◌≡◌, ◌≢◌, ◌⊎◌, String, Option, none, some, str_eq, if◌then◌else◌}
use vmware_go_kcl_v2_test.Prelude.Int.{◌≤ℤ◌, ◌<ℤ◌}
use vmware_go_kcl_v2_test.Partition.{Time, ShardStatus, set_lease_owner}
use vmware_go_kcl_v2_test.Checkpoint.{Item, Error, stamp}
use vmware_go_kcl_v2_test.Checkpoint.Service.{DynamoDbApi, IsDynamoDb, stored}
use vmware_go_kcl_v2_test.Checkpoint.Dynamo.{DynamoCheckpoint}
use vmware_go_kcl_v2_test.Checkpoint.Lease.{Instants, lease_request, put_lease}
use vmware_go_kcl_v2_test.Checkpoint.Rows.{fetch_checkpoint, remove_lease_owner}
use vmware_go_kcl_v2_test.Processor.{checkpoint}

abbrev pub update : (String → ShardStatus) → String → ShardStatus → String → ShardStatus
update view w shard v = if str_eq w v then shard else view v

-- `cs` is the checkpointer of each worker, and `id` the shard.
module _ (db : DynamoDbApi) (is : IsDynamoDb db) (cs : String → DynamoCheckpoint)
    (id : String) where
  -- The lease table, the time, and what each worker has cached of the shard.
  pub record Cluster : Type 0 where
    pub table : db.State
    pub clock : Time
    pub view : String → ShardStatus

  abbrev pub row : Cluster → Item
  row s = stored (is.row s.table id)

  -- The worker takes itself for the owner, and its lease has not run out.
  pub record Holds (s : Cluster) (w : String) : Type 0 where
    pub owner : (s.view w).assigned_to ≡ w
    pub live : s.clock <ℤ (s.view w).lease_timeout

  -- The calls of a worker, and what they leave in its cache.
  abbrev pub taken :
      Cluster → String → Instants → ShardStatus → Item → db.State × ShardStatus × Option Error
  taken s w now shard read = put_lease db shard w (lease_request (cs w) now shard w read) s.table

  abbrev pub own_lease : ShardStatus → String → ShardStatus → ShardStatus
  own_lease shard w granted = record shard {
    assigned_to = w;
    lease_timeout = granted.lease_timeout;
  }

  abbrev pub fetched : Cluster → String → db.State × ShardStatus × Option Error
  fetched s w = fetch_checkpoint db (s.view w) s.table

  abbrev pub removed : Cluster → String → db.State × Option Error
  removed s w = remove_lease_owner db (cs w) id s.table

  abbrev pub checkpointed : Cluster → String → Option String → db.State × ShardStatus × Option Error
  checkpointed s w sequence_number = checkpoint db s.clock sequence_number (s.view w) s.table

  abbrev pub after : Cluster → String → db.State → ShardStatus → Cluster
  after s w t shard = record s { table = t; view = update s.view w shard }

  -- A step is a call that succeeds, or a call that leaves the row of the shard as it is.
  pub data Step : Cluster → Cluster → Type 0 where
    tick : (s : Cluster) (t : Time) → s.clock ≤ℤ t → Step s (record s { clock = t })
    elsewhere :
        (s : Cluster) (t : db.State)
        → is.row t id ≡ is.row s.table id
        → Step s (record s { table = t })
    take :
        (s : Cluster) (w : String) (now : Instants) (shard : ShardStatus) (read : Item)
        → now.check ≤ℤ s.clock
        → shard.id ≡ id
        → (taken s w now shard read).2 ≡ none
        → Step s (
            after s w
              (taken s w now shard read).0
              (own_lease (s.view w) w (taken s w now shard read).1))
    fetch : (s : Cluster) (w : String) → Step s (after s w (fetched s w).0 (fetched s w).1)
    clear :
        (s : Cluster) (w : String)
        → w ≢ ""
        → Step s (after s w s.table (set_lease_owner "" (s.view w)))
    remove :
        (s : Cluster) (w : String) (i : Item)
        → is.row s.table id ≡ some i
        → (removed s w).1 ≡ none
        → Step s (record s { table = (removed s w).0 })
    checkpoint_of :
        (s : Cluster) (w : String) (sequence_number : Option String)
        → (checkpointed s w sequence_number).2 ≡ none
        → Step s
            (after s w (checkpointed s w sequence_number).0 (checkpointed s w sequence_number).1)

  -- The steps without three overlaps that the code leaves possible: a removal that arrives after
  -- its worker has taken the lease again, a checkpoint by a worker that takes another one for the
  -- owner, and the fetch of a row by a worker that takes itself for the owner when its lease has run
  -- out.
  abbrev pub Orderly : {s t : Cluster} → Step s t → Type 0
  Orderly (tick s u later) = Unit
  Orderly (elsewhere s u kept) = Unit
  Orderly (take s w now shard read past same done) = Unit
  Orderly (fetch s w) = ((s.view w).assigned_to ≢ w) ⊎ (s.clock <ℤ (s.view w).lease_timeout)
  Orderly (clear s w named) = Unit
  Orderly (remove s w i at done) = (s.view w).assigned_to ≢ w
  Orderly (checkpoint_of s w sequence_number done) = (s.view w).assigned_to ≡ w

  pub data Reach (s : Cluster) : Cluster → Type 0 where
    here : Reach s s
    next : {t u : Cluster} → Reach s t → (step : Step t u) → Orderly step → Reach s u

  -- The row belongs to every worker that holds the lease, and with an owner it has a timeout.
  pub record IsConsistent (s : Cluster) : Type 0 where
    pub same_id : (w : String) → (s.view w).id ≡ id
    pub timed :
        (o : String)
        → (row s).assigned_to ≡ some o
        → (t : Time) × ((row s).lease_timeout ≡ some (stamp t))
    pub recorded :
        (w : String)
        → Holds s w
        → ((row s).assigned_to ≡ some w)
          × ((row s).lease_timeout ≡ some (stamp (s.view w).lease_timeout))
