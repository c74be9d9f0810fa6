-- ===== src/Checkpoint/Lease/Decision.antt =====
-- clientlibrary/checkpoint/dynamodb-checkpointer.go: when GetLease asks for a shard, and what it
-- asks for.
use vmware_go_kcl_v2_test.Prelude.{
  ◌≡◌, refl, ◌⊎◌, inl, inr, String, Bool, true, false, Option, none, some, ◌++◌, arith, eq_iff,
}
use vmware_go_kcl_v2_test.Prelude.Int.{◌+ℤ◌, ◌≤ℤ◌}
use vmware_go_kcl_v2_test.Config.{KinesisClientLibConfiguration}
use vmware_go_kcl_v2_test.Partition.{Time, ShardStatus, milliseconds, is_claim_request_expired}
use vmware_go_kcl_v2_test.Checkpoint.{
  Item, LeaseText, stamp, other, parse, Condition, Reply, ok, failed, holds, holds-append, has-eq,
  has_stamp-eq,
}
use vmware_go_kcl_v2_test.Checkpoint.Dynamo.{DynamoCheckpoint}
use vmware_go_kcl_v2_test.Checkpoint.Lease.{
  Instants, LeaseRequest, claim_on, claimed_by_another, still_leased, lease_condition,
  claim_condition, lease_item, lease_request,
}

-- The lease of a row is open to `worker`: it has no owner or no timeout, or it is the worker's own,
-- or it has run out. With lease stealing on every row is open to a worker whose cached timeout is
-- older than the claim timeout (IsClaimRequestExpired), with a claim in the row or without.
pub data IsOpen (cfg : KinesisClientLibConfiguration) (now : Time) (expired : Bool)
    (worker : String) (row : Item) : Type 0 where
  no_timeout : row.lease_timeout ≡ none → IsOpen cfg now expired worker row
  no_owner : row.assigned_to ≡ none → IsOpen cfg now expired worker row
  own : row.assigned_to ≡ some worker → IsOpen cfg now expired worker row
  run_out :
      (t : Time) → row.lease_timeout ≡ some (stamp t) → t ≤ℤ now → IsOpen cfg now expired worker row
  stale_cache :
      cfg.enable_lease_stealing ≡ true → expired ≡ true → IsOpen cfg now expired worker row

module _ (cfg : KinesisClientLibConfiguration) (now : Time) (expired : Bool) (worker : String) where
  still_leased-false :
      (owner : String) (t : Time)
      → still_leased cfg now expired owner worker t ≡ false
      → (t ≤ℤ now) ⊎ (owner ≡ worker) ⊎ ((cfg.enable_lease_stealing ≡ true) × (expired ≡ true))
  unfolding still_leased
  still_leased-false owner t h = ground (arith, eq_iff owner worker)

module _ (c : DynamoCheckpoint) (now : Instants) (shard : ShardStatus) (worker : String) where
  abbrev pub cfg : KinesisClientLibConfiguration
  cfg = c.kcl_config

  abbrev pub expired : Bool
  expired = is_claim_request_expired cfg now.claim shard

  abbrev pub timeout : Time
  timeout = now.start +ℤ milliseconds c.lease_duration

  abbrev pub base : Item → Reply Condition
  base row = lease_condition cfg now.check expired shard.id worker row.lease_timeout row.assigned_to

  -- The parts of a request that is made.
  pub record IsRequest (row : Item) (r : LeaseRequest) (required : Condition) : Type 0 where
    pub based : base row ≡ ok required
    pub condition : r.condition ≡ required ++ claim_condition cfg expired (claim_on cfg row) worker
    pub item : r.item ≡ lease_item shard worker timeout
    pub timed : r.timeout ≡ timeout
    pub unclaimed : claimed_by_another (claim_on cfg row) worker expired ≡ false

  split-IsRequest :
      (row : Item) (r : LeaseRequest) (claimed : Bool) (reply : Reply Condition)
      → claimed_by_another (claim_on cfg row) worker expired ≡ claimed
      → base row ≡ reply
      → lease_request c now shard worker row ≡ ok r
      → (required : Condition) × IsRequest row r required
  unfolding lease_request
  split-IsRequest row r true reply e b h = absurd (ground arith)
  split-IsRequest row r false (failed why) e b h = absurd (ground arith)
  split-IsRequest row r false (ok required) e b h = (required, ground arith)

  pub lease_request-IsRequest :
      (row : Item) (r : LeaseRequest)
      → lease_request c now shard worker row ≡ ok r
      → (required : Condition) × IsRequest row r required
  lease_request-IsRequest row r = split-IsRequest row r _ _ refl refl

  -- A request is made only for an open lease.
  base-IsOpen :
      (text : Option LeaseText) (owner : Option String) (row : Item) (required : Condition)
      → row.lease_timeout ≡ text
      → row.assigned_to ≡ owner
      → base row ≡ ok required
      → IsOpen cfg now.check expired worker row
  unfolding lease_condition parse
  base-IsOpen none owner row required t o h = no_timeout t
  base-IsOpen (some text) none row required t o h = no_owner o
  base-IsOpen (some (other s)) (some owner) row required t o h = absurd (ground arith)
  base-IsOpen (some (stamp u)) (some owner) row required t o h =
      elim (still_leased-false cfg now.check expired worker owner u (ground arith)) [
        | inl le ↦ run_out u t le
        | inr (inl e) ↦ own (ground arith)
        | inr (inr (on, over)) ↦ stale_cache on over
      ]

  pub lease_request-IsOpen :
      (row : Item) (r : LeaseRequest)
      → lease_request c now shard worker row ≡ ok r
      → IsOpen cfg now.check expired worker row
  lease_request-IsOpen row r h =
      let (required, q) = lease_request-IsRequest row r h in
      base-IsOpen row.lease_timeout row.assigned_to row required refl refl q.based

  -- A row that meets the condition of a request has the owner and the timeout that were read.
  base-holds :
      (text : Option LeaseText) (owner : Option String) (row row' : Item) (required : Condition)
      → row.lease_timeout ≡ text
      → row.assigned_to ≡ owner
      → base row ≡ ok required
      → holds required row' ≡ true
      → IsOpen cfg now.check expired worker row'
  unfolding lease_condition parse holds
  base-holds none owner row row' required t o h k = ground arith
  base-holds (some text) none row row' required t o h k = ground arith
  base-holds (some (other s)) (some owner) row row' required t o h k = absurd (ground arith)
  base-holds (some (stamp u)) (some owner) row row' required t o h k =
      elim (still_leased-false cfg now.check expired worker owner u (ground arith)) [
        | inl le ↦ run_out u (ground (arith, has_stamp-eq row'.lease_timeout u)) le
        | inr (inl e) ↦ own (ground (arith, has-eq row'.assigned_to owner))
        | inr (inr (on, over)) ↦ stale_cache on over
      ]

  -- GetLease writes by compare and swap: whatever happened to the row since it was read, a row that
  -- meets the condition of the write is open to the worker at the time of the check.
  pub lease_request-holds :
      (row row' : Item) (r : LeaseRequest)
      → lease_request c now shard worker row ≡ ok r
      → holds r.condition row' ≡ true
      → IsOpen cfg now.check expired worker row'
  lease_request-holds row row' r h k =
      let (required, q) = lease_request-IsRequest row r h in
      base-holds row.lease_timeout row.assigned_to row row' required refl refl q.based (
        ground (
          arith,
          q.condition,
          holds-append required (claim_condition cfg expired (claim_on cfg row) worker) row',
        ))
