-- ===== src/Checkpoint/Lease/Claims.antt =====
-- clientlibrary/checkpoint/dynamodb-checkpointer.go: when GetLease is refused and when it must
-- succeed, claims included.
use vmware_go_kcl_v2_test.Prelude.{
  ◌≡◌, ◌≢◌, refl, ◌⊎◌, inr, String, Bool, true, false, Option, none, some, [], ◌∷◌, ◌++◌, arith,
  str_ne, eq_iff, eq_refl,
}
use vmware_go_kcl_v2_test.Prelude.Int.{◌-ℤ◌, ==ℤ_eq, ◌≤ℤ◌, ◌<ℤ◌, ==ℤ_refl}
use vmware_go_kcl_v2_test.Partition.{
  Time, zero_time, ShardStatus, milliseconds, is_claim_request_expired,
}
use vmware_go_kcl_v2_test.Checkpoint.{
  Item, LeaseText, stamp, other, parse, attribute_not_exists_assigned_to, shard_id_is,
  assigned_to_is, lease_timeout_is, Condition, Reply, ok, shard_claimed, holds, holds-append,
}
use vmware_go_kcl_v2_test.Checkpoint.Service.{DynamoDbApi, IsDynamoDb}
use vmware_go_kcl_v2_test.Checkpoint.Dynamo.{DynamoCheckpoint, conditional_update, get_item}
use vmware_go_kcl_v2_test.Checkpoint.Lease.{
  Instants, LeaseRequest, claim_on, claimed_by_another, still_leased, lease_condition,
  claim_condition, lease_item, lease_request, put_lease, lease_of_row, get_lease, text_or_empty,
}
use vmware_go_kcl_v2_test.Checkpoint.Lease.Decision.{expired, base, timeout}

module _ (c : DynamoCheckpoint) (now : Instants) (shard : ShardStatus) (worker : String) where
  abbrev over : Bool
  over = expired c now shard worker

  -- A row that GetLease can take: its owner, if it has one, comes with a timeout, and is the worker
  -- itself, or has let the timeout pass, or the claim counts as expired with lease stealing on; and
  -- no other worker has a claim in force.
  pub record IsFree (row : Item) : Type 0 where
    pub key : row.shard_id ≡ some shard.id
    pub lease :
        (row.assigned_to ≡ none)
        ⊎ ((owner : String) × (t : Time) × (row.assigned_to ≡ some owner)
            × (row.lease_timeout ≡ some (stamp t))
            × ((owner ≡ worker)
                ⊎ (t ≤ℤ now.check)
                ⊎ ((c.kcl_config.enable_lease_stealing ≡ true) × (over ≡ true))))
    pub claim : claimed_by_another (claim_on c.kcl_config row) worker over ≡ false

  still_leased-free :
      (owner : String) (t : Time)
      → (owner ≡ worker)
        ⊎ (t ≤ℤ now.check)
        ⊎ ((c.kcl_config.enable_lease_stealing ≡ true) × (over ≡ true))
      → still_leased c.kcl_config now.check over owner worker t ≡ false
  unfolding still_leased
  still_leased-free owner t h = ground (arith, eq_iff owner worker)

  abbrev Meets : Item → Reply Condition → Type 0
  Meets row reply = (required : Condition) × (reply ≡ ok required) × (holds required row ≡ true)

  free-base :
      (text : Option LeaseText) (owner : Option String) (row : Item)
      → row.lease_timeout ≡ text
      → row.assigned_to ≡ owner
      → IsFree row
      → Meets row (base c now shard worker row)
  unfolding lease_condition parse holds
  free-base none none row t o f =
      (attribute_not_exists_assigned_to ∷ [], ground arith, ground arith)
  free-base none (some owner) row t o f = absurd (ground (arith, f.lease))
  free-base (some text) none row t o f =
      (attribute_not_exists_assigned_to ∷ [], ground arith, ground arith)
  free-base (some (other u)) (some owner) row t o f = absurd (ground (arith, f.lease))
  free-base (some (stamp u)) (some owner) row t o f = (
    shard_id_is shard.id ∷ assigned_to_is owner ∷ lease_timeout_is (stamp u) ∷ [],
    ground (arith, f.lease, still_leased-free owner u),
    ground (arith, f.key, eq_refl shard.id, eq_refl owner, ==ℤ_refl u),
  )

  free-claim :
      (row : Item)
      → holds (claim_condition c.kcl_config over (claim_on c.kcl_config row) worker) row ≡ true
  unfolding claim_condition claim_on holds
  free-claim row = ground (arith, eq_refl (text_or_empty row.claim_request))

  -- The request for a free row is made, and the row as it was read meets its condition.
  free-request :
      (row : Item)
      → IsFree row
      → (r : LeaseRequest) × (lease_request c now shard worker row ≡ ok r)
        × (r.item.shard_id ≡ some shard.id)
        × (holds r.condition row ≡ true)
  unfolding lease_request lease_item
  free-request row f =
      let (required, e, h) = free-base row.lease_timeout row.assigned_to row refl refl f in
      let extra = claim_condition c.kcl_config over (claim_on c.kcl_config row) worker in
      (
        record {
          condition = required ++ extra;
          item = lease_item shard worker (timeout c now shard worker);
          timeout = timeout c now shard worker;
        },
        ground (arith, f.claim),
        refl,
        ground (arith, holds-append required extra row, free-claim row),
      )

  stale_cache :
      shard.lease_timeout ≢ zero_time
      → shard.lease_timeout
        <ℤ now.claim -ℤ milliseconds c.kcl_config.lease_stealing_claim_timeout_millis
      → over ≡ true
  unfolding is_claim_request_expired
  stale_cache known stale = ground (arith, ==ℤ_eq shard.lease_timeout zero_time)

  void_claim : (claim : String) → over ≡ true → claimed_by_another claim worker over ≡ false
  unfolding claimed_by_another
  void_claim claim passed = ground arith

  module _ (db : DynamoDbApi) where
    -- GetLease cannot miss a free lease: when the service answers the read with a row that is free
    -- and accepts each write of the shard's row whose condition that row meets, the call returns no error.
    pub get_lease_available :
        (s : db.State) (row : Item)
        → (db.get_item shard.id s).1 ≡ ok (some row)
        → IsFree row
        → ((d : Condition) (i : Item)
            → i.shard_id ≡ some shard.id
            → holds d row ≡ true
            → (db.put_item d i (db.get_item shard.id s).0).1 ≡ none)
        → (get_lease db c now shard worker s).2 ≡ none
    unfolding get_lease lease_of_row put_lease get_item conditional_update
    get_lease_available s row e f accepts =
        let (r, q, key, h) = free-request row f in ground (arith, accepts r.condition r.item key h)

    -- With lease stealing on, a claim in force stops everybody but the claimant, the owner's
    -- renewal included: if the service answers the read, the error says so, and neither a row nor
    -- the cached shard changes.
    pub get_lease_claimed :
        (is : IsDynamoDb db) (s : db.State) (row : Item) (claimant : String)
        → (db.get_item shard.id s).1 ≡ ok (some row)
        → c.kcl_config.enable_lease_stealing ≡ true
        → row.claim_request ≡ some claimant
        → claimant ≢ ""
        → worker ≢ claimant
        → over ≡ false
        → let result = get_lease db c now shard worker s in
          (result.2 ≡ some shard_claimed)
          × (result.1 ≡ shard)
          × ((j : String) → is.row result.0 j ≡ is.row s j)
    unfolding get_lease lease_of_row put_lease get_item lease_request claimed_by_another claim_on
    get_lease_claimed is s row claimant e on k named other_worker current = (
      ground (arith, str_ne claimant "" named, str_ne worker claimant other_worker),
      ground (arith, str_ne claimant "" named, str_ne worker claimant other_worker),
      λ j. ground (
        arith,
        is.get_item_keeps shard.id s j,
        str_ne claimant "" named,
        str_ne worker claimant other_worker,
      ),
    )

    -- With lease stealing on, a cached timeout that is older than the claim timeout is enough to
    -- take another worker's live lease, without any claim: when the row is under a lease of
    -- another owner that has not run out, has no claim, is read, and the service accepts each
    -- write of its row whose condition the row meets, the call returns no error.
    pub get_lease_stale_cache :
        (s : db.State) (row : Item) (owner : String) (t : Time)
        → (db.get_item shard.id s).1 ≡ ok (some row)
        → c.kcl_config.enable_lease_stealing ≡ true
        → shard.lease_timeout ≢ zero_time
        → shard.lease_timeout
          <ℤ now.claim -ℤ milliseconds c.kcl_config.lease_stealing_claim_timeout_millis
        → row.shard_id ≡ some shard.id
        → row.assigned_to ≡ some owner
        → owner ≢ worker
        → row.lease_timeout ≡ some (stamp t)
        → now.check <ℤ t
        → row.claim_request ≡ none
        → ((d : Condition) (i : Item)
            → i.shard_id ≡ some shard.id
            → holds d row ≡ true
            → (db.put_item d i (db.get_item shard.id s).0).1 ≡ none)
        → (get_lease db c now shard worker s).2 ≡ none
    get_lease_stale_cache s row owner t e on known stale key o other_owner lease live unclaimed
          accepts =
        let passed : over ≡ true = stale_cache known stale in
        get_lease_available s row e
          (record {
            key = key;
            lease = inr (owner, t, o, lease, inr (inr (on, passed)));
            claim = void_claim _ passed;
          })
          accepts
