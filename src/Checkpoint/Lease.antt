-- ===== src/Checkpoint/Lease.antt =====
-- clientlibrary/checkpoint/dynamodb-checkpointer.go: GetLease, as the request that it computes from
-- the row that it has read, and the conditional write of that request.
pub mod Decision
pub mod Outcomes
pub mod Cluster
pub mod LateRemoval
pub mod Recorded
pub mod Consistency
pub mod Exclusion
pub mod Claims
use vmware_go_kcl_v2_test.Prelude.{
  ◌≡◌, String, Bool, true, false, not, ◌&&◌, ◌||◌, Option, none, some, List, [], ◌∷◌, ◌++◌, str_eq,
  if◌then◌else◌,
}
use vmware_go_kcl_v2_test.Prelude.Int.{ℤ, ◌+ℤ◌, ltb_ℤ}
use vmware_go_kcl_v2_test.Config.{KinesisClientLibConfiguration}
use vmware_go_kcl_v2_test.Partition.{
  Time, ShardStatus, milliseconds, get_checkpoint, is_claim_request_expired,
}
use vmware_go_kcl_v2_test.Checkpoint.{
  Item, LeaseText, format, parse, Clause, Condition, Error, Reply, ok, failed, lease_not_acquired,
  conditional_check_failed, shard_claimed, bad_timestamp, attribute_not_exists_assigned_to,
  shard_id_is, assigned_to_is, lease_timeout_is, claim_request_is,
}
use vmware_go_kcl_v2_test.Checkpoint.Service.{DynamoDbApi}
use vmware_go_kcl_v2_test.Checkpoint.Dynamo.{DynamoCheckpoint, get_item, conditional_update}

-- The three readings of the clock: for the new timeout, for the claim's expiry, and for the
-- current lease.
pub record Instants : Type 0 where
  pub start : Time
  pub claim : Time
  pub check : Time

pub record LeaseRequest : Type 0 where
  pub condition : Condition
  pub item : Item
  pub timeout : Time

abbrev pub text_or_empty : Option String → String
text_or_empty none = ""
text_or_empty (some s) = s

-- An attribute that is set to a text unless the text is empty.
abbrev pub unless_empty : String → Option String
unless_empty s = if str_eq s "" then none else some s

-- The claim that is looked at: none unless lease stealing is on.
unfoldable pub claim_on : KinesisClientLibConfiguration → Item → String
claim_on cfg i = if cfg.enable_lease_stealing then text_or_empty i.claim_request else ""

unfoldable pub claimed_by_another : String → String → Bool → Bool
claimed_by_another claim new_assign_to expired =
    not (str_eq claim "") && not (str_eq new_assign_to claim) && not expired

-- Another worker's lease that has not run out, and whose claim, with stealing on, has not expired.
unfoldable pub still_leased :
    KinesisClientLibConfiguration → Time → Bool → (assigned_to new_assign_to : String) → Time → Bool
still_leased cfg now expired assigned_to new_assign_to timeout =
    if cfg.enable_lease_stealing
    then ltb_ℤ now timeout && not (str_eq assigned_to new_assign_to) && not expired
    else ltb_ℤ now timeout && not (str_eq assigned_to new_assign_to)

-- The condition under which the row may be taken over; the shard's id, the new owner, and the
-- row's timeout and owner.
unfoldable pub lease_condition :
    KinesisClientLibConfiguration
    → Time
    → Bool
    → (shard_id new_assign_to : String) → Option LeaseText
    → Option String
    → Reply Condition
unfolding still_leased
lease_condition cfg now expired shard_id new_assign_to (some text) (some assigned_to) =
    elim (parse text) [
      | none ↦ failed bad_timestamp
      | some timeout ↦
          if still_leased cfg now expired assigned_to new_assign_to timeout
          then failed (lease_not_acquired "current lease timeout not yet expired")
          else ok (shard_id_is shard_id ∷ assigned_to_is assigned_to ∷ lease_timeout_is text ∷ [])
    ]
lease_condition cfg now expired shard_id new_assign_to _ _ =
    ok (attribute_not_exists_assigned_to ∷ [])

-- The claim that the write must still find.
unfoldable pub claim_condition :
    KinesisClientLibConfiguration → Bool → (claim new_assign_to : String) → Condition
claim_condition cfg expired claim new_assign_to =
    if cfg.enable_lease_stealing
      && not (str_eq claim "")
      && str_eq claim new_assign_to
      && not expired
    then claim_request_is claim ∷ []
    else []

unfoldable pub lease_item : ShardStatus → String → Time → Item
unfolding get_checkpoint
lease_item shard new_assign_to timeout = record {
  shard_id = some shard.id;
  assigned_to = some new_assign_to;
  lease_timeout = some (format timeout);
  checkpoint = unless_empty (get_checkpoint shard);
  parent_shard_id = unless_empty shard.parent_shard_id;
  claim_request = none;
}

abbrev pub map_reply : (Condition → LeaseRequest) → Reply Condition → Reply LeaseRequest
map_reply f (ok c) = ok (f c)
map_reply f (failed e) = failed e

unfoldable pub lease_request :
    DynamoCheckpoint → Instants → ShardStatus → String → Item → Reply LeaseRequest
lease_request c now shard new_assign_to row =
    let cfg = c.kcl_config in
    let expired = is_claim_request_expired cfg now.claim shard in
    let claim = claim_on cfg row in
    let timeout = now.start +ℤ milliseconds c.lease_duration in
    if claimed_by_another claim new_assign_to expired
    then failed shard_claimed
    else map_reply
        (λ condition. record {
          condition = condition ++ claim_condition cfg expired claim new_assign_to;
          item = lease_item shard new_assign_to timeout;
          timeout = timeout;
        })
        (lease_condition cfg now.check expired shard.id new_assign_to row.lease_timeout
          row.assigned_to)

-- A lost race is reported as a lease that was not acquired.
unfoldable pub put_error : Error → Error
put_error (conditional_check_failed why) = lease_not_acquired why
put_error e = e

unfoldable pub lease_taken : ShardStatus → String → Time → Option Error → ShardStatus
lease_taken shard new_assign_to timeout none = record shard {
  assigned_to = new_assign_to;
  lease_timeout = timeout;
}
lease_taken shard new_assign_to timeout (some e) = shard

abbrev pub map_error : Option Error → Option Error
map_error none = none
map_error (some e) = some (put_error e)

module _ (db : DynamoDbApi) where
  unfoldable pub put_lease :
      ShardStatus → String → Reply LeaseRequest → db.State → db.State × ShardStatus × Option Error
  unfolding conditional_update lease_taken
  put_lease shard new_assign_to (failed e) s = (s, shard, some e)
  put_lease shard new_assign_to (ok r) s =
      let (s', e) = conditional_update db r.condition r.item s in
      (s', lease_taken shard new_assign_to r.timeout e, map_error e)

  unfoldable pub lease_of_row :
      DynamoCheckpoint
      → Instants
      → ShardStatus
      → String
      → Reply Item
      → db.State
      → db.State × ShardStatus × Option Error
  unfolding put_lease
  lease_of_row c now shard new_assign_to (failed e) s = (s, shard, some e)
  lease_of_row c now shard new_assign_to (ok row) s =
      put_lease shard new_assign_to (lease_request c now shard new_assign_to row) s

  unfoldable pub get_lease :
      DynamoCheckpoint
      → Instants
      → ShardStatus
      → String
      → db.State
      → db.State × ShardStatus × Option Error
  unfolding get_item lease_of_row
  get_lease c now shard new_assign_to s =
      let (s', row) = get_item db shard.id s in lease_of_row c now shard new_assign_to row s'
