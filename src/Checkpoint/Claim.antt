-- ===== src/Checkpoint/Claim.antt =====
-- clientlibrary/checkpoint/dynamodb-checkpointer.go: ClaimShard.
pub mod Placed
pub mod Handover
use vmware_go_kcl_v2_test.Prelude.{String, Option, none, some, [], ◌∷◌, str_eq, if◌then◌else◌}
use vmware_go_kcl_v2_test.Partition.{
  ShardStatus, get_checkpoint, get_lease_owner, get_lease_timeout,
}
use vmware_go_kcl_v2_test.Checkpoint.{
  Item, format, shard_end, Error, is_sequence_id_not_found, Clause, Condition,
  attribute_not_exists_assigned_to, attribute_not_exists_claim_request,
  attribute_not_exists_checkpoint, attribute_not_exists_parent_shard_id, shard_id_is,
  assigned_to_is, checkpoint_is, checkpoint_is_not, parent_shard_id_is, lease_timeout_is,
}
use vmware_go_kcl_v2_test.Checkpoint.Service.{DynamoDbApi}
use vmware_go_kcl_v2_test.Checkpoint.Dynamo.{conditional_update}
use vmware_go_kcl_v2_test.Checkpoint.Lease.{unless_empty}
use vmware_go_kcl_v2_test.Checkpoint.Rows.{fetch_checkpoint}

-- The row is left as it is, but for the claim.
unfoldable pub claim_item : ShardStatus → String → Item
unfolding get_lease_timeout get_lease_owner
claim_item shard claim_id = record {
  shard_id = some shard.id;
  assigned_to = unless_empty (get_lease_owner shard);
  lease_timeout = some (format (get_lease_timeout shard));
  checkpoint = some shard.checkpoint;
  parent_shard_id = unless_empty shard.parent_shard_id;
  claim_request = some claim_id;
}

unfoldable pub owner_clause : String → Clause
owner_clause owner =
    if str_eq owner "" then attribute_not_exists_assigned_to else assigned_to_is owner

unfoldable pub checkpoint_clause : String → Clause
checkpoint_clause checkpoint =
    if str_eq checkpoint ""
    then attribute_not_exists_checkpoint
    else if str_eq checkpoint shard_end
    then checkpoint_is_not shard_end
    else checkpoint_is checkpoint

unfoldable pub parent_clause : String → Clause
parent_clause parent =
    if str_eq parent "" then attribute_not_exists_parent_shard_id else parent_shard_id_is parent

unfoldable pub claim_shard_condition : ShardStatus → Condition
unfolding owner_clause checkpoint_clause parent_clause get_checkpoint get_lease_owner
    get_lease_timeout
claim_shard_condition shard =
    shard_id_is shard.id
    ∷ lease_timeout_is (format (get_lease_timeout shard))
    ∷ attribute_not_exists_claim_request
    ∷ owner_clause (get_lease_owner shard)
    ∷ checkpoint_clause (get_checkpoint shard)
    ∷ parent_clause shard.parent_shard_id
    ∷ []

-- The error of the fetch that ends the call.
abbrev pub blocking : Option Error → Option Error
blocking none = none
blocking (some e) = if is_sequence_id_not_found e then none else some e

module _ (db : DynamoDbApi) where
  unfoldable pub claim_fetched :
      ShardStatus → String → Option Error → db.State → db.State × ShardStatus × Option Error
  unfolding claim_item claim_shard_condition conditional_update
  claim_fetched shard claim_id (some e) s = (s, shard, some e)
  claim_fetched shard claim_id none s =
      let (s', e) =
        conditional_update db (claim_shard_condition shard) (claim_item shard claim_id) s in
      (s', shard, e)

  unfoldable pub claim_shard :
      ShardStatus → String → db.State → db.State × ShardStatus × Option Error
  unfolding fetch_checkpoint claim_fetched
  claim_shard shard claim_id s =
      let (s', shard', e) = fetch_checkpoint db shard s in
      claim_fetched shard' claim_id (blocking e) s'
