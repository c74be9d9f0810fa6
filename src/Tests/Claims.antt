-- ===== src/Tests/Claims.antt =====
-- The theorems on ClaimShard at a concrete table.
use vmware_go_kcl_v2_test.Prelude.{◌≡◌, refl, none, [], ◌∷◌}
use vmware_go_kcl_v2_test.Prelude.Int.{pos}
use vmware_go_kcl_v2_test.Partition.{
  get_checkpoint, get_lease_owner, get_lease_timeout, set_checkpoint, set_lease_owner,
}
use vmware_go_kcl_v2_test.Checkpoint.{holds, clause_holds, format, parse, lease_text_is_empty}
use vmware_go_kcl_v2_test.Checkpoint.Dynamo.{get_item, conditional_update}
use vmware_go_kcl_v2_test.Checkpoint.Rows.{fetch_checkpoint, fetch_reply, fetch_row, fetch_timeout}
use vmware_go_kcl_v2_test.Checkpoint.Lease.{get_lease}
use vmware_go_kcl_v2_test.Checkpoint.Claim.{
  claim_shard, claim_fetched, claim_item, claim_shard_condition, owner_clause, checkpoint_clause,
  parent_clause,
}
use vmware_go_kcl_v2_test.Checkpoint.Claim.Placed.{Placed, claim_shard-Placed}
use vmware_go_kcl_v2_test.Checkpoint.Claim.Handover.{Attempt, attempts}
use vmware_go_kcl_v2_test.Tests.Samples.{
  Table, table_db, table_db-IsDynamoDb, stealing_config, lease_table, cached, leased_row, table_of,
  at_time,
}

-- Bob's lease, which Cid claims.
abbrev table : Table
table = table_of (leased_row "bob" (pos 400) "7" none)

placed : (claim_shard table_db (cached "" (pos 0)) "cid" table).2 ≡ none
unfolding claim_shard claim_fetched claim_item claim_shard_condition owner_clause checkpoint_clause
    parent_clause fetch_checkpoint get_item fetch_reply fetch_row fetch_timeout parse
    lease_text_is_empty conditional_update holds clause_holds get_checkpoint get_lease_owner
    get_lease_timeout format set_checkpoint set_lease_owner
placed = refl

claim_shard-Placed_example :
    Placed table_db table_db-IsDynamoDb "cid" "shard" table
      (claim_shard table_db (cached "" (pos 0)) "cid" table).0
claim_shard-Placed_example =
    claim_shard-Placed table_db table_db-IsDynamoDb "cid" (cached "" (pos 0)) table placed

abbrev claimed_table : Table
claimed_table = (claim_shard table_db (cached "" (pos 0)) "cid" table).0

-- Bob tries to renew at 50.
abbrev renewal : Attempt
renewal = record {
  table = lease_table stealing_config;
  now = at_time (pos 50);
  copy = cached "bob" (pos 400);
  worker = "bob";
}

-- Cid asks for the lease at 400, and has it.
abbrev handed_over : Table
handed_over =
    (get_lease table_db (lease_table stealing_config) (at_time (pos 400)) (cached "" (pos 0)) "cid"
      (attempts table_db table_db-IsDynamoDb "cid" (renewal ∷ []) claimed_table)).0
