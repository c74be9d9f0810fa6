-- ===== src/Tests/Leases.antt =====
-- The theorems on GetLease at concrete tables.
use vmware_go_kcl_v2_test.Prelude.{
  ◌≡◌, refl, String, Option, true, none, some, [], ◌∷◌, arith, apart,
}
use vmware_go_kcl_v2_test.Prelude.Int.{pos, ◌<ℤ◌, ◌+ℤ◌, ◌-ℤ◌, ◌*ℤ◌}
use vmware_go_kcl_v2_test.Partition.{milliseconds, is_claim_request_expired}
use vmware_go_kcl_v2_test.Checkpoint.{
  Item, holds, clause_holds, ok, parse, Condition, Clause, LeaseText,
}
use vmware_go_kcl_v2_test.Checkpoint.Dynamo.{get_item, conditional_update}
use vmware_go_kcl_v2_test.Checkpoint.Lease.{
  LeaseRequest, lease_request, lease_condition, claim_condition, claimed_by_another, claim_on,
  still_leased, lease_item, get_lease, put_lease, lease_taken,
}
use vmware_go_kcl_v2_test.Checkpoint.Lease.Decision.{IsOpen, expired, lease_request-holds}
use vmware_go_kcl_v2_test.Checkpoint.Lease.Claims.{get_lease_stale_cache}
use vmware_go_kcl_v2_test.Partition.{ShardStatus}
use vmware_go_kcl_v2_test.Checkpoint.{Error}
use vmware_go_kcl_v2_test.Checkpoint.Service.{stored}
use vmware_go_kcl_v2_test.Checkpoint.Dynamo.{DynamoCheckpoint}
use vmware_go_kcl_v2_test.Checkpoint.Rows.{remove_lease_owner}
use vmware_go_kcl_v2_test.Checkpoint.Lease.Cluster.{
  Cluster, Step, Reach, IsConsistent, Holds, after, own_lease, taken, removed,
}
use vmware_go_kcl_v2_test.Checkpoint.Lease.Exclusion.{lease_exclusion}
use vmware_go_kcl_v2_test.Checkpoint.Lease.LateRemoval.{late_removal_admits, regranted}
use vmware_go_kcl_v2_test.Tests.Samples.{
  Table, table_db, table_db-IsDynamoDb, sample_config, stealing_config, lease_table, cached,
  leased_row, table_of, at_time,
}

-- Bob's lease has run out at 50.
abbrev old_row : Item
old_row = leased_row "bob" (pos 40) "7" none

abbrev request : LeaseRequest
request = record {
  condition =
      Clause.shard_id_is "shard"
      ∷ Clause.assigned_to_is "bob"
      ∷ Clause.lease_timeout_is (LeaseText.stamp (pos 40))
      ∷ [];
  item = lease_item (cached "" (pos 0)) "ann" (pos 10_000_050);
  timeout = pos 10_000_050;
}

asked :
    lease_request (lease_table sample_config) (at_time (pos 50)) (cached "" (pos 0)) "ann" old_row
    ≡ ok request
unfolding lease_request lease_condition claim_condition claimed_by_another claim_on still_leased
    lease_item parse milliseconds is_claim_request_expired ◌+ℤ◌ ◌*ℤ◌
asked = refl

met : holds request.condition old_row ≡ true
unfolding holds
met = refl

lease_request-holds_example :
    IsOpen sample_config
      (pos 50)
      (expired (lease_table sample_config) (at_time (pos 50)) (cached "" (pos 0)) "ann")
      "ann"
      old_row
lease_request-holds_example =
    lease_request-holds (lease_table sample_config) (at_time (pos 50)) (cached "" (pos 0)) "ann"
      old_row old_row request asked met

accepts :
    (row : Item) (d : Condition) (i : Item)
    → i.shard_id ≡ some "shard"
    → holds d row ≡ true
    → (table_db.put_item d i (table_of row)).1 ≡ none
accepts row d i key h = rw (key, h) refl

-- Ann's cache is 3 milliseconds old, and Bob's lease still runs.
abbrev live_row : Item
live_row = leased_row "bob" (pos 9_000_000) "7" none

stale : pos 1_000_000 <ℤ pos 5_000_000 -ℤ milliseconds (pos 2)
unfolding milliseconds ◌-ℤ◌ ◌*ℤ◌
stale = omega arith

get_lease_stale_cache_example :
    (get_lease table_db
      (lease_table stealing_config)
      (at_time (pos 5_000_000))
      (cached "bob" (pos 1_000_000))
      "ann"
      (table_of live_row)).2
    ≡ none
get_lease_stale_cache_example =
    get_lease_stale_cache (lease_table stealing_config) (at_time (pos 5_000_000))
      (cached "bob" (pos 1_000_000)) "ann" table_db (table_of live_row) live_row "bob"
      (pos 9_000_000) refl refl (λ e. cc) stale refl refl (apart "bob" "ann" refl) refl
      (omega arith) refl (accepts live_row)

-- Workers of the fleet differ in their ids alone.
abbrev fleet : String → DynamoCheckpoint
fleet w = lease_table (record sample_config { worker_id = w })

abbrev Fleet : Type 0
Fleet = Cluster table_db table_db-IsDynamoDb fleet "shard"

abbrev ann : String
ann = "ann"

abbrev start : Fleet
start = record { table = table_of old_row; clock = pos 50; view = λ w. cached "" (pos 0) }

start-IsConsistent : IsConsistent table_db table_db-IsDynamoDb fleet "shard" start
start-IsConsistent = record {
  same_id = λ w. refl;
  timed = λ o e. (pos 40, refl);
  recorded = λ w h. let live = h.live in absurd (omega arith);
}

abbrev anns : Table × ShardStatus × Option Error
anns =
    taken table_db table_db-IsDynamoDb fleet "shard" start ann (at_time (pos 50))
      (cached "" (pos 0)) old_row

abbrev taken_once : Fleet
taken_once =
    after table_db table_db-IsDynamoDb fleet "shard" start ann anns.0
      (own_lease table_db table_db-IsDynamoDb fleet "shard" (cached "" (pos 0)) ann anns.1)

taken-none : anns.2 ≡ none
unfolding lease_request lease_condition claim_condition claimed_by_another claim_on still_leased
    lease_item parse milliseconds is_claim_request_expired ◌+ℤ◌ ◌*ℤ◌ put_lease conditional_update
    lease_taken holds clause_holds
taken-none = refl

reached : Reach table_db table_db-IsDynamoDb fleet "shard" start taken_once
reached =
    Reach.next Reach.here
      (Step.take start ann (at_time (pos 50)) (cached "" (pos 0)) old_row (omega arith) refl
        taken-none)
      tt

taken-Holds : Holds table_db table_db-IsDynamoDb fleet "shard" taken_once ann
unfolding lease_request lease_condition claim_condition claimed_by_another claim_on still_leased
    lease_item parse milliseconds is_claim_request_expired ◌+ℤ◌ ◌*ℤ◌ put_lease conditional_update
    lease_taken holds clause_holds
taken-Holds = record { owner = refl; live = omega arith }

lease_exclusion_example : ann ≡ ann
lease_exclusion_example =
    lease_exclusion table_db table_db-IsDynamoDb fleet "shard" (λ w. refl) (λ w. refl) start
      taken_once ann ann start-IsConsistent reached taken-Holds taken-Holds

-- Ann has taken her lease again when the removal of her release arrives.
abbrev anns_row : Item
anns_row = leased_row "ann" (pos 9_000_000) "7" none

abbrev retaken : Fleet
retaken = record {
  table = table_of anns_row;
  clock = pos 50;
  view = λ w. cached "ann" (pos 9_000_000);
}

abbrev wiped : Table
wiped = (removed table_db table_db-IsDynamoDb fleet "shard" retaken ann).0

abbrev bobs : Table × ShardStatus × Option Error
bobs = regranted table_db table_db-IsDynamoDb fleet "shard" retaken ann "bob" (at_time (pos 60))

abbrev shared : Fleet
shared = after table_db table_db-IsDynamoDb fleet "shard" retaken "bob" bobs.0 bobs.1

accepts_wiped :
    (d : Condition) (j : Item)
    → j.shard_id ≡ some "shard"
    → holds d (record anns_row { assigned_to = none }) ≡ true
    → (table_db.put_item d j wiped).1 ≡ none
unfolding remove_lease_owner
accepts_wiped d j key h = rw (key, h) refl

wiped-none : (removed table_db table_db-IsDynamoDb fleet "shard" retaken ann).1 ≡ none
unfolding remove_lease_owner
wiped-none = refl

wiped-row : (table_db.get_item "shard" wiped).1 ≡ ok (some (record anns_row { assigned_to = none }))
unfolding remove_lease_owner
wiped-row = refl

late_removal_admits_example :
    (bobs.2 ≡ none)
    × ((stored (shared.table "shard")).assigned_to ≡ some "bob")
    × ((shared.view "bob").assigned_to ≡ "bob")
    × Holds table_db table_db-IsDynamoDb fleet "shard" shared ann
late_removal_admits_example =
    late_removal_admits table_db table_db-IsDynamoDb fleet "shard" retaken ann "bob"
      (at_time (pos 60)) anns_row (some (record anns_row { assigned_to = none }))
      (apart "ann" "bob" refl) (record { owner = refl; live = omega arith }) refl refl refl refl
      wiped-none wiped-row accepts_wiped
