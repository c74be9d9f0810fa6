-- ===== src/Tests/Workers.antt =====
-- The theorems on the worker at concrete caches.
use vmware_go_kcl_v2_test.Prelude.{
  ℕ, ◌+◌, ◌≤◌, ◌≡◌, ◌≢◌, refl, String, false, not, ◌&&◌, none, some, [], ◌∷◌, apart,
}
use vmware_go_kcl_v2_test.Prelude.Int.{pos, ◌<ℤ◌, ◌+ℤ◌, ◌*ℤ◌}
use vmware_go_kcl_v2_test.Partition.{
  ShardStatus, milliseconds, get_checkpoint, get_lease_owner, get_lease_timeout,
  is_claim_request_expired,
}
use vmware_go_kcl_v2_test.Checkpoint.{holds, clause_holds, parse, lease_text_is_empty}
use vmware_go_kcl_v2_test.Checkpoint.Dynamo.{get_item, conditional_update}
use vmware_go_kcl_v2_test.Checkpoint.Lease.{
  get_lease, lease_of_row, put_lease, lease_request, lease_condition, claim_condition,
  claimed_by_another, claim_on, still_leased, lease_item, lease_taken,
}
use vmware_go_kcl_v2_test.Checkpoint.Rows.{fetch_checkpoint, fetch_reply, fetch_row, fetch_timeout}
use vmware_go_kcl_v2_test.Checkpoint.Workers.{
  ShardMap, WorkerMap, sync_leases, sync_reply, list_active_workers,
}
use vmware_go_kcl_v2_test.Checkpoint.Workers.Grouping.{Grouped, list_active_workers-Grouped}
use vmware_go_kcl_v2_test.Worker.Acquire.{
  RoundInstants, acquire, acquire_loop, visit_shard, after_fetch, try_lease, claimed, count_leases,
}
use vmware_go_kcl_v2_test.Worker.Acquire.Round.{Took, acquire_one}
use vmware_go_kcl_v2_test.Worker.Acquire.Granting.{dynamo_grants}
use vmware_go_kcl_v2_test.Worker.Shards.{sync_shard}
use vmware_go_kcl_v2_test.Worker.Shards.Sync.{Synced, listing, sync_shard-Synced}
use vmware_go_kcl_v2_test.Worker.Rebalance.{
  count_shards, current_shards, worker_count, pick_worker, worker_to_steal_from,
}
use vmware_go_kcl_v2_test.Worker.Rebalance.Choice.{AtMost, HasCount, mine, steal-IsBest}
use vmware_go_kcl_v2_test.Tests.Samples.{
  table_db, sample_config, lease_table, cached, leased_row, table_of, at_time, checkpointer, stream,
  listed,
}

-- Bob's lease has run out at 50, when Ann looks for one.
abbrev now : String → RoundInstants
now id = record { upcoming = pos 50; claim = pos 50; lease = at_time (pos 50) }

abbrev shards : ShardMap
shards = cached "" (pos 0) ∷ []

abbrev state : checkpointer.State
state = (lease_table sample_config, table_of (leased_row "bob" (pos 40) "7" none))

abbrev gained : ShardStatus
gained = record (cached "ann" (pos 10_000_050)) { checkpoint = "7" }

acquired :
    (acquire checkpointer sample_config "ann" now shards false state).2 ≡ some (gained, false)
unfolding acquire acquire_loop visit_shard after_fetch try_lease claimed count_leases get_checkpoint
    get_lease_owner get_lease_timeout fetch_checkpoint get_item fetch_reply fetch_row fetch_timeout
    parse lease_text_is_empty get_lease lease_of_row put_lease lease_request lease_condition
    claim_condition claimed_by_another claim_on still_leased lease_item lease_taken
    conditional_update holds clause_holds milliseconds is_claim_request_expired ◌+ℤ◌ ◌*ℤ◌
acquired = refl

acquire_one_example :
    (pos (count_leases "ann" shards) <ℤ pos 3)
    × Took checkpointer
        (dynamo_grants table_db)
        sample_config
        "ann"
        shards
        (acquire checkpointer sample_config "ann" now shards false state).1
        gained
    × ((acquire checkpointer sample_config "ann" now shards false state).3 ≡ (not false && false))
acquire_one_example =
    acquire_one checkpointer (dynamo_grants table_db) sample_config "ann" now shards false state
      acquired

listed_shards : listing stream 1 "" 0 ≡ some (0, listed "shard" ∷ listed "child" ∷ [])
unfolding listing
listed_shards = refl

sync_shard-Synced_example :
    (s' : checkpointer.State) × (result : ShardMap) × (sync_shard checkpointer stream 1 shards 0
        state
      ≡ some (0, s', result, none))
    × Synced (listed "shard" ∷ listed "child" ∷ []) shards result
sync_shard-Synced_example =
    sync_shard-Synced checkpointer stream 1 shards 0 0 state (listed "shard" ∷ listed "child" ∷ [])
      listed_shards

-- Bob has three shards and Ann none.
abbrev workers : WorkerMap
workers = ("bob", cached "bob" (pos 9) ∷ cached "bob" (pos 9) ∷ cached "bob" (pos 9) ∷ []) ∷ []

steals : worker_to_steal_from sample_config "ann" workers workers ≢ ""
unfolding worker_to_steal_from pick_worker count_shards current_shards worker_count
steals = apart "bob" "" refl

steal-IsBest_example :
    (n : ℕ) × (mine "ann" sample_config workers workers + 2 ≤ n)
    × (worker_to_steal_from sample_config "ann" workers workers ≢ "ann")
    × HasCount (worker_to_steal_from sample_config "ann" workers workers) n workers
    × AtMost "ann" n workers
steal-IsBest_example = steal-IsBest "ann" sample_config workers workers steals

-- A synchronisation is due, and the scan finds no row.
synced :
    (sync_leases table_db
      (lease_table sample_config)
      (record { check = pos 9; stamp = pos 9 })
      (cached "bob" (pos 9) ∷ [])
      state.1).3
    ≡ none
unfolding sync_leases sync_reply ◌+ℤ◌ ◌*ℤ◌ milliseconds
synced = refl

list_active_workers-Grouped_example :
    Grouped
      (list_active_workers table_db
        (lease_table sample_config)
        (record { check = pos 9; stamp = pos 9 })
        (cached "bob" (pos 9) ∷ [])
        state.1).2
      (list_active_workers table_db
        (lease_table sample_config)
        (record { check = pos 9; stamp = pos 9 })
        (cached "bob" (pos 9) ∷ [])
        state.1).3
list_active_workers-Grouped_example =
    list_active_workers-Grouped table_db (lease_table sample_config)
      (record { check = pos 9; stamp = pos 9 }) (cached "bob" (pos 9) ∷ []) state.1 synced
