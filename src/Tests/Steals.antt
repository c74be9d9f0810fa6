-- ===== src/Tests/Steals.antt =====
-- The theorem on the claim of rebalance at a concrete table.
use vmware_go_kcl_v2_test.Prelude.{Option, ℕ, false, none, some, [], ◌∷◌}
use vmware_go_kcl_v2_test.Prelude.Int.{pos}
use vmware_go_kcl_v2_test.Checkpoint.Workers.{ShardMap, SyncInstants}
use vmware_go_kcl_v2_test.Worker.Rebalance.{Rebalanced, rebalance}
use vmware_go_kcl_v2_test.Tests.Samples.{
  sample_config, lease_table, cached, leased_row, table_of, checkpointer, stream,
}

-- Ann has no shard, and Bob has three.
abbrev three : ShardMap
three =
    cached "bob" (pos 400)
    ∷ record (cached "bob" (pos 400)) { id = "second" }
    ∷ record (cached "bob" (pos 400)) { id = "third" }
    ∷ []

abbrev leases : checkpointer.State
leases = (lease_table sample_config, table_of (leased_row "bob" (pos 400) "7" none))

abbrev sync_now : SyncInstants
sync_now = record { check = pos 9; stamp = pos 9 }

abbrev idle : Rebalanced ℕ checkpointer.State
idle = record {
  kinesis = 0;
  table = leases;
  shards = three;
  steal_in_progress = false;
  error = none;
}

abbrev result_or : Option (Rebalanced ℕ checkpointer.State) → Rebalanced ℕ checkpointer.State
result_or none = idle
result_or (some r) = r

abbrev stolen : Rebalanced ℕ checkpointer.State
stolen =
    result_or (
      rebalance checkpointer stream sample_config "ann" 1 0 (λ ws. ws) sync_now three false 0
        leases)
