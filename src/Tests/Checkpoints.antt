-- ===== src/Tests/Checkpoints.antt =====
-- The theorems on checkpoints at concrete tables.
use vmware_go_kcl_v2_test.Prelude.{◌≢◌, ◌≡◌, refl, String, none, some, arith, apart, ◌⊎◌}
use vmware_go_kcl_v2_test.Prelude.Int.{pos}
use vmware_go_kcl_v2_test.Prelude.Outcome.{returns}
use vmware_go_kcl_v2_test.Config.{after_sequence_number}
use vmware_go_kcl_v2_test.Partition.{ShardStatus}
use vmware_go_kcl_v2_test.Checkpoint.{
  Item, stamp, format, parse, lease_text_is_empty, holds, ok, shutdown_error,
}
use vmware_go_kcl_v2_test.Checkpoint.Service.{stored}
use vmware_go_kcl_v2_test.Checkpoint.Dynamo.{get_item, save_item, put_item}
use vmware_go_kcl_v2_test.Checkpoint.Rows.{
  checkpoint_item, checkpoint_sequence, fetch_checkpoint, fetch_reply, fetch_row, fetch_timeout,
  get_lease_owner_of, owner_reply,
}
use vmware_go_kcl_v2_test.Processor.{checkpoint, checkpoint_owned, sequence_text}
use vmware_go_kcl_v2_test.Processor.Checkpoints.{checkpoint_superseded}
use vmware_go_kcl_v2_test.Processor.Guards.{fetched_checkpoint_accepted, checkpoint_overwrites}
use vmware_go_kcl_v2_test.Consumer.Common.{
  parent_shard, get_starting_position, wait_on_parent_shard, poll_parent, parent_poll,
}
use vmware_go_kcl_v2_test.Consumer.Common.Wait.{answer, Ends, wait_on_parent_shard-Ends}
use vmware_go_kcl_v2_test.Consumer.Common.Start.{
  IsFinished, restart_at_checkpoint, wait_on_parent_shard-IsFinished,
}
use vmware_go_kcl_v2_test.Tests.Samples.{
  Table, table_db, table_db-IsDynamoDb, sample_config, lease_table, cached, leased_row, table_of,
  checkpointer,
}

-- Ann's lease runs to 100, and so her cache has it.
abbrev table : Table
table = table_of (leased_row "ann" (pos 100) "7" none)

abbrev mine : ShardStatus
mine = cached "ann" (pos 100)

-- Bob's old cache of the shard.
abbrev old : ShardStatus
old = cached "bob" (pos 100)

accepted : (checkpoint table_db (pos 50) (some "9") mine table).2 ≡ none
unfolding checkpoint get_lease_owner_of get_item checkpoint_owned checkpoint_sequence save_item
    put_item checkpoint_item owner_reply holds
accepted = refl

abbrev after : Table
after = (checkpoint table_db (pos 50) (some "9") mine table).0

checkpoint_superseded_example :
    ((checkpoint table_db (pos 50) (some "9") old table).2 ≡ some shutdown_error)
    × ((checkpoint table_db (pos 50) (some "9") old table).1 ≡ old)
    × ((j : String) → (checkpoint table_db (pos 50) (some "9") old table).0 j ≡ table j)
checkpoint_superseded_example =
    checkpoint_superseded table_db table_db-IsDynamoDb (pos 50) (some "9") old table
      (leased_row "ann" (pos 100) "7" none) "ann" refl refl (apart "bob" "ann" refl)

abbrev written : Item
written = record {
  shard_id = some "shard";
  assigned_to = some "ann";
  lease_timeout = some (stamp (pos 100));
  checkpoint = some "9";
  parent_shard_id = none;
  claim_request = none;
}

read_back : (get_item table_db "shard" after).1 ≡ ok written
unfolding checkpoint get_lease_owner_of get_item checkpoint_owned checkpoint_sequence save_item
    put_item checkpoint_item owner_reply holds format sequence_text
read_back = refl

restart_at_checkpoint_example :
    (get_starting_position checkpointer sample_config old (lease_table sample_config, after)).2
    ≡ returns
        (ok record { kind = after_sequence_number; sequence_number = some "9"; timestamp = none })
restart_at_checkpoint_example =
    restart_at_checkpoint table_db table_db-IsDynamoDb sample_config (lease_table sample_config)
      (pos 50) "9" mine old table written accepted (apart "9" "" refl) refl read_back

saves : (i : Item) (t : Table) → (save_item table_db i t).1 ≡ none
unfolding save_item put_item holds
saves i t = refl

abbrev synced : ShardStatus
synced = (fetch_checkpoint table_db old table).1

table_read : (get_item table_db "shard" table).1 ≡ ok (leased_row "ann" (pos 100) "7" none)
unfolding get_item
table_read = refl

again :
    (get_item table_db "shard" (fetch_checkpoint table_db old table).0).1
    ≡ ok (leased_row "ann" (pos 100) "7" none)
unfolding get_item fetch_checkpoint
again = refl

fetched_checkpoint_accepted_example :
    (synced.assigned_to ≡ "ann")
    × ((checkpoint table_db (pos 50) (some "9") synced (fetch_checkpoint table_db old table).0).2
        ≡ none)
fetched_checkpoint_accepted_example =
    fetched_checkpoint_accepted table_db (pos 50) (pos 100) (some "9") old table
      (leased_row "ann" (pos 100) "7" none) "ann" "7" refl refl refl (omega arith) table_read again
      saves

-- Ann's lease ran out at 100, and Cid has the lease since.
abbrev taken_over : Table
taken_over = table_of (leased_row "cid" (pos 300) "7" none)

checkpoint_overwrites_example :
    ((checkpoint_owned table_db (pos 90) (some "9") mine (ok "ann") taken_over).2 ≡ none)
    × ((stored (
          (checkpoint_owned table_db (pos 90) (some "9") mine (ok "ann") taken_over).0
            "shard")).assigned_to
        ≡ some "ann")
    × ((stored (
          (checkpoint_owned table_db (pos 90) (some "9") mine (ok "ann") taken_over).0
            "shard")).lease_timeout
        ≡ some (stamp (pos 100)))
checkpoint_overwrites_example =
    checkpoint_overwrites table_db table_db-IsDynamoDb (pos 90) (some "9") mine taken_over
      (omega arith) (λ i. saves i taken_over)

-- The parent is finished, and others leave the table as it is.
abbrev child : ShardStatus
child = record mine { parent_shard_id = "shard" }

abbrev parent_done : Table
parent_done = table_of (leased_row "ann" (pos 100) "SHARD_END" none)

waited :
    (wait_on_parent_shard checkpointer 1 (λ s. s) child (lease_table sample_config, parent_done)).1
    ≡ some none
unfolding wait_on_parent_shard poll_parent parent_poll fetch_checkpoint get_item fetch_reply
    fetch_row fetch_timeout parse lease_text_is_empty
waited = refl

wait_on_parent_shard-IsFinished_example :
    (child.parent_shard_id ≡ "")
    ⊎ IsFinished table_db table_db-IsDynamoDb
        (λ s. s)
        "shard"
        (wait_on_parent_shard checkpointer 1
          (λ s. s)
          child
          (lease_table sample_config, parent_done)).0
wait_on_parent_shard-IsFinished_example =
    wait_on_parent_shard-IsFinished table_db table_db-IsDynamoDb (λ s. s) 1 child
      (lease_table sample_config, parent_done) waited

parent_answer :
    Ends checkpointer
      (λ s. s)
      (answer checkpointer
        (λ s. s)
        0
        (parent_shard "shard")
        (lease_table sample_config, parent_done))
unfolding answer fetch_checkpoint get_item fetch_reply fetch_row fetch_timeout parse
    lease_text_is_empty
parent_answer = refl

wait_on_parent_shard-Ends_example :
    (wait_on_parent_shard checkpointer 1 (λ s. s) child (lease_table sample_config, parent_done)).1
    ≢ none
wait_on_parent_shard-Ends_example =
    wait_on_parent_shard-Ends checkpointer (λ s. s) 0 1 child
      (lease_table sample_config, parent_done) (omega arith) (λ _. parent_answer)
