-- ===== src/Processor/Guards.antt =====
-- clientlibrary/worker/record-processor-checkpointer.go: what the guards of Checkpoint leave open, and
-- PrepareCheckpoint.
use vmware_go_kcl_v2_test.Prelude.{◌≡◌, refl, String, Option, none, some, arith, eq_refl}
use vmware_go_kcl_v2_test.Prelude.Int.{◌≤ℤ◌}
use vmware_go_kcl_v2_test.Prelude.Outcome.{panics}
use vmware_go_kcl_v2_test.Partition.{Time, ShardStatus}
use vmware_go_kcl_v2_test.Checkpoint.{Item, ok, stamp, format, parse, lease_text_is_empty}
use vmware_go_kcl_v2_test.Checkpoint.Service.{DynamoDbApi, IsDynamoDb, stored}
use vmware_go_kcl_v2_test.Checkpoint.Dynamo.{get_item, save_item}
use vmware_go_kcl_v2_test.Checkpoint.Reads.{row-save_item}
use vmware_go_kcl_v2_test.Checkpoint.Rows.{
  checkpoint_item, checkpoint_sequence, fetch_reply, fetch_checkpoint,
}
use vmware_go_kcl_v2_test.Processor.{
  sequence_text, checkpoint_owned, checkpoint, prepare_checkpoint, prepared_checkpoint,
}

-- PrepareCheckpoint never gives a usable checkpointer: to checkpoint by what it returns panics,
-- whatever the sequence number, the shard, the service and the time.
pub prepared_checkpoint_panics :
    (db : DynamoDbApi) (now : Time) (sequence_number : Option String) (shard : ShardStatus)
    (s : db.State)
    → prepared_checkpoint db now (prepare_checkpoint sequence_number shard) s
      ≡ panics "nil pointer dereference"
unfolding prepared_checkpoint prepare_checkpoint
prepared_checkpoint_panics db now sequence_number shard s = refl

owned_checkpoint :
    (db : DynamoDbApi) (now : Time) (sequence_number : Option String) (shard : ShardStatus)
    (s : db.State) (row : Item)
    → row.assigned_to ≡ some shard.assigned_to
    → now ≤ℤ shard.lease_timeout
    → (get_item db shard.id s).1 ≡ ok row
    → ((i : Item) (u : db.State) → (save_item db i u).1 ≡ none)
    → (checkpoint db now sequence_number shard s).2 ≡ none
unfolding checkpoint
owned_checkpoint db now sequence_number shard s row o live e accepts = ground (
  arith,
  eq_refl shard.assigned_to,
  accepts (checkpoint_item (record shard { checkpoint = sequence_text sequence_number }))
      (get_item db shard.id s).0,
)

-- The guard of Checkpoint does not know who calls: once a cached shard has been fetched from a
-- row with a checkpoint and an owner whose lease has not run out, a checkpoint of that shard is
-- accepted in the name of that owner, whoever the owner is, if the service answers both reads
-- with that row and accepts the write.
pub fetched_checkpoint_accepted :
    (db : DynamoDbApi) (now t : Time) (sequence_number : Option String) (shard : ShardStatus)
    (s : db.State) (row : Item) (owner old : String)
    → row.checkpoint ≡ some old
    → row.assigned_to ≡ some owner
    → row.lease_timeout ≡ some (stamp t)
    → now ≤ℤ t
    → (get_item db shard.id s).1 ≡ ok row
    → let (s', shard', e) = fetch_checkpoint db shard s in
      (get_item db shard.id s').1 ≡ ok row
      → ((i : Item) (u : db.State) → (save_item db i u).1 ≡ none)
      → (shard'.assigned_to ≡ owner) × ((checkpoint db now sequence_number shard' s').2 ≡ none)
unfolding fetch_checkpoint fetch_reply parse lease_text_is_empty
fetched_checkpoint_accepted db now t sequence_number shard s row owner old c o l live e again
      accepts =
    let fetched_as : (fetch_checkpoint db shard s).1
        ≡ record shard { checkpoint = old; assigned_to = owner; lease_timeout = t } =
      ground arith in
    rw fetched_as (refl, owned_checkpoint db now sequence_number _ _ row o live again accepts)

-- The guards of Checkpoint do not protect its write: when the read has named the caller as the owner
-- and its lease had not run out at the check, the write goes through in any later state of the
-- table, if the service accepts writes, and no error is reported. The row names the caller again then,
-- with the caller's old timeout, also where another worker had taken the lease since the read.
pub checkpoint_overwrites :
    (db : DynamoDbApi) (is : IsDynamoDb db) (now : Time) (sequence_number : Option String)
    (shard : ShardStatus) (later : db.State)
    → now ≤ℤ shard.lease_timeout
    → ((i : Item) → (save_item db i later).1 ≡ none)
    → let (s', shard', e) =
        checkpoint_owned db now sequence_number shard (ok shard.assigned_to) later in
      (e ≡ none)
      × ((stored (is.row s' shard.id)).assigned_to ≡ some shard.assigned_to)
      × ((stored (is.row s' shard.id)).lease_timeout ≡ some (stamp shard.lease_timeout))
unfolding checkpoint_owned checkpoint_sequence checkpoint_item format
checkpoint_overwrites db is now sequence_number shard later live accepts =
    let item = checkpoint_item (record shard { checkpoint = sequence_text sequence_number }) in
    let written : is.row (save_item db item later).0 shard.id ≡ some item =
      rw (row-save_item db is item shard.id later shard.id refl (accepts item), eq_refl shard.id)
        refl in
    let accepted : checkpoint_owned db now sequence_number shard (ok shard.assigned_to) later ≡ (
      (save_item db item later).0,
      record shard { checkpoint = sequence_text sequence_number },
      none,
    ) =
      ground (arith, eq_refl shard.assigned_to, accepts item) in
    rw (accepted, written) (refl, refl, refl)
