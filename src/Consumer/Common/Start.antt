-- ===== src/Consumer/Common/Start.antt =====
-- clientlibrary/worker/common-shard-consumer.go: where a consumer starts to read, and that it waits
-- for the parent shard, with the lease table of dynamodb-checkpointer.go.
use vmware_go_kcl_v2_test.Prelude.{
  ℕ, zero, suc, ◌≡◌, ◌≢◌, ◌⊎◌, inl, inr, refl, ap, subst, ◌∙◌, String, Option, none, some, arith,
  str_eq, str_ne, eq_iff, Bool-cases,
}
use vmware_go_kcl_v2_test.Prelude.Outcome.{returns}
use vmware_go_kcl_v2_test.Config.{KinesisClientLibConfiguration, after_sequence_number}
use vmware_go_kcl_v2_test.Partition.{Time, ShardStatus, get_checkpoint}
use vmware_go_kcl_v2_test.Checkpoint.{Item, Error, ok, shard_end}
use vmware_go_kcl_v2_test.Checkpoint.Service.{DynamoDbApi, IsDynamoDb, stored}
use vmware_go_kcl_v2_test.Checkpoint.Dynamo.{DynamoCheckpoint, get_item}
use vmware_go_kcl_v2_test.Checkpoint.Rows.{fetch_checkpoint}
use vmware_go_kcl_v2_test.Checkpoint.Fetch.{
  fetch_reply-id, fetch_checkpoint-reads, row-fetch_checkpoint,
}
use vmware_go_kcl_v2_test.Checkpoint.Checkpointer.{dynamo_checkpointer}
use vmware_go_kcl_v2_test.Processor.{checkpoint, sequence_text}
use vmware_go_kcl_v2_test.Processor.Checkpoints.{fetch-checkpoint}
use vmware_go_kcl_v2_test.Consumer.Common.{
  starting_position, position_after, get_starting_position, parent_poll, parent_shard, poll_rest,
  poll_parent, wait_on_parent_shard,
}

position_after-checkpoint :
    (cfg : KinesisClientLibConfiguration) (shard : ShardStatus)
    → shard.checkpoint ≢ ""
    → position_after cfg none shard
      ≡ returns (
          ok record {
            kind = after_sequence_number;
            sequence_number = some shard.checkpoint;
            timestamp = none;
          })
unfolding position_after starting_position get_checkpoint
position_after-checkpoint cfg shard h = rw (str_ne shard.checkpoint "" h) refl

-- Processing goes on where it was checkpointed: after an accepted checkpoint of a sequence number
-- that is not empty, a consumer of any worker for the shard, with whatever it had cached, starts
-- after that sequence number, given that the service answers its read.
pub restart_at_checkpoint :
    (db : DynamoDbApi) (is : IsDynamoDb db) (cfg : KinesisClientLibConfiguration)
    (c : DynamoCheckpoint) (now : Time) (n : String) (shard copy : ShardStatus) (s : db.State)
    (row : Item)
    → (checkpoint db now (some n) shard s).2 ≡ none
    → n ≢ ""
    → copy.id ≡ shard.id
    → let after = (checkpoint db now (some n) shard s).0 in
      (get_item db copy.id after).1 ≡ ok row
      → (get_starting_position (dynamo_checkpointer db) cfg copy (c, after)).2
        ≡ returns
            (ok record { kind = after_sequence_number; sequence_number = some n; timestamp = none })
unfolding get_starting_position sequence_text
restart_at_checkpoint db is cfg c now n shard copy s row done filled same read =
    let (cached, quiet) = fetch-checkpoint db is now (some n) shard s copy row done same read in
    rw (cached, quiet)
      (position_after-checkpoint cfg
        (record copy {
          checkpoint = n;
          assigned_to = shard.assigned_to;
          lease_timeout = shard.lease_timeout;
        })
        filled)

parent_poll-finished :
    (e : Option Error) (parent : ShardStatus)
    → parent_poll e parent ≡ some none
    → (e ≡ none) × (parent.checkpoint ≡ shard_end)
unfolding parent_poll get_checkpoint
parent_poll-finished (some e) parent h = cc
parent_poll-finished none parent h = elim (Bool-cases (str_eq parent.checkpoint shard_end)) [
  | inl finished ↦ (refl, ground (arith, eq_iff parent.checkpoint shard_end))
  | inr going ↦ absurd (ground arith)
]

module _ (db : DynamoDbApi) (is : IsDynamoDb db)
    (pause : DynamoCheckpoint × db.State → DynamoCheckpoint × db.State) where
  -- The parent's row is at SHARD_END.
  abbrev pub IsFinished : String → DynamoCheckpoint × db.State → Type 0
  IsFinished id s = (stored (is.row s.1 id)).checkpoint ≡ some shard_end

  poll-IsFinished :
      (parent : ShardStatus) (c : DynamoCheckpoint) (s : db.State)
      → parent_poll (fetch_checkpoint db parent s).2 (fetch_checkpoint db parent s).1 ≡ some none
      → IsFinished parent.id (c, (fetch_checkpoint db parent s).0)
  poll-IsFinished parent c s h =
      let (quiet, at_end) = parent_poll-finished _ _ h in
      rw (row-fetch_checkpoint db is parent s parent.id)
        (fetch_checkpoint-reads db is parent s quiet ∙ ap some at_end)

  same_id : (shard : ShardStatus) (s : db.State) → (fetch_checkpoint db shard s).1.id ≡ shard.id
  unfolding fetch_checkpoint
  same_id shard s = fetch_reply-id (get_item db shard.id s).1 shard

  poll_rest-IsFinished :
      (id : String) (r : Option (Option Error)) (s : DynamoCheckpoint × db.State)
      (rest : (DynamoCheckpoint × db.State) × Option (Option Error))
      → (r ≡ some none → IsFinished id s)
      → (rest.1 ≡ some none → IsFinished id rest.0)
      → (poll_rest (dynamo_checkpointer db) r s rest).1 ≡ some none
      → IsFinished id (poll_rest (dynamo_checkpointer db) r s rest).0
  poll_rest-IsFinished id (some result) s rest now later h = now h
  poll_rest-IsFinished id none s rest now later h = later h

  poll_parent-IsFinished :
      (polls : ℕ) (id : String) (parent : ShardStatus) (s : DynamoCheckpoint × db.State)
      → parent.id ≡ id
      → (poll_parent (dynamo_checkpointer db) polls pause parent s).1 ≡ some none
      → IsFinished id (poll_parent (dynamo_checkpointer db) polls pause parent s).0
  unfolding poll_parent
  poll_parent-IsFinished zero id parent s same h = cc
  poll_parent-IsFinished (suc polls) id parent (c, s) same h =
      let (t, parent', e) = fetch_checkpoint db parent s in
      poll_rest-IsFinished id (parent_poll e parent') (c, t) _
        (λ q. subst (λ i. IsFinished i (c, t)) same (poll-IsFinished parent c s q))
        (poll_parent-IsFinished polls id parent' (pause (c, t)) (same_id parent s ∙ same)) h

  -- A child shard waits for its parent: if waitOnParentShard ends without an error, then the
  -- shard has no parent or the parent's row in the lease table is at SHARD_END, whatever others
  -- do to the table between the polls.
  pub wait_on_parent_shard-IsFinished :
      (polls : ℕ) (shard : ShardStatus) (s : DynamoCheckpoint × db.State)
      → let waited = wait_on_parent_shard (dynamo_checkpointer db) polls pause shard s in
        (waited.1 ≡ some none)
        → (shard.parent_shard_id ≡ "") ⊎ IsFinished shard.parent_shard_id waited.0
  unfolding wait_on_parent_shard
  wait_on_parent_shard-IsFinished polls shard s h =
      elim (Bool-cases (str_eq shard.parent_shard_id "")) [
        | inl orphan ↦ inl (ground (arith, eq_iff shard.parent_shard_id ""))
        | inr child ↦ inr (
            rw child (
              poll_parent-IsFinished polls shard.parent_shard_id
                (parent_shard shard.parent_shard_id) s refl (ground arith)))
      ]
