-- ===== src/Processor.antt =====
-- clientlibrary/worker/record-processor-checkpointer.go: the checkpointer that a record processor
-- is given.
pub mod Checkpoints
pub mod Guards
use vmware_go_kcl_v2_test.Prelude.{String, Bool, Option, none, some, not, str_eq, if◌then◌else◌}
use vmware_go_kcl_v2_test.Prelude.Int.{ltb_ℤ}
use vmware_go_kcl_v2_test.Prelude.Outcome.{Outcome, returns, panics}
use vmware_go_kcl_v2_test.Partition.{Time, ShardStatus, set_checkpoint}
use vmware_go_kcl_v2_test.Checkpoint.{
  Error, Reply, ok, failed, shutdown_error, lease_expired_error, shard_end,
}
use vmware_go_kcl_v2_test.Checkpoint.Service.{DynamoDbApi}
use vmware_go_kcl_v2_test.Checkpoint.Rows.{get_lease_owner_of, checkpoint_sequence}

-- The text that is stored for a sequence number; nil stands for the end of a closed shard.
unfoldable pub sequence_text : Option String → String
sequence_text none = shard_end
sequence_text (some sequence_number) = sequence_number

module _ (db : DynamoDbApi) where
  unfoldable pub checkpoint_owned :
      Time
      → Option String
      → ShardStatus
      → Reply String
      → db.State
      → db.State × ShardStatus × Option Error
  unfolding checkpoint_sequence set_checkpoint sequence_text
  checkpoint_owned now sequence_number shard (failed e) s = (s, shard, some e)
  checkpoint_owned now sequence_number shard (ok owner) s =
      let shard' = set_checkpoint (sequence_text sequence_number) shard in
      let (s', e) = checkpoint_sequence db shard' s in
      if not (str_eq shard.assigned_to owner)
      then (s, shard, some shutdown_error)
      else if ltb_ℤ shard.lease_timeout now
      then (s, shard, some lease_expired_error)
      else (s', shard', e)

  -- RecordProcessorCheckpointer.Checkpoint; `now` is its reading of the clock.
  unfoldable pub checkpoint :
      Time → Option String → ShardStatus → db.State → db.State × ShardStatus × Option Error
  unfolding get_lease_owner_of checkpoint_owned
  checkpoint now sequence_number shard s =
      let (s', owner) = get_lease_owner_of db shard.id s in
      checkpoint_owned now sequence_number shard owner s'

-- kcl.ExtendedSequenceNumber
pub record ExtendedSequenceNumber : Type 0 where
  pub sequence_number : Option String

-- The shard stands for the RecordProcessorCheckpointer over it; `none` is a nil reference.
pub record PreparedCheckpointer : Type 0 where
  pub pending_checkpoint_sequence_number : Option ExtendedSequenceNumber
  pub checkpointer : Option ShardStatus

unfoldable pub prepare_checkpoint : Option String → ShardStatus → PreparedCheckpointer
prepare_checkpoint sequence_number shard = record {
  pending_checkpoint_sequence_number = none;
  checkpointer = none;
}

unfoldable pub get_pending_checkpoint : PreparedCheckpointer → Option ExtendedSequenceNumber
get_pending_checkpoint pc = pc.pending_checkpoint_sequence_number

module _ (db : DynamoDbApi) where
  unfoldable pub prepared_checkpoint_of :
      Time
      → Option ExtendedSequenceNumber
      → Option ShardStatus
      → db.State
      → Outcome (db.State × ShardStatus × Option Error)
  prepared_checkpoint_of now none checkpointer s = panics "nil pointer dereference"
  prepared_checkpoint_of now (some pending) none s = panics "nil pointer dereference"
  prepared_checkpoint_of now (some pending) (some shard) s =
      returns (checkpoint db now pending.sequence_number shard s)

  unfoldable pub prepared_checkpoint :
      Time → PreparedCheckpointer → db.State → Outcome (db.State × ShardStatus × Option Error)
  unfolding prepared_checkpoint_of
  prepared_checkpoint now pc s =
      prepared_checkpoint_of now pc.pending_checkpoint_sequence_number pc.checkpointer s
