-- ===== src/Consumer/Common.antt =====
-- clientlibrary/worker/common-shard-consumer.go and clientlibrary/interfaces/inputs.go: what the two
-- kinds of shard consumer share. Metrics and log lines are left out.
pub mod Start
pub mod Wait
use vmware_go_kcl_v2_test.Prelude.{
  ℕ, zero, suc, ◌+◌, String, Bool, true, false, not, ◌||◌, Option, none, some, List, [], ◌∷◌,
  length, ltb, str_eq, if◌then◌else◌,
}
use vmware_go_kcl_v2_test.Prelude.Int.{ℤ, pos}
use vmware_go_kcl_v2_test.Prelude.Outcome.{Outcome, returns, panics}
use vmware_go_kcl_v2_test.Config.{
  InitialPositionInStream, at_timestamp, KinesisClientLibConfiguration, ShardIteratorType,
  latest_type, trim_horizon_type, at_timestamp_type, after_sequence_number,
  initial_position_to_shard_iterator_type,
}
use vmware_go_kcl_v2_test.Partition.{Time, ShardStatus, zero_time, get_checkpoint, set_lease_owner}
use vmware_go_kcl_v2_test.Checkpoint.{Error, Reply, ok, failed, shard_end}
use vmware_go_kcl_v2_test.Checkpoint.Claim.{blocking}
use vmware_go_kcl_v2_test.Checkpoint.Checkpointer.{Checkpointer}
use vmware_go_kcl_v2_test.Kinesis.{Record, StartingPosition}

pub data ShutdownReason : Type 0 where
  requested terminate zombie : ShutdownReason

unfoldable pub shutdown_reason_message : ShutdownReason → String
shutdown_reason_message requested = "REQUESTED"
shutdown_reason_message terminate = "TERMINATE"
shutdown_reason_message zombie = "ZOMBIE"

-- Whether the position is AT_TIMESTAMP.
unfoldable pub is_at_timestamp : InitialPositionInStream → Bool
is_at_timestamp at_timestamp = true
is_at_timestamp _ = false

abbrev start_by_type : Option ShardIteratorType → Outcome StartingPosition
start_by_type none = panics "nil pointer dereference"
start_by_type (some trim_horizon_type) =
    returns record { kind = trim_horizon_type; sequence_number = none; timestamp = none }
start_by_type (some other) =
    returns record { kind = latest_type; sequence_number = none; timestamp = none }

-- The end of getStartingPosition: where to start for a checkpoint.
unfoldable pub starting_position : KinesisClientLibConfiguration → String → Outcome StartingPosition
starting_position cfg checkpoint =
    if not (str_eq checkpoint "")
    then returns
        record { kind = after_sequence_number; sequence_number = some checkpoint; timestamp = none }
    else if is_at_timestamp cfg.initial_position_in_stream
    then returns record {
      kind = at_timestamp_type;
      sequence_number = none;
      timestamp = cfg.initial_position_in_stream_extended.timestamp;
    }
    else start_by_type (initial_position_to_shard_iterator_type cfg.initial_position_in_stream)

abbrev reply_outcome : Outcome StartingPosition → Outcome (Reply StartingPosition)
reply_outcome (returns position) = returns (ok position)
reply_outcome (panics why) = panics why

unfoldable pub position_after :
    KinesisClientLibConfiguration → Option Error → ShardStatus → Outcome (Reply StartingPosition)
unfolding get_checkpoint
position_after cfg (some e) shard = returns (failed e)
position_after cfg none shard = reply_outcome (starting_position cfg (get_checkpoint shard))

-- The shard that waitOnParentShard makes for the parent.
abbrev pub parent_shard : String → ShardStatus
parent_shard parent_id = record {
  id = parent_id;
  parent_shard_id = "";
  checkpoint = "";
  assigned_to = "";
  lease_timeout = zero_time;
  starting_sequence_number = "";
  ending_sequence_number = "";
  claim_request = "";
}

-- One turn of the loop of waitOnParentShard: the error with which it ends, or `none` to poll on.
unfoldable pub parent_poll : Option Error → ShardStatus → Option (Option Error)
unfolding get_checkpoint
parent_poll (some e) parent = some (some e)
parent_poll none parent = if str_eq (get_checkpoint parent) shard_end then some none else none

module _ (c : Checkpointer) where
  -- releaseLease: an error of RemoveLeaseOwner is only logged.
  unfoldable pub release_lease : ShardStatus → c.State → c.State × ShardStatus
  unfolding set_lease_owner
  release_lease shard s =
      let (s', e) = c.remove_lease_owner shard.id s in (s', set_lease_owner "" shard)

  unfoldable pub get_starting_position :
      KinesisClientLibConfiguration
      → ShardStatus
      → c.State
      → c.State × ShardStatus × Outcome (Reply StartingPosition)
  unfolding position_after
  get_starting_position cfg shard s =
      let (s', shard', e) = c.fetch_checkpoint shard s in
      (s', shard', position_after cfg (blocking e) shard')

  abbrev pub poll_rest :
      Option (Option Error)
      → c.State
      → c.State × Option (Option Error)
      → c.State × Option (Option Error)
  poll_rest (some result) s rest = (s, some result)
  poll_rest none s rest = rest

  -- The loop, for at most `polls` polls; `none` when the parent is still not finished. What others
  -- do to the table during the pauses is `pause`.
  unfoldable pub poll_parent :
      ℕ → (c.State → c.State) → ShardStatus → c.State → c.State × Option (Option Error)
  poll_parent zero pause parent s = (s, none)
  poll_parent (suc polls) pause parent s =
      let (s', parent', e) = c.fetch_checkpoint parent s in
      let rest = poll_parent polls pause parent' (pause s') in
      poll_rest (parent_poll e parent') s' rest

  unfoldable pub wait_on_parent_shard :
      ℕ → (c.State → c.State) → ShardStatus → c.State → c.State × Option (Option Error)
  wait_on_parent_shard polls pause shard s =
      let polled = poll_parent polls pause (parent_shard shard.parent_shard_id) s in
      if str_eq shard.parent_shard_id "" then (s, some none) else polled
