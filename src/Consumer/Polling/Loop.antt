-- ===== src/Consumer/Polling/Loop.antt =====
-- clientlibrary/worker/polling-shard-consumer.go: getRecords from its start to its end, over its
-- turns.
use vmware_go_kcl_v2_test.Prelude.{ℕ, String, Option, none, some, List, [], ◌∷◌}
use vmware_go_kcl_v2_test.Prelude.Outcome.{Outcome, returns, panics}
use vmware_go_kcl_v2_test.Config.{KinesisClientLibConfiguration}
use vmware_go_kcl_v2_test.Partition.{Time, get_checkpoint}
use vmware_go_kcl_v2_test.Checkpoint.{Error, Reply, ok, failed}
use vmware_go_kcl_v2_test.Checkpoint.Claim.{blocking}
use vmware_go_kcl_v2_test.Checkpoint.Checkpointer.{Checkpointer}
use vmware_go_kcl_v2_test.Kinesis.{Record, StartingPosition, KinesisApi}
use vmware_go_kcl_v2_test.Consumer.Limits.{start_limits}
use vmware_go_kcl_v2_test.Consumer.Common.{
  release_lease, get_starting_position, wait_on_parent_shard,
}
use vmware_go_kcl_v2_test.Consumer.Polling.{
  RecordProcessor, Consumer, TurnInput, Turn, goes_on, ends, panicked, turn,
}

module _ (c : Checkpointer) (k : KinesisApi) (p : RecordProcessor c)
    (cfg : KinesisClientLibConfiguration) (consumer_id : String)
    (deaggregate : List Record → List Record) where
  abbrev pub run_rest :
      Consumer c k p × Turn
      → (Consumer c k p → Consumer c k p × Option Turn)
      → Consumer c k p × Option Turn
  run_rest (w, goes_on pause) rest = rest w
  run_rest (w, over) rest = (w, some over)

  -- The loop for as many turns as there are inputs; `none` when it is still going.
  unfoldable pub run : List (TurnInput c k) → Consumer c k p → Consumer c k p × Option Turn
  run [] w = (w, none)
  run (now ∷ nows) w =
      run_rest
        (turn c k p cfg consumer_id deaggregate now
          (record w { table = now.others w.table; stream = now.arrivals w.stream }))
        (run nows)

  unfoldable pub get_shard_iterator :
      Consumer c k p → Consumer c k p × Outcome (Reply (Option String))
  get_shard_iterator w =
      let (t, shard, start) = get_starting_position c cfg w.shard w.table in
      iterator_at start (record w { table = t; shard = shard })
    where
      iterator_at :
          Outcome (Reply StartingPosition)
          → Consumer c k p
          → Consumer c k p × Outcome (Reply (Option String))
      iterator_at (panics why) w = (w, panics why)
      iterator_at (returns (failed e)) w = (w, returns (failed e))
      iterator_at (returns (ok start)) w =
          let (stream, reply) = k.get_shard_iterator w.shard.id start w.stream in
          (record w { stream = stream }, returns reply)

  unfoldable pub start_reading :
      Time
      → List (TurnInput c k)
      → Consumer c k p × Outcome (Reply (Option String))
      → Consumer c k p × Option Turn
  unfolding start_limits get_checkpoint
  start_reading now nows (w, panics why) = (w, some (panicked why))
  start_reading now nows (w, returns (failed e)) = (w, some (ends (some e)))
  start_reading now nows (w, returns (ok iterator)) = run nows (record w {
    processor = p.initialize w.shard.id (get_checkpoint w.shard) w.processor;
    shard_iterator = iterator;
    retried_errors = 0;
    limits = start_limits now w.limits.last_check_time;
  })

  unfoldable pub after_parent :
      Option (Option Error)
      → Time
      → List (TurnInput c k)
      → Consumer c k p
      → Consumer c k p × Option Turn
  after_parent none now nows w = (w, none)
  after_parent (some e) now nows w = elim (blocking e) [
    | some err ↦ (w, some (ends (some err)))
    | none ↦ start_reading now nows (get_shard_iterator w)
  ]

  -- The deferred release, however the loop ends.
  abbrev pub deferred_release : Consumer c k p × Option Turn → Consumer c k p × Option Turn
  deferred_release (w, none) = (w, none)
  deferred_release (w, some over) =
      let (t, shard) = release_lease c w.shard w.table in
      (record w { table = t; shard = shard }, some over)

  -- getRecords: the polls of the parent, what others do between them, the clock at the start of the
  -- window, and the turns.
  unfoldable pub get_records :
      ℕ
      → (c.State → c.State)
      → Time
      → List (TurnInput c k)
      → Consumer c k p
      → Consumer c k p × Option Turn
  get_records polls pause now nows w =
      let (t, parent) = wait_on_parent_shard c polls pause w.shard w.table in
      deferred_release (after_parent parent now nows (record w { table = t }))
