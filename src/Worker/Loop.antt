-- ===== src/Worker/Loop.antt =====
-- clientlibrary/worker/worker.go: eventLoop. A round synchronises the shards, takes at most one
-- lease, for which it starts a consumer, and rebalances.
pub mod Stops
pub mod Consumers
use vmware_go_kcl_v2_test.Prelude.{
  ℕ, ◌+◌, ◌/◌, ◌%◌, String, Bool, true, false, ◌&&◌, Option, none, some, List, [], ◌∷◌, ◌++◌,
  if◌then◌else◌,
}
use vmware_go_kcl_v2_test.Config.{KinesisClientLibConfiguration}
use vmware_go_kcl_v2_test.Partition.{ShardStatus}
use vmware_go_kcl_v2_test.Checkpoint.{Error}
use vmware_go_kcl_v2_test.Checkpoint.Workers.{ShardMap, WorkerMap, SyncInstants}
use vmware_go_kcl_v2_test.Checkpoint.Checkpointer.{Checkpointer}
use vmware_go_kcl_v2_test.Kinesis.{KinesisApi}
use vmware_go_kcl_v2_test.Metrics.Float.{Float64}
use vmware_go_kcl_v2_test.Metrics.Service.{MonitoringService}
use vmware_go_kcl_v2_test.Worker.Shards.{sync_shard}
use vmware_go_kcl_v2_test.Worker.Acquire.{RoundInstants, acquire}
use vmware_go_kcl_v2_test.Worker.Rebalance.{Rebalanced, rebalance}

-- The pause of a round: half of the interval, plus a random number `rnd` below the interval.
unfoldable pub shard_sync_sleep : (interval rnd : ℕ) → ℕ
shard_sync_sleep interval rnd = interval / 2 + rnd

module _ {f : Float64} (c : Checkpointer) (k : KinesisApi) (m : MonitoringService f) where
  -- What the loop works on. `started` are the shards for which it has started a consumer, the last
  -- one first; `wait_group` counts the loop and the consumers.
  pub record LoopState : Type 0 where
    pub kinesis : k.State
    pub table : c.State
    pub metrics : m.State
    pub shards : ShardMap
    pub steal_in_progress : Bool
    pub wait_group : ℕ
    pub started : List ShardStatus

  -- The inputs of a round: the pages that the listings may take, the readings of the clock, the
  -- random number and the order of the `range` in rebalance, whether the stop channel is closed at
  -- the select, and what the consumers and the other workers do until the next round.
  pub record LoopRound : Type 0 where
    pub pages : ℕ
    pub now : String → RoundInstants
    pub sync : SyncInstants
    pub rnd : ℕ
    pub visit : WorkerMap → WorkerMap
    pub stopped : Bool
    pub meanwhile : k.State × c.State × m.State × ShardMap → k.State × c.State × m.State × ShardMap

  abbrev pub interrupted : LoopRound → LoopState → LoopState
  interrupted r l =
      let (ks, s, ms, shards) = r.meanwhile (l.kinesis, l.table, l.metrics, l.shards) in
      record l { kinesis = ks; table = s; metrics = ms; shards = shards }

  -- The consumer of a lease that was taken runs from here on.
  unfoldable pub start_consumer : Option (ShardStatus × Bool) → LoopState → LoopState
  start_consumer none l = l
  start_consumer (some (shard, steal)) l = record l {
    metrics = m.lease_gained shard.id l.metrics;
    wait_group = l.wait_group + 1;
    started = shard ∷ l.started;
  }

  abbrev pub rebalanced : LoopState → Rebalanced k.State c.State → LoopState
  rebalanced l r = record l {
    kinesis = r.kinesis;
    table = r.table;
    shards = r.shards;
    steal_in_progress = r.steal_in_progress;
  }

  abbrev pub after_sync : k.State × c.State × ShardMap × Option Error → LoopState → LoopState
  after_sync (ks, s, shards, e) l = record l { kinesis = ks; table = s; shards = shards }

module _ {f : Float64} (c : Checkpointer) (k : KinesisApi) (m : MonitoringService f)
    (cfg : KinesisClientLibConfiguration) (worker_id : String) where
  -- The error of rebalance is only logged.
  unfoldable pub rebalance_round : LoopRound c k m → LoopState c k m → Option (LoopState c k m)
  rebalance_round r l =
      let next =
        elim (rebalance c k cfg worker_id r.pages r.rnd r.visit r.sync l.shards l.steal_in_progress
            l.kinesis l.table)
          as (λ x. Option (LoopState c k m)) [
            | none ↦ none
            | some b ↦ some (rebalanced c k m l b)
          ] in
      if cfg.enable_lease_stealing then next else some l

  -- The round after the synchronisation.
  unfoldable pub synced_round : LoopRound c k m → LoopState c k m → Option (LoopState c k m)
  unfolding start_consumer rebalance_round
  synced_round r l =
      let (s', shards', gained, flag) =
        acquire c cfg worker_id r.now l.shards l.steal_in_progress l.table in
      rebalance_round r (
        start_consumer c k m gained
          (record l { table = s'; shards = shards'; steal_in_progress = flag }))

  -- After a synchronisation that fails the loop goes on with the next round at once; the select
  -- with the stop channel comes after one that succeeds. With the state, whether the loop returns.
  abbrev pub selects :
      LoopRound c k m
      → k.State × c.State × ShardMap × Option Error
      → LoopState c k m
      → Option (LoopState c k m × Bool)
  selects r (ks, s, shards, some e) l = some (after_sync c k m (ks, s, shards, some e) l, false)
  selects r (ks, s, shards, none) l =
      elim (synced_round r (after_sync c k m (ks, s, shards, none) l)) [
        | none ↦ none
        | some l' ↦ some (l', r.stopped)
      ]

  unfoldable pub round : LoopRound c k m → LoopState c k m → Option (LoopState c k m × Bool)
  unfolding synced_round
  round r l = elim (sync_shard c k r.pages l.shards l.kinesis l.table) [
    | none ↦ none
    | some result ↦ selects r result l
  ]

  -- The loop on the inputs of its rounds, with whether it has returned. `none` stands for a
  -- listing of more pages than `pages`, or for a panic in rebalance.
  unfoldable pub event_loop :
      List (LoopRound c k m) → LoopState c k m → Option (LoopState c k m × Bool)
  unfolding round
  event_loop [] l = some (l, false)
  event_loop (r ∷ rs) l = elim (round r l) [
    | none ↦ none
    | some (l', true) ↦ some (l', true)
    | some (l', false) ↦ event_loop rs (interrupted c k m r l')
  ]
