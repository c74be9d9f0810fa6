-- ===== src/Worker/Lifecycle.antt =====
-- clientlibrary/worker/worker.go: NewWorker, initialize, Start and Shutdown.
pub mod Calls
pub mod Restarts
use vmware_go_kcl_v2_test.Prelude.{
  ℕ, ◌+◌, String, Bool, true, false, ◌||◌, Option, none, some, List, [], ◌∷◌, str_eq, if◌then◌else◌,
}
use vmware_go_kcl_v2_test.Prelude.Outcome.{
  Outcome, returns, panics, ◌>>=◌, Channel, no_channel, open_channel, closed_channel, close_channel,
}
use vmware_go_kcl_v2_test.Config.{KinesisClientLibConfiguration}
use vmware_go_kcl_v2_test.Partition.{ShardStatus}
use vmware_go_kcl_v2_test.Checkpoint.{Error, Reply, ok, failed}
use vmware_go_kcl_v2_test.Checkpoint.Workers.{ShardMap}
use vmware_go_kcl_v2_test.Checkpoint.Checkpointer.{Checkpointer}
use vmware_go_kcl_v2_test.Kinesis.{KinesisApi}
use vmware_go_kcl_v2_test.Metrics.Float.{Float64}
use vmware_go_kcl_v2_test.Metrics.Service.{MonitoringService}
use vmware_go_kcl_v2_test.Worker.FanOut.{fetch_consumer_arn_with_retry}

abbrev pub is_nil : Channel → Bool
is_nil no_channel = true
is_nil open_channel = false
is_nil closed_channel = false

module _ {f : Float64} (c : Checkpointer) (k : KinesisApi) (m : MonitoringService f) where
  -- The names of the stream, the region and the worker are those of the configuration, which is an
  -- argument of the operations. `kc` and `checkpointer` are none for nil; `wait_group` counts the
  -- goroutines that run.
  pub record Worker : Type 0 where
    pub consumer_arn : String
    pub kc : Option k.State
    pub checkpointer : Option c.State
    pub m_service : m.State
    pub stop : Channel
    pub wait_group : ℕ
    pub done : Bool
    pub shard_status : ShardMap
    pub shard_steal_in_progress : Bool

  -- `m_service` is the service of the configuration, or the one that does nothing.
  unfoldable pub new_worker : m.State → Worker
  new_worker m_service = record {
    consumer_arn = "";
    kc = none;
    checkpointer = none;
    m_service = m_service;
    stop = no_channel;
    wait_group = 0;
    done = false;
    shard_status = [];
    shard_steal_in_progress = false;
  }

  unfoldable pub with_kinesis : k.State → Worker → Worker
  with_kinesis svc w = record w { kc = some svc }

  unfoldable pub with_checkpointer : c.State → Worker → Worker
  with_checkpointer checker w = record w { checkpointer = some checker }

  -- The client of the worker, or a new one. `loaded` is what LoadDefaultConfig makes, and none when
  -- it fails: log.Fatalf then ends the process.
  unfoldable pub kinesis_client : Option k.State → Option k.State → Outcome k.State
  kinesis_client loaded (some svc) = returns svc
  kinesis_client (some svc) none = returns svc
  kinesis_client none none = panics "Failed in loading Kinesis default config for creating Worker"

  -- The checkpointer of the worker, or `fresh` of NewDynamoCheckpoint.
  unfoldable pub checkpointer_of : c.State → Option c.State → c.State
  checkpointer_of fresh none = fresh
  checkpointer_of fresh (some checker) = checker

  -- The ARN of the consumer when the enhanced fan-out is enabled.
  unfoldable pub consumer_arn_of :
      KinesisClientLibConfiguration → Worker → k.State → k.State × Reply String
  consumer_arn_of cfg w ks =
      if cfg.enable_enhanced_fan_out_consumer
      then (if str_eq cfg.enhanced_fan_out_consumer_arn ""
          then fetch_consumer_arn_with_retry k cfg ks
          else (ks, ok cfg.enhanced_fan_out_consumer_arn))
      else (ks, ok w.consumer_arn)

  -- After the checkpointer's Init: a new cache, a new stop channel and a new wait group.
  abbrev pub checkpointer_ready : Option Error → Worker → Worker × Option Error
  checkpointer_ready (some e) w = (w, some e)
  checkpointer_ready none w =
      (record w { shard_status = []; stop = open_channel; wait_group = 0 }, none)

  -- From the monitoring service on, whose error is only logged.
  unfoldable pub initialize_services :
      KinesisClientLibConfiguration → c.State → Worker → Worker × Option Error
  initialize_services cfg checker w =
      let (ms, _) = m.init cfg.application_name cfg.stream_name cfg.worker_id w.m_service in
      let (checker', e) = c.init checker in
      checkpointer_ready e (record w { m_service = ms; checkpointer = some checker' })

  -- An ARN that cannot be fetched ends the initialisation, with no ARN.
  abbrev pub arn_fetched :
      KinesisClientLibConfiguration
      → c.State
      → k.State × Reply String
      → Worker
      → Worker × Option Error
  arn_fetched cfg checker (ks, failed e) w =
      (record w { kc = some ks; checkpointer = some checker; consumer_arn = "" }, some e)
  arn_fetched cfg checker (ks, ok arn) w =
      initialize_services cfg checker (record w { kc = some ks; consumer_arn = arn })

  unfoldable pub initialize :
      KinesisClientLibConfiguration
      → Option k.State
      → c.State
      → Worker
      → Outcome (Worker × Option Error)
  unfolding kinesis_client checkpointer_of consumer_arn_of initialize_services
  initialize cfg loaded fresh w = do
    svc ← kinesis_client loaded w.kc
    returns (arn_fetched cfg (checkpointer_of fresh w.checkpointer) (consumer_arn_of cfg w svc) w)

  -- The monitoring service is started, and then the goroutine of the event loop.
  unfoldable pub start_services : Worker × Option Error → Worker × Option Error
  start_services (w, some e) = (w, some e)
  start_services (w, none) =
      let (ms, e) = m.start w.m_service in
      elim e [
        | some err ↦ (record w { m_service = ms }, some err)
        | none ↦ (record w { m_service = ms; wait_group = w.wait_group + 1 }, none)
      ]

  unfoldable pub start_worker :
      KinesisClientLibConfiguration
      → Option k.State
      → c.State
      → Worker
      → Outcome (Worker × Option Error)
  unfolding initialize start_services
  start_worker cfg loaded fresh w = do
    initialized ← initialize cfg loaded fresh w
    returns (start_services initialized)

  -- The stop channel is closed, and once the goroutines have ended the service is shut down.
  unfoldable pub shutdown_worker : Worker → Outcome Worker
  shutdown_worker w = if w.done || is_nil w.stop then returns w else (do
    stop ← close_channel w.stop
    returns
        (record w { stop = stop; done = true; wait_group = 0; m_service = m.shutdown w.m_service }))

  -- What an application calls: Start with what it finds, or Shutdown. An error of Start is left to
  -- the application.
  pub data Call : Type 0 where
    starts : Option k.State → c.State → Call
    shuts_down : Call

  unfoldable pub call : KinesisClientLibConfiguration → Call → Worker → Outcome Worker
  unfolding start_worker shutdown_worker
  call cfg (starts loaded fresh) w = do started ← start_worker cfg loaded fresh w; returns started.0
  call cfg shuts_down w = shutdown_worker w

  unfoldable pub call_all : KinesisClientLibConfiguration → List Call → Worker → Outcome Worker
  unfolding call
  call_all cfg [] w = returns w
  call_all cfg (x ∷ xs) w = do w' ← call cfg x w; call_all cfg xs w'

-- The consumer that newShardConsumer makes for a shard: what it adds to the common part, which has
-- the services and the configuration.
pub data ShardConsumer : Type 0 where
  fan_out_shard_consumer : (shard : ShardStatus) (consumer_arn consumer_id : String) → ShardConsumer
  polling_shard_consumer : (shard : ShardStatus) (stream_name consumer_id : String) → ShardConsumer

unfoldable pub new_shard_consumer :
    {f : Float64} {c : Checkpointer} {k : KinesisApi} {m : MonitoringService f}
    → KinesisClientLibConfiguration
    → Worker c k m
    → ShardStatus
    → ShardConsumer
new_shard_consumer cfg w shard =
    if cfg.enable_enhanced_fan_out_consumer
    then fan_out_shard_consumer shard w.consumer_arn cfg.worker_id
    else polling_shard_consumer shard cfg.stream_name cfg.worker_id
