-- ===== src/Metrics/CloudWatch.antt =====
-- clientlibrary/metrics/cloudwatch/cloudwatch.go: the service that collects the metrics of each
-- shard and publishes them to CloudWatch. The methods of one shard hold its mutex, so each of them
-- is a step, once the metrics of the shard are there. The look-up that makes them, a Load and a
-- Store, comes before the mutex is taken: calls for a shard that overlap its very first call are
-- outside the model. The sync.Map is a list of the shards in the order in which Range visits them.
pub mod Flush
use vmware_go_kcl_v2_test.Prelude.{
  ℕ, ◌+◌, ◌%◌, String, Option, none, some, List, [], ◌∷◌, ◌++◌, str_eq, if◌then◌else◌,
}
use vmware_go_kcl_v2_test.Prelude.Int.{ℤ, pos}
use vmware_go_kcl_v2_test.Prelude.Outcome.{
  Outcome, returns, ◌>>=◌, Channel, no_channel, open_channel, close_channel,
}
use vmware_go_kcl_v2_test.Metrics.Float.{Float64}

-- 10 * time.Second
abbrev pub default_cloudwatch_metrics_buffer_duration : ℤ
default_cloudwatch_metrics_buffer_duration = pos 10_000_000_000

-- The number of values of an int64, which is given by its 64 bits.
abbrev pub int64_values : ℕ
int64_values = 18446744073709551616

-- a + b of int64
abbrev pub add_int64 : ℕ → ℕ → ℕ
add_int64 a b = (a + b) % int64_values

module _ (f : Float64) where
  -- cloudWatchMetrics
  pub record CloudWatchMetrics : Type 0 where
    pub processed_records : ℕ
    pub processed_bytes : ℕ
    pub behind_latest_millis : List f.Value
    pub leases_held : ℕ
    pub lease_renewals : ℕ
    pub get_records_time : List f.Value
    pub process_records_time : List f.Value

  abbrev pub no_metrics : CloudWatchMetrics
  no_metrics = record {
    processed_records = 0;
    processed_bytes = 0;
    behind_latest_millis = [];
    leases_held = 0;
    lease_renewals = 0;
    get_records_time = [];
    process_records_time = [];
  }

  abbrev pub MetricsMap : Type 0
  MetricsMap = List (String × CloudWatchMetrics)

  -- The credentials and the logger are interface values. The wait group counts the event loops.
  pub record CloudWatchService : Type 0 where
    pub app_name : String
    pub stream_name : String
    pub worker_id : String
    pub region : String
    pub credentials : Option ℕ
    pub logger : Option ℕ
    pub buffer_duration : ℤ
    pub stop : Channel
    pub wait_group : ℕ
    pub shard_metrics : MetricsMap

  unfoldable pub new_monitoring_service_with_options :
      String → Option ℕ → Option ℕ → ℤ → CloudWatchService
  new_monitoring_service_with_options region creds logger buffer_dur = record {
    app_name = "";
    stream_name = "";
    worker_id = "";
    region = region;
    credentials = creds;
    logger = logger;
    buffer_duration = buffer_dur;
    stop = no_channel;
    wait_group = 0;
    shard_metrics = [];
  }

  -- `default_logger` is logger.GetDefaultLogger().
  unfoldable pub new_monitoring_service : Option ℕ → String → Option ℕ → CloudWatchService
  unfolding new_monitoring_service_with_options
  new_monitoring_service default_logger region creds =
      new_monitoring_service_with_options region creds default_logger
        default_cloudwatch_metrics_buffer_duration

  -- It returns no error.
  unfoldable pub init_monitoring : String → String → String → CloudWatchService → CloudWatchService
  init_monitoring app_name stream_name worker_id cw = record cw {
    app_name = app_name;
    stream_name = stream_name;
    worker_id = worker_id;
    shard_metrics = [];
    stop = open_channel;
    wait_group = 0;
  }

  -- It returns no error, and starts the event loop.
  unfoldable pub start_monitoring : CloudWatchService → CloudWatchService
  start_monitoring cw = record cw { wait_group = cw.wait_group + 1 }

  -- The wait for the event loop comes after.
  unfoldable pub shutdown_monitoring : CloudWatchService → Outcome CloudWatchService
  shutdown_monitoring cw = do stop ← close_channel cw.stop; returns (record cw { stop = stop })

  -- The metrics of the shard, and the map with them stored.
  unfoldable pub get_or_create_per_shard_metrics :
      String → MetricsMap → CloudWatchMetrics × MetricsMap
  get_or_create_per_shard_metrics shard [] = (no_metrics, (shard, no_metrics) ∷ [])
  get_or_create_per_shard_metrics shard ((key, m) ∷ ms) =
      let (found, rest) = get_or_create_per_shard_metrics shard ms in
      if str_eq key shard then (m, (key, m) ∷ ms) else (found, (key, m) ∷ rest)

  -- What the map's pointer for the shard points to is now `m`.
  abbrev pub put_metrics : String → CloudWatchMetrics → MetricsMap → MetricsMap
  put_metrics shard m [] = []
  put_metrics shard m ((key, old) ∷ ms) =
      if str_eq key shard then (key, m) ∷ ms else (key, old) ∷ put_metrics shard m ms

  -- The common part of the methods: the metrics are found or made, and changed in place. As one
  -- step this is the code's unless two calls make the metrics of a shard at the same time; then one
  -- of the two is lost.
  unfoldable pub on_metrics :
      (CloudWatchMetrics → CloudWatchMetrics) → String → CloudWatchService → CloudWatchService
  unfolding get_or_create_per_shard_metrics
  on_metrics change shard cw =
      let (m, ms) = get_or_create_per_shard_metrics shard cw.shard_metrics in
      record cw { shard_metrics = put_metrics shard (change m) ms }

  unfoldable pub incr_records_processed : String → ℕ → CloudWatchService → CloudWatchService
  incr_records_processed shard count =
      on_metrics (λ m. record m { processed_records = add_int64 m.processed_records count }) shard

  unfoldable pub incr_bytes_processed : String → ℕ → CloudWatchService → CloudWatchService
  incr_bytes_processed shard count =
      on_metrics (λ m. record m { processed_bytes = add_int64 m.processed_bytes count }) shard

  unfoldable pub millis_behind_latest : String → f.Value → CloudWatchService → CloudWatchService
  millis_behind_latest shard mill_seconds =
      on_metrics
        (λ m. record m { behind_latest_millis = m.behind_latest_millis ++ mill_seconds ∷ [] }) shard

  unfoldable pub lease_gained : String → CloudWatchService → CloudWatchService
  lease_gained = on_metrics (λ m. record m { leases_held = add_int64 m.leases_held 1 })

  -- Minus one is the int64 of all ones.
  unfoldable pub lease_lost : String → CloudWatchService → CloudWatchService
  lease_lost =
      on_metrics (λ m. record m { leases_held = add_int64 m.leases_held 18446744073709551615 })

  unfoldable pub lease_renewed : String → CloudWatchService → CloudWatchService
  lease_renewed = on_metrics (λ m. record m { lease_renewals = add_int64 m.lease_renewals 1 })

  unfoldable pub record_get_records_time : String → f.Value → CloudWatchService → CloudWatchService
  record_get_records_time shard time =
      on_metrics (λ m. record m { get_records_time = m.get_records_time ++ time ∷ [] }) shard

  unfoldable pub record_process_records_time :
      String → f.Value → CloudWatchService → CloudWatchService
  record_process_records_time shard time =
      on_metrics (λ m. record m { process_records_time = m.process_records_time ++ time ∷ [] })
        shard

  -- A call of one of the methods by which the worker and its consumers report.
  pub data Report : Type 0 where
    records_processed : String → ℕ → Report
    bytes_processed : String → ℕ → Report
    behind_latest : String → f.Value → Report
    gained lost renewed : String → Report
    get_records_took : String → f.Value → Report
    process_records_took : String → f.Value → Report

  unfoldable pub report : Report → CloudWatchService → CloudWatchService
  unfolding incr_records_processed incr_bytes_processed millis_behind_latest lease_gained lease_lost
      lease_renewed record_get_records_time record_process_records_time
  report (records_processed shard count) = incr_records_processed shard count
  report (bytes_processed shard count) = incr_bytes_processed shard count
  report (behind_latest shard mill_seconds) = millis_behind_latest shard mill_seconds
  report (gained shard) = lease_gained shard
  report (lost shard) = lease_lost shard
  report (renewed shard) = lease_renewed shard
  report (get_records_took shard time) = record_get_records_time shard time
  report (process_records_took shard time) = record_process_records_time shard time

  unfoldable pub report_all : List Report → CloudWatchService → CloudWatchService
  report_all [] cw = cw
  report_all (r ∷ rs) cw = report_all rs (report r cw)
