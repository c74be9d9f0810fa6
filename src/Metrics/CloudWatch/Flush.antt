-- ===== src/Metrics/CloudWatch/Flush.antt =====
-- clientlibrary/metrics/cloudwatch/cloudwatch.go: flushShard, flush and the event loop.
pub mod Statistics
pub mod Pending
pub mod Published
pub mod Totals
pub mod Drained
use vmware_go_kcl_v2_test.Prelude.{
  ℕ, ◌+◌, String, Bool, true, false, Option, none, some, List, [], ◌∷◌, ◌++◌, length, ltb,
  if◌then◌else◌,
}
use vmware_go_kcl_v2_test.Partition.{Time}
use vmware_go_kcl_v2_test.Checkpoint.{Error}
use vmware_go_kcl_v2_test.Metrics.Float.{Float64}
use vmware_go_kcl_v2_test.Metrics.CloudWatch.{
  CloudWatchMetrics, MetricsMap, CloudWatchService, Report, report_all,
}

-- types.StandardUnit
pub data StandardUnit : Type 0 where
  count bytes milliseconds : StandardUnit

-- types.Dimension
pub record Dimension : Type 0 where
  pub name : String
  pub value : String

module _ (f : Float64) where
  pub record StatisticSet : Type 0 where
    pub sample_count : f.Value
    pub sum : f.Value
    pub maximum : f.Value
    pub minimum : f.Value

  -- types.MetricDatum
  pub record MetricDatum : Type 0 where
    pub dimensions : List Dimension
    pub metric_name : String
    pub unit : StandardUnit
    pub timestamp : Time
    pub value : Option f.Value
    pub statistic_values : Option StatisticSet

  -- The loop of sumFloat64, maxFloat64 and minFloat64, from a value on.
  unfoldable pub sum_from : f.Value → List f.Value → f.Value
  sum_from sum [] = sum
  sum_from sum (num ∷ nums) = sum_from (f.add sum num) nums

  unfoldable pub max_from : f.Value → List f.Value → f.Value
  max_from max [] = max
  max_from max (num ∷ nums) = max_from (if f.less max num then num else max) nums

  unfoldable pub min_from : f.Value → List f.Value → f.Value
  min_from min [] = min
  min_from min (num ∷ nums) = min_from (if f.less num min then num else min) nums

  unfoldable pub sum_float64 : List f.Value → f.Value
  unfolding sum_from
  sum_float64 slice = sum_from f.zero_value slice

  unfoldable pub max_float64 : List f.Value → f.Value
  unfolding max_from
  max_float64 [] = f.zero_value
  max_float64 (num ∷ nums) = max_from num (num ∷ nums)

  unfoldable pub min_float64 : List f.Value → f.Value
  unfolding min_from
  min_float64 [] = f.zero_value
  min_float64 (num ∷ nums) = min_from num (num ∷ nums)

  -- The datum for a list of samples, if there are any.
  unfoldable pub statistics : List Dimension → String → Time → List f.Value → List MetricDatum
  unfolding sum_float64 max_float64 min_float64
  statistics dimensions name now samples =
      if ltb 0 (length samples)
      then record {
        dimensions = dimensions;
        metric_name = name;
        unit = milliseconds;
        timestamp = now;
        value = none;
        statistic_values = some (record {
          sample_count = f.of_count (length samples);
          sum = sum_float64 samples;
          maximum = max_float64 samples;
          minimum = min_float64 samples;
        });
      }
        ∷ []
      else []

  abbrev pub counted : List Dimension → String → StandardUnit → Time → ℕ → MetricDatum
  counted dimensions name unit now n = record {
    dimensions = dimensions;
    metric_name = name;
    unit = unit;
    timestamp = now;
    value = some (f.of_int n);
    statistic_values = none;
  }

  abbrev pub default_dimensions : String → CloudWatchService f → List Dimension
  default_dimensions shard cw =
      record { name = "Shard"; value = shard }
      ∷ record { name = "KinesisStreamName"; value = cw.stream_name }
      ∷ []

  abbrev pub lease_dimensions : String → CloudWatchService f → List Dimension
  lease_dimensions shard cw =
      record { name = "Shard"; value = shard }
      ∷ record { name = "KinesisStreamName"; value = cw.stream_name }
      ∷ record { name = "WorkerID"; value = cw.worker_id }
      ∷ []

  -- The data of one PutMetricData call.
  unfoldable pub shard_data :
      Time → CloudWatchService f → String → CloudWatchMetrics f → List MetricDatum
  shard_data now cw shard m =
      let dims = default_dimensions shard cw in
      let lease_dims = lease_dimensions shard cw in
      counted dims "RecordsProcessed" count now m.processed_records
      ∷ counted dims "DataBytesProcessed" bytes now m.processed_bytes
      ∷ counted lease_dims "RenewLease.Success" count now m.lease_renewals
      ∷ counted lease_dims "CurrentLeases" count now m.leases_held
      ∷ (statistics dims "MillisBehindLatest" now m.behind_latest_millis
          ++ (statistics dims "KinesisDataFetcher.getRecords.Time" now m.get_records_time
              ++ statistics dims "RecordProcessor.processRecords.Time" now m.process_records_time))

  -- The CloudWatch client: PutMetricData with its namespace and data.
  pub record CloudWatchApi : Type 1 where
    pub State : Type 0
    pub put_metric_data : String → List MetricDatum → State → State × Option Error

-- The counters that a successful call has published start again; the leases held are kept.
abbrev pub after_put : (f : Float64) → Option Error → CloudWatchMetrics f → CloudWatchMetrics f
after_put f none m = record m {
  processed_records = 0;
  processed_bytes = 0;
  behind_latest_millis = [];
  lease_renewals = 0;
  get_records_time = [];
  process_records_time = [];
}
after_put f (some e) m = m

module _ (f : Float64) (api : CloudWatchApi f) where
  unfoldable pub flush_shard :
      Time
      → CloudWatchService f
      → String
      → CloudWatchMetrics f
      → api.State
      → api.State × CloudWatchMetrics f
  unfolding shard_data
  flush_shard now cw shard m s =
      let (s', e) = api.put_metric_data cw.app_name (shard_data f now cw shard m) s in
      (s', after_put f e m)

  -- The Range over the map.
  unfoldable pub flush_all :
      (String → Time) → CloudWatchService f → MetricsMap f → api.State → api.State × MetricsMap f
  unfolding flush_shard
  flush_all now cw [] s = (s, [])
  flush_all now cw ((shard, m) ∷ ms) s =
      let (s', m') = flush_shard (now shard) cw shard m s in
      let (s'', ms') = flush_all now cw ms s' in (s'', (shard, m') ∷ ms')

  -- It returns no error. The readings of the clock are those for each shard.
  unfoldable pub flush :
      (String → Time) → CloudWatchService f → api.State → api.State × CloudWatchService f
  unfolding flush_all
  flush now cw s =
      let (s', ms) = flush_all now cw cw.shard_metrics s in (s', record cw { shard_metrics = ms })

  -- A round of the event loop: the clock in its flush, what the other goroutines report until the
  -- select returns, and whether the stop channel is what it returns for, with the clock in the
  -- last flush.
  pub record FlushRound : Type 0 where
    pub now : String → Time
    pub meanwhile : List (Report f)
    pub stopped : Option (String → Time)

  -- The event loop on the inputs of its rounds, with whether it has returned.
  unfoldable pub eventloop :
      List FlushRound → CloudWatchService f → api.State → api.State × CloudWatchService f × Bool
  unfolding flush
  eventloop [] cw s = (s, cw, false)
  eventloop (r ∷ rs) cw s =
      let (s', cw') = flush r.now cw s in
      elim r.stopped [
        | none ↦ eventloop rs (report_all f r.meanwhile cw') s'
        | some last ↦
            let (s'', cw'') = flush last (report_all f r.meanwhile cw') s' in (s'', cw'', true)
      ]
