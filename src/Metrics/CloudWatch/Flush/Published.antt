-- ===== src/Metrics/CloudWatch/Flush/Published.antt =====
-- clientlibrary/metrics/cloudwatch/cloudwatch.go: what the data of a PutMetricData call publish for a
-- counter of a shard.
use vmware_go_kcl_v2_test.Prelude.{
  ℕ, ◌+◌, ◌<◌, ◌≡◌, refl, String, ◌&&◌, Option, none, some, List, [], ◌∷◌, ◌++◌, arith, str_eq,
  if◌then◌else◌,
}
use vmware_go_kcl_v2_test.Partition.{Time}
use vmware_go_kcl_v2_test.Metrics.Float.{Float64, IsExact}
use vmware_go_kcl_v2_test.Metrics.CloudWatch.{CloudWatchMetrics, CloudWatchService}
use vmware_go_kcl_v2_test.Metrics.CloudWatch.Flush.{
  Dimension, MetricDatum, shard_data, statistics, after_put,
}
use vmware_go_kcl_v2_test.Metrics.CloudWatch.Flush.Pending.{
  Counter, records, bytes, renewals, metric_of, shard_of, held,
}

-- The integers below it are exact as float64.
abbrev pub exact_limit : ℕ
exact_limit = 9007199254740992

module _ (f : Float64) (x : IsExact f) where
  abbrev pub counted_by : Option f.Value → ℕ
  counted_by none = 0
  counted_by (some v) = x.to_int v

  -- What a datum publishes for a counter of a shard, and what a list of them does.
  abbrev pub datum_count : Counter → String → MetricDatum f → ℕ
  datum_count k shard d =
      if str_eq d.metric_name (metric_of k) && str_eq (shard_of d.dimensions) shard
      then counted_by d.value
      else 0

  abbrev pub published : Counter → String → List (MetricDatum f) → ℕ
  published k shard [] = 0
  published k shard (d ∷ ds) = datum_count k shard d + published k shard ds

  pub published-append :
      (k : Counter) (shard : String) (ds es : List (MetricDatum f))
      → published k shard (ds ++ es) ≡ published k shard ds + published k shard es
  published-append k shard [] es = omega arith
  published-append k shard (d ∷ ds) es = omega (arith, published-append k shard ds es)

  published-statistics :
      (k : Counter) (shard : String) (dims : List Dimension) (name : String) (now : Time)
      (samples : List f.Value)
      → published k shard (statistics f dims name now samples) ≡ 0
  unfolding statistics
  published-statistics k shard dims name now [] = refl
  published-statistics k shard dims name now (v ∷ vs) = ground arith

  published-all_statistics :
      (k : Counter) (shard : String) (dims : List Dimension) (now : Time) (m : CloudWatchMetrics f)
      (a b c : String)
      → published k shard (
          statistics f dims a now m.behind_latest_millis
          ++ (statistics f dims b now m.get_records_time
              ++ statistics f dims c now m.process_records_time))
        ≡ 0
  published-all_statistics k shard dims now m a b c = rw (published-append k shard) (
      rw (published-append k shard) (
        omega (
          arith,
          published-statistics k shard dims a now m.behind_latest_millis,
          published-statistics k shard dims b now m.get_records_time,
          published-statistics k shard dims c now m.process_records_time,
        )))

  pub published-shard_data :
      (k : Counter) (shard : String) (now : Time) (cw : CloudWatchService f) (key : String)
      (m : CloudWatchMetrics f)
      → (if str_eq key shard then held f k m else 0) < exact_limit
      → published k shard (shard_data f now cw key m) ≡ (if str_eq key shard then held f k m else 0)
  unfolding shard_data
  published-shard_data records shard now cw key m b =
      rw (published-all_statistics records shard) (ground (arith, x.exact m.processed_records))
  published-shard_data bytes shard now cw key m b =
      rw (published-all_statistics bytes shard) (ground (arith, x.exact m.processed_bytes))
  published-shard_data renewals shard now cw key m b =
      rw (published-all_statistics renewals shard) (ground (arith, x.exact m.lease_renewals))

  pub held-after_put : (k : Counter) (m : CloudWatchMetrics f) → held f k (after_put f none m) ≡ 0
  held-after_put records m = refl
  held-after_put bytes m = refl
  held-after_put renewals m = refl
