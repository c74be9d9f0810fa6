-- ===== src/Metrics/CloudWatch/Flush/Drained.antt =====
-- clientlibrary/metrics/cloudwatch/cloudwatch.go: what is published once the event loop has been
-- stopped.
use vmware_go_kcl_v2_test.Prelude.{◌≡◌, String, true, none, List}
use vmware_go_kcl_v2_test.Metrics.Float.{Float64, IsExact}
use vmware_go_kcl_v2_test.Metrics.CloudWatch.{CloudWatchService}
use vmware_go_kcl_v2_test.Metrics.CloudWatch.Flush.{
  MetricDatum, CloudWatchApi, FlushRound, eventloop,
}
use vmware_go_kcl_v2_test.Metrics.CloudWatch.Flush.Pending.{Counter, pending}
use vmware_go_kcl_v2_test.Metrics.CloudWatch.Flush.Totals.{Keeps}

module _ (f : Float64) (x : IsExact f) (api : CloudWatchApi f) (w : Keeps f api) where
  -- Every call of PutMetricData succeeds.
  abbrev pub Answers : Type 0
  Answers =
      (n : String) (d : List (MetricDatum f)) (t : api.State) → (api.put_metric_data n d t).1 ≡ none

  abbrev Clears : Counter → String → List (FlushRound f api) → Type 0
  Clears k shard rs =
      (cw : CloudWatchService f) (s : api.State)
      → (eventloop f api rs cw s).2 ≡ true
      → pending f k shard (eventloop f api rs cw s).1.shard_metrics ≡ 0
