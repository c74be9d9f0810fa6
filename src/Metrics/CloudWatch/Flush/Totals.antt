-- ===== src/Metrics/CloudWatch/Flush/Totals.antt =====
-- clientlibrary/metrics/cloudwatch/cloudwatch.go: the service against an abstract view, in which a
-- report adds to a total for its shard and publishing changes nothing.
use vmware_go_kcl_v2_test.Prelude.{
  ℕ, ◌+◌, ◌<◌, ◌≤◌, ◌≡◌, refl, String, Option, none, some, List, [], ◌∷◌, ◌++◌, arith, str_eq,
  Option-cases, inl, inr, if◌then◌else◌,
}
use vmware_go_kcl_v2_test.Partition.{Time}
use vmware_go_kcl_v2_test.Checkpoint.{Error}
use vmware_go_kcl_v2_test.Metrics.Float.{Float64, IsExact}
use vmware_go_kcl_v2_test.Metrics.CloudWatch.{
  CloudWatchMetrics, MetricsMap, CloudWatchService, Report, report_all,
}
use vmware_go_kcl_v2_test.Metrics.CloudWatch.Flush.{
  MetricDatum, CloudWatchApi, FlushRound, shard_data, flush_shard, flush_all, flush, eventloop,
  after_put,
}
use vmware_go_kcl_v2_test.Metrics.CloudWatch.Flush.Pending.{
  Counter, held, pending, reported_all, report_all-pending,
}
use vmware_go_kcl_v2_test.Metrics.CloudWatch.Flush.Published.{
  exact_limit, published, published-append, published-shard_data, held-after_put,
}

-- What the service keeps of the calls: the data of those that succeed, in their order.
pub record Keeps (f : Float64) (api : CloudWatchApi f) : Type 0 where
  pub accepted : api.State → List (MetricDatum f)
  pub accepts :
      (namespace : String) (d : List (MetricDatum f)) (s : api.State)
      → (api.put_metric_data namespace d s).1 ≡ none
      → accepted (api.put_metric_data namespace d s).0 ≡ accepted s ++ d
  pub refuses :
      (namespace : String) (d : List (MetricDatum f)) (s : api.State) (e : Error)
      → (api.put_metric_data namespace d s).1 ≡ some e
      → accepted (api.put_metric_data namespace d s).0 ≡ accepted s

module _ (f : Float64) (x : IsExact f) (api : CloudWatchApi f) (w : Keeps f api) where
  -- What was counted for the shard, published or not.
  abbrev pub total : Counter → String → api.State → MetricsMap f → ℕ
  total k shard s ms = published f x k shard (w.accepted s) + pending f k shard ms

  flush_shard-total :
      (k : Counter) (shard : String) (now : Time) (cw : CloudWatchService f) (key : String)
      (m : CloudWatchMetrics f) (s : api.State)
      → (if str_eq key shard then held f k m else 0) < exact_limit
      → let (s', m') = flush_shard f api now cw key m s in
        published f x k shard (w.accepted s') + (if str_eq key shard then held f k m' else 0)
        ≡ published f x k shard (w.accepted s) + (if str_eq key shard then held f k m else 0)
  unfolding flush_shard
  flush_shard-total k shard now cw key m s b =
      let d = shard_data f now cw key m in
      elim (Option-cases (api.put_metric_data cw.app_name d s).1) [
        | inl e ↦
            rw (e, w.accepts cw.app_name d s e)
              (ground (
                arith,
                held-after_put f x k m,
                published-append f x k shard (w.accepted s) d,
                published-shard_data f x k shard now cw key m b,
              ))
        | inr (err, e) ↦ rw (e, w.refuses cw.app_name d s err e) refl
      ]

  flush_all-total :
      (k : Counter) (shard : String) (now : String → Time) (cw : CloudWatchService f)
      (ms : MetricsMap f) (s : api.State)
      → pending f k shard ms < exact_limit
      → let (s', ms') = flush_all f api now cw ms s in total k shard s' ms' ≡ total k shard s ms
  unfolding flush_all
  flush_all-total k shard now cw [] s b = refl
  flush_all-total k shard now cw ((key, m) ∷ ms) s b =
      let (s', m') = flush_shard f api (now key) cw key m s in
      let e = flush_shard-total k shard (now key) cw key m s (omega arith) in
      omega (arith, flush_all-total k shard now cw ms s' (omega arith))

  pub flush-total :
      (k : Counter) (shard : String) (now : String → Time) (cw : CloudWatchService f)
      (s : api.State)
      → pending f k shard cw.shard_metrics < exact_limit
      → let (s', cw') = flush f api now cw s in
        total k shard s' cw'.shard_metrics ≡ total k shard s cw.shard_metrics
  unfolding flush
  flush-total k shard now cw s b = flush_all-total k shard now cw cw.shard_metrics s b

  held-after_put_le :
      (k : Counter) (e : Option Error) (m : CloudWatchMetrics f)
      → held f k (after_put f e m) ≤ held f k m
  held-after_put_le k none m = rw (held-after_put f x k m) (omega arith)
  held-after_put_le k (some e) m = omega arith

  flush_all-le :
      (k : Counter) (shard : String) (now : String → Time) (cw : CloudWatchService f)
      (ms : MetricsMap f) (s : api.State)
      → pending f k shard (flush_all f api now cw ms s).1 ≤ pending f k shard ms
  unfolding flush_all flush_shard
  flush_all-le k shard now cw [] s = omega arith
  flush_all-le k shard now cw ((key, m) ∷ ms) s =
      let (s', e) = api.put_metric_data cw.app_name (shard_data f (now key) cw key m) s in
      ground (arith, held-after_put_le k e m, flush_all-le k shard now cw ms s')

  -- A flush, and what is reported after it.
  pub flush_report-total :
      (k : Counter) (shard : String) (now : String → Time) (meanwhile : List (Report f))
      (cw : CloudWatchService f) (s : api.State)
      → pending f k shard cw.shard_metrics + reported_all f k shard meanwhile < exact_limit
      → let (s', cw') = flush f api now cw s in
        let cw'' = report_all f meanwhile cw' in
        (total k shard s' cw''.shard_metrics
          ≡ total k shard s cw.shard_metrics + reported_all f k shard meanwhile)
        × (pending f k shard cw''.shard_metrics
            ≤ pending f k shard cw.shard_metrics + reported_all f k shard meanwhile)
  flush_report-total k shard now meanwhile cw s b =
      let (s', cw') = flush f api now cw s in
      let fewer : pending f k shard cw'.shard_metrics ≤ pending f k shard cw.shard_metrics =
        unfold flush in flush_all-le k shard now cw cw.shard_metrics s in
      let same = flush-total k shard now cw s (omega arith) in
      let more = report_all-pending f k shard meanwhile cw' (omega arith) in
      (omega arith, omega arith)

  -- What is reported for the shard in the rounds until the loop returns.
  abbrev pub reported_in : Counter → String → List (FlushRound f api) → ℕ
  reported_in k shard [] = 0
  reported_in k shard (r ∷ rs) =
      reported_all f k shard r.meanwhile
      + elim r.stopped [ none ↦ reported_in k shard rs | some _ ↦ 0 ]

  abbrev Accounts : Counter → String → List (FlushRound f api) → Type 0
  Accounts k shard rs =
      (cw : CloudWatchService f) (s : api.State)
      → pending f k shard cw.shard_metrics + reported_in k shard rs < exact_limit
      → let (s', cw', returned) = eventloop f api rs cw s in
        total k shard s' cw'.shard_metrics
        ≡ total k shard s cw.shard_metrics + reported_in k shard rs

  round-Accounts :
      (k : Counter) (shard : String) (now : String → Time) (meanwhile : List (Report f))
      (stopped : Option (String → Time)) (rs : List (FlushRound f api))
      → Accounts k shard rs
      → Accounts k shard (record { now = now; meanwhile = meanwhile; stopped = stopped } ∷ rs)
  unfolding eventloop
  round-Accounts k shard now meanwhile none rs ih cw s b =
      let (s', cw') = flush f api now cw s in
      let (same, fewer) = flush_report-total k shard now meanwhile cw s (omega arith) in
      omega (arith, ih (report_all f meanwhile cw') s' (omega arith))
  round-Accounts k shard now meanwhile (some last) rs ih cw s b =
      let (s', cw') = flush f api now cw s in
      let (same, fewer) = flush_report-total k shard now meanwhile cw s (omega arith) in
      omega (arith, flush-total k shard last (report_all f meanwhile cw') s' (omega arith))

  -- Whatever the event loop is interrupted by and whichever calls of PutMetricData fail, nothing is
  -- lost and nothing is published twice: for each shard, and for the records, the bytes and the lease renewals,
  -- what has been published plus what is pending is what it was at the start plus what was
  -- reported meanwhile. (The reports come one after another, so no two are the first of a shard at
  -- the same time, which would lose one; the service keeps exactly the data of the calls that succeed, and the
  -- count stays below 2 ^ 53, where a float64 is exact.)
  pub eventloop-total :
      (k : Counter) (shard : String) (rs : List (FlushRound f api)) (cw : CloudWatchService f)
      (s : api.State)
      → pending f k shard cw.shard_metrics + reported_in k shard rs < exact_limit
      → let (s', cw', returned) = eventloop f api rs cw s in
        total k shard s' cw'.shard_metrics
        ≡ total k shard s cw.shard_metrics + reported_in k shard rs
  eventloop-total k shard [] cw s b = unfold eventloop in omega arith
  eventloop-total k shard (r ∷ rs) cw s b =
      round-Accounts k shard r.now r.meanwhile r.stopped rs
        (λ cw' s' b'. eventloop-total k shard rs cw' s' b') cw s b
