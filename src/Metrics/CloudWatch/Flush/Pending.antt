-- ===== src/Metrics/CloudWatch/Flush/Pending.antt =====
-- clientlibrary/metrics/cloudwatch/cloudwatch.go: the counters of a shard that are not yet published,
-- and how the reports change them.
use vmware_go_kcl_v2_test.Prelude.{
  ℕ, ◌+◌, ◌<◌, ◌≡◌, refl, String, List, [], ◌∷◌, ◌++◌, arith, str_eq, eq_iff, Bool-cases, inl, inr,
  if◌then◌else◌,
}
use vmware_go_kcl_v2_test.Metrics.Float.{Float64}
use vmware_go_kcl_v2_test.Metrics.CloudWatch
use vmware_go_kcl_v2_test.Metrics.CloudWatch.{
  CloudWatchMetrics, MetricsMap, CloudWatchService, Report, records_processed, bytes_processed,
  behind_latest, gained, lost, renewed, get_records_took, process_records_took, report, report_all,
  on_metrics, put_metrics, get_or_create_per_shard_metrics, add_int64, no_metrics,
}
use vmware_go_kcl_v2_test.Metrics.CloudWatch.Flush.{Dimension}

-- The counters that are published and then start again.
pub data Counter : Type 0 where
  records bytes renewals : Counter

abbrev pub metric_of : Counter → String
metric_of records = "RecordsProcessed"
metric_of bytes = "DataBytesProcessed"
metric_of renewals = "RenewLease.Success"

abbrev pub shard_of : List Dimension → String
shard_of [] = ""
shard_of (d ∷ ds) = if str_eq d.name "Shard" then d.value else shard_of ds

module _ (f : Float64) where
  abbrev pub held : Counter → CloudWatchMetrics f → ℕ
  held records m = m.processed_records
  held bytes m = m.processed_bytes
  held renewals m = m.lease_renewals

  -- What is counted for a shard and not yet published.
  abbrev pub pending : Counter → String → MetricsMap f → ℕ
  pending k shard [] = 0
  pending k shard ((key, m) ∷ ms) = (if str_eq key shard then held k m else 0) + pending k shard ms

  abbrev pub amount : Counter → Report f → ℕ
  amount records (records_processed s n) = n
  amount bytes (bytes_processed s n) = n
  amount renewals (renewed s) = 1
  amount _ _ = 0

  abbrev pub target : Report f → String
  target (records_processed s n) = s
  target (bytes_processed s n) = s
  target (behind_latest s v) = s
  target (gained s) = s
  target (lost s) = s
  target (renewed s) = s
  target (get_records_took s v) = s
  target (process_records_took s v) = s

  -- What a call reports for a shard.
  abbrev pub reported : Counter → String → Report f → ℕ
  reported k shard r = if str_eq (target r) shard then amount k r else 0

  abbrev pub reported_all : Counter → String → List (Report f) → ℕ
  reported_all k shard [] = 0
  reported_all k shard (r ∷ rs) = reported k shard r + reported_all k shard rs

  -- The change adds `n` to the counter, unless it would overflow.
  abbrev Adds : Counter → ℕ → (CloudWatchMetrics f → CloudWatchMetrics f) → Type 0
  Adds k n change =
      (m : CloudWatchMetrics f)
      → held k m + n < CloudWatch.int64_values
      → held k (change m) ≡ held k m + n

  -- The map after a report.
  abbrev changed :
      (CloudWatchMetrics f → CloudWatchMetrics f) → String → MetricsMap f → MetricsMap f
  changed change s ms =
      let (m, ms') = get_or_create_per_shard_metrics f s ms in put_metrics f s (change m) ms'

  held-no_metrics : (k : Counter) → held k (no_metrics f) ≡ 0
  held-no_metrics records = refl
  held-no_metrics bytes = refl
  held-no_metrics renewals = refl

  pending-changed :
      (k : Counter) (shard s : String) (n : ℕ) (change : CloudWatchMetrics f → CloudWatchMetrics f)
      (ms : MetricsMap f)
      → Adds k n change
      → pending k shard ms + (if str_eq s shard then n else 0) < CloudWatch.int64_values
      → pending k shard (changed change s ms)
        ≡ pending k shard ms + (if str_eq s shard then n else 0)
  unfolding get_or_create_per_shard_metrics
  pending-changed k shard s n change [] h b =
      ground (arith, eq_iff s s, eq_iff s shard, h (no_metrics f), held-no_metrics k)
  pending-changed k shard s n change ((key, m) ∷ ms) h b = elim (Bool-cases (str_eq key s)) [
    | inl at ↦ ground (arith, eq_iff key s, eq_iff s shard, eq_iff key shard, h m)
    | inr past ↦ ground (
      arith,
      eq_iff key s,
      eq_iff s shard,
      eq_iff key shard,
      pending-changed k shard s n change ms h,
    )
  ]

  -- The change that a report makes to the metrics of its shard.
  abbrev change_by : Report f → CloudWatchMetrics f → CloudWatchMetrics f
  change_by (records_processed s n) m = record m {
    processed_records = add_int64 m.processed_records n;
  }
  change_by (bytes_processed s n) m = record m { processed_bytes = add_int64 m.processed_bytes n }
  change_by (behind_latest s v) m = record m {
    behind_latest_millis = m.behind_latest_millis ++ v ∷ [];
  }
  change_by (gained s) m = record m { leases_held = add_int64 m.leases_held 1 }
  change_by (lost s) m = record m { leases_held = add_int64 m.leases_held 18446744073709551615 }
  change_by (renewed s) m = record m { lease_renewals = add_int64 m.lease_renewals 1 }
  change_by (get_records_took s v) m = record m { get_records_time = m.get_records_time ++ v ∷ [] }
  change_by (process_records_took s v) m = record m {
    process_records_time = m.process_records_time ++ v ∷ [];
  }

  report_lem :
      (r : Report f) (cw : CloudWatchService f)
      → (report f r cw).shard_metrics ≡ changed (change_by r) (target r) cw.shard_metrics
  unfolding report on_metrics
  report_lem (records_processed s n) cw = refl
  report_lem _ cw = refl

  change_by-Adds : (k : Counter) (r : Report f) → Adds k (amount k r) (change_by r)
  change_by-Adds records (records_processed s n) m b = omega arith
  change_by-Adds records _ m b = omega arith
  change_by-Adds bytes (bytes_processed s n) m b = omega arith
  change_by-Adds bytes _ m b = omega arith
  change_by-Adds renewals (renewed s) m b = omega arith
  change_by-Adds renewals _ m b = omega arith

  report-pending :
      (k : Counter) (shard : String) (r : Report f) (cw : CloudWatchService f)
      → pending k shard cw.shard_metrics + reported k shard r < CloudWatch.int64_values
      → pending k shard (report f r cw).shard_metrics
        ≡ pending k shard cw.shard_metrics + reported k shard r
  report-pending k shard r cw b = rw (report_lem r cw) (
      pending-changed k shard (target r) (amount k r) (change_by r) cw.shard_metrics
        (change_by-Adds k r) b)

  pub report_all-pending :
      (k : Counter) (shard : String) (rs : List (Report f)) (cw : CloudWatchService f)
      → pending k shard cw.shard_metrics + reported_all k shard rs < CloudWatch.int64_values
      → pending k shard (report_all f rs cw).shard_metrics
        ≡ pending k shard cw.shard_metrics + reported_all k shard rs
  unfolding report_all
  report_all-pending k shard [] cw b = omega arith
  report_all-pending k shard (r ∷ rs) cw b =
      let e = report-pending k shard r cw (omega arith) in
      omega (arith, report_all-pending k shard rs (report f r cw) (omega arith))
