-- ===== src/Metrics/Prometheus/Counts.antt =====
-- clientlibrary/metrics/prometheus/prometheus.go: what the reports of a worker make of the counter
-- of processed records.
use vmware_go_kcl_v2_test.Prelude.{
  ℕ, ◌≡◌, ◌≢◌, refl, sym, ap, ◌∙◌, inl, inr, String, true, false, Option, none, some, List, [], ◌∷◌,
  str_eq, if◌then◌else◌, arith, eq_iff, apart, Bool-cases,
}
use vmware_go_kcl_v2_test.Prelude.Outcome.{returns, ◌>>=◌}
use vmware_go_kcl_v2_test.Metrics.Float.{Float64}
use vmware_go_kcl_v2_test.Metrics.PrometheusClient.{
  PrometheusApi, IsPrometheus, counter_add, counter_inc, gauge_set, gauge_inc, gauge_dec,
  histogram_observe, MetricVec, MetricCall, Fits, Labels, labels_match,
}
use vmware_go_kcl_v2_test.Metrics.Prometheus.{
  PrometheusService, Measurement, init_prometheus, measure, measure_all, shard_labels, incr_records,
  incr_bytes, millis_behind, delete_millis_behind, gained, lost, renewed, get_time, process_time,
}

module _ (f : Float64) (api : PrometheusApi f) where
  -- The counter of a shard after a report, and after several, from the reports of its records.
  abbrev pub recorded : String → Measurement f api → f.Value → f.Value
  recorded shard (incr_records key n) v = if str_eq key shard then f.add v (f.of_count n) else v
  recorded shard m v = v

  abbrev pub records_after : String → List (Measurement f api) → f.Value → f.Value
  records_after shard [] v = v
  records_after shard (m ∷ ms) v = records_after shard ms (recorded shard m v)

  -- What the library has for a vector pointer.
  abbrev pub shown : Option MetricVec → Labels → api.State → f.Value
  shown none ls s = f.zero_value
  shown (some vec) ls s = api.value vec ls s

  module _ (call : ℕ) (app stream worker : String) (p : PrometheusService f) (s0 : api.State) where
    abbrev pub started : PrometheusService f
    started = (init_prometheus f api call app stream worker p s0).0

    abbrev pub counter : String → api.State → f.Value
    counter shard s = shown started.processed_records (shard_labels f shard started) s

    -- What one report does: it returns, with the counter of the shard.
    abbrev Measured : String → Measurement f api → api.State → Type 0
    Measured shard m s =
        (t : api.State) × (measure f api m started s ≡ returns t)
        × (counter shard t ≡ recorded shard m (counter shard s))

    module _ (is : IsPrometheus f api)
        (counts : (n : ℕ) → f.less (f.of_count n) f.zero_value ≡ false) where
      -- A call on another vector returns, and leaves the counter.
      other_vec :
          (shard : String) (vec : MetricVec) (ls : Labels) (c : MetricCall f) (s : api.State)
          → labels_match vec.label_names ls ≡ true
          → Fits f vec.kind c
          → vec.help ≢ "Number of records processed"
          → (t : api.State) × (api.call vec ls c s ≡ returns t)
            × (counter shard t ≡ counter shard s)
      unfolding init_prometheus
      other_vec shard vec ls c s named fits other =
          let (t, e) = is.takes vec ls c s named fits in
          (t, e, is.call_other_vec vec _ ls _ c s t (λ q. other (ap (λ v. v.help) q)) e)

      -- Records of one shard, on the counter of a shard.
      records_counted :
          (shard key : String) (n : ℕ) (s t : api.State)
          → measure f api (incr_records key n) started s ≡ returns t
          → counter shard t ≡ recorded shard (incr_records key n) (counter shard s)
      unfolding init_prometheus measure
      records_counted shard key n s t e = elim (Bool-cases (str_eq key shard)) [
        | inl same ↦
            let here : key ≡ shard = ground (arith, eq_iff key shard) in
            rw (same, sym here) (is.adds _ _ (f.of_count n) s t refl e)
        | inr other ↦
            rw other (
              is.call_other_labels _ _ _ _ "shard" s t (λ q. apart key shard other (ground arith))
                e)
      ]

      measure-Measured :
          (shard : String) (m : Measurement f api) (s : api.State) → Measured shard m s
      unfolding init_prometheus measure
      measure-Measured shard (incr_records key n) s =
          let (t, e) = is.takes _ _ _ s refl (counter_add (f.of_count n) (counts n)) in
          (t, e, records_counted shard key n s t e)
      measure-Measured shard (incr_bytes key n) s =
          other_vec shard _ _ _ s refl (counter_add (f.of_count n) (counts n)) (apart _ _ refl)
      measure-Measured shard (millis_behind key x) s =
          other_vec shard _ _ _ s refl (gauge_set x) (apart _ _ refl)
      measure-Measured shard (delete_millis_behind key) s =
          (_, refl, is.delete_other_vec _ _ _ _ s (λ q. apart _ _ refl (ap (λ v. v.help) q)))
      measure-Measured shard (gained key) s =
          other_vec shard _ _ _ s refl gauge_inc (apart _ _ refl)
      measure-Measured shard (lost key) s = other_vec shard _ _ _ s refl gauge_dec (apart _ _ refl)
      measure-Measured shard (renewed key) s =
          other_vec shard _ _ _ s refl counter_inc (apart _ _ refl)
      measure-Measured shard (get_time key x) s =
          other_vec shard _ _ _ s refl (histogram_observe x) (apart _ _ refl)
      measure-Measured shard (process_time key x) s =
          other_vec shard _ _ _ s refl (histogram_observe x) (apart _ _ refl)

      -- After Init, even one whose registration is refused, no report panics: every label map has exactly
      -- the labels of its vector. The counter of processed records of each shard then shows what it
      -- did before with the counts reported for the shard added in their order. (The client library
      -- is as documented, and no count is converted to a negative float64.)
      pub measure_all_lem :
          (shard : String) (ms : List (Measurement f api)) (s : api.State)
          → (t : api.State) × (measure_all f api ms started s ≡ returns t)
            × (counter shard t ≡ records_after shard ms (counter shard s))
      unfolding measure_all
      measure_all_lem shard [] s = (s, refl, refl)
      measure_all_lem shard (m ∷ ms) s =
          let (s', e, one) = measure-Measured shard m s in
          let (t, all, rest) = measure_all_lem shard ms s' in
          (
            t,
            ap (λ o. o >>= measure_all f api ms started) e ∙ all,
            rest ∙ ap (records_after shard ms) one,
          )
