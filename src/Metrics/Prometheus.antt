-- ===== src/Metrics/Prometheus.antt =====
-- clientlibrary/metrics/prometheus/prometheus.go: the service that keeps the metrics of each shard
-- in vectors of the Prometheus client library.
pub mod Vectors
pub mod Counts
pub mod Registration
use Prim.Native.String.{◌++◌ as str_append}
use vmware_go_kcl_v2_test.Prelude.{
  ℕ, ◌≡◌, ◌≢◌, String, Bool, true, false, ◌&&◌, ◌||◌, Option, none, some, List, [], ◌∷◌, ◌==◌,
  str_eq, length, if◌then◌else◌,
}
use vmware_go_kcl_v2_test.Prelude.Outcome.{Outcome, returns, panics, ◌>>=◌}
use vmware_go_kcl_v2_test.Checkpoint.{Error}
use vmware_go_kcl_v2_test.Metrics.Float.{Float64}
use vmware_go_kcl_v2_test.Metrics.PrometheusClient.{
  VecKind, counter_vec, gauge_vec, histogram_vec, MetricVec, Labels, label, is_given, has_labels,
  labels_match, MetricCall, add_value, set_value, observe_value, inc, dec, PrometheusApi, Fits,
  counter_add, counter_inc, gauge_set, gauge_inc, gauge_dec, histogram_observe, IsPrometheus,
}
use vmware_go_kcl_v2_test.Metrics.Prometheus.Vectors.{
  shard_label_names, worker_label_names, bytes_vec, records_vec, behind_vec, held_vec, renewals_vec,
  get_time_vec, process_time_vec, other_collectors, collectors,
}

-- Whether a pattern has a handler.
abbrev pub is_handled : String → List String → Bool
is_handled pattern [] = false
is_handled pattern (x ∷ xs) = str_eq x pattern || is_handled pattern xs

-- http.Handle, on the patterns of the default mux of the process.
abbrev pub handle : String → List String → Outcome (List String)
handle pattern mux =
    if is_handled pattern mux
    then panics "http: multiple registrations"
    else returns (pattern ∷ mux)

-- Start returns no error. The listener is started after it; Shutdown does nothing.
unfoldable pub start_prometheus : List String → Outcome (List String)
start_prometheus mux = handle "/metrics" mux

module _ (f : Float64) where
  -- prometheus.MonitoringService. The logger is an interface value.
  pub record PrometheusService : Type 0 where
    pub listen_address : String
    pub namespace : String
    pub stream_name : String
    pub worker_id : String
    pub region : String
    pub logger : Option ℕ
    pub processed_records : Option MetricVec
    pub processed_bytes : Option MetricVec
    pub behind_latest_millis : Option MetricVec
    pub leases_held : Option MetricVec
    pub lease_renewals : Option MetricVec
    pub get_records_time : Option MetricVec
    pub process_records_time : Option MetricVec

  unfoldable pub new_prometheus_service : String → String → Option ℕ → PrometheusService
  new_prometheus_service listen_address region logger = record {
    listen_address = listen_address;
    namespace = "";
    stream_name = "";
    worker_id = "";
    region = region;
    logger = logger;
    processed_records = none;
    processed_bytes = none;
    behind_latest_millis = none;
    leases_held = none;
    lease_renewals = none;
    get_records_time = none;
    process_records_time = none;
  }

  abbrev pub shard_labels : String → PrometheusService → Labels
  shard_labels shard p = ("shard", shard) ∷ ("kinesisStream", p.stream_name) ∷ []

  abbrev pub worker_labels : String → PrometheusService → Labels
  worker_labels shard p =
      ("shard", shard) ∷ ("kinesisStream", p.stream_name) ∷ ("workerID", p.worker_id) ∷ []

  module _ (api : PrometheusApi f) where
    -- What Init does after a call of Register.
    abbrev pub after_register :
        Option Error → api.State → api.State × Option Error → api.State × Option Error
    after_register (some err) s rest = (s, some err)
    after_register none s rest = rest

    -- Init stops at the first collector that is refused.
    unfoldable pub register_collectors : List MetricVec → api.State → api.State × Option Error
    register_collectors [] s = (s, none)
    register_collectors (metric ∷ metrics) s =
        let (s', err) = api.register metric s in
        after_register err s' (register_collectors metrics s')

    -- `call` counts the calls of Init.
    unfoldable pub init_prometheus :
        ℕ
        → String
        → String
        → String
        → PrometheusService
        → api.State
        → PrometheusService × api.State × Option Error
    unfolding register_collectors
    init_prometheus call app_name stream_name worker_id p s =
        let (s', err) = register_collectors (collectors call app_name) s in
        let p' = record p {
          namespace = app_name;
          stream_name = stream_name;
          worker_id = worker_id;
          processed_records = some (records_vec call app_name);
          processed_bytes = some (bytes_vec call app_name);
          behind_latest_millis = some (behind_vec call app_name);
          leases_held = some (held_vec call app_name);
          lease_renewals = some (renewals_vec call app_name);
          get_records_time = some (get_time_vec call app_name);
          process_records_time = some (process_time_vec call app_name);
        } in
        (p', s', err)

    -- A method of a vector pointer, which With and Delete dereference.
    abbrev pub call_vec : Option MetricVec → Labels → MetricCall f → api.State → Outcome api.State
    call_vec none ls c s = panics "invalid memory address or nil pointer dereference"
    call_vec (some vec) ls c s = api.call vec ls c s

    abbrev pub delete_from : Option MetricVec → Labels → api.State → Outcome api.State
    delete_from none ls s = panics "invalid memory address or nil pointer dereference"
    delete_from (some vec) ls s = returns (api.delete vec ls s)

    -- A call of one of the methods by which the worker and its consumers report.
    pub data Measurement : Type 0 where
      incr_records incr_bytes : String → ℕ → Measurement
      millis_behind get_time process_time : String → f.Value → Measurement
      delete_millis_behind gained lost renewed : String → Measurement

    unfoldable pub measure : Measurement → PrometheusService → api.State → Outcome api.State
    measure (incr_records shard count) p =
        call_vec p.processed_records (shard_labels shard p) (add_value (f.of_count count))
    measure (incr_bytes shard count) p =
        call_vec p.processed_bytes (shard_labels shard p) (add_value (f.of_count count))
    measure (millis_behind shard mill_seconds) p =
        call_vec p.behind_latest_millis (shard_labels shard p) (set_value mill_seconds)
    measure (delete_millis_behind shard) p =
        delete_from p.behind_latest_millis (shard_labels shard p)
    measure (gained shard) p = call_vec p.leases_held (worker_labels shard p) inc
    measure (lost shard) p = call_vec p.leases_held (worker_labels shard p) dec
    measure (renewed shard) p = call_vec p.lease_renewals (worker_labels shard p) inc
    measure (get_time shard time) p =
        call_vec p.get_records_time (shard_labels shard p) (observe_value time)
    measure (process_time shard time) p =
        call_vec p.process_records_time (shard_labels shard p) (observe_value time)

    unfoldable pub measure_all :
        List Measurement → PrometheusService → api.State → Outcome api.State
    unfolding measure
    measure_all [] p s = returns s
    measure_all (m ∷ ms) p s = do s' ← measure m p s; measure_all ms p s'
