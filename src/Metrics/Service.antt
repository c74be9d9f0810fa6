-- ===== src/Metrics/Service.antt =====
-- clientlibrary/metrics/interfaces.go: what a worker and its consumers report to, and the service
-- that does nothing. The operations return here; Start of the Prometheus service may panic (see
-- Prometheus), which ends the process.
use vmware_go_kcl_v2_test.Prelude.{ℕ, String, Option, none}
use vmware_go_kcl_v2_test.Checkpoint.{Error}
use vmware_go_kcl_v2_test.Metrics.Float.{Float64}

pub record MonitoringService (f : Float64) : Type 1 where
  pub State : Type 0
  pub init : (app_name stream_name worker_id : String) → State → State × Option Error
  pub start : State → State × Option Error
  pub incr_records_processed : String → ℕ → State → State
  pub incr_bytes_processed : String → ℕ → State → State
  pub millis_behind_latest : String → f.Value → State → State
  pub delete_metric_millis_behind_latest : String → State → State
  pub lease_gained : String → State → State
  pub lease_lost : String → State → State
  pub lease_renewed : String → State → State
  pub record_get_records_time : String → f.Value → State → State
  pub record_process_records_time : String → f.Value → State → State
  pub shutdown : State → State

abbrev pub noop_monitoring_service : (f : Float64) → MonitoringService f
noop_monitoring_service f = record {
  State = Unit {0};
  init = λ app stream worker s. (s, none);
  start = λ s. (s, none);
  incr_records_processed = λ shard n s. s;
  incr_bytes_processed = λ shard n s. s;
  millis_behind_latest = λ shard v s. s;
  delete_metric_millis_behind_latest = λ shard s. s;
  lease_gained = λ shard s. s;
  lease_lost = λ shard s. s;
  lease_renewed = λ shard s. s;
  record_get_records_time = λ shard v s. s;
  record_process_records_time = λ shard v s. s;
  shutdown = λ s. s;
}
