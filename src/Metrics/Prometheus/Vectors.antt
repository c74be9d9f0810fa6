-- ===== src/Metrics/Prometheus/Vectors.antt =====
-- clientlibrary/metrics/prometheus/prometheus.go: the vectors that Init makes.
use Prim.Native.String.{◌++◌ as str_append}
use vmware_go_kcl_v2_test.Prelude.{ℕ, String, List, [], ◌∷◌}
use vmware_go_kcl_v2_test.Metrics.PrometheusClient.{
  counter_vec, gauge_vec, histogram_vec, MetricVec,
}

abbrev pub shard_label_names : List String
shard_label_names = "kinesisStream" ∷ "shard" ∷ []

abbrev pub worker_label_names : List String
worker_label_names = "kinesisStream" ∷ "shard" ∷ "workerID" ∷ []

-- The vectors that a call of Init makes.
abbrev pub bytes_vec : ℕ → String → MetricVec
bytes_vec call namespace = record {
  init_call = call;
  kind = counter_vec;
  name = str_append namespace "_processed_bytes";
  help = "Number of bytes processed";
  label_names = shard_label_names;
}

abbrev pub records_vec : ℕ → String → MetricVec
records_vec call namespace = record {
  init_call = call;
  kind = counter_vec;
  name = str_append namespace "_processed_records";
  help = "Number of records processed";
  label_names = shard_label_names;
}

abbrev pub behind_vec : ℕ → String → MetricVec
behind_vec call namespace = record {
  init_call = call;
  kind = gauge_vec;
  name = str_append namespace "_behind_latest_millis";
  help = "The amount of milliseconds processing is behind";
  label_names = shard_label_names;
}

abbrev pub held_vec : ℕ → String → MetricVec
held_vec call namespace = record {
  init_call = call;
  kind = gauge_vec;
  name = str_append namespace "_leases_held";
  help = "The number of leases held by the worker";
  label_names = worker_label_names;
}

abbrev pub renewals_vec : ℕ → String → MetricVec
renewals_vec call namespace = record {
  init_call = call;
  kind = counter_vec;
  name = str_append namespace "_lease_renewals";
  help = "The number of successful lease renewals";
  label_names = worker_label_names;
}

abbrev pub get_time_vec : ℕ → String → MetricVec
get_time_vec call namespace = record {
  init_call = call;
  kind = histogram_vec;
  name = str_append namespace "_get_records_duration_milliseconds";
  help = "The time taken to fetch records and process them";
  label_names = shard_label_names;
}

abbrev pub process_time_vec : ℕ → String → MetricVec
process_time_vec call namespace = record {
  init_call = call;
  kind = histogram_vec;
  name = str_append namespace "_process_records_duration_milliseconds";
  help = "The time taken to process records";
  label_names = shard_label_names;
}

-- The order of their registration, the first and the others.
abbrev pub other_collectors : ℕ → String → List MetricVec
other_collectors call namespace =
    records_vec call namespace
    ∷ behind_vec call namespace
    ∷ held_vec call namespace
    ∷ renewals_vec call namespace
    ∷ get_time_vec call namespace
    ∷ process_time_vec call namespace
    ∷ []

abbrev pub collectors : ℕ → String → List MetricVec
collectors call namespace = bytes_vec call namespace ∷ other_collectors call namespace
