-- ===== src/Tests/Metrics.antt =====
-- The theorems on the metrics at concrete reports.
use vmware_go_kcl_v2_test.Prelude.{
  ℕ, ◌+◌, ◌≡◌, ◌⊎◌, refl, String, Bool, none, some, List, [], ◌∷◌, ◌++◌, ltb, arith,
}
use vmware_go_kcl_v2_test.Prelude.Int.{pos}
use vmware_go_kcl_v2_test.Partition.{Time}
use vmware_go_kcl_v2_test.Checkpoint.{Error}
use vmware_go_kcl_v2_test.Metrics.Float.{Float64, IsExact, IsOrdered}
use vmware_go_kcl_v2_test.Metrics.CloudWatch.{
  CloudWatchService, init_monitoring, new_monitoring_service, records_processed, renewed,
}
use vmware_go_kcl_v2_test.Metrics.CloudWatch.Flush.{
  MetricDatum, StatisticSet, CloudWatchApi, FlushRound, eventloop, statistics, milliseconds,
}
use vmware_go_kcl_v2_test.Metrics.CloudWatch.Flush.Pending.{records}
use vmware_go_kcl_v2_test.Metrics.CloudWatch.Flush.Totals.{Keeps, total, eventloop-total}
use vmware_go_kcl_v2_test.Metrics.CloudWatch.Flush.Statistics.{Summarises, statistics-Summarises}

-- Numbers in the place of float64, and a service that takes every call.
abbrev pub naturals : Float64
naturals = record {
  Value = ℕ;
  zero_value = 0;
  of_int = λ n. n;
  of_count = λ n. n;
  add = λ a b. a + b;
  less = ltb;
}

abbrev naturals-IsExact : IsExact naturals
naturals-IsExact = record { to_int = λ n. n; exact = λ n h. refl }

ltb_trans : (a b c : ℕ) → ltb a b ≡ Bool.false → ltb b c ≡ Bool.false → ltb a c ≡ Bool.false
ltb_trans a b c h k = ground arith

ltb_irrefl : (a : ℕ) → ltb a a ≡ Bool.false
ltb_irrefl a = ground arith

ltb_asym : (a b : ℕ) → ltb a b ≡ Bool.true → ltb b a ≡ Bool.false
ltb_asym a b h = ground arith

abbrev naturals-IsOrdered : IsOrdered naturals
naturals-IsOrdered = record {
  irreflexive = ltb_irrefl;
  transitive = ltb_trans;
  asymmetric = ltb_asym;
}

abbrev collecting : CloudWatchApi naturals
collecting = record {
  State = List (MetricDatum naturals);
  put_metric_data = λ n d s. (s ++ d, none);
}

never_fails : {A : Type 0} (e : Error) → none ≡ some e → A
never_fails e h = absurd (cc)

abbrev collecting-Keeps : Keeps naturals collecting
collecting-Keeps = record {
  accepted = λ s. s;
  accepts = λ n d s h. refl;
  refuses = λ n d s e h. never_fails e h;
}

abbrev service : CloudWatchService naturals
service =
    init_monitoring naturals "app" "stream" "ann"
      (new_monitoring_service naturals none "us-west-2" none)

abbrev at_nine : String → Time
at_nine shard = pos 9

-- Ann processes records in two rounds, and is stopped in the second.
abbrev rounds : List (FlushRound naturals collecting)
rounds =
    record {
      now = at_nine;
      meanwhile = records_processed "shard" 3 ∷ renewed "shard" ∷ [];
      stopped = none;
    }
    ∷ record { now = at_nine; meanwhile = records_processed "shard" 4 ∷ []; stopped = some at_nine }
    ∷ []

eventloop-total_example :
    total naturals naturals-IsExact collecting collecting-Keeps records "shard"
      (eventloop naturals collecting rounds service []).0
      (eventloop naturals collecting rounds service []).1.shard_metrics
    ≡ 7
unfolding init_monitoring
eventloop-total_example =
    eventloop-total naturals naturals-IsExact collecting collecting-Keeps records "shard" rounds
      service [] (omega arith)

abbrev samples : List ℕ
samples = 5 ∷ 2 ∷ []

statistics-Summarises_example :
    ((samples ≡ []) × (statistics naturals [] "MillisBehindLatest" (pos 9) samples ≡ []))
    ⊎ ((st : StatisticSet naturals) × Summarises naturals naturals-IsOrdered st samples
        × (statistics naturals [] "MillisBehindLatest" (pos 9) samples
            ≡ record {
              dimensions = [];
              metric_name = "MillisBehindLatest";
              unit = milliseconds;
              timestamp = pos 9;
              value = none;
              statistic_values = some st;
            }
              ∷ []))
statistics-Summarises_example =
    statistics-Summarises naturals naturals-IsOrdered [] "MillisBehindLatest" (pos 9) samples
