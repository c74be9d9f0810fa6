-- ===== src/Tests/Prometheus.antt =====
-- The theorems on the Prometheus service at concrete reports.
use vmware_go_kcl_v2_test.Prelude.{
  ℕ, ◌+◌, ◌≡◌, refl, ap, ◌∙◌, String, Bool, true, false, Option, none, some, List, [], ◌∷◌, str_eq,
  arith, if◌then◌else◌, ltb, ◌||◌, eq_refl, Bool-cases, inl, inr, ◌≢◌, apart, eq_iff, ◌-◌,
}
use native.Mathlib.Decide.{ℕ_discrete}
use vmware_go_kcl_v2_test.Prelude.Outcome.{Outcome, returns, panics}
use vmware_go_kcl_v2_test.Checkpoint.{Error, service_error}
use vmware_go_kcl_v2_test.Metrics.PrometheusClient.{
  VecKind, MetricVec, label, set_value, observe_value, inc, dec, MetricCall, Labels, PrometheusApi,
  IsPrometheus, add_value, labels_match,
}
use vmware_go_kcl_v2_test.Metrics.Prometheus.{
  PrometheusService, Measurement, init_prometheus, measure_all, worker_labels, incr_records,
  incr_bytes, gained, delete_millis_behind, new_prometheus_service, start_prometheus,
}
use vmware_go_kcl_v2_test.Metrics.Prometheus.Vectors.{held_vec}
use vmware_go_kcl_v2_test.Metrics.Prometheus.Counts.{counter, measure_all_lem, started}
use vmware_go_kcl_v2_test.Metrics.Prometheus.Registration.{IsRegistry, second_service_fails}
use vmware_go_kcl_v2_test.Tests.Metrics.{naturals}

String-discrete : Discrete String
String-discrete s t = elim (Bool-cases (str_eq s t)) [
  | inl same ↦ yes (ground (arith, eq_iff s t))
  | inr other ↦ no (apart s t other)
]

VecKind-discrete : Discrete VecKind
VecKind-discrete = hlevel

MetricVec-discrete : Discrete MetricVec
MetricVec-discrete = hlevel (ℕ_discrete, String-discrete, VecKind-discrete)

Key-discrete : Discrete (MetricVec × Labels)
Key-discrete = hlevel (MetricVec-discrete, String-discrete)

-- A registry and the values of the metrics in memory.
pub record Store : Type 0 where
  pub names : List String
  pub values : MetricVec × Labels → ℕ

abbrev is_name : String → List String → Bool
is_name name [] = false
is_name name (x ∷ xs) = str_eq x name || is_name name xs

-- Whether a name is taken decides.
abbrev register_if : Bool → MetricVec → Store → Store × Option Error
register_if true v s =
    (s, some (service_error "duplicate metrics collector registration attempted"))
register_if false v s = (record s { names = v.name ∷ s.names }, none)

abbrev register_name : MetricVec → Store → Store × Option Error
register_name v s = register_if (is_name v.name s.names) v s

abbrev changed : MetricCall naturals → ℕ → ℕ
changed (add_value v) n = n + v
changed (set_value v) n = v
changed (observe_value v) n = n + 1
changed inc n = n + 1
changed dec n = n - 1

abbrev choose : {A : Type 0} → Dec A → ℕ → ℕ → ℕ
choose (yes a) x y = x
choose (no b) x y = y

abbrev put : MetricVec → Labels → (ℕ → ℕ) → Store → Store
put vec ls g s = record s {
  values = λ key. choose (Key-discrete (vec, ls) key) (g (s.values key)) (s.values key);
}

abbrev call_method : MetricVec → Labels → MetricCall naturals → Store → Outcome Store
call_method vec ls c s =
    if labels_match vec.label_names ls
    then returns (put vec ls (changed c) s)
    else panics "inconsistent label cardinality"

abbrev memory : PrometheusApi naturals
memory = record {
  State = Store;
  register = register_name;
  call = call_method;
  delete = λ vec ls s. put vec ls (λ n. 0) s;
  value = λ vec ls s. s.values (vec, ls);
}

choose_yes : {A : Type 0} (d : Dec A) (x y : ℕ) → A → choose d x y ≡ x
choose_yes (yes a) x y h = refl
choose_yes (no b) x y h = absurd (b h)

choose_no : {A : Type 0} (d : Dec A) (x y : ℕ) → ¬ A → choose d x y ≡ y
choose_no (yes a) x y h = absurd (h a)
choose_no (no b) x y h = refl

put_here :
    (vec : MetricVec) (ls : Labels) (g : ℕ → ℕ) (s : Store)
    → (put vec ls g s).values (vec, ls) ≡ g (s.values (vec, ls))
put_here vec ls g s = choose_yes (Key-discrete (vec, ls) (vec, ls)) _ _ refl

put_there :
    (vec : MetricVec) (ls : Labels) (g : ℕ → ℕ) (key : MetricVec × Labels) (s : Store)
    → (vec, ls) ≢ key
    → (put vec ls g s).values key ≡ s.values key
put_there vec ls g key s h = choose_no (Key-discrete (vec, ls) key) _ _ h

if_returns :
    (b : Bool) (s t : Store) (why : String)
    → (if b then returns s else panics why) ≡ returns t
    → t ≡ s
if_returns true s t why e = cc
if_returns false s t why e = cc

called :
    (vec : MetricVec) (ls : Labels) (c : MetricCall naturals) (s t : Store)
    → call_method vec ls c s ≡ returns t
    → t ≡ put vec ls (changed c) s
called vec ls c s t = if_returns (labels_match vec.label_names ls) _ t _

memory-IsPrometheus : IsPrometheus naturals memory
memory-IsPrometheus = record {
  takes = λ vec ls c s match fits. (put vec ls (changed c) s, rw match refl);
  adds = λ vec ls v s t kind e.
      ap (λ u. u.values (vec, ls)) (called vec ls (add_value v) s t e)
      ∙ put_here vec ls (changed (add_value v)) s;
  call_other_vec = λ vec other ls at c s t h e.
      ap (λ u. u.values (other, at)) (called vec ls c s t e)
      ∙ put_there vec ls (changed c) (other, at) s (λ q. h (ap (λ k. k.0) q));
  call_other_labels = λ vec ls at c name s t h e.
      ap (λ u. u.values (vec, at)) (called vec ls c s t e)
      ∙ put_there vec ls (changed c) (vec, at) s (λ q. h (ap (λ k. label name k.1) q));
  delete_other_vec =
      λ vec other ls at s h. put_there vec ls (λ n. 0) (other, at) s (λ q. h (ap (λ k. k.0) q));
}

register_adds :
    (b : Bool) (v : MetricVec) (s : Store)
    → (register_if b v s).1 ≡ none
    → is_name v.name (register_if b v s).0.names ≡ true
register_adds true v s h = cc
register_adds false v s h = rw (eq_refl v.name) refl

register_keeps :
    (b : Bool) (v : MetricVec) (name : String) (s : Store)
    → is_name name s.names ≡ true
    → is_name name (register_if b v s).0.names ≡ true
register_keeps true v name s h = h
register_keeps false v name s h = ground arith

register_refuses :
    (b : Bool) (v : MetricVec) (s : Store)
    → b ≡ true
    → (err : Error) × ((register_if b v s).1 ≡ some err)
register_refuses true v s h = (_, refl)
register_refuses false v s h = cc

memory-IsRegistry : IsRegistry naturals memory
memory-IsRegistry = record {
  registered = λ s name. is_name name s.names ≡ true;
  adds = λ v s. register_adds (is_name v.name s.names) v s;
  refuses = λ v s h. register_refuses (is_name v.name s.names) v s h;
  register_keeps = λ v name s. register_keeps (is_name v.name s.names) v name s;
  call_keeps = λ v ls c name s t e h. ap (λ u. is_name name u.names) (called v ls c s t e) ∙ h;
  delete_keeps = λ v ls name s h. h;
}

abbrev empty_store : Store
empty_store = record { names = []; values = λ key. 0 }

abbrev service : PrometheusService naturals
service = new_prometheus_service naturals ":8080" "us-west-2" none

abbrev reports : List (Measurement naturals memory)
reports =
    incr_records "shard" 3
    ∷ gained "shard"
    ∷ incr_records "other" 5
    ∷ incr_bytes "shard" 700
    ∷ delete_millis_behind "shard"
    ∷ incr_records "shard" 4
    ∷ []

abbrev running : PrometheusService naturals
running = started naturals memory 1 "app" "stream" "worker" service empty_store

abbrev shown_records : Store → ℕ
shown_records = counter naturals memory 1 "app" "stream" "worker" service empty_store "shard"

counts : (n : ℕ) → ltb n 0 ≡ false
counts n = ground arith

measure_all_lem_example :
    (t : Store) × (measure_all naturals memory reports running empty_store ≡ returns t)
    × (shown_records t ≡ 7)
unfolding init_prometheus
measure_all_lem_example =
    measure_all_lem naturals memory 1 "app" "stream" "worker" service empty_store
      memory-IsPrometheus counts "shard" reports empty_store

-- The names of the vectors are taken.
abbrev after_init : Store
after_init = (init_prometheus naturals memory 1 "app" "stream" "worker" service empty_store).1

abbrev gained_shard : List (Measurement naturals memory)
gained_shard = gained "shard" ∷ []

abbrev held_vec_put : Store
held_vec_put =
    put (held_vec 1 "app") (worker_labels naturals "shard" running) (changed inc) after_init

second_service_fails_example :
    ((err : Error) × ((init_prometheus naturals memory 2 "app" "stream" "worker" running
          held_vec_put).2
        ≡ some err))
    × ((why : String) × (start_prometheus ("/metrics" ∷ []) ≡ panics why))
unfolding init_prometheus measure_all start_prometheus
second_service_fails_example =
    second_service_fails naturals memory memory-IsRegistry 1 2 "app" "stream" "stream" "worker"
      "worker" service running gained_shard empty_store held_vec_put [] ("/metrics" ∷ []) refl refl
      refl
