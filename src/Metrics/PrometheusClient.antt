-- ===== src/Metrics/PrometheusClient.antt =====
-- github.com/prometheus/client_golang, as prometheus.go uses it: the vectors of metrics, and the
-- library's operations as a parameter with what is documented of them. A vector is known by what it
-- was made of and by the call of Init that made it.
use vmware_go_kcl_v2_test.Prelude.{
  ℕ, ◌≡◌, ◌≢◌, String, Bool, true, false, ◌&&◌, Option, none, some, List, [], ◌∷◌, ◌==◌, str_eq,
  length, if◌then◌else◌,
}
use vmware_go_kcl_v2_test.Prelude.Outcome.{Outcome, returns}
use vmware_go_kcl_v2_test.Checkpoint.{Error}
use vmware_go_kcl_v2_test.Metrics.Float.{Float64}

pub data VecKind : Type 0 where
  counter_vec gauge_vec histogram_vec : VecKind

pub record MetricVec : Type 0 where
  pub init_call : ℕ
  pub kind : VecKind
  pub name : String
  pub help : String
  pub label_names : List String

-- prom.Labels
abbrev pub Labels : Type 0
Labels = List (String × String)

abbrev pub label : String → Labels → Option String
label name [] = none
label name ((key, value) ∷ ls) =
    let rest = label name ls in if str_eq key name then some value else rest

abbrev pub is_given : Option String → Bool
is_given none = false
is_given (some value) = true

abbrev pub has_labels : List String → Labels → Bool
has_labels [] ls = true
has_labels (name ∷ names) ls = is_given (label name ls) && has_labels names ls

-- Labels that a vector takes: one for each of its names, and no other.
abbrev pub labels_match : List String → Labels → Bool
labels_match names ls = (length names == length ls) && has_labels names ls

module _ (f : Float64) where
  -- A call on the metric that a vector has for some labels.
  pub data MetricCall : Type 0 where
    add_value set_value observe_value : f.Value → MetricCall
    inc dec : MetricCall

  -- The Prometheus client library: `call` is With and a method of the metric.
  pub record PrometheusApi : Type 1 where
    pub State : Type 0
    pub register : MetricVec → State → State × Option Error
    pub call : MetricVec → Labels → MetricCall → State → Outcome State
    pub delete : MetricVec → Labels → State → State
    pub value : MetricVec → Labels → State → f.Value

  -- The calls that a kind of metric has. Add panics on a counter when the value is negative.
  pub data Fits : VecKind → MetricCall → Type 0 where
    counter_add : (v : f.Value) → f.less v f.zero_value ≡ false → Fits counter_vec (add_value v)
    counter_inc : Fits counter_vec inc
    gauge_set : (v : f.Value) → Fits gauge_vec (set_value v)
    gauge_inc : Fits gauge_vec inc
    gauge_dec : Fits gauge_vec dec
    histogram_observe : (v : f.Value) → Fits histogram_vec (observe_value v)

  -- What the library documents: With panics only on labels that are not those of the vector, Add on a counter
  -- adds, and a call changes the metric of its vector and of its labels only.
  pub record IsPrometheus (api : PrometheusApi) : Type 0 where
    pub takes :
        (vec : MetricVec) (ls : Labels) (c : MetricCall) (s : api.State)
        → labels_match vec.label_names ls ≡ true
        → Fits vec.kind c
        → (t : api.State) × (api.call vec ls c s ≡ returns t)
    pub adds :
        (vec : MetricVec) (ls : Labels) (v : f.Value) (s t : api.State)
        → vec.kind ≡ counter_vec
        → api.call vec ls (add_value v) s ≡ returns t
        → api.value vec ls t ≡ f.add (api.value vec ls s) v
    pub call_other_vec :
        (vec other : MetricVec) (ls at : Labels) (c : MetricCall) (s t : api.State)
        → vec ≢ other
        → api.call vec ls c s ≡ returns t
        → api.value other at t ≡ api.value other at s
    pub call_other_labels :
        (vec : MetricVec) (ls at : Labels) (c : MetricCall) (name : String) (s t : api.State)
        → label name ls ≢ label name at
        → api.call vec ls c s ≡ returns t
        → api.value vec at t ≡ api.value vec at s
    pub delete_other_vec :
        (vec other : MetricVec) (ls at : Labels) (s : api.State)
        → vec ≢ other
        → api.value other at (api.delete vec ls s) ≡ api.value other at s
