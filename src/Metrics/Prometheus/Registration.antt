-- ===== src/Metrics/Prometheus/Registration.antt =====
-- clientlibrary/metrics/prometheus/prometheus.go: Init registers its vectors with the one registry
-- of the process.
use vmware_go_kcl_v2_test.Prelude.{
  Bool, true, false, if◌then◌else◌, ℕ, ◌≡◌, refl, ap, subst, String, Option, none, some, List, [],
  ◌∷◌,
}
use vmware_go_kcl_v2_test.Prelude.Outcome.{returns, panics, >>=-eq-returns}
use vmware_go_kcl_v2_test.Checkpoint.{Error}
use vmware_go_kcl_v2_test.Metrics.Float.{Float64}
use vmware_go_kcl_v2_test.Metrics.PrometheusClient.{MetricVec, MetricCall, Labels, PrometheusApi}
use vmware_go_kcl_v2_test.Metrics.Prometheus.{
  start_prometheus, is_handled, PrometheusService, Measurement, init_prometheus,
  register_collectors, after_register, measure, measure_all, call_vec, delete_from, incr_records,
  incr_bytes, millis_behind, delete_millis_behind, gained, lost, renewed, get_time, process_time,
}
use vmware_go_kcl_v2_test.Metrics.Prometheus.Vectors.{bytes_vec, other_collectors}

not_panicked :
    (b : Bool) (xs ys : List String) (why : String)
    → (if b then panics why else returns xs) ≡ returns ys
    → ys ≡ xs
not_panicked true xs ys why e = cc
not_panicked false xs ys why e = cc

second_start :
    (mux mux' : List String)
    → start_prometheus mux ≡ returns mux'
    → (why : String) × (start_prometheus mux' ≡ panics why)
unfolding start_prometheus
second_start mux mux' e =
    let served : mux' ≡ "/metrics" ∷ mux =
      not_panicked (is_handled "/metrics" mux) ("/metrics" ∷ mux) mux' _ e in
    (_, ap start_prometheus served)

module _ (f : Float64) (api : PrometheusApi f) where
  -- What the library documents of the registry: a collector that was taken stays, and another of
  -- its name is refused.
  pub record IsRegistry : Type 1 where
    pub registered : api.State → String → Type 0
    pub adds :
        (v : MetricVec) (s : api.State)
        → (api.register v s).1 ≡ none
        → registered (api.register v s).0 v.name
    pub refuses :
        (v : MetricVec) (s : api.State)
        → registered s v.name
        → (err : Error) × ((api.register v s).1 ≡ some err)
    pub register_keeps :
        (v : MetricVec) (name : String) (s : api.State)
        → registered s name
        → registered (api.register v s).0 name
    pub call_keeps :
        (v : MetricVec) (ls : Labels) (c : MetricCall f) (name : String) (s t : api.State)
        → api.call v ls c s ≡ returns t
        → registered s name
        → registered t name
    pub delete_keeps :
        (v : MetricVec) (ls : Labels) (name : String) (s : api.State)
        → registered s name
        → registered (api.delete v ls s) name

  after_register-Keeps :
      (is : IsRegistry) (name : String) (o : Option Error) (s : api.State)
      (rest : api.State × Option Error)
      → is.registered s name
      → is.registered rest.0 name
      → is.registered (after_register f api o s rest).0 name
  after_register-Keeps is name none s rest here there = there
  after_register-Keeps is name (some err) s rest here there = here

  module _ (is : IsRegistry) (name : String) where
    register_collectors_keeps :
        (vs : List MetricVec) (s : api.State)
        → is.registered s name
        → is.registered (register_collectors f api vs s).0 name
    unfolding register_collectors
    register_collectors_keeps [] s h = h
    register_collectors_keeps (v ∷ vs) s h =
        after_register-Keeps is name (api.register v s).1 (api.register v s).0 _
          (is.register_keeps v name s h)
          (register_collectors_keeps vs _ (is.register_keeps v name s h))

    call_vec_keeps :
        (o : Option MetricVec) (ls : Labels) (c : MetricCall f) (s t : api.State)
        → call_vec f api o ls c s ≡ returns t
        → is.registered s name
        → is.registered t name
    call_vec_keeps none ls c s t e h = cc
    call_vec_keeps (some v) ls c s t e h = is.call_keeps v ls c name s t e h

    delete_from_keeps :
        (o : Option MetricVec) (ls : Labels) (s t : api.State)
        → delete_from f api o ls s ≡ returns t
        → is.registered s name
        → is.registered t name
    delete_from_keeps none ls s t e h = cc
    delete_from_keeps (some v) ls s t e h =
        subst (λ u. is.registered u name) (cc) (is.delete_keeps v ls name s h)

    measure_keeps :
        (m : Measurement f api) (p : PrometheusService f) (s t : api.State)
        → measure f api m p s ≡ returns t
        → is.registered s name
        → is.registered t name
    unfolding measure
    measure_keeps (incr_records key n) p s t = call_vec_keeps _ _ _ s t
    measure_keeps (incr_bytes key n) p s t = call_vec_keeps _ _ _ s t
    measure_keeps (millis_behind key x) p s t = call_vec_keeps _ _ _ s t
    measure_keeps (delete_millis_behind key) p s t = delete_from_keeps _ _ s t
    measure_keeps (gained key) p s t = call_vec_keeps _ _ _ s t
    measure_keeps (lost key) p s t = call_vec_keeps _ _ _ s t
    measure_keeps (renewed key) p s t = call_vec_keeps _ _ _ s t
    measure_keeps (get_time key x) p s t = call_vec_keeps _ _ _ s t
    measure_keeps (process_time key x) p s t = call_vec_keeps _ _ _ s t

    measure_all_keeps :
        (ms : List (Measurement f api)) (p : PrometheusService f) (s t : api.State)
        → measure_all f api ms p s ≡ returns t
        → is.registered s name
        → is.registered t name
    unfolding measure_all
    measure_all_keeps [] p s t e h = subst (λ u. is.registered u name) (cc) h
    measure_all_keeps (m ∷ ms) p s t e h =
        let (u, one, rest) = >>=-eq-returns (measure f api m p s) (measure_all f api ms p) e in
        measure_all_keeps ms p u t rest (measure_keeps m p s u one h)

  after_register-none :
      (o : Option Error) (s : api.State) (rest : api.State × Option Error)
      → (after_register f api o s rest).1 ≡ none
      → o ≡ none
  after_register-none none s rest h = refl
  after_register-none (some err) s rest h = cc

  register_collectors_adds :
      (is : IsRegistry) (v : MetricVec) (vs : List MetricVec) (s : api.State)
      → (register_collectors f api (v ∷ vs) s).1 ≡ none
      → is.registered (register_collectors f api (v ∷ vs) s).0 v.name
  unfolding register_collectors
  register_collectors_adds is v vs s e =
      let here = is.adds v s (after_register-none _ _ _ e) in
      after_register-Keeps is v.name _ _ _ here (register_collectors_keeps is v.name vs _ here)

  register_collectors_refuses :
      (is : IsRegistry) (v : MetricVec) (vs : List MetricVec) (s : api.State)
      → is.registered s v.name
      → (err : Error) × ((register_collectors f api (v ∷ vs) s).1 ≡ some err)
  unfolding register_collectors
  register_collectors_refuses is v vs s h =
      let (err, e) = is.refuses v s h in
      let rest = register_collectors f api vs (api.register v s).0 in
      (err, ap (λ o. (after_register f api o (api.register v s).0 rest).1) e)

  -- A process has one Prometheus service for an application: after an Init without an error, any
  -- reports to that service, and a Start that returns, another Init with the same application name
  -- fails, and another Start panics. This is so for the same service, of a worker that is started
  -- again, and for a new one. (The registry is as documented.)
  pub second_service_fails :
      (is : IsRegistry) (call again : ℕ) (app stream stream' worker worker' : String)
      (p p' : PrometheusService f) (ms : List (Measurement f api)) (s t : api.State)
      (mux mux' : List String)
      → let (q, u, e) = init_prometheus f api call app stream worker p s in
        (e ≡ none)
        → measure_all f api ms q u ≡ returns t
        → start_prometheus mux ≡ returns mux'
        → ((err : Error) × ((init_prometheus f api again app stream' worker' p' t).2 ≡ some err))
          × ((why : String) × (start_prometheus mux' ≡ panics why))
  unfolding init_prometheus
  second_service_fails is call again app stream stream' worker worker' p p' ms s t mux mux' done
        reports served =
      (
        register_collectors_refuses is (bytes_vec again app) (other_collectors again app) t (
            measure_all_keeps is _ ms _ _ t reports (
              register_collectors_adds is (bytes_vec call app) (other_collectors call app) s done)),
        second_start mux mux' served,
      )
