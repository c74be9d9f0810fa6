-- ===== src/Worker/Lifecycle/Restarts.antt =====
-- clientlibrary/worker/worker.go: what Shutdown does to a worker that was started again.
use vmware_go_kcl_v2_test.Prelude.{
  ℕ, zero, suc, ◌+◌, ◌≡◌, refl, sym, ap, ◌∙◌, subst, String, Bool, true, false, ◌||◌, Option, none,
  some, List, [], ◌∷◌, if◌then◌else◌,
}
use vmware_go_kcl_v2_test.Prelude.Outcome.{
  returns, ◌>>=◌, >>=-eq-returns, open_channel, closed_channel,
}
use vmware_go_kcl_v2_test.Config.{KinesisClientLibConfiguration}
use vmware_go_kcl_v2_test.Checkpoint.{Error, Reply, ok, failed}
use vmware_go_kcl_v2_test.Checkpoint.Checkpointer.{Checkpointer}
use vmware_go_kcl_v2_test.Kinesis.{KinesisApi}
use vmware_go_kcl_v2_test.Metrics.Float.{Float64}
use vmware_go_kcl_v2_test.Metrics.Service.{MonitoringService}
use vmware_go_kcl_v2_test.Worker.Lifecycle.{
  Worker, is_nil, kinesis_client, checkpointer_of, consumer_arn_of, checkpointer_ready,
  initialize_services, arn_fetched, initialize, start_services, start_worker, shutdown_worker, Call,
  shuts_down, call, call_all,
}

module _ {f : Float64} (c : Checkpointer) (k : KinesisApi) (m : MonitoringService f)
    (cfg : KinesisClientLibConfiguration) where
  -- A worker that is done has Shutdown do nothing, however often it is called.
  abbrev pub shutdowns : ℕ → List (Call c k m)
  shutdowns zero = []
  shutdowns (suc n) = shuts_down ∷ shutdowns n

  if_either {ℓ} : {A : Type ℓ} (b b' : Bool) (x y : A) → b ≡ true → (if b || b' then x else y) ≡ x
  if_either true b' x y h = refl
  if_either false b' x y h = absurd (cc)

  done_stays :
      (n : ℕ) (w : Worker c k m) → w.done ≡ true → call_all c k m cfg (shutdowns n) w ≡ returns w
  unfolding call_all call shutdown_worker
  done_stays zero w d = refl
  done_stays (suc n) w d =
      let idle : shutdown_worker c k m w ≡ returns w = if_either w.done (is_nil w.stop) _ _ d in
      rw (idle, ◌>>=◌) (done_stays n w d)

  returned_same : {A : Type 0} (v w : A) → returns v ≡ returns w → v ≡ w
  returned_same v w h = cc

  shutdown_worker-done :
      (w w1 : Worker c k m)
      → w.stop ≡ open_channel
      → w.done ≡ false
      → shutdown_worker c k m w ≡ returns w1
      → w1.done ≡ true
  unfolding shutdown_worker
  shutdown_worker-done w w1 s d e =
      let closes : shutdown_worker c k m w
          ≡ returns (record w {
            stop = closed_channel;
            done = true;
            wait_group = 0;
            m_service = m.shutdown w.m_service;
          }) =
        rw (d, s) refl in
      ap (λ x. x.done) (sym (returned_same _ w1 (sym closes ∙ e)))

  -- A worker that has just been initialised.
  abbrev Fresh : Bool → Worker c k m → Type 0
  Fresh done w = (w.done ≡ done) × (w.stop ≡ open_channel) × (w.wait_group ≡ 0)

  checkpointer_ready-Fresh :
      (e : Option Error) (w : Worker c k m)
      → (checkpointer_ready c k m e w).1 ≡ none
      → Fresh w.done (checkpointer_ready c k m e w).0
  checkpointer_ready-Fresh none w h = (refl, refl, refl)
  checkpointer_ready-Fresh (some e) w h = absurd (cc)

  arn_fetched-Fresh :
      (checker : c.State) (r : k.State × Reply String) (w : Worker c k m)
      → (arn_fetched c k m cfg checker r w).1 ≡ none
      → Fresh w.done (arn_fetched c k m cfg checker r w).0
  unfolding initialize_services
  arn_fetched-Fresh checker (ks, failed e) w h = absurd (cc)
  arn_fetched-Fresh checker (ks, ok arn) w h = checkpointer_ready-Fresh (c.init checker).1 _ h

  -- One whose event loop runs.
  abbrev Running : Bool → Worker c k m → Type 0
  Running done w = (w.done ≡ done) × (w.stop ≡ open_channel) × (w.wait_group ≡ 1)

  service_started-Running :
      (ms : m.State) (e : Option Error) (done : Bool) (w : Worker c k m)
      → Fresh done w
      → let r = elim e as (λ x. Worker c k m × Option Error) [
        | some err ↦ (record w { m_service = ms }, some err)
        | none ↦ (record w { m_service = ms; wait_group = w.wait_group + 1 }, none)
      ] in
        r.1 ≡ none → Running done r.0
  service_started-Running ms none done w h e = (h.0, h.1, rw h.2 refl)
  service_started-Running ms (some err) done w h e = absurd (cc)

  start_services-Running :
      (done : Bool) (r : Worker c k m × Option Error)
      → (r.1 ≡ none → Fresh done r.0)
      → (start_services c k m r).1 ≡ none
      → Running done (start_services c k m r).0
  unfolding start_services
  start_services-Running done (w, some e) h success = absurd (cc)
  start_services-Running done (w, none) h success =
      let (ms, e) = m.start w.m_service in service_started-Running ms e done w (h refl) success

  start_worker-Running :
      (loaded : Option k.State) (fresh : c.State) (w w' : Worker c k m)
      → start_worker c k m cfg loaded fresh w ≡ returns (w', none)
      → Running w.done w'
  unfolding start_worker initialize
  start_worker-Running loaded fresh w w' h =
      let (r, initialized, e) = >>=-eq-returns (initialize c k m cfg loaded fresh w) _ h in
      let (svc, _, e') = >>=-eq-returns (kinesis_client c k m loaded w.kc) _ initialized in
      let checker = checkpointer_of c k m fresh w.checkpointer in
      let arn = consumer_arn_of c k m cfg w svc in
      let ready : arn_fetched c k m cfg checker arn w ≡ r = returned_same _ r e' in
      let done : start_services c k m r ≡ (w', none) = returned_same _ (w', none) e in
      let fresh_worker : (r.1 ≡ none) → Fresh w.done r.0 =
        subst (λ x. (x.1 ≡ none) → Fresh w.done x.0) ready (arn_fetched-Fresh checker arn w) in
      subst (λ x. Running w.done x.0) done
        (start_services-Running w.done r fresh_worker (ap (λ x. x.1) done))

  -- A worker that is shut down and then started again runs on: no number of calls of Shutdown
  -- changes it, so its stop channel stays open and its event loop is waited for by nobody.
  pub restarted_worker_runs_on :
      (w w1 w2 : Worker c k m) (loaded : Option k.State) (fresh : c.State) (n : ℕ)
      → w.stop ≡ open_channel
      → w.done ≡ false
      → shutdown_worker c k m w ≡ returns w1
      → start_worker c k m cfg loaded fresh w1 ≡ returns (w2, none)
      → (call_all c k m cfg (shutdowns n) w2 ≡ returns w2)
        × (w2.stop ≡ open_channel)
        × (w2.wait_group ≡ 1)
  restarted_worker_runs_on w w1 w2 loaded fresh n s d stopped started =
      let done = shutdown_worker-done w w1 s d stopped in
      let (same, opened, waited) = start_worker-Running loaded fresh w1 w2 started in
      (done_stays n w2 (same ∙ done), opened, waited)
