-- ===== src/Worker/Lifecycle/Calls.antt =====
-- clientlibrary/worker/worker.go: Start and Shutdown in any order.
use vmware_go_kcl_v2_test.Prelude.{
  ◌+◌, ◌≡◌, ◌⊎◌, inl, inr, refl, sym, ◌∙◌, String, Bool, true, false, Option, none, some, List, [],
  ◌∷◌, All,
}
use vmware_go_kcl_v2_test.Prelude.Outcome.{
  returns, Channel, no_channel, open_channel, closed_channel,
}
use vmware_go_kcl_v2_test.Config.{KinesisClientLibConfiguration}
use vmware_go_kcl_v2_test.Checkpoint.{Error, Reply, ok, failed}
use vmware_go_kcl_v2_test.Checkpoint.Checkpointer.{Checkpointer}
use vmware_go_kcl_v2_test.Kinesis.{KinesisApi}
use vmware_go_kcl_v2_test.Metrics.Float.{Float64}
use vmware_go_kcl_v2_test.Metrics.Service.{MonitoringService}
use vmware_go_kcl_v2_test.Worker.Lifecycle.{
  Worker, kinesis_client, checkpointer_of, consumer_arn_of, checkpointer_ready, initialize_services,
  arn_fetched, initialize, start_services, start_worker, shutdown_worker, Call, starts, shuts_down,
  call, call_all,
}

module _ {f : Float64} (c : Checkpointer) (k : KinesisApi) (m : MonitoringService f)
    (cfg : KinesisClientLibConfiguration) where
  -- A stop channel that has been closed is never closed again.
  abbrev pub IsOrderly : Worker c k m → Type 0
  IsOrderly w = (w.stop ≡ closed_channel) → (w.done ≡ true)

  -- From `w` to `w'` the flag is kept, and the stop channel too or it is a new one.
  abbrev Keeps : Worker c k m → Worker c k m → Type 0
  Keeps w w' = (w'.done ≡ w.done) × ((w'.stop ≡ w.stop) ⊎ (w'.stop ≡ open_channel))

  checkpointer_ready-Keeps :
      (e : Option Error) (w : Worker c k m) → Keeps w (checkpointer_ready c k m e w).0
  checkpointer_ready-Keeps none w = (refl, inr refl)
  checkpointer_ready-Keeps (some e) w = (refl, inl refl)

  arn_fetched-Keeps :
      (checker : c.State) (r : k.State × Reply String) (w : Worker c k m)
      → Keeps w (arn_fetched c k m cfg checker r w).0
  unfolding initialize_services
  arn_fetched-Keeps checker (ks, failed e) w = (refl, inl refl)
  arn_fetched-Keeps checker (ks, ok arn) w = checkpointer_ready-Keeps (c.init checker).1 (record w {
    kc = some ks;
    consumer_arn = arn;
    m_service = (m.init cfg.application_name cfg.stream_name cfg.worker_id w.m_service).0;
    checkpointer = some (c.init checker).0;
  })

  services_started :
      (ms : m.State) (e : Option Error) (w : Worker c k m)
      → Keeps w
          (elim e as (λ x. Worker c k m × Option Error) [
            | some err ↦ (record w { m_service = ms }, some err)
            | none ↦ (record w { m_service = ms; wait_group = w.wait_group + 1 }, none)
          ]).0
  services_started ms (some err) w = (refl, inl refl)
  services_started ms none w = (refl, inl refl)

  start_services-Keeps :
      (w : Worker c k m) (r : Worker c k m × Option Error)
      → Keeps w r.0
      → Keeps w (start_services c k m r).0
  unfolding start_services
  start_services-Keeps w (w', some e) h = h
  start_services-Keeps w (w', none) h =
      let (ms, e) = m.start w'.m_service in
      let (d, s) = services_started ms e w' in
      (
        d ∙ h.0,
        elim s [
          | inl same ↦ elim h.1 [ inl kept ↦ inl (same ∙ kept) | inr new ↦ inr (same ∙ new) ]
          | inr new ↦ inr new
        ],
      )

  client_loads :
      (ks : k.State) (kc : Option k.State)
      → (svc : k.State) × (kinesis_client c k m (some ks) kc ≡ returns svc)
  unfolding kinesis_client
  client_loads ks (some svc) = (svc, refl)
  client_loads ks none = (ks, refl)

  start_worker-Keeps :
      (ks : k.State) (fresh : c.State) (w : Worker c k m)
      → (r : Worker c k m × Option Error) × (start_worker c k m cfg (some ks) fresh w ≡ returns r)
        × Keeps w r.0
  unfolding start_worker initialize
  start_worker-Keeps ks fresh w =
      let (svc, e) = client_loads ks w.kc in
      let ready =
        arn_fetched c k m cfg (checkpointer_of c k m fresh w.checkpointer)
          (consumer_arn_of c k m cfg w svc) w in
      (
        start_services c k m ready,
        rw e refl,
        start_services-Keeps w ready (
            arn_fetched-Keeps (checkpointer_of c k m fresh w.checkpointer)
              (consumer_arn_of c k m cfg w svc) w),
      )

  -- LoadDefaultConfig does not fail.
  abbrev pub CanLoad : Call c k m → Type 0
  CanLoad (starts (some ks) fresh) = Unit {0}
  CanLoad (starts none fresh) = ⊥
  CanLoad shuts_down = Unit {0}

  shutdown_worker-Orderly :
      (w : Worker c k m) (stop : Channel) (done : Bool)
      → w.stop ≡ stop
      → w.done ≡ done
      → IsOrderly w
      → (w' : Worker c k m) × (shutdown_worker c k m w ≡ returns w') × IsOrderly w'
  unfolding shutdown_worker
  shutdown_worker-Orderly w stop true s d h = (w, rw d refl, h)
  shutdown_worker-Orderly w no_channel false s d h = (w, rw (d, s) refl, h)
  shutdown_worker-Orderly w open_channel false s d h = (
    record w {
      stop = closed_channel;
      done = true;
      wait_group = 0;
      m_service = m.shutdown w.m_service;
    },
    rw (d, s) refl,
    λ e. refl,
  )
  shutdown_worker-Orderly w closed_channel false s d h = absurd (cc (h s))

  call-Orderly :
      (x : Call c k m) (w : Worker c k m)
      → CanLoad x
      → IsOrderly w
      → (w' : Worker c k m) × (call c k m cfg x w ≡ returns w') × IsOrderly w'
  unfolding call
  call-Orderly shuts_down w l h = shutdown_worker-Orderly w w.stop w.done refl refl h
  call-Orderly (starts none fresh) w l h = absurd l
  call-Orderly (starts (some ks) fresh) w l h =
      let (r, e, (d, s)) = start_worker-Keeps ks fresh w in
      (
        r.0,
        rw e refl,
        λ closed. elim s [ inl same ↦ d ∙ h (sym same ∙ closed) | inr new ↦ absurd (cc) ],
      )

  -- Start and Shutdown never panic, in whatever order and however often they are called one after
  -- the other, from a worker whose stop channel is not closed unless it is done; a channel that is
  -- closed is then never closed again. (LoadDefaultConfig does not fail, and the operations of the
  -- clients and of the monitoring service return.)
  pub call_all-Returns :
      (xs : List (Call c k m)) (w : Worker c k m)
      → All CanLoad xs
      → IsOrderly w
      → (w' : Worker c k m) × (call_all c k m cfg xs w ≡ returns w') × IsOrderly w'
  unfolding call_all
  call_all-Returns [] w l h = (w, refl, h)
  call_all-Returns (x ∷ xs) w l h =
      let (w1, e, h1) = call-Orderly x w l.0 h in
      let (w2, e', h2) = call_all-Returns xs w1 l.1 h1 in (w2, rw e e', h2)
