-- ===== src/Worker/Loop/Stops.antt =====
-- clientlibrary/worker/worker.go: when the event loop returns.
use vmware_go_kcl_v2_test.Prelude.{
  ℕ, zero, suc, ◌<◌, ◌≡◌, refl, ◌∙◌, ◌⊎◌, inl, inr, String, Bool, true, false, none, some, List, [],
  ◌∷◌, All, arith, Bool-cases, if◌then◌else◌,
}
use vmware_go_kcl_v2_test.Config.{KinesisClientLibConfiguration}
use vmware_go_kcl_v2_test.Checkpoint.{Error, failed}
use vmware_go_kcl_v2_test.Checkpoint.Workers.{ShardMap}
use vmware_go_kcl_v2_test.Checkpoint.Checkpointer.{Checkpointer}
use vmware_go_kcl_v2_test.Kinesis.{Shard, KinesisApi}
use vmware_go_kcl_v2_test.Metrics.Float.{Float64}
use vmware_go_kcl_v2_test.Metrics.Service.{MonitoringService}
use vmware_go_kcl_v2_test.Worker.Shards.{get_shard_ids, sync_shard}
use vmware_go_kcl_v2_test.Worker.Shards.Sync.{listing, sync_shard-Synced}
use vmware_go_kcl_v2_test.Worker.Loop.{
  synced_round, rebalance_round, LoopState, LoopRound, round, event_loop, interrupted, selects,
}

module _ {f : Float64} (c : Checkpointer) (k : KinesisApi) (m : MonitoringService f)
    (cfg : KinesisClientLibConfiguration) (worker_id : String) where
  -- ListShards fails at every call.
  abbrev pub ListingFails : Type 0
  ListingFails =
      (token : String) (s : k.State) → (e : Error) × ((k.list_shards token s).1 ≡ failed e)

  sync_shard_fails :
      (pages : ℕ) (l : LoopState c k m)
      → ListingFails
      → 0 < pages
      → (ks : k.State) × (e : Error) × (sync_shard c k pages l.shards l.kinesis l.table
          ≡ some (ks, l.table, l.shards, some e))
  unfolding sync_shard get_shard_ids
  sync_shard_fails zero l fails h = absurd (omega arith)
  sync_shard_fails (suc pages) l fails h =
      let ks = (k.list_shards "" l.kinesis).0 in
      let (e, failure) = fails "" l.kinesis in
      let listed : get_shard_ids k (suc pages) "" [] l.shards l.kinesis
          ≡ some (ks, [], l.shards, some e) =
        rw (failure, get_shard_ids) refl in
      (ks, e, rw (listed, sync_shard) refl)

  -- While ListShards fails the event loop never returns, even if the stop channel is closed in
  -- every round, and it starts no consumer.
  pub failing_listing_never_stops :
      (rs : List (LoopRound c k m)) (l : LoopState c k m)
      → ListingFails
      → All (λ r. 0 < r.pages) rs
      → (l' : LoopState c k m) × (event_loop c k m cfg worker_id rs l ≡ some (l', false))
        × (l'.started ≡ l.started)
  unfolding event_loop round
  failing_listing_never_stops [] l fails h = (l, refl, refl)
  failing_listing_never_stops (r ∷ rs) l fails h =
      let (ks, e, failure) = sync_shard_fails r.pages l fails h.0 in
      let l' = interrupted c k m r (record l { kinesis = ks }) in
      let (last, e', same) = failing_listing_never_stops rs l' fails h.1 in
      let skips : round c k m cfg worker_id r l ≡ some (record l { kinesis = ks }, false) =
        rw (failure, round) refl in
      (last, rw (skips, event_loop) e', same)

  -- ListShards answers with every page, within so many.
  abbrev pub ListingAnswers : ℕ → Type 0
  ListingAnswers pages =
      (s : k.State) → (t : k.State) × (ss : List Shard) × (listing k pages "" s ≡ some (t, ss))

  taken_if_off {ℓ} : {A : Type ℓ} (b : Bool) (x y : A) → b ≡ false → (if b then x else y) ≡ y
  taken_if_off true x y h = absurd (cc)
  taken_if_off false x y h = refl

  -- Without lease stealing the rest of a round, after the synchronisation, always returns.
  synced_round-Returns :
      (r : LoopRound c k m) (l : LoopState c k m)
      → cfg.enable_lease_stealing ≡ false
      → (l' : LoopState c k m) × (synced_round c k m cfg worker_id r l ≡ some l')
  unfolding synced_round rebalance_round
  synced_round-Returns r l off = (_, taken_if_off cfg.enable_lease_stealing _ _ off)

  selects-Returns :
      (r : LoopRound c k m) (ks : k.State) (s : c.State) (shards : ShardMap) (l : LoopState c k m)
      {l' : LoopState c k m}
      → synced_round c k m cfg worker_id r (record l { kinesis = ks; table = s; shards = shards })
        ≡ some l'
      → selects c k m cfg worker_id r (ks, s, shards, none) l ≡ some (l', r.stopped)
  selects-Returns r ks s shards l h = rw (h, selects) refl

  -- A round without lease stealing reaches the select.
  round-Selects :
      (r : LoopRound c k m) (l : LoopState c k m)
      → cfg.enable_lease_stealing ≡ false
      → ListingAnswers r.pages
      → (l' : LoopState c k m) × (round c k m cfg worker_id r l ≡ some (l', r.stopped))
  unfolding round
  round-Selects r l off answers =
      let (t, ss, listed) = answers l.kinesis in
      let (s', shards', e, _) =
        sync_shard-Synced c k r.pages l.shards l.kinesis t l.table ss listed in
      let (l', done) =
        synced_round-Returns r (record l { kinesis = t; table = s'; shards = shards' }) off in
      (l', rw (e, round) (selects-Returns r t s' shards' l done))

  -- One round of the loop.
  pub event_loop-stops :
      (r : LoopRound c k m) (rs : List (LoopRound c k m)) (l l' : LoopState c k m) (b : Bool)
      → round c k m cfg worker_id r l ≡ some (l', b)
      → b ≡ true
      → event_loop c k m cfg worker_id (r ∷ rs) l ≡ some (l', true)
  unfolding event_loop
  event_loop-stops r rs l l' true e h = rw (e, event_loop) refl
  event_loop-stops r rs l l' false e h = absurd (cc)

  pub event_loop-goes_on :
      (r : LoopRound c k m) (rs : List (LoopRound c k m)) (l l' : LoopState c k m) (b : Bool)
      → round c k m cfg worker_id r l ≡ some (l', b)
      → b ≡ false
      → event_loop c k m cfg worker_id (r ∷ rs) l
        ≡ event_loop c k m cfg worker_id rs (interrupted c k m r l')
  unfolding event_loop
  event_loop-goes_on r rs l l' true e h = absurd (cc)
  event_loop-goes_on r rs l l' false e h = rw (e, event_loop) refl

  abbrev pub IsStopped : List (LoopRound c k m) → Type 0
  IsStopped [] = ⊥
  IsStopped (r ∷ rs) = (r.stopped ≡ true) ⊎ IsStopped rs

  -- Without lease stealing, and while every listing is answered, the event loop returns once the
  -- stop channel is closed in one of its rounds, whatever the lease table and the other workers do.
  pub event_loop-Returns :
      (rs : List (LoopRound c k m)) (l : LoopState c k m)
      → cfg.enable_lease_stealing ≡ false
      → All (λ r. ListingAnswers r.pages) rs
      → IsStopped rs
      → (l' : LoopState c k m) × (event_loop c k m cfg worker_id rs l ≡ some (l', true))
  event_loop-Returns [] l off answers stopped = absurd stopped
  event_loop-Returns (r ∷ rs) l off answers stopped =
      let (l1, e) = round-Selects r l off answers.0 in
      elim (Bool-cases r.stopped) [
        | inl now ↦ (l1, event_loop-stops r rs l l1 r.stopped e now)
        | inr later ↦
            let (l2, e') =
              event_loop-Returns rs (interrupted c k m r l1) off answers.1
                (elim stopped [ inl now ↦ absurd (cc) | inr rest ↦ rest ]) in
            (l2, event_loop-goes_on r rs l l1 r.stopped e later ∙ e')
      ]
