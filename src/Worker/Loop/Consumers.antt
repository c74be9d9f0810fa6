-- ===== src/Worker/Loop/Consumers.antt =====
-- clientlibrary/worker/worker.go: the consumers that the event loop starts.
use vmware_go_kcl_v2_test.Prelude.{
  ℕ, suc, ◌+◌, ◌≤◌, ◌≡◌, ◌≢◌, refl, sym, ap, ◌∙◌, subst, String, Bool, true, false, Option, none,
  some, List, [], ◌∷◌, All, length, arith, Option-cases, inl, inr, if◌then◌else◌,
}
use mathlib.Core.Option.{some-injective}
use vmware_go_kcl_v2_test.Config.{KinesisClientLibConfiguration}
use vmware_go_kcl_v2_test.Partition.{ShardStatus}
use vmware_go_kcl_v2_test.Checkpoint.{Error, shard_end}
use vmware_go_kcl_v2_test.Checkpoint.Workers.{ShardMap}
use vmware_go_kcl_v2_test.Checkpoint.Checkpointer.{Checkpointer}
use vmware_go_kcl_v2_test.Kinesis.{KinesisApi}
use vmware_go_kcl_v2_test.Metrics.Float.{Float64}
use vmware_go_kcl_v2_test.Metrics.Service.{MonitoringService}
use vmware_go_kcl_v2_test.Worker.Shards.{sync_shard}
use vmware_go_kcl_v2_test.Worker.Rebalance.{Rebalanced, rebalance}
use vmware_go_kcl_v2_test.Worker.Acquire.{acquire}
use vmware_go_kcl_v2_test.Worker.Acquire.Round.{GrantsLeases, acquire_one}
use vmware_go_kcl_v2_test.Worker.Loop.Stops.{event_loop-stops, event_loop-goes_on}
use vmware_go_kcl_v2_test.Worker.Loop.{
  LoopState, LoopRound, start_consumer, rebalance_round, synced_round, selects, round, event_loop,
  interrupted, rebalanced,
}

-- A consumer is started for a shard that the worker owns and that is not finished.
abbrev pub Fit : String → ShardStatus → Type 0
Fit worker_id shard = (shard.assigned_to ≡ worker_id) × (shard.checkpoint ≢ shard_end)

module _ {f : Float64} (c : Checkpointer) (grants : GrantsLeases c) (k : KinesisApi)
    (m : MonitoringService f) (cfg : KinesisClientLibConfiguration) (worker_id : String) where
  -- From `l` to `l'` at most `n` consumers are started, each for a fit shard, and the wait group
  -- counts them.
  pub record Starts (n : ℕ) (l l' : LoopState c k m) : Type 0 where
    pub few : length l'.started ≤ length l.started + n
    pub fit : All (Fit worker_id) l.started → All (Fit worker_id) l'.started
    pub waited : l'.wait_group + length l.started ≡ l.wait_group + length l'.started

  start_consumer-Starts :
      (gained : Option (ShardStatus × Bool)) (l : LoopState c k m)
      → ((shard : ShardStatus) (steal : Bool) → gained ≡ some (shard, steal) → Fit worker_id shard)
      → Starts 1 l (start_consumer c k m gained l)
  unfolding start_consumer
  start_consumer-Starts none l h = record { few = omega arith; fit = λ a. a; waited = refl }
  start_consumer-Starts (some (shard, steal)) l h = record {
    few = omega arith;
    fit = λ a. (h shard steal refl, a);
    waited = omega arith;
  }

  Starts-none :
      (l l' : LoopState c k m)
      → (l'.started ≡ l.started)
      → (l'.wait_group ≡ l.wait_group)
      → Starts 0 l l'
  Starts-none l l' e w = record {
    few = rw e (omega arith);
    fit = λ a. rw e a;
    waited = rw (e, w) refl;
  }

  Starts-trans :
      (a b : ℕ) (l l' l'' : LoopState c k m)
      → Starts a l l'
      → Starts b l' l''
      → Starts (a + b) l l''
  Starts-trans a b l l' l'' p q = record {
    few = omega (arith, p.few, q.few);
    fit = λ x. q.fit (p.fit x);
    waited = omega (arith, p.waited, q.waited);
  }

  if_rebalanced :
      (b : Bool) (o : Option (Rebalanced k.State c.State)) (l l' : LoopState c k m)
      → (let next = elim o as (λ x. Option (LoopState c k m)) [
        | none ↦ none
        | some r ↦ some (rebalanced c k m l r)
      ] in
          if b then next else some l)
        ≡ some l'
      → Starts 0 l l'
  if_rebalanced true none l l' h = absurd (cc)
  if_rebalanced true (some r) l l' h =
      let same = some-injective _ _ h in
      Starts-none l l' (ap (λ x. x.started) (sym same)) (ap (λ x. x.wait_group) (sym same))
  if_rebalanced false _ l l' h =
      let same = some-injective _ _ h in
      Starts-none l l' (ap (λ x. x.started) (sym same)) (ap (λ x. x.wait_group) (sym same))

  synced_round-Starts :
      (r : LoopRound c k m) (l l' : LoopState c k m)
      → synced_round c k m cfg worker_id r l ≡ some l'
      → Starts 1 l l'
  unfolding synced_round rebalance_round
  synced_round-Starts r l l' h =
      let taken = acquire c cfg worker_id r.now l.shards l.steal_in_progress l.table in
      let l1 : LoopState c k m = record l {
        table = taken.0;
        shards = taken.1;
        steal_in_progress = taken.3;
      } in
      let l2 = start_consumer c k m taken.2 l1 in
      let fits : (shard : ShardStatus) (steal : Bool)
          → taken.2 ≡ some (shard, steal)
          → Fit worker_id shard =
        λ shard steal e.
          let (_, took, _) =
            acquire_one c grants cfg worker_id r.now l.shards l.steal_in_progress l.table
              {shard' = shard} {steal = steal} e in
          (took.gained.after, took.gained.unfinished) in
      let first = start_consumer-Starts taken.2 l1 fits in
      Starts-trans 1 0 l l2 l' (record { few = first.few; fit = first.fit; waited = first.waited })
        (if_rebalanced cfg.enable_lease_stealing
          (rebalance c k cfg worker_id r.pages r.rnd r.visit r.sync l2.shards l2.steal_in_progress
            l2.kinesis l2.table)
          l2 l' h)

  state_of : (p q : LoopState c k m × Bool) → some p ≡ some q → p.0 ≡ q.0
  state_of p q h = ap (λ x. x.0) (some-injective _ _ h)

  selected :
      (r : LoopRound c k m) (l l' : LoopState c k m) (b : Bool) (o : Option (LoopState c k m))
      → ((l1 : LoopState c k m) → o ≡ some l1 → Starts 1 l l1)
      → (elim o as (λ x. Option (LoopState c k m × Bool)) [
        | none ↦ none
        | some l1 ↦ some (l1, r.stopped)
      ])
        ≡ some (l', b)
      → Starts 1 l l'
  selected r l l' b none h e = absurd (cc)
  selected r l l' b (some l1) h e =
      subst (λ x. Starts 1 l x) (state_of (l1, r.stopped) (l', b) e) (h l1 refl)

  selects-Starts :
      (r : LoopRound c k m) (ks : k.State) (s : c.State) (shards : ShardMap) (e : Option Error)
      (l l' : LoopState c k m) (b : Bool)
      → selects c k m cfg worker_id r (ks, s, shards, e) l ≡ some (l', b)
      → Starts 1 l l'
  selects-Starts r ks s shards (some e) l l' b h =
      let l1 : LoopState c k m = record l { kinesis = ks; table = s; shards = shards } in
      subst (λ x. Starts 1 l x) (state_of (l1, false) (l', b) h)
        (record { few = omega arith; fit = λ a. a; waited = refl })
  selects-Starts r ks s shards none l l' b h =
      let l1 : LoopState c k m = record l { kinesis = ks; table = s; shards = shards } in
      selected r l l' b (synced_round c k m cfg worker_id r l1)
        (λ l2 e.
          let p = synced_round-Starts r l1 l2 e in
          record { few = p.few; fit = p.fit; waited = p.waited })
        h

  round-Starts :
      (r : LoopRound c k m) (l l' : LoopState c k m) (b : Bool)
      → round c k m cfg worker_id r l ≡ some (l', b)
      → Starts 1 l l'
  unfolding round
  round-Starts r l l' b h =
      elim (Option-cases (sync_shard c k r.pages l.shards l.kinesis l.table)) [
        | inl e ↦
            let opened : round c k m cfg worker_id r l ≡ none = rw (e, round) refl in absurd (cc)
        | inr ((ks, s, shards, err), e) ↦
            let opened : round c k m cfg worker_id r l
                ≡ selects c k m cfg worker_id r (ks, s, shards, err) l =
              rw (e, round) refl in
            selects-Starts r ks s shards err l l' b (sym opened ∙ h)
      ]

  loop_breaks :
      (r : LoopRound c k m) (rs : List (LoopRound c k m)) (l l' : LoopState c k m) (returned : Bool)
      → round c k m cfg worker_id r l ≡ none
      → event_loop c k m cfg worker_id (r ∷ rs) l ≡ some (l', returned)
      → ⊥
  unfolding event_loop
  loop_breaks r rs l l' returned e h =
      let opened : event_loop c k m cfg worker_id (r ∷ rs) l ≡ none = rw (e, event_loop) refl in cc

  -- Over any number of rounds the event loop starts at most one consumer in each, only for shards
  -- that the worker owns then and that are not at SHARD_END, and the wait group grows by one for
  -- each of them. (GetLease keeps a shard's id and checkpoint and names the worker as owner when
  -- it succeeds; FetchCheckpoint keeps the id.)
  pub event_loop-Starts :
      (rs : List (LoopRound c k m)) (l l' : LoopState c k m) (returned : Bool)
      → event_loop c k m cfg worker_id rs l ≡ some (l', returned)
      → Starts (length rs) l l'
  event_loop-Starts [] l l' returned h =
      unfold event_loop in
      subst (λ x. Starts 0 l x) (state_of (l, false) (l', returned) h) (Starts-none l l refl refl)
  event_loop-Starts (r ∷ rs) l l' returned h = elim (Option-cases (round c k m cfg worker_id r l)) [
    | inl e ↦ absurd (loop_breaks r rs l l' returned e h)
    | inr ((l1, true), e) ↦
        let p = round-Starts r l l1 true e in
        let same = sym (event_loop-stops c k m cfg worker_id r rs l l1 true e refl) ∙ h in
        subst (λ x. Starts (suc (length rs)) l x) (state_of (l1, true) (l', returned) same)
          (record { few = omega (arith, p.few); fit = p.fit; waited = p.waited })
    | inr ((l1, false), e) ↦
        let l2 = interrupted c k m r l1 in
        let p = round-Starts r l l1 false e in
        let rest = sym (event_loop-goes_on c k m cfg worker_id r rs l l1 false e refl) ∙ h in
        let q = event_loop-Starts rs l2 l' returned rest in
        record {
          few = omega (arith, p.few, q.few);
          fit = λ a. q.fit (p.fit a);
          waited = omega (arith, p.waited, q.waited);
        }
  ]
