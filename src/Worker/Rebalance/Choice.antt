-- ===== src/Worker/Rebalance/Choice.antt =====
-- clientlibrary/worker/worker.go: whom rebalance steals from, and when it leaves the shards alone.
use vmware_go_kcl_v2_test.Prelude.{
  ℕ, ◌+◌, ◌/◌, ◌≤◌, ◌<◌, ◌≡◌, ◌≢◌, ◌⊎◌, inl, inr, refl, ◌∙◌, String, true, false, not, ◌&&◌, List,
  [], ◌∷◌, length, str_eq, eq_iff, arith, ltb, Bool-cases,
}
use vmware_go_kcl_v2_test.Prelude.Int.{pos, ◌==ℤ◌}
use vmware_go_kcl_v2_test.Config.{KinesisClientLibConfiguration}
use vmware_go_kcl_v2_test.Partition.{ShardStatus}
use vmware_go_kcl_v2_test.Checkpoint.Workers.{WorkerMap}
use vmware_go_kcl_v2_test.Worker.Rebalance.{
  shards_of, count_shards, pick_worker, current_shards, worker_count, worker_to_steal_from,
}

-- No worker of the list but `worker_id` has more than `most` shards.
abbrev pub AtMost : String → ℕ → WorkerMap → Type 0
AtMost worker_id most [] = Unit
AtMost worker_id most ((worker, shards) ∷ workers) =
    ((worker ≡ worker_id) ⊎ (length shards ≤ most)) × AtMost worker_id most workers

-- The list has the worker with that many shards.
abbrev pub HasCount : String → ℕ → WorkerMap → Type 0
HasCount worker n [] = ⊥
HasCount worker n ((w, shards) ∷ workers) =
    ((worker ≡ w) × (n ≡ length shards)) ⊎ HasCount worker n workers

module _ (worker_id : String) where
  -- The outcome of the search from `steal` and `most`: that, or a better worker of the list; and
  -- there is none better than it.
  pub record IsBest (steal : String) (most : ℕ) (workers : WorkerMap) (found : String) (n : ℕ)
      : Type 0 where
    pub grows : most ≤ n
    pub origin :
        ((found ≡ steal) × (n ≡ most))
        ⊎ ((most < n) × (found ≢ worker_id) × HasCount found n workers)
    pub top : AtMost worker_id n workers

  better :
      (worker : String) (shards : List ShardStatus) (workers : WorkerMap) (steal found : String)
      (most n : ℕ)
      → not (str_eq worker worker_id) && ltb most (length shards) ≡ true
      → IsBest worker (length shards) workers found n
      → IsBest steal most ((worker, shards) ∷ workers) found n
  better worker shards workers steal found most n h b =
      let grows = b.grows in
      let origin = b.origin in
      record {
        grows = ground arith;
        origin = inr (
          ground arith,
          λ e. ground (arith, eq_iff worker worker_id),
          elim b.origin [ inl first ↦ inl first | inr (_, _, c) ↦ inr c ],
        );
        top = (inr grows, b.top);
      }

  worse :
      (worker : String) (shards : List ShardStatus) (workers : WorkerMap) (steal found : String)
      (most n : ℕ)
      → not (str_eq worker worker_id) && ltb most (length shards) ≡ false
      → IsBest steal most workers found n
      → IsBest steal most ((worker, shards) ∷ workers) found n
  worse worker shards workers steal found most n h b = record {
    grows = b.grows;
    origin = elim b.origin [ inl same ↦ inl same | inr (m, d, c) ↦ inr (m, d, inr c) ];
    top = (ground (arith, eq_iff worker worker_id, b.grows), b.top);
  }

  pub pick_worker-IsBest :
      (workers : WorkerMap) (steal : String) (most : ℕ)
      → (n : ℕ) × IsBest steal most workers (pick_worker worker_id workers steal most) n
  unfolding pick_worker
  pick_worker-IsBest [] steal most =
      (most, record { grows = omega arith; origin = inl (refl, refl); top = tt })
  pick_worker-IsBest ((worker, shards) ∷ workers) steal most =
      elim (Bool-cases (not (str_eq worker worker_id) && ltb most (length shards))) [
        | inl h ↦
            let (n, b) = pick_worker-IsBest workers worker (length shards) in
            rw h (n, better worker shards workers steal _ most n h b)
        | inr h ↦
            let (n, b) = pick_worker-IsBest workers steal most in
            rw h (n, worse worker shards workers steal _ most n h b)
      ]

  AtMost-HasCount :
      (m n : ℕ) (w : String) (workers : WorkerMap)
      → w ≢ worker_id
      → HasCount w n workers
      → AtMost worker_id m workers
      → n ≤ m
  AtMost-HasCount m n w [] d h a = absurd h
  AtMost-HasCount m n w ((v, shards) ∷ workers) d (inl (e, q)) (inl own, a) = absurd (d (e ∙ own))
  AtMost-HasCount m n w ((v, shards) ∷ workers) d (inl (e, q)) (inr le, a) = omega arith
  AtMost-HasCount m n w ((v, shards) ∷ workers) d (inr h) (_, a) =
      AtMost-HasCount m n w workers d h a

  module _ (cfg : KinesisClientLibConfiguration) (workers visited : WorkerMap) where
    abbrev pub mine : ℕ
    mine = current_shards (shards_of worker_id workers)

    abbrev pub optimal : ℕ
    optimal = count_shards workers / worker_count workers (shards_of worker_id workers)

    -- A steal goes through the three tests to the search.
    steal-search :
        worker_to_steal_from cfg worker_id workers visited ≢ ""
        → (mine < optimal)
          × (worker_to_steal_from cfg worker_id workers visited
              ≡ pick_worker worker_id visited "" optimal)
    unfolding worker_to_steal_from
    steal-search h = ground arith

    pub search-steal :
        length workers < count_shards workers
        → mine < optimal
        → pos mine ==ℤ cfg.max_leases_for_worker ≡ false
        → worker_to_steal_from cfg worker_id workers visited
          ≡ pick_worker worker_id visited "" optimal
    unfolding worker_to_steal_from
    search-steal a b d = ground arith

    -- Rebalance steals from another worker only, one with at least two shards more than its own,
    -- and none of the workers visited has more: if it names a worker, that worker is not itself,
    -- and no other worker visited has more shards than the number that it is visited with, which
    -- is at least the worker's own number of shards plus 2.
    pub steal-IsBest :
        worker_to_steal_from cfg worker_id workers visited ≢ ""
        → (n : ℕ) × (mine + 2 ≤ n)
          × (worker_to_steal_from cfg worker_id workers visited ≢ worker_id)
          × HasCount (worker_to_steal_from cfg worker_id workers visited) n visited
          × AtMost worker_id n visited
    steal-IsBest h =
        let (less, e) = steal-search h in
        let (n, b) = pick_worker-IsBest visited "" optimal in
        elim b.origin [
          | inl (none_found, _) ↦ absurd (h (e ∙ none_found))
          | inr (more, other, has) ↦ rw e (n, omega arith, other, has, b.top)
        ]

    -- Nothing is stolen when no other worker visited has more than one shard above the own number.
    pub balanced_stays :
        AtMost worker_id (mine + 1) visited
        → worker_to_steal_from cfg worker_id workers visited ≡ ""
    balanced_stays flat =
        elim (Bool-cases (str_eq (worker_to_steal_from cfg worker_id workers visited) "")) [
          | inl stay ↦ (eq_iff _ "").0 stay
          | inr steal ↦
              let (n, two, other, has, _) = steal-IsBest (λ e. ground (arith, (eq_iff _ "").1 e)) in
              absurd (omega (arith, AtMost-HasCount (mine + 1) n _ visited other has flat))
        ]
