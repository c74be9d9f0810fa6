-- ===== src/Worker/Rebalance/Fallback.antt =====
-- clientlibrary/worker/worker.go: the fall-back of rebalance for shards without an owner.
use vmware_go_kcl_v2_test.Prelude.{
  ℕ, ◌+◌, ◌*◌, ◌/◌, ◌≤◌, ◌<◌, ◌≡◌, ◌≢◌, inl, inr, sym, subst, ◌∙◌, String, false, Option, none,
  some, List, [], ◌∷◌, length, str_eq, eq_iff, arith, Bool-cases,
}
use vmware_go_kcl_v2_test.Prelude.Int.{pos, ◌==ℤ◌}
use vmware_go_kcl_v2_test.Config.{KinesisClientLibConfiguration}
use vmware_go_kcl_v2_test.Partition.{ShardStatus}
use vmware_go_kcl_v2_test.Checkpoint.Workers.{WorkerMap}
use vmware_go_kcl_v2_test.Worker.Rebalance.{
  shards_of, count_shards, current_shards, worker_count, worker_to_steal_from,
}
use vmware_go_kcl_v2_test.Worker.Rebalance.Choice.{
  AtMost, HasCount, pick_worker-IsBest, mine, optimal, search-steal,
}

module _ (worker_id : String) where
  -- The worker's entry stands once in a map.
  abbrev pub Once : WorkerMap → Type 0
  Once [] = Unit
  Once ((w, shards) ∷ workers) = (w ≡ worker_id → shards_of worker_id workers ≡ none) × Once workers

  -- With nobody else above `m` shards there are at most `m` for each other worker.
  none_above :
      (m : ℕ) (workers : WorkerMap)
      → shards_of worker_id workers ≡ none
      → AtMost worker_id m workers
      → count_shards workers ≤ m * length workers
  unfolding count_shards
  none_above m [] e a = omega arith
  none_above m ((w, shards) ∷ workers) e (a, rest) = elim (Bool-cases (str_eq w worker_id)) [
    | inl same ↦ absurd (ground arith)
    | inr other ↦
        let less = none_above m workers (ground arith) rest in
        let few : length shards ≤ m = ground (arith, eq_iff w worker_id) in omega (arith, less, few)
  ]

  total-le :
      (m : ℕ) (workers : WorkerMap)
      → Once workers
      → AtMost worker_id m workers
      → count_shards workers + m
        ≤ m * worker_count workers (shards_of worker_id workers)
          + current_shards (shards_of worker_id workers)
  unfolding count_shards worker_count current_shards
  total-le m [] o a = omega arith
  total-le m ((w, shards) ∷ workers) (o, os) (a, rest) = elim (Bool-cases (str_eq w worker_id)) [
    | inl same ↦
        let others = none_above m workers (o ((eq_iff w worker_id).0 same)) rest in
        rw same (omega (arith, others))
    | inr other ↦
        let less = total-le m workers os rest in
        let few : length shards ≤ m = ground (arith, eq_iff w worker_id) in
        rw other (one_more m workers (shards_of worker_id workers) less few)
  ]
    where
      one_more :
          (m : ℕ) (workers : WorkerMap) (o : Option (List ShardStatus))
          → count_shards workers + m ≤ m * worker_count workers o + current_shards o
          → length shards ≤ m
          → length shards + count_shards workers + m
            ≤ m * worker_count ((w, shards) ∷ workers) o + current_shards o
      one_more m workers none less few = omega arith
      one_more m workers (some x) less few = omega arith

  -- Every worker of the list has a name.
  abbrev pub Named : WorkerMap → Type 0
  Named [] = Unit
  Named ((w, shards) ∷ workers) = (w ≢ "") × Named workers

  HasCount-Named : (n : ℕ) (workers : WorkerMap) → Named workers → HasCount "" n workers → ⊥
  HasCount-Named n [] named h = h
  HasCount-Named n ((w, shards) ∷ workers) (a, rest) (inl (e, _)) = a (sym e)
  HasCount-Named n ((w, shards) ∷ workers) (a, rest) (inr h) = HasCount-Named n workers rest h

  quotient-le : (a b : ℕ) → a / b * b ≤ a
  quotient-le a b = grind arith

  -- The fall-back of rebalance for shards without an owner is never reached: with more shards than
  -- workers, fewer own shards than the optimum and not as many as the limit, there is a worker to
  -- steal from, if the map has the worker's own entry at most once, the workers visited have names,
  -- and every worker of the map is visited.
  pub steal_found :
      (cfg : KinesisClientLibConfiguration) (workers visited : WorkerMap)
      → Once workers
      → Named visited
      → ((m : ℕ) → AtMost worker_id m visited → AtMost worker_id m workers)
      → length workers < count_shards workers
      → mine worker_id cfg workers visited < optimal worker_id cfg workers visited
      → pos (mine worker_id cfg workers visited) ==ℤ cfg.max_leases_for_worker ≡ false
      → worker_to_steal_from cfg worker_id workers visited ≢ ""
  steal_found cfg workers visited once named all more fewer limit e =
      let target = optimal worker_id cfg workers visited in
      let (n, b) = pick_worker-IsBest worker_id visited "" target in
      let q = search-steal worker_id cfg workers visited more fewer limit in
      elim b.origin [
        | inl (_, same) ↦
            let top : AtMost worker_id target visited =
              subst (λ m. AtMost worker_id m visited) same b.top in
            omega (
              arith,
              total-le target workers once (all target top),
              quotient-le (count_shards workers)
                  (worker_count workers (shards_of worker_id workers)),
              fewer,
            )
        | inr (_, _, has) ↦
            HasCount-Named n visited named (subst (λ w. HasCount w n visited) (sym q ∙ e) has)
      ]
