-- ===== src/Worker/Rebalance.antt =====
-- clientlibrary/worker/worker.go: rebalance.
pub mod Choice
pub mod Claims
pub mod Fallback
use vmware_go_kcl_v2_test.Prelude.{
  ℕ, zero, suc, ◌+◌, ◌/◌, ◌%◌, String, Bool, true, false, not, ◌&&◌, ◌||◌, Option, none, some, List,
  [], ◌∷◌, length, get_elem?, str_eq, ltb, leb, ◌==◌, if◌then◌else◌,
}
use vmware_go_kcl_v2_test.Prelude.Int.{ℤ, pos, ◌==ℤ◌}
use vmware_go_kcl_v2_test.Config.{KinesisClientLibConfiguration}
use vmware_go_kcl_v2_test.Partition.{ShardStatus}
use vmware_go_kcl_v2_test.Checkpoint.{Error, Reply, ok, failed}
use vmware_go_kcl_v2_test.Checkpoint.Workers.{ShardMap, WorkerMap, SyncInstants}
use vmware_go_kcl_v2_test.Checkpoint.Checkpointer.{Checkpointer}
use vmware_go_kcl_v2_test.Kinesis.{KinesisApi}
use vmware_go_kcl_v2_test.Worker.Shards.{find_shard, get_shard_ids}

-- workers[id]
abbrev pub shards_of : String → WorkerMap → Option (List ShardStatus)
shards_of id [] = none
shards_of id ((worker, shards) ∷ workers) =
    if str_eq worker id then some shards else shards_of id workers

unfoldable pub count_shards : WorkerMap → ℕ
count_shards [] = 0
count_shards ((worker, shards) ∷ workers) = length shards + count_shards workers

-- Whether the wait for an earlier steal ends the call, and shardStealInProgress after the loop.
unfoldable pub steal_pending : String → ShardMap → Bool → Bool × Bool
steal_pending worker_id [] flag = (false, flag)
steal_pending worker_id (shard ∷ shards) flag =
    if not (str_eq shard.claim_request "") && str_eq shard.claim_request worker_id
    then (true, flag)
    else steal_pending worker_id shards false

-- The loop over the workers: the worker to steal from, "" for none, and the most shards so far.
unfoldable pub pick_worker : String → WorkerMap → String → ℕ → String
pick_worker worker_id [] steal most = steal
pick_worker worker_id ((worker, shards) ∷ workers) steal most =
    let better = not (str_eq worker worker_id) && ltb most (length shards) in
    pick_worker worker_id workers (if better then worker else steal)
      (if better then length shards else most)

unfoldable pub current_shards : Option (List ShardStatus) → ℕ
current_shards none = 0
current_shards (some shards) = length shards

-- A worker without shards is counted too.
unfoldable pub worker_count : WorkerMap → Option (List ShardStatus) → ℕ
worker_count workers none = length workers + 1
worker_count workers (some shards) = length workers

-- Whom to steal from, "" for nobody; `visited` are the workers in the order of the second `range`.
unfoldable pub worker_to_steal_from :
    KinesisClientLibConfiguration → String → (workers visited : WorkerMap) → String
worker_to_steal_from cfg worker_id workers visited =
    let num_shards = count_shards workers in
    let mine = shards_of worker_id workers in
    let optimal = num_shards / worker_count workers mine in
    if leb num_shards (length workers)
    then ""
    else if leb optimal (current_shards mine)
        || pos (current_shards mine) ==ℤ cfg.max_leases_for_worker
    then ""
    else pick_worker worker_id visited "" optimal

-- The shard behind the pointer that the cache holds has changed.
abbrev pub replace_shard : ShardStatus → ShardMap → ShardMap
replace_shard shard' [] = []
replace_shard shard' (shard ∷ shards) =
    if str_eq shard.id shard'.id then shard' ∷ shards else shard ∷ replace_shard shard' shards

-- What a call of rebalance leaves: the services, the cache, shardStealInProgress and the error.
pub record Rebalanced {ℓ κ} (K : Type ℓ) (S : Type κ) : Type (ℓ ⊔ κ) where
  pub kinesis : K
  pub table : S
  pub shards : ShardMap
  pub steal_in_progress : Bool
  pub error : Option Error

module _ (c : Checkpointer) (k : KinesisApi) (cfg : KinesisClientLibConfiguration)
    (worker_id : String) where
  -- The claim on the chosen shard. The flag is set before it, and cleared when it fails.
  unfoldable pub claim_chosen :
      Option ShardStatus → ShardMap → k.State → c.State → Option (Rebalanced k.State c.State)
  claim_chosen none shards ks s = none
  claim_chosen (some shard) shards ks s =
      let (s', shard', e) = c.claim_shard shard worker_id s in
      some (record {
        kinesis = ks;
        table = s';
        shards = replace_shard shard' shards;
        steal_in_progress = elim e [ none ↦ true | some _ ↦ false ];
        error = e;
      })

  abbrev stay : ShardMap → Bool → Option Error → k.State → c.State → Rebalanced k.State c.State
  stay shards flag e ks s = record {
    kinesis = ks;
    table = s;
    shards = shards;
    steal_in_progress = flag;
    error = e;
  }

  -- From the choice on. `rnd` is the random number below the length of the list; `visited` are the
  -- workers in the order of the `range`.
  unfoldable pub steal_chosen :
      ℕ
      → (workers visited : WorkerMap) → ShardMap
      → Bool
      → k.State
      → c.State
      → Option (Rebalanced k.State c.State)
  unfolding worker_to_steal_from claim_chosen
  steal_chosen rnd workers visited shards flag ks s =
      let from = worker_to_steal_from cfg worker_id workers visited in
      if str_eq from "" then some (stay shards flag none ks s) else elim (shards_of from workers) [
        | none ↦ none
        | some theirs ↦ elim (get_elem? theirs (rnd % length theirs)) [
          | none ↦ none
          | some shard ↦ claim_chosen (find_shard shard.id shards) shards ks s
        ]
      ]

  -- The check on an earlier steal, after the shards have been listed.
  unfoldable pub after_listing :
      ℕ
      → (workers visited : WorkerMap) → k.State × List String × ShardMap × Option Error
      → Bool
      → c.State
      → Option (Rebalanced k.State c.State)
  unfolding steal_pending steal_chosen
  after_listing rnd workers visited (ks, info, shards, some e) flag s =
      some (stay shards flag (some e) ks s)
  after_listing rnd workers visited (ks, info, shards, none) flag s =
      let (pending, flag') = steal_pending worker_id shards flag in
      if pending
      then some (stay shards flag' none ks s)
      else steal_chosen rnd workers visited shards flag' ks s

  unfoldable pub with_workers :
      ℕ
      → ℕ
      → (WorkerMap → WorkerMap)
      → Reply WorkerMap
      → ShardMap
      → Bool
      → k.State
      → c.State
      → Option (Rebalanced k.State c.State)
  unfolding after_listing steal_chosen get_shard_ids
  with_workers fuel rnd visit (failed e) shards flag ks s = some (stay shards flag (some e) ks s)
  with_workers fuel rnd visit (ok workers) shards false ks s =
      steal_chosen rnd workers (visit workers) shards false ks s
  with_workers fuel rnd visit (ok workers) shards true ks s =
      elim (get_shard_ids k fuel "" [] shards ks) [
        | none ↦ none
        | some listed ↦ after_listing rnd workers (visit workers) listed true s
      ]

  -- `visit` gives the order in which a `range` over a map of workers visits them, which is any.
  -- `none` stands for listing that runs out of fuel, or for a nil shard, which panics.
  unfoldable pub rebalance :
      ℕ
      → ℕ
      → (WorkerMap → WorkerMap)
      → SyncInstants
      → ShardMap
      → Bool
      → k.State
      → c.State
      → Option (Rebalanced k.State c.State)
  unfolding with_workers
  rebalance fuel rnd visit now shards flag ks s =
      let (s', shards', workers) = c.list_active_workers now shards s in
      with_workers fuel rnd visit workers shards' flag ks s'
