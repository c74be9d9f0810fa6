-- ===== src/Checkpoint/Workers/Grouping.antt =====
-- clientlibrary/checkpoint/dynamodb-checkpointer.go: the map that ListActiveWorkers returns.
use mathlib.Core.Option.{some-injective}
use vmware_go_kcl_v2_test.Prelude.{
  ℕ, zero, suc, get_elem?, subst, ◌≡◌, inl, inr, refl, sym, ap, ◌∙◌, String, Bool, true, false, not,
  ◌&&◌, ◌||◌, Option, none, some, List, [], ◌∷◌, ◌++◌, arith, str_eq, eq_iff, Bool-cases,
  if◌then◌else◌,
}
use vmware_go_kcl_v2_test.Partition.{ShardStatus, get_checkpoint, get_lease_owner}
use vmware_go_kcl_v2_test.Checkpoint.{shard_end, Error, Reply, ok, failed, shard_not_assigned}
use vmware_go_kcl_v2_test.Checkpoint.Service.{DynamoDbApi}
use vmware_go_kcl_v2_test.Checkpoint.Dynamo.{DynamoCheckpoint}
use vmware_go_kcl_v2_test.Checkpoint.Workers.{
  ShardMap, WorkerMap, add_to_worker, group_by_owner, SyncInstants, sync_leases, active_workers,
  list_active_workers,
}

-- workers[w], the empty list where there is none.
abbrev pub entry : String → WorkerMap → List ShardStatus
entry w [] = []
entry w ((worker, shards) ∷ workers) = if str_eq worker w then shards else entry w workers

-- The unfinished shards of a worker, in the order of the cache.
abbrev pub active : String → ShardMap → List ShardStatus
active w [] = []
active w (shard ∷ shards) =
    if not (str_eq shard.checkpoint shard_end) && str_eq shard.assigned_to w
    then shard ∷ active w shards
    else active w shards

-- Whether an unfinished shard has no owner.
abbrev pub has_unassigned : ShardMap → Bool
has_unassigned [] = false
has_unassigned (shard ∷ shards) =
    (not (str_eq shard.checkpoint shard_end) && str_eq shard.assigned_to "")
    || has_unassigned shards

append-snoc :
    (xs : List ShardStatus) (x : ShardStatus) (ys : List ShardStatus)
    → (xs ++ x ∷ []) ++ ys ≡ xs ++ x ∷ ys
append-snoc [] x ys = refl
append-snoc (z ∷ xs) x ys = ap (λ l. z ∷ l) (append-snoc xs x ys)

entry-add_to_worker :
    (w : String) (shard : ShardStatus) (owner : String) (workers : WorkerMap)
    → entry w (add_to_worker shard owner workers)
      ≡ (if str_eq owner w then entry w workers ++ shard ∷ [] else entry w workers)
unfolding add_to_worker
entry-add_to_worker w shard owner [] = ground arith
entry-add_to_worker w shard owner ((v, shards) ∷ workers) =
    ground
      (arith, eq_iff v owner, eq_iff v w, eq_iff owner w, entry-add_to_worker w shard owner workers)

-- What the loop returns from a map on.
record Extends (shards : ShardMap) (workers : WorkerMap) (reply : Reply WorkerMap) : Type 0 where
  fails : has_unassigned shards ≡ true → reply ≡ failed shard_not_assigned
  result :
      has_unassigned shards ≡ false
      → (found : WorkerMap) × (reply ≡ ok found)
        × ((w : String) → entry w found ≡ entry w workers ++ active w shards)

append-nil : (xs : List ShardStatus) → xs ++ [] ≡ xs
append-nil [] = refl
append-nil (x ∷ xs) = ap (λ l. x ∷ l) (append-nil xs)

entry_then_active :
    (w : String) (shard : ShardStatus) (shards : ShardMap) (workers : WorkerMap)
    → str_eq shard.checkpoint shard_end ≡ false
    → entry w (add_to_worker shard shard.assigned_to workers) ++ active w shards
      ≡ entry w workers ++ active w (shard ∷ shards)
entry_then_active w shard shards workers live = elim (Bool-cases (str_eq shard.assigned_to w)) [
  | inl same ↦
      rw (entry-add_to_worker w shard shard.assigned_to workers, live, same)
        (append-snoc (entry w workers) shard (active w shards))
  | inr other ↦ rw (entry-add_to_worker w shard shard.assigned_to workers, live, other) refl
]

group_by_owner-Extends :
    (shards : ShardMap) (workers : WorkerMap)
    → Extends shards workers (group_by_owner shards workers)
unfolding group_by_owner get_checkpoint get_lease_owner
group_by_owner-Extends [] workers = record {
  fails = λ h. cc;
  result = λ _. (workers, refl, λ w. sym (append-nil (entry w workers)));
}
group_by_owner-Extends (shard ∷ shards) workers =
    let skip = group_by_owner-Extends shards workers in
    let keep = group_by_owner-Extends shards (add_to_worker shard shard.assigned_to workers) in
    elim (Bool-cases (str_eq shard.checkpoint shard_end)) [
      | inl finished ↦ rw finished record {
        fails = λ h. skip.fails (ground arith);
        result = λ h.
            let (found, e, q) = skip.result (ground arith) in
            (found, e, λ w. q w ∙ rw finished refl);
      }
      | inr live ↦ elim (Bool-cases (str_eq shard.assigned_to "")) [
        | inl unowned ↦
            rw (live, unowned) record { fails = λ _. refl; result = λ h. absurd (ground arith) }
        | inr owned ↦
            rw (live, owned)
              record {
                fails = λ h. keep.fails (ground arith);
                result = λ h.
                    let (found, e, q) = keep.result (ground arith) in
                    (found, e, λ w. q w ∙ entry_then_active w shard shards workers live);
              }
      ]
    ]

-- What ListActiveWorkers makes of the cache.
pub record Grouped (shards : ShardMap) (reply : Reply WorkerMap) : Type 0 where
  pub fails : has_unassigned shards ≡ true → reply ≡ failed shard_not_assigned
  pub result :
      has_unassigned shards ≡ false
      → (workers : WorkerMap) × (reply ≡ ok workers)
        × ((w : String) → entry w workers ≡ active w shards)

Grouped-entry :
    (shards : ShardMap) (reply : Reply WorkerMap) (workers : WorkerMap)
    → Grouped shards reply
    → reply ≡ ok workers
    → (w : String) → entry w workers ≡ active w shards
Grouped-entry shards reply workers g h w = elim (Bool-cases (has_unassigned shards)) [
  | inl some_unassigned ↦ absurd (cc (g.fails some_unassigned, h))
  | inr all_assigned ↦
      let (found, e, q) = g.result all_assigned in
      let same : found ≡ workers = cc in ap (entry w) (sym same) ∙ q w
]

group_by_owner-Grouped : (shards : ShardMap) → Grouped shards (group_by_owner shards [])
group_by_owner-Grouped shards =
    let x = group_by_owner-Extends shards [] in record { fails = x.fails; result = x.result }

module _ (db : DynamoDbApi) where
  active_workers-Grouped :
      (e : Option Error) (s : db.State) (c : DynamoCheckpoint) (shards : ShardMap)
      → e ≡ none
      → Grouped (active_workers db e s c shards).2 (active_workers db e s c shards).3
  unfolding active_workers
  active_workers-Grouped none s c shards h = group_by_owner-Grouped shards
  active_workers-Grouped (some e) s c shards h = cc

  -- When the leases are synchronised without an error, or no synchronisation is due,
  -- ListActiveWorkers sorts the cached shards by owner: each worker has the unfinished shards that
  -- the cache gives it, in the order of the cache, and no others. If an unfinished shard has no owner, the
  -- call fails with the error for that instead.
  pub list_active_workers-Grouped :
      (c : DynamoCheckpoint) (now : SyncInstants) (shards : ShardMap) (s : db.State)
      → (sync_leases db c now shards s).3 ≡ none
      → let (s', c', cache, reply) = list_active_workers db c now shards s in Grouped cache reply
  unfolding list_active_workers
  list_active_workers-Grouped c now shards s h = active_workers-Grouped _ _ _ _ h

  active_workers_ok :
      (e : Option Error) (s : db.State) (c : DynamoCheckpoint) (shards : ShardMap)
      (workers : WorkerMap)
      → (active_workers db e s c shards).3 ≡ ok workers
      → e ≡ none
  unfolding active_workers
  active_workers_ok none s c shards workers h = refl
  active_workers_ok (some e) s c shards workers h = cc

  -- Workers that ListActiveWorkers returns are those of the cache that it leaves.
  pub list_active_workers_ok :
      (c : DynamoCheckpoint) (now : SyncInstants) (shards : ShardMap) (s : db.State)
      (workers : WorkerMap)
      → let (s', c', cache, reply) = list_active_workers db c now shards s in
        (reply ≡ ok workers) → (w : String) → entry w workers ≡ active w cache
  unfolding list_active_workers active_workers
  list_active_workers_ok c now shards s workers h =
      let synced = active_workers_ok (sync_leases db c now shards s).3 _ _ _ workers h in
      Grouped-entry _ _ workers (list_active_workers-Grouped c now shards s synced) h

-- A shard that the cache gives to the worker.
abbrev pub Owned : String → ShardStatus → Type 0
Owned w shard = (shard.assigned_to ≡ w) × (str_eq shard.checkpoint shard_end ≡ false)

Owned-cons :
    (w : String) (x : ShardStatus) (xs : List ShardStatus) (i : ℕ) (shard : ShardStatus)
    → Owned w x
    → ((j : ℕ) → get_elem? xs j ≡ some shard → Owned w shard)
    → get_elem? (x ∷ xs) i ≡ some shard
    → Owned w shard
Owned-cons w x xs zero shard own rest h = subst (Owned w) (some-injective _ _ h) own
Owned-cons w x xs (suc i) shard own rest h = rest i h

pub active-Owned :
    (w : String) (shards : ShardMap) (i : ℕ) (shard : ShardStatus)
    → get_elem? (active w shards) i ≡ some shard
    → Owned w shard
active-Owned w [] i shard h = cc
active-Owned w (x ∷ xs) i shard h =
    elim (Bool-cases (not (str_eq x.checkpoint shard_end) && str_eq x.assigned_to w)) [
      | inl its ↦
          let own : Owned w x = (ground (arith, eq_iff x.assigned_to w), ground arith) in
          Owned-cons w x (active w xs) i shard own (λ j. active-Owned w xs j shard) (rw its at h)
      | inr other ↦ active-Owned w xs i shard (rw other at h)
    ]
