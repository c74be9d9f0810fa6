-- ===== src/Worker/Shards/Sync.antt =====
-- clientlibrary/worker/worker.go: after syncShard the cache has the shards that Kinesis lists.
use vmware_go_kcl_v2_test.Prelude.{
  ℕ, zero, suc, ◌≡◌, ◌∙◌, refl, String, Bool, true, false, ◌&&◌, ◌||◌, Option, none, some, List, [],
  ◌∷◌, ◌++◌, arith, str_eq, eq_iff, inl, inr, Option-cases, if◌then◌else◌,
}
use vmware_go_kcl_v2_test.Partition.{ShardStatus}
use vmware_go_kcl_v2_test.Checkpoint.{ok, failed, Reply-cases}
use vmware_go_kcl_v2_test.Checkpoint.Workers.{ShardMap}
use vmware_go_kcl_v2_test.Checkpoint.Checkpointer.{Checkpointer}
use vmware_go_kcl_v2_test.Kinesis.{Shard, KinesisApi}
use vmware_go_kcl_v2_test.Worker.Shards.{
  contains, has_shard, find_shard, new_shard_status, add_shards, get_shard_ids, remove_stale,
  sync_shard,
}

abbrev pub is_listed : String → List Shard → Bool
is_listed id [] = false
is_listed id (s ∷ ss) = str_eq s.shard_id id || is_listed id ss

-- All the shards that Kinesis lists, page after page: `none` if a call fails or fuel runs out.
unfoldable pub listing : (k : KinesisApi) → ℕ → String → k.State → Option (k.State × List Shard)
listing k zero token s = none
listing k (suc fuel) token s =
    let (s', reply) = k.list_shards token s in
    elim reply [
      | failed e ↦ none
      | ok page ↦ elim page.next_token [
        | none ↦ some (s', page.shards)
        | some next ↦ elim (listing k fuel next s') [
          | none ↦ none
          | some rest ↦ some (rest.0, page.shards ++ rest.1)
        ]
      ]
    ]

has_shard-append :
    (id : String) (xs ys : ShardMap)
    → has_shard id (xs ++ ys) ≡ (has_shard id xs || has_shard id ys)
has_shard-append id [] ys = refl
has_shard-append id (x ∷ xs) ys = ground (arith, has_shard-append id xs ys)

find-append :
    (id : String) (xs ys : ShardMap) {x : ShardStatus}
    → find_shard id xs ≡ some x
    → find_shard id (xs ++ ys) ≡ some x
find-append id [] ys h = cc
find-append id (y ∷ xs) ys {x} h = ground (arith, find-append id xs ys {x = x})

add_shards-append :
    (ss ts : List Shard) (info : List String) (shards : ShardMap)
    → add_shards (ss ++ ts) info shards
      ≡ add_shards ts (add_shards ss info shards).0 (add_shards ss info shards).1
unfolding add_shards
add_shards-append [] ts info shards = refl
add_shards-append (s ∷ ss) ts info shards = add_shards-append ss ts _ _

contains-add_shards :
    (id : String) (ss : List Shard) (info : List String) (shards : ShardMap)
    → contains id (add_shards ss info shards).0 ≡ (is_listed id ss || contains id info)
unfolding add_shards
contains-add_shards id [] info shards = refl
contains-add_shards id (s ∷ ss) info shards = contains-add_shards id ss _ _ ∙ ground arith

has_shard-added :
    (id : String) (s : Shard) (shards : ShardMap)
    → has_shard id
        (if has_shard s.shard_id shards then shards else shards ++ new_shard_status s ∷ [])
      ≡ (str_eq s.shard_id id || has_shard id shards)
unfolding new_shard_status
has_shard-added id s shards =
    ground (arith, eq_iff s.shard_id id, has_shard-append id shards (new_shard_status s ∷ []))

has_shard-add_shards :
    (id : String) (ss : List Shard) (info : List String) (shards : ShardMap)
    → has_shard id (add_shards ss info shards).1 ≡ (is_listed id ss || has_shard id shards)
unfolding add_shards new_shard_status
has_shard-add_shards id [] info shards = refl
has_shard-add_shards id (s ∷ ss) info shards =
    has_shard-add_shards id ss _ _ ∙ ground (arith, has_shard-added id s shards)

find-add_shards :
    (id : String) (ss : List Shard) (info : List String) (shards : ShardMap) {x : ShardStatus}
    → find_shard id shards ≡ some x
    → find_shard id (add_shards ss info shards).1 ≡ some x
unfolding add_shards
find-add_shards id [] info shards h = h
find-add_shards id (s ∷ ss) info shards {x} h =
    find-add_shards id ss _ _
      (ground (arith, find-append id shards (new_shard_status s ∷ []) {x = x} h))

-- Listing the pages is adding the whole list.
get_shard_ids-listing :
    (k : KinesisApi) (fuel : ℕ) (token : String) (info : List String) (shards : ShardMap)
    (s t : k.State) (ss : List Shard)
    → listing k fuel token s ≡ some (t, ss)
    → get_shard_ids k fuel token info shards s
      ≡ some (t, (add_shards ss info shards).0, (add_shards ss info shards).1, none)
unfolding get_shard_ids listing
get_shard_ids-listing k zero token info shards s t ss h = cc
get_shard_ids-listing k (suc fuel) token info shards s t ss h =
    let r = k.list_shards token s in
    elim (Reply-cases r.1) [
      | inl (e, q) ↦ absurd (ground arith)
      | inr (page, q) ↦ elim (Option-cases page.next_token) [
        | inl last ↦ ground arith
        | inr (next, more) ↦ elim (Option-cases (listing k fuel next r.0)) [
          | inl lost ↦ absurd (ground arith)
          | inr ((u, rest), found) ↦
              let (info', shards') = add_shards page.shards info shards in
              ground (
                arith,
                get_shard_ids-listing k fuel next info' shards' r.0 u rest found,
                add_shards-append page.shards rest info shards,
              )
        ]
      ]
    ]

module _ (c : Checkpointer) where
  has_shard-remove_stale :
      (id : String) (info : List String) (shards : ShardMap) (s : c.State)
      → has_shard id (remove_stale c info shards s).1 ≡ (has_shard id shards && contains id info)
  unfolding remove_stale
  has_shard-remove_stale id info [] s = refl
  has_shard-remove_stale id info (shard ∷ shards) s = ground (
    arith,
    eq_iff shard.id id,
    has_shard-remove_stale id info shards s,
    has_shard-remove_stale id info shards (c.remove_lease_info shard.id s).0,
  )

  find-remove_stale :
      (id : String) (info : List String) (shards : ShardMap) (s : c.State)
      → contains id info ≡ true
      → find_shard id (remove_stale c info shards s).1 ≡ find_shard id shards
  unfolding remove_stale
  find-remove_stale id info [] s h = refl
  find-remove_stale id info (shard ∷ shards) s h = ground (
    arith,
    eq_iff shard.id id,
    find-remove_stale id info shards s h,
    find-remove_stale id info shards (c.remove_lease_info shard.id s).0 h,
  )

-- The cache has exactly the listed shards, and those that it had are as they were.
pub record Synced (ss : List Shard) (shards result : ShardMap) : Type 0 where
  pub present : (id : String) → has_shard id result ≡ is_listed id ss
  pub kept :
      (id : String) (x : ShardStatus)
      → find_shard id shards ≡ some x
      → is_listed id ss ≡ true
      → find_shard id result ≡ some x

module _ (c : Checkpointer) where
  removed-Synced :
      (ss : List Shard) (shards : ShardMap) (s : c.State)
      → let (info, added) = add_shards ss [] shards in
        Synced ss shards (remove_stale c info added s).1
  removed-Synced ss shards s =
      let (info, added) = add_shards ss [] shards in
      record {
        present = λ id. ground (
          arith,
          has_shard-remove_stale c id info added s,
          has_shard-add_shards id ss [] shards,
          contains-add_shards id ss [] shards,
        );
        kept = λ id x old listed.
            find-remove_stale c id info added s
              (ground (arith, contains-add_shards id ss [] shards))
            ∙ find-add_shards id ss [] shards old;
      }

  -- When every page of the listing is answered and the pages end within the fuel, syncShard returns
  -- without an error and leaves in the cache exactly the shards that Kinesis lists: those that were
  -- cached are unchanged, new ones are added, and the others are gone, also if the removal of their
  -- rows failed.
  pub sync_shard-Synced :
      (k : KinesisApi) (fuel : ℕ) (shards : ShardMap) (ks t : k.State) (s : c.State)
      (ss : List Shard)
      → listing k fuel "" ks ≡ some (t, ss)
      → (s' : c.State) × (result : ShardMap) × (sync_shard c k fuel shards ks s
          ≡ some (t, s', result, none))
        × Synced ss shards result
  unfolding sync_shard
  sync_shard-Synced k fuel shards ks t s ss h =
      let (info, added) = add_shards ss [] shards in
      let removed = remove_stale c info added s in
      (
        removed.0,
        removed.1,
        rw (get_shard_ids-listing k fuel "" [] shards ks t ss h, sync_shard),
        removed-Synced ss shards s,
      )
