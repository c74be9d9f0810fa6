-- ===== src/Worker/Acquire/Round.antt =====
-- clientlibrary/worker/worker.go: what a round of eventLoop takes.
use vmware_go_kcl_v2_test.Prelude.{
  ◌++◌, length, suc, ◌≡◌, ◌≢◌, inl, inr, refl, sym, ◌∙◌, ap, String, Bool, Option, none, some, not,
  ◌&&◌, true, false, [], ◌∷◌, arith, str_eq, eq_iff, Bool-cases,
}
use vmware_go_kcl_v2_test.Prelude.Int.{pos, ◌<ℤ◌, ltb_ℤ→lt, ltb_ℤ}
use vmware_go_kcl_v2_test.Config.{KinesisClientLibConfiguration}
use vmware_go_kcl_v2_test.Partition.{ShardStatus}
use vmware_go_kcl_v2_test.Checkpoint.{Error, shard_end}
use vmware_go_kcl_v2_test.Checkpoint.Lease.{Instants}
use vmware_go_kcl_v2_test.Checkpoint.Claim.{blocking}
use vmware_go_kcl_v2_test.Checkpoint.Workers.{ShardMap}
use vmware_go_kcl_v2_test.Checkpoint.Checkpointer.{Checkpointer}
use vmware_go_kcl_v2_test.Worker.Acquire.{
  RoundInstants, Claimed, unclaimed, steals, stolen_by_another, Visit, goes_on, took, claimed,
  try_lease, after_fetch, visit_shard, visit_rest, acquire_loop, acquire, stole, count_leases,
}

-- What the round relies on: GetLease keeps the shard's id and checkpoint, and on success makes the
-- worker its cached owner; FetchCheckpoint keeps the id.
pub record GrantsLeases (c : Checkpointer) : Type 1 where
  pub keeps_id :
      (now : Instants) (shard : ShardStatus) (w : String) (s : c.State)
      → (c.get_lease now shard w s).1.id ≡ shard.id
  pub keeps_checkpoint :
      (now : Instants) (shard : ShardStatus) (w : String) (s : c.State)
      → (c.get_lease now shard w s).1.checkpoint ≡ shard.checkpoint
  pub owns :
      (now : Instants) (shard : ShardStatus) (w : String) (s : c.State)
      → (c.get_lease now shard w s).2 ≡ none
      → (c.get_lease now shard w s).1.assigned_to ≡ w
  pub fetch_keeps_id :
      (shard : ShardStatus) (s : c.State) → (c.fetch_checkpoint shard s).1.id ≡ shard.id

module _ (c : Checkpointer) (grants : GrantsLeases c) (cfg : KinesisClientLibConfiguration)
    (worker_id : String) where
  -- A lease that was taken: of a shard that the worker did not own, which it owns now, and which is
  -- not finished.
  pub record Gained (shard shard' : ShardStatus) : Type 0 where
    pub same : shard'.id ≡ shard.id
    pub before : shard.assigned_to ≢ worker_id
    pub after : shard'.assigned_to ≡ worker_id
    pub unfinished : shard'.checkpoint ≢ shard_end

  -- The shard as a successful GetLease leaves it.
  abbrev Owned : ShardStatus → ShardStatus → Type 0
  Owned shard shard' =
      (shard'.id ≡ shard.id)
      × (shard'.assigned_to ≡ worker_id)
      × (shard'.checkpoint ≡ shard.checkpoint)

  granted-Owned :
      (now : RoundInstants) (shard : ShardStatus) (s : c.State)
      → (c.get_lease now.lease shard worker_id s).2 ≡ none
      → Owned shard (c.get_lease now.lease shard worker_id s).1
  granted-Owned now shard s e = (
    grants.keeps_id now.lease shard worker_id s,
    grants.owns now.lease shard worker_id s e,
    grants.keeps_checkpoint now.lease shard worker_id s,
  )

  try_lease-Owned :
      (claim : Claimed) (now : RoundInstants) (shard : ShardStatus) (s : c.State) (steal : Bool)
      → (try_lease c cfg worker_id claim now shard s).2 ≡ took steal
      → Owned shard (try_lease c cfg worker_id claim now shard s).1
  unfolding try_lease
  try_lease-Owned stolen_by_another now shard s steal h = cc
  try_lease-Owned unclaimed now shard s steal h = granted-Owned now shard s (ground arith)
  try_lease-Owned steals now shard s steal h = granted-Owned now shard s (ground arith)

  after_fetch-Owned :
      (e : Option Error) (now : RoundInstants) (shard : ShardStatus) (s : c.State) (steal : Bool)
      → (after_fetch c cfg worker_id e now shard s).2 ≡ took steal
      → Owned shard (after_fetch c cfg worker_id e now shard s).1 × (shard.checkpoint ≢ shard_end)
  unfolding after_fetch
  after_fetch-Owned (some e) now shard s steal h = cc
  after_fetch-Owned none now shard s steal h =
      elim (Bool-cases (str_eq shard.checkpoint shard_end)) [
        | inl finished ↦ absurd (ground arith)
        | inr live ↦ rw live (
          try_lease-Owned (claimed cfg worker_id now shard) now shard s steal (ground arith),
          λ e. ground (arith, eq_iff shard.checkpoint shard_end),
        )
      ]

  after_fetch-Gained :
      (now : RoundInstants) (shard : ShardStatus) (s : c.State) (steal : Bool)
      → (shard.assigned_to ≢ worker_id)
      → (let (s', shard', e) = c.fetch_checkpoint shard s in
          let next = after_fetch c cfg worker_id (blocking e) now shard' s' in
          (next.2 ≡ took steal) → Gained shard next.1)
  after_fetch-Gained now shard s steal other h =
      let fetch = c.fetch_checkpoint shard s in
      let ((id, owner, checkpoint), live) =
        after_fetch-Owned (blocking fetch.2) now fetch.1 fetch.0 steal h in
      record {
        same = id ∙ grants.fetch_keeps_id shard s;
        before = other;
        after = owner;
        unfinished = λ e. live (sym checkpoint ∙ e);
      }

  visit_shard-Gained :
      (now : RoundInstants) (shard : ShardStatus) (s : c.State) (steal : Bool)
      → (visit_shard c cfg worker_id now shard s).2 ≡ took steal
      → Gained shard (visit_shard c cfg worker_id now shard s).1
  unfolding visit_shard
  visit_shard-Gained now shard s steal h = elim (Bool-cases (str_eq shard.assigned_to worker_id)) [
    | inl own ↦ absurd (ground arith)
    | inr other ↦ rw other (
        after_fetch-Gained now shard s steal
          (λ e. ground (arith, eq_iff shard.assigned_to worker_id)) (ground arith))
  ]

  -- The cache after a round that took a lease: the shards after the one taken are as they were.
  pub record Took (shards shards' : ShardMap) (shard' : ShardStatus) : Type 0 where
    pub before_it : ShardMap
    pub before_it' : ShardMap
    pub after_it : ShardMap
    pub shard : ShardStatus
    pub split : shards ≡ before_it ++ shard ∷ after_it
    pub split' : shards' ≡ before_it' ++ shard' ∷ after_it
    pub visited : length before_it' ≡ length before_it
    pub gained : Gained shard shard'

  Took-first :
      (shards : ShardMap) {shard shard' : ShardStatus}
      → Gained shard shard'
      → Took (shard ∷ shards) (shard' ∷ shards) shard'
  Took-first shards {shard} {shard'} g = record {
    before_it = [];
    before_it' = [];
    after_it = shards;
    shard = shard;
    split = refl;
    split' = refl;
    visited = refl;
    gained = g;
  }

  Took-later :
      (first first' : ShardStatus) {shards shards' : ShardMap} {shard' : ShardStatus}
      → Took shards shards' shard'
      → Took (first ∷ shards) (first' ∷ shards') shard'
  Took-later first first' t = record {
    before_it = first ∷ t.before_it;
    before_it' = first' ∷ t.before_it';
    after_it = t.after_it;
    shard = t.shard;
    split = ap (λ x. first ∷ x) t.split;
    split' = ap (λ x. first' ∷ x) t.split';
    visited = ap suc t.visited;
    gained = t.gained;
  }

  first_of : (p q : ShardStatus × Bool) → some p ≡ some q → p.0 ≡ q.0
  first_of p q h = cc

  visit_rest-Took :
      (first : ShardStatus) (shards : ShardMap)
      (rest : c.State → c.State × ShardMap × Option (ShardStatus × Bool))
      (visit : c.State × ShardStatus × Visit) {shard' : ShardStatus} {steal : Bool}
      → ((stolen : Bool) → visit.2 ≡ took stolen → Gained first visit.1)
      → ((rest visit.0).2 ≡ some (shard', steal) → Took shards (rest visit.0).1 shard')
      → (visit_rest c cfg worker_id visit shards rest).2 ≡ some (shard', steal)
      → Took (first ∷ shards) (visit_rest c cfg worker_id visit shards rest).1 shard'
  visit_rest-Took first shards rest (s', first', took b) {shard'} {steal} gained later h =
      let same : first' ≡ shard' = first_of (first', b) (shard', steal) h in
      rw (← same) (Took-first shards (gained b refl))
  visit_rest-Took first shards rest (s', first', goes_on) gained later h =
      Took-later first first' (later h)

  acquire_loop-Took :
      (now : String → RoundInstants) (shards : ShardMap) (s : c.State) {shard' : ShardStatus}
      {steal : Bool}
      → (acquire_loop c cfg worker_id now shards s).2 ≡ some (shard', steal)
      → Took shards (acquire_loop c cfg worker_id now shards s).1 shard'
  unfolding acquire_loop
  acquire_loop-Took now [] s h = cc
  acquire_loop-Took now (first ∷ shards) s h =
      let visit = visit_shard c cfg worker_id (now first.id) first s in
      visit_rest-Took first shards (acquire_loop c cfg worker_id now shards) visit
        (λ b. visit_shard-Gained (now first.id) first s b) (acquire_loop-Took now shards visit.0) h

  stole_flag :
      (steal : Bool) (shard' : ShardStatus) (flag : Bool)
      → stole c cfg worker_id (some (shard', steal)) flag ≡ (not steal && flag)
  stole_flag true _ _ = refl
  stole_flag false _ _ = refl

  -- A round takes a lease only while the worker holds fewer unfinished leases than
  -- MaxLeasesForWorker, and it takes at most one: the shards after the one taken are left as they
  -- were. The shard taken is not one that the worker owned, is its own now, and is not at
  -- SHARD_END; a steal clears shardStealInProgress, and nothing sets it. (GetLease keeps a shard's id and
  -- checkpoint and names the worker as owner when it succeeds; FetchCheckpoint keeps the id.)
  pub acquire_one :
      (now : String → RoundInstants) (shards : ShardMap) (flag : Bool) (s : c.State)
      {shard' : ShardStatus} {steal : Bool}
      → (acquire c cfg worker_id now shards flag s).2 ≡ some (shard', steal)
      → (pos (count_leases worker_id shards) <ℤ cfg.max_leases_for_worker)
        × Took shards (acquire c cfg worker_id now shards flag s).1 shard'
        × ((acquire c cfg worker_id now shards flag s).3 ≡ (not steal && flag))
  unfolding acquire
  acquire_one now shards flag s {shard'} {steal} h =
      elim (Bool-cases (ltb_ℤ (pos (count_leases worker_id shards)) cfg.max_leases_for_worker)) [
        | inl fewer ↦
            let e : (acquire_loop c cfg worker_id now shards s).2 ≡ some (shard', steal) =
              ground arith in
            (
              ltb_ℤ→lt (pos (count_leases worker_id shards)) cfg.max_leases_for_worker fewer,
              rw fewer (acquire_loop-Took now shards s e),
              rw fewer (rw e (stole_flag steal shard' flag)),
            )
        | inr full ↦ absurd (ground arith)
      ]
