-- ===== src/Worker/Acquire/Starvation.antt =====
-- clientlibrary/worker/worker.go: a shard that eventLoop takes for its own without a lease.
use vmware_go_kcl_v2_test.Prelude.{
  ◌≡◌, refl, ◌∙◌, String, none, some, arith, str_eq, eq_iff, Bool-cases, inl, inr,
}
use vmware_go_kcl_v2_test.Config.{KinesisClientLibConfiguration}
use vmware_go_kcl_v2_test.Partition.{ShardStatus}
use vmware_go_kcl_v2_test.Checkpoint.{Error, shard_end}
use vmware_go_kcl_v2_test.Checkpoint.Claim.{blocking}
use vmware_go_kcl_v2_test.Checkpoint.Checkpointer.{Checkpointer}
use vmware_go_kcl_v2_test.Worker.Acquire.{
  RoundInstants, Claimed, unclaimed, steals, stolen_by_another, Visit, goes_on, claimed, try_lease,
  after_fetch, visit_shard,
}

module _ (c : Checkpointer) (cfg : KinesisClientLibConfiguration) (worker_id : String) where
  own_shard_skipped :
      (now : RoundInstants) (shard : ShardStatus) (s : c.State)
      → shard.assigned_to ≡ worker_id
      → visit_shard c cfg worker_id now shard s ≡ (s, shard, goes_on)
  unfolding visit_shard
  own_shard_skipped now shard s own = ground (arith, eq_iff shard.assigned_to worker_id)

  -- The visit took no lease, and left the worker as the cached owner.
  abbrev LeftOwned : c.State × ShardStatus × Visit → Type 0
  LeftOwned (s, shard, v) = (shard.assigned_to ≡ worker_id) × (v ≡ goes_on)

  try_lease-LeftOwned :
      (claim : Claimed) (now : RoundInstants) (shard : ShardStatus) (s : c.State) (e : Error)
      → shard.assigned_to ≡ worker_id
      → (c.get_lease now.lease shard worker_id s).2 ≡ some e
      → (c.get_lease now.lease shard worker_id s).1.assigned_to ≡ shard.assigned_to
      → LeftOwned (try_lease c cfg worker_id claim now shard s)
  unfolding try_lease
  try_lease-LeftOwned stolen_by_another now shard s e own failed kept = (own, refl)
  try_lease-LeftOwned unclaimed now shard s e own failed kept = (kept ∙ own, rw failed refl)
  try_lease-LeftOwned steals now shard s e own failed kept = (kept ∙ own, rw failed refl)

  after_fetch-LeftOwned :
      (now : RoundInstants) (shard : ShardStatus) (s : c.State) (e : Error)
      → shard.assigned_to ≡ worker_id
      → (c.get_lease now.lease shard worker_id s).2 ≡ some e
      → (c.get_lease now.lease shard worker_id s).1.assigned_to ≡ shard.assigned_to
      → LeftOwned (after_fetch c cfg worker_id none now shard s)
  unfolding after_fetch
  after_fetch-LeftOwned now shard s e own failed kept =
      elim (Bool-cases (str_eq shard.checkpoint shard_end)) [
        | inl finished ↦ ground arith
        | inr live ↦
            let left =
              try_lease-LeftOwned (claimed cfg worker_id now shard) now shard s e own failed kept in
            ground arith
      ]

  visit_shard-LeftOwned :
      (now : RoundInstants) (shard : ShardStatus) (s : c.State) (e : Error)
      → (c.fetch_checkpoint shard s).2 ≡ none
      → (c.fetch_checkpoint shard s).1.assigned_to ≡ worker_id
      → (let (s', fetched, _) = c.fetch_checkpoint shard s in
          ((c.get_lease now.lease fetched worker_id s').2 ≡ some e)
          × ((c.get_lease now.lease fetched worker_id s').1.assigned_to ≡ fetched.assigned_to))
      → LeftOwned (visit_shard c cfg worker_id now shard s)
  unfolding visit_shard
  visit_shard-LeftOwned now shard s e found own (failed, kept) =
      let (s', fetched, _) = c.fetch_checkpoint shard s in
      let left : LeftOwned
          (after_fetch c cfg worker_id (blocking (c.fetch_checkpoint shard s).2) now fetched s') =
        rw found (after_fetch-LeftOwned now fetched s' e own failed kept) in
      elim (Bool-cases (str_eq shard.assigned_to worker_id)) [
        | inl mine ↦ ground (arith, eq_iff shard.assigned_to worker_id)
        | inr other ↦ ground arith
      ]

  -- When the row names the worker as owner, as it does after a restart under the same id or after a
  -- release that failed, and GetLease then fails, the cached shard keeps the worker as its owner: the round
  -- starts no consumer for it, and no later visit asks for the lease again, whatever the time and
  -- the state of the table. (The failed GetLease keeps the cached owner.)
  pub failed_lease_starves :
      (now : RoundInstants) (shard : ShardStatus) (s : c.State) (e : Error)
      → (c.fetch_checkpoint shard s).2 ≡ none
      → (c.fetch_checkpoint shard s).1.assigned_to ≡ worker_id
      → (let (s', fetched, _) = c.fetch_checkpoint shard s in
          ((c.get_lease now.lease fetched worker_id s').2 ≡ some e)
          × ((c.get_lease now.lease fetched worker_id s').1.assigned_to ≡ fetched.assigned_to))
      → let (s', shard', v) = visit_shard c cfg worker_id now shard s in
        (v ≡ goes_on)
        × ((later : RoundInstants) (t : c.State)
            → visit_shard c cfg worker_id later shard' t ≡ (t, shard', goes_on))
  failed_lease_starves now shard s e found own failed =
      let (mine, v) = visit_shard-LeftOwned now shard s e found own failed in
      (v, λ later t. own_shard_skipped later _ t mine)
