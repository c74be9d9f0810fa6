-- ===== src/Worker/Acquire.antt =====
-- clientlibrary/worker/worker.go: the part of eventLoop that takes at most one lease in a round.
pub mod Round
pub mod Granting
pub mod Starvation
use vmware_go_kcl_v2_test.Prelude.{
  ℕ, zero, suc, ◌+◌, String, Bool, true, false, not, ◌&&◌, ◌||◌, Option, none, some, List, [], ◌∷◌,
  str_eq, if◌then◌else◌,
}
use vmware_go_kcl_v2_test.Prelude.Int.{pos, ◌+ℤ◌, ltb_ℤ}
use vmware_go_kcl_v2_test.Config.{KinesisClientLibConfiguration}
use vmware_go_kcl_v2_test.Partition.{
  Time, ShardStatus, milliseconds, get_checkpoint, get_lease_owner, get_lease_timeout,
  is_claim_request_expired,
}
use vmware_go_kcl_v2_test.Checkpoint.{Error, shard_end}
use vmware_go_kcl_v2_test.Checkpoint.Lease.{Instants}
use vmware_go_kcl_v2_test.Checkpoint.Claim.{blocking}
use vmware_go_kcl_v2_test.Checkpoint.Workers.{ShardMap}
use vmware_go_kcl_v2_test.Checkpoint.Checkpointer.{Checkpointer}

-- The leases that the worker holds, processed shards left out.
unfoldable pub count_leases : String → ShardMap → ℕ
unfolding get_checkpoint get_lease_owner
count_leases worker_id [] = 0
count_leases worker_id (shard ∷ shards) =
    (if str_eq (get_lease_owner shard) worker_id && not (str_eq (get_checkpoint shard) shard_end)
      then 1
      else 0)
    + count_leases worker_id shards

-- The readings of the clock for one shard: for the upcoming stealing interval, for the claim's
-- expiry, and in GetLease.
pub record RoundInstants : Type 0 where
  pub upcoming : Time
  pub claim : Time
  pub lease : Instants

-- What the claim on a shard means for the round: nothing, a steal, or that another worker steals it.
pub data Claimed : Type 0 where
  unclaimed steals stolen_by_another : Claimed

unfoldable pub claimed :
    KinesisClientLibConfiguration → String → RoundInstants → ShardStatus → Claimed
unfolding get_lease_timeout
claimed cfg worker_id now shard =
    let upcoming = now.upcoming +ℤ milliseconds cfg.lease_stealing_interval_millis in
    if cfg.enable_lease_stealing
      && not (str_eq shard.claim_request "")
      && ltb_ℤ (get_lease_timeout shard) upcoming
      && not (is_claim_request_expired cfg now.claim shard)
    then (if str_eq shard.claim_request worker_id then steals else stolen_by_another)
    else unclaimed

-- Where the loop stands after a shard: it goes on, or a lease was taken, with whether by a steal.
pub data Visit : Type 0 where
  goes_on : Visit
  took : Bool → Visit

module _ (c : Checkpointer) (cfg : KinesisClientLibConfiguration) (worker_id : String) where
  abbrev lease_visit : Bool → Option Error → Visit
  lease_visit steal none = took steal
  lease_visit steal (some e) = goes_on

  -- GetLease, unless another worker steals the shard.
  unfoldable pub try_lease :
      Claimed → RoundInstants → ShardStatus → c.State → c.State × ShardStatus × Visit
  try_lease stolen_by_another now shard s = (s, shard, goes_on)
  try_lease unclaimed now shard s =
      let (s', shard', e) = c.get_lease now.lease shard worker_id s in
      (s', shard', lease_visit false e)
  try_lease steals now shard s =
      let (s', shard', e) = c.get_lease now.lease shard worker_id s in
      (s', shard', lease_visit true e)

  unfoldable pub after_fetch :
      Option Error → RoundInstants → ShardStatus → c.State → c.State × ShardStatus × Visit
  unfolding get_checkpoint
  after_fetch (some e) now shard s = (s, shard, goes_on)
  after_fetch none now shard s =
      if str_eq (get_checkpoint shard) shard_end
      then (s, shard, goes_on)
      else try_lease (claimed cfg worker_id now shard) now shard s

  -- The body of the loop for one shard.
  unfoldable pub visit_shard : RoundInstants → ShardStatus → c.State → c.State × ShardStatus × Visit
  unfolding get_lease_owner
  visit_shard now shard s =
      let (s', shard', e) = c.fetch_checkpoint shard s in
      let next = after_fetch (blocking e) now shard' s' in
      if str_eq (get_lease_owner shard) worker_id then (s, shard, goes_on) else next

  abbrev visit_rest :
      c.State × ShardStatus × Visit
      → ShardMap
      → (c.State → c.State × ShardMap × Option (ShardStatus × Bool))
      → c.State × ShardMap × Option (ShardStatus × Bool)
  visit_rest (s, shard, took steal) shards rest = (s, shard ∷ shards, some (shard, steal))
  visit_rest (s, shard, goes_on) shards rest =
      let (s', shards', gained) = rest s in (s', shard ∷ shards', gained)

  -- The loop over the shards, which ends at the first lease that it takes: the table, the cache,
  -- and the shard for which a consumer is started with whether it was stolen. The readings of the
  -- clock are those for the shard's id.
  unfoldable pub acquire_loop :
      (String → RoundInstants)
      → ShardMap
      → c.State
      → c.State × ShardMap × Option (ShardStatus × Bool)
  acquire_loop now [] s = (s, [], none)
  acquire_loop now (shard ∷ shards) s =
      visit_rest (visit_shard (now shard.id) shard s) shards (acquire_loop now shards)

  abbrev stole : Option (ShardStatus × Bool) → Bool → Bool
  stole (some (shard, true)) flag = false
  stole _ flag = flag

  -- With the test on the number of leases, and shardStealInProgress after a steal.
  unfoldable pub acquire :
      (String → RoundInstants)
      → ShardMap
      → Bool
      → c.State
      → c.State × ShardMap × Option (ShardStatus × Bool) × Bool
  acquire now shards flag s =
      let (s', shards', gained) = acquire_loop now shards s in
      if ltb_ℤ (pos (count_leases worker_id shards)) cfg.max_leases_for_worker
      then (s', shards', gained, stole gained flag)
      else (s, shards, none, flag)
