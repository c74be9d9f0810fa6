-- ===== src/Consumer/Common/Wait.antt =====
-- clientlibrary/worker/common-shard-consumer.go: when waitOnParentShard ends.
use vmware_go_kcl_v2_test.Prelude.{
  ℕ, zero, suc, ◌<◌, ◌≡◌, ◌≢◌, refl, Option, none, some, arith, str_eq, apart, eq_refl, Bool-cases,
  inl, inr,
}
use vmware_go_kcl_v2_test.Partition.{ShardStatus, get_checkpoint}
use vmware_go_kcl_v2_test.Checkpoint.{Error, shard_end}
use vmware_go_kcl_v2_test.Checkpoint.Checkpointer.{Checkpointer}
use vmware_go_kcl_v2_test.Consumer.Common.{
  parent_poll, parent_shard, poll_rest, poll_parent, wait_on_parent_shard,
}

module _ (c : Checkpointer) (pause : c.State → c.State) where
  -- What FetchCheckpoint answers at a poll, when the polls before it are made: the cached parent and
  -- the error.
  unfoldable pub answer : ℕ → ShardStatus → c.State → ShardStatus × Option Error
  answer zero parent s = let (s', parent', e) = c.fetch_checkpoint parent s in (parent', e)
  answer (suc n) parent s =
      let (s', parent', e) = c.fetch_checkpoint parent s in answer n parent' (pause s')

  -- The answer ends the wait: an error, or a finished parent.
  abbrev pub Ends : ShardStatus × Option Error → Type 0
  Ends (parent, none) = parent.checkpoint ≡ shard_end
  Ends (parent, some e) = Unit

  parent_poll-Ends :
      (parent : ShardStatus) (e : Option Error) → Ends (parent, e) → parent_poll e parent ≢ none
  unfolding parent_poll get_checkpoint
  parent_poll-Ends parent none h q = ground (arith, eq_refl parent.checkpoint)
  parent_poll-Ends parent (some e) h q = cc

  poll_rest-some :
      (r : Option (Option Error)) (s : c.State) (rest : c.State × Option (Option Error))
      → (r ≡ none → rest.1 ≢ none)
      → (poll_rest c r s rest).1 ≢ none
  poll_rest-some none s rest later q = later refl q
  poll_rest-some (some result) s rest later q = cc

  poll_parent-Ends :
      (n polls : ℕ) (parent : ShardStatus) (s : c.State)
      → n < polls
      → Ends (answer n parent s)
      → (poll_parent c polls pause parent s).1 ≢ none
  unfolding poll_parent answer
  poll_parent-Ends n zero parent s lt h = absurd (omega arith)
  poll_parent-Ends zero (suc polls) parent s lt h =
      let (s', parent', e) = c.fetch_checkpoint parent s in
      poll_rest-some (parent_poll e parent') s' _ (λ q. absurd (parent_poll-Ends parent' e h q))
  poll_parent-Ends (suc n) (suc polls) parent s lt h =
      let (s', parent', e) = c.fetch_checkpoint parent s in
      poll_rest-some (parent_poll e parent') s' _
        (λ _. poll_parent-Ends n polls parent' (pause s') (omega arith) h)

  -- The wait ends in time: when one of the polls of the parent is answered by an error or by
  -- SHARD_END, waitOnParentShard ends within the polls up to that one, and a shard without a parent
  -- does not wait at all.
  pub wait_on_parent_shard-Ends :
      (n polls : ℕ) (shard : ShardStatus) (s : c.State)
      → n < polls
      → (shard.parent_shard_id ≢ "" → Ends (answer n (parent_shard shard.parent_shard_id) s))
      → (wait_on_parent_shard c polls pause shard s).1 ≢ none
  unfolding wait_on_parent_shard
  wait_on_parent_shard-Ends n polls shard s lt h q =
      elim (Bool-cases (str_eq shard.parent_shard_id "")) [
        | inl orphan ↦ absurd (ground arith)
        | inr child ↦
            poll_parent-Ends n polls (parent_shard shard.parent_shard_id) s lt
              (h (apart shard.parent_shard_id "" child)) (ground arith)
      ]
