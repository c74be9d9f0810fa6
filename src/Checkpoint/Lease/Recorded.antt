-- ===== src/Checkpoint/Lease/Recorded.antt =====
-- clientlibrary/checkpoint/dynamodb-checkpointer.go: the row of a worker that holds the lease, as
-- GetLease and FetchCheckpoint find it.
use vmware_go_kcl_v2_test.Prelude.{
  ◌≡◌, ◌≢◌, ◌⊎◌, inl, inr, refl, sym, ap, subst, ◌∙◌, String, Bool, false, Option, none, some,
  arith, Option-cases,
}
use vmware_go_kcl_v2_test.Prelude.Int.{◌≤ℤ◌, ◌<ℤ◌}
use vmware_go_kcl_v2_test.Partition.{Time, ShardStatus, set_checkpoint, set_lease_owner}
use vmware_go_kcl_v2_test.Checkpoint.{Item, Reply, stamp, parse, lease_text_is_empty, ok, failed}
use vmware_go_kcl_v2_test.Checkpoint.Dynamo.{DynamoCheckpoint}
use vmware_go_kcl_v2_test.Checkpoint.Fetch.{fetch_timeout-kept}
use vmware_go_kcl_v2_test.Checkpoint.Lease.Decision.{
  IsOpen, no_timeout, no_owner, own, run_out, stale_cache,
}
use vmware_go_kcl_v2_test.Checkpoint.Lease.Cluster.{row}
use vmware_go_kcl_v2_test.Checkpoint.Rows.{fetch_reply, fetch_row, fetch_timeout}

-- A row that belongs to a worker until the time.
abbrev pub Recorded : Item → String → Time → Type 0
Recorded row w t = (row.assigned_to ≡ some w) × (row.lease_timeout ≡ some (stamp t))

-- What a row with an owner has.
abbrev pub Timed : Item → Type 0
Timed row =
    (o : String) → row.assigned_to ≡ some o → (t : Time) × (row.lease_timeout ≡ some (stamp t))

pub Recorded-Timed : (row : Item) (w : String) (t : Time) → Recorded row w t → Timed row
Recorded-Timed row w t r o e = (t, r.1)

-- A row under a live lease is open to its owner alone, with lease stealing off.
pub open-owner :
    (c : DynamoCheckpoint) (now clock t : Time) (over : Bool) (v w : String) (row : Item)
    → c.kcl_config.enable_lease_stealing ≡ false
    → now ≤ℤ clock
    → clock <ℤ t
    → Recorded row w t
    → IsOpen c.kcl_config now over v row
    → v ≡ w
open-owner c now clock t over v w row off past live (o, e) (no_timeout n) = absurd (ground arith)
open-owner c now clock t over v w row off past live (o, e) (no_owner n) = absurd (ground arith)
open-owner c now clock t over v w row off past live (o, e) (own n) = ground arith
open-owner c now clock t over v w row off past live (o, e) (run_out u n le) = absurd (ground arith)
open-owner c now clock t over v w row off past live (o, e) (stale_cache on _) =
    absurd (ground arith)

-- What a fetch makes of the cache of a worker that then takes itself for the owner of a row.
fetch_row-Recorded :
    (i : Item) (w : String) (clock : Time) (shard : ShardStatus) (sequence : Option String)
    → Timed i
    → ((shard.assigned_to ≡ w → clock <ℤ shard.lease_timeout → Recorded i w shard.lease_timeout))
    → (shard.assigned_to ≢ w) ⊎ (clock <ℤ shard.lease_timeout)
    → (fetch_row i sequence shard).0.assigned_to ≡ w
    → clock <ℤ (fetch_row i sequence shard).0.lease_timeout
    → Recorded i w (fetch_row i sequence shard).0.lease_timeout
unfolding fetch_row fetch_timeout set_checkpoint set_lease_owner parse lease_text_is_empty
fetch_row-Recorded i w clock shard none timed before orderly owner live = before owner live
fetch_row-Recorded i w clock shard (some q) timed before orderly owner live =
    elim (Option-cases i.assigned_to) [
      | inl ownerless ↦
          let kept =
            fetch_timeout-kept (λ x. x.assigned_to) i.lease_timeout (set_checkpoint q shard)
              (λ u. refl) in
          let mine : shard.assigned_to ≡ w = sym kept ∙ rw ownerless at owner in
          elim orderly [
            | inl other ↦ absurd (other mine)
            | inr current ↦ let (o, _) = before mine current in absurd (cc (o, ownerless))
          ]
      | inr (o, owned) ↦
          let (t, at) = timed o owned in
          let mine : o ≡ w = rw (owned, at) at owner in rw (owned, at) (ap some mine, refl)
    ]

-- What the reply to the read of the row leaves.
pub reply-Recorded :
    (i : Item) (w : String) (clock : Time) (shard : ShardStatus) (reply : Reply Item)
    → ((read : Item) → reply ≡ ok read → read ≡ i)
    → Timed i
    → (shard.assigned_to ≡ w → clock <ℤ shard.lease_timeout → Recorded i w shard.lease_timeout)
    → (shard.assigned_to ≢ w) ⊎ (clock <ℤ shard.lease_timeout)
    → (fetch_reply reply shard).0.assigned_to ≡ w
    → clock <ℤ (fetch_reply reply shard).0.lease_timeout
    → Recorded i w (fetch_reply reply shard).0.lease_timeout
unfolding fetch_reply
reply-Recorded i w clock shard (failed e) reads timed before orderly owner live = before owner live
reply-Recorded i w clock shard (ok read) reads timed before orderly owner live =
    let same = reads read refl in
    subst (λ r. Recorded r w (fetch_row read read.checkpoint shard).0.lease_timeout) same
      (fetch_row-Recorded read w clock shard read.checkpoint (subst Timed (sym same) timed)
        (λ o l. subst (λ r. Recorded r w shard.lease_timeout) (sym same) (before o l)) orderly owner
        live)
