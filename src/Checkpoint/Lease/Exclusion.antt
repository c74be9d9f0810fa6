-- ===== src/Checkpoint/Lease/Exclusion.antt =====
-- The workers of a fleet on one shard (clientlibrary/checkpoint/dynamodb-checkpointer.go, and the
-- workers that use it): one at a time holds the lease, with lease stealing off.
use vmware_go_kcl_v2_test.Prelude.{◌≡◌, sym, subst, ◌∙◌, String, false, some, arith}
use vmware_go_kcl_v2_test.Prelude.Int.{◌≤ℤ◌}
use vmware_go_kcl_v2_test.Partition.{Time}
use vmware_go_kcl_v2_test.Checkpoint.Service.{DynamoDbApi, IsDynamoDb, stored}
use vmware_go_kcl_v2_test.Checkpoint.Dynamo.{DynamoCheckpoint}
use vmware_go_kcl_v2_test.Checkpoint.Lease.Cluster.{
  Cluster, Step, Reach, Orderly, IsConsistent, Holds, tick, elsewhere, take, fetch, clear, remove,
  checkpoint_of, here, next,
}
use vmware_go_kcl_v2_test.Checkpoint.Lease.Recorded.{Recorded, Timed}
use vmware_go_kcl_v2_test.Checkpoint.Lease.Consistency.{
  take-IsConsistent, fetch-IsConsistent, clear-IsConsistent, remove-IsConsistent,
  checkpoint-IsConsistent,
}

module _ (db : DynamoDbApi) (is : IsDynamoDb db) (cs : String → DynamoCheckpoint) (id : String)
    (off : (w : String) → (cs w).kcl_config.enable_lease_stealing ≡ false)
    (named : (w : String) → (cs w).kcl_config.worker_id ≡ w) where
  abbrev State : Type 0
  State = Cluster db is cs id

  tick-IsConsistent :
      (s : State) (t : Time)
      → s.clock ≤ℤ t
      → IsConsistent db is cs id s
      → IsConsistent db is cs id (record s { clock = t })
  tick-IsConsistent s t later v = record {
    same_id = v.same_id;
    timed = v.timed;
    recorded =
        λ w h. let live = h.live in v.recorded w (record { owner = h.owner; live = omega arith });
  }

  elsewhere-IsConsistent :
      (s : State) (t : db.State)
      → is.row t id ≡ is.row s.table id
      → IsConsistent db is cs id s
      → IsConsistent db is cs id (record s { table = t })
  elsewhere-IsConsistent s t kept v = record {
    same_id = v.same_id;
    timed = subst (λ o. Timed (stored o)) (sym kept) v.timed;
    recorded = λ w h.
        subst (λ o. Recorded (stored o) w (s.view w).lease_timeout) (sym kept)
          (v.recorded w (record { owner = h.owner; live = h.live }));
  }

  Step-IsConsistent :
      (s t : State) (step : Step db is cs id s t)
      → Orderly db is cs id step
      → IsConsistent db is cs id s
      → IsConsistent db is cs id t
  Step-IsConsistent _ _ (tick s t later) o v = tick-IsConsistent s t later v
  Step-IsConsistent _ _ (elsewhere s t kept) o v = elsewhere-IsConsistent s t kept v
  Step-IsConsistent _ _ (take s w now shard read past same done) o v =
      take-IsConsistent db is cs id off s w now shard read past same done v
  Step-IsConsistent _ _ (fetch s w) o v = fetch-IsConsistent db is cs id off s w o v
  Step-IsConsistent _ _ (clear s w some_name) o v =
      clear-IsConsistent db is cs id off s w some_name v
  Step-IsConsistent _ _ (remove s w i there done) o v =
      remove-IsConsistent db is cs id off s w i (named w) there done o v
  Step-IsConsistent _ _ (checkpoint_of s w sequence_number done) o v =
      checkpoint-IsConsistent db is cs id off s w sequence_number done o v

  Reach-IsConsistent :
      (s t : State)
      → Reach db is cs id s t
      → IsConsistent db is cs id s
      → IsConsistent db is cs id t
  Reach-IsConsistent s _ here v = v
  Reach-IsConsistent s t (next {t = u} r step o) v =
      Step-IsConsistent u t step o (Reach-IsConsistent s u r v)

  -- With lease stealing off for every worker of the fleet, each under its own id, at most one
  -- worker at a time takes itself for the owner of the shard with a lease that has not run out:
  -- from any consistent state, after any orderly sequence of steps. The steps are the passing of
  -- time; changes of the service that leave the row of the shard alone; the conditional write of
  -- a GetLease whose request was computed, at a time no later than the write, from any row and
  -- any cached copy of the shard; a FetchCheckpoint with what it writes to the cache; a
  -- releaseLease as two steps, its clearing of the cached owner and its later conditional
  -- removal; and an accepted Checkpoint. A sequence is orderly if a removal succeeds only while
  -- its worker does not take itself for the owner (so it has not taken the lease again since the
  -- cache was cleared), a worker checkpoints only while it takes itself for the owner, and a
  -- worker that takes itself for the owner fetches only while its lease has not run out. No
  -- other worker writes the row between the service calls of one Checkpoint or one
  -- FetchCheckpoint, no call that reports an error has been carried out by the service, and
  -- RemoveLeaseInfo and the calls that only lease stealing makes (ClaimShard, syncLeases) are no
  -- steps.
  pub lease_exclusion :
      (s t : State) (v w : String)
      → IsConsistent db is cs id s
      → Reach db is cs id s t
      → Holds db is cs id t v
      → Holds db is cs id t w
      → v ≡ w
  lease_exclusion s t v w c r hv hw =
      let x = Reach-IsConsistent s t r c in
      let (mine, _) = x.recorded v hv in
      let (theirs, _) = x.recorded w hw in let both : some v ≡ some w = sym mine ∙ theirs in cc both
