-- ===== src/Checkpoint/Lease/LateRemoval.antt =====
-- releaseLease (clientlibrary/worker/common-shard-consumer.go) and RemoveLeaseOwner
-- (clientlibrary/checkpoint/dynamodb-checkpointer.go): a removal that arrives after its worker has
-- taken the lease again.
use vmware_go_kcl_v2_test.Prelude.{
  ◌≡◌, ◌≢◌, ◌∙◌, refl, sym, ap, inl, String, Bool, false, true, Option, none, some, str_ne, str_eq,
  eq_refl, eq_iff,
}
use vmware_go_kcl_v2_test.Config.{KinesisClientLibConfiguration}
use vmware_go_kcl_v2_test.Partition.{ShardStatus}
use vmware_go_kcl_v2_test.Checkpoint.{Item, Error, Condition, ok, holds}
use vmware_go_kcl_v2_test.Checkpoint.Service.{DynamoDbApi, IsDynamoDb, stored}
use vmware_go_kcl_v2_test.Checkpoint.Dynamo.{DynamoCheckpoint}
use vmware_go_kcl_v2_test.Checkpoint.Rows.{remove_lease_owner}
use vmware_go_kcl_v2_test.Checkpoint.Lease.{
  Instants, get_lease, claim_on, claimed_by_another, lease_item,
}
use vmware_go_kcl_v2_test.Checkpoint.Lease.Decision.{timeout}
use vmware_go_kcl_v2_test.Checkpoint.Lease.Outcomes.{get_lease-Granted}
use vmware_go_kcl_v2_test.Checkpoint.Lease.Claims.{get_lease_available}
use vmware_go_kcl_v2_test.Checkpoint.Lease.Cluster.{Cluster, Holds, removed, after}

-- Without lease stealing no claim counts.
no_claim :
    (cfg : KinesisClientLibConfiguration) (row : Item) (worker : String) (over : Bool)
    → cfg.enable_lease_stealing ≡ false
    → claimed_by_another (claim_on cfg row) worker over ≡ false
unfolding claimed_by_another claim_on
no_claim cfg row worker over off = rw off refl

module _ (db : DynamoDbApi) (is : IsDynamoDb db) (cs : String → DynamoCheckpoint)
    (id : String) where
  abbrev State : Type 0
  State = Cluster db is cs id

  -- GetLease of a worker on the table that a removal has left.
  abbrev pub regranted : State → String → String → Instants → db.State × ShardStatus × Option Error
  regranted s w u now = get_lease db (cs u) now (s.view u) u (removed db is cs id s w).0

  -- A removal that comes late lets a second worker in, with lease stealing off: when a worker holds
  -- the lease and its RemoveLeaseOwner for the row, which is there, succeeds, then GetLease of any
  -- other worker that has cached the shard succeeds too, if the service answers its read and accepts
  -- each write of the row whose condition the row meets. The row then names the second worker, and so
  -- does its cache, while the first worker still holds the lease.
  pub late_removal_admits :
      (s : State) (w u : String) (now : Instants) (i : Item) (o : Option Item)
      → w ≢ u
      → Holds db is cs id s w
      → (s.view u).id ≡ id
      → (cs u).kcl_config.enable_lease_stealing ≡ false
      → is.row s.table id ≡ some i
      → i.shard_id ≡ some id
      → (removed db is cs id s w).1 ≡ none
      → (db.get_item (s.view u).id (removed db is cs id s w).0).1 ≡ ok o
      → ((d : Condition) (j : Item)
          → j.shard_id ≡ some (s.view u).id
          → holds d (record i { assigned_to = none }) ≡ true
          → (db.put_item d j (db.get_item (s.view u).id (removed db is cs id s w).0).0).1 ≡ none)
      → let result = regranted s w u now in
        let later = after db is cs id s u result.0 result.1 in
        (result.2 ≡ none)
        × ((stored (is.row later.table id)).assigned_to ≡ some u)
        × ((later.view u).assigned_to ≡ u)
        × Holds db is cs id later w
  unfolding remove_lease_owner lease_item
  late_removal_admits s w u now i o other h same off there key done read accepts =
      let (_, wiped) = is.remove_assigned_to_removes id _ s.table i done there in
      let found : o ≡ some (record i { assigned_to = none }) =
        is.get_item_reads _ _ o read ∙ ap (is.row (removed db is cs id s w).0) same ∙ wiped in
      let taken =
        get_lease_available (cs u) now (s.view u) u db (removed db is cs id s w).0
          (record i { assigned_to = none }) (read ∙ ap ok found)
          (record {
            key = key ∙ ap some (sym same);
            lease = inl refl;
            claim = no_claim (cs u).kcl_config (record i { assigned_to = none }) u _ off;
          })
          accepts in
      let g = get_lease-Granted db (cs u) now (s.view u) u is (removed db is cs id s w).0 taken in
      let r = regranted s w u now in
      let keyed = (eq_iff (s.view u).id id).1 same in
      let own_row : stored (is.row r.0 id)
          ≡ lease_item (s.view u) u (timeout (cs u) now (s.view u) u) =
        ap stored (rw keyed at (g.rows id)) in
      let elsewhere : str_eq u w ≡ false = str_ne u w (λ e. other (sym e)) in
      (
        taken,
        ap (λ (j : Item). j.assigned_to) own_row,
        rw (eq_refl u) (ap (λ z. z.assigned_to) g.cached),
        record { owner = rw elsewhere h.owner; live = rw elsewhere h.live },
      )
