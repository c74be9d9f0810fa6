-- ===== src/Checkpoint/Lease/Consistency.antt =====
-- The steps of a fleet on one shard (clientlibrary/checkpoint/dynamodb-checkpointer.go and the
-- workers that use it): each leaves the row and the caches consistent, with lease stealing off.
use vmware_go_kcl_v2_test.Prelude.{
  ◌≡◌, ◌≢◌, ◌⊎◌, inl, inr, refl, sym, ap, subst, ◌∙◌, String, true, false, Option, none, some,
  str_eq, eq_iff, eq_refl, Bool-cases,
}
use vmware_go_kcl_v2_test.Prelude.Int.{◌≤ℤ◌, ◌<ℤ◌}
use vmware_go_kcl_v2_test.Partition.{ShardStatus, set_lease_owner}
use vmware_go_kcl_v2_test.Checkpoint.{Item, stamp, format, has-eq}
use vmware_go_kcl_v2_test.Checkpoint.Service.{DynamoDbApi, IsDynamoDb, stored}
use vmware_go_kcl_v2_test.Checkpoint.Dynamo.{DynamoCheckpoint, get_item}
use vmware_go_kcl_v2_test.Checkpoint.Reads.{get_item-stored}
use vmware_go_kcl_v2_test.Checkpoint.Fetch.{row-fetch_checkpoint, fetch_reply-id}
use vmware_go_kcl_v2_test.Checkpoint.Lease.{Instants, lease_item, lease_request}
use vmware_go_kcl_v2_test.Checkpoint.Lease.Outcomes.{put_lease-HasWritten}
use vmware_go_kcl_v2_test.Checkpoint.Lease.Decision.{
  timeout, lease_request-holds, lease_request-IsRequest,
}
use vmware_go_kcl_v2_test.Checkpoint.Lease.Cluster.{
  Cluster, IsConsistent, Holds, row, after, own_lease, fetched, taken, checkpointed, removed,
}
use vmware_go_kcl_v2_test.Checkpoint.Rows.{checkpoint_item, fetch_checkpoint, remove_lease_owner}
use vmware_go_kcl_v2_test.Processor.Checkpoints.{checkpoint-Accepted}
use vmware_go_kcl_v2_test.Checkpoint.Lease.Recorded.{
  Recorded, Timed, Recorded-Timed, open-owner, reply-Recorded,
}

module _ (db : DynamoDbApi) (is : IsDynamoDb db) (cs : String → DynamoCheckpoint) (id : String)
    (off : (w : String) → (cs w).kcl_config.enable_lease_stealing ≡ false) where
  abbrev State : Type 0
  State = Cluster db is cs id

  -- A step of `w` that leaves the table and its cache so keeps the state consistent.
  after-IsConsistent :
      (s : State) (w : String) (t : db.State) (shard : ShardStatus)
      → IsConsistent db is cs id s
      → shard.id ≡ id
      → Timed (stored (is.row t id))
      → (shard.assigned_to ≡ w
          → s.clock <ℤ shard.lease_timeout
          → Recorded (stored (is.row t id)) w shard.lease_timeout)
      → ((u : String)
          → w ≢ u
          → Holds db is cs id s u
          → Recorded (stored (is.row t id)) u (s.view u).lease_timeout)
      → IsConsistent db is cs id (after db is cs id s w t shard)
  after-IsConsistent s w t shard v same timed its other = record {
    same_id = λ u. elim (Bool-cases (str_eq w u)) [
      | inl mine ↦ rw mine same
      | inr theirs ↦ rw theirs (v.same_id u)
    ];
    timed = timed;
    recorded = λ u h. elim (Bool-cases (str_eq w u)) [
      | inl mine ↦
          let e = (eq_iff w u).0 mine in
          rw mine (
            subst (λ x. Recorded (stored (is.row t id)) x shard.lease_timeout) e
              (its (rw mine at h.owner ∙ sym e) (rw mine at h.live)))
      | inr theirs ↦
          let held : Holds db is cs id s u = record {
            owner = rw theirs at h.owner;
            live = rw theirs at h.live;
          } in
          rw theirs (other u (λ e. cc (theirs, (eq_iff w u).1 e)) held)
    ];
  }

  pub take-IsConsistent :
      (s : State) (w : String) (now : Instants) (shard : ShardStatus) (read : Item)
      → now.check ≤ℤ s.clock
      → shard.id ≡ id
      → (taken db is cs id s w now shard read).2 ≡ none
      → IsConsistent db is cs id s
      → IsConsistent db is cs id (
          after db is cs id s w
            (taken db is cs id s w now shard read).0
            (own_lease db is cs id (s.view w) w (taken db is cs id s w now shard read).1))
  unfolding lease_item format
  take-IsConsistent s w now shard read past same done v =
      let c = cs w in
      let asked = lease_request c now shard w read in
      let x = put_lease-HasWritten db c now shard w read asked s.table refl done in
      let (_, q) = lease_request-IsRequest c now shard w read x.request x.asked in
      let key : x.request.item.shard_id ≡ some id =
        ap (λ (i : Item). i.shard_id) q.item ∙ ap some same in
      let met = is.put_item_holds x.request.condition x.request.item id s.table key x.accepted in
      let write =
        is.put_item_writes x.request.condition x.request.item id s.table key x.accepted id in
      let opened =
        lease_request-holds c now shard w read (row db is cs id s) x.request x.asked met in
      let t = (taken db is cs id s w now shard read).0 in
      let written : stored (is.row t id) ≡ lease_item shard w (timeout c now shard w) =
        ap (λ u. stored (is.row u id)) x.after ∙ ap stored (rw (eq_refl id) at write) ∙ q.item in
      let its : Recorded (stored (is.row t id)) w
          (taken db is cs id s w now shard read).1.lease_timeout =
        (
          ap (λ (i : Item). i.assigned_to) written,
          ap (λ (i : Item). i.lease_timeout) written
              ∙ ap (λ u. some (stamp u)) (sym (ap (λ z. z.lease_timeout) x.taken ∙ q.timed)),
        ) in
      after-IsConsistent s w t _ v (v.same_id w) (Recorded-Timed (stored (is.row t id)) w _ its)
        (λ o l. its)
        (λ u other h. absurd (
          other (
            open-owner c now.check s.clock _ _ w u (row db is cs id s) (off w) past h.live
              (v.recorded u h) opened)))

  pub fetch-IsConsistent :
      (s : State) (w : String)
      → ((s.view w).assigned_to ≢ w) ⊎ (s.clock <ℤ (s.view w).lease_timeout)
      → IsConsistent db is cs id s
      → IsConsistent db is cs id
          (after db is cs id s w (fetched db is cs id s w).0 (fetched db is cs id s w).1)
  unfolding fetch_checkpoint
  fetch-IsConsistent s w orderly v =
      let shard = s.view w in
      let kept = sym (row-fetch_checkpoint db is shard s.table id) in
      let at : is.row s.table shard.id ≡ is.row s.table id = ap (is.row s.table) (v.same_id w) in
      after-IsConsistent s w (fetched db is cs id s w).0 (fetched db is cs id s w).1 v
        (fetch_reply-id (get_item db shard.id s.table).1 shard ∙ v.same_id w)
        (subst (λ o. Timed (stored o)) kept v.timed)
        (λ o l.
          subst (λ r. Recorded (stored r) w (fetched db is cs id s w).1.lease_timeout) kept
            (reply-Recorded (stored (is.row s.table id)) w s.clock shard
              (get_item db shard.id s.table).1
              (λ read e. get_item-stored db is shard.id s.table read e ∙ ap stored at) v.timed
              (λ p q. v.recorded w (record { owner = p; live = q })) orderly o l))
        (λ u other h.
          subst (λ r. Recorded (stored r) u (s.view u).lease_timeout) kept (v.recorded u h))

  pub clear-IsConsistent :
      (s : State) (w : String)
      → w ≢ ""
      → IsConsistent db is cs id s
      → IsConsistent db is cs id (after db is cs id s w s.table (set_lease_owner "" (s.view w)))
  unfolding set_lease_owner
  clear-IsConsistent s w named v =
      after-IsConsistent s w s.table (set_lease_owner "" (s.view w)) v (v.same_id w) v.timed
        (λ o l. absurd (named (sym o))) (λ u other h. v.recorded u h)

  pub remove-IsConsistent :
      (s : State) (w : String) (i : Item)
      → (cs w).kcl_config.worker_id ≡ w
      → is.row s.table id ≡ some i
      → (removed db is cs id s w).1 ≡ none
      → (s.view w).assigned_to ≢ w
      → IsConsistent db is cs id s
      → IsConsistent db is cs id (record s { table = (removed db is cs id s w).0 })
  unfolding remove_lease_owner
  remove-IsConsistent s w i named at done orderly v =
      let (owned, wiped) =
        is.remove_assigned_to_removes id (cs w).kcl_config.worker_id s.table i done at in
      let his : i.assigned_to ≡ some w = has-eq i.assigned_to _ owned ∙ ap some named in
      record {
        same_id = v.same_id;
        timed = λ o e.
            let gone : none ≡ some o = sym (ap (λ r. (stored r).assigned_to) wiped) ∙ e in
            absurd (cc gone);
        recorded = λ u h.
            let (theirs, _) = v.recorded u (record { owner = h.owner; live = h.live }) in
            let mine : some u ≡ some w = sym theirs ∙ ap (λ r. (stored r).assigned_to) at ∙ his in
            let e : u ≡ w = cc (mine) in
            absurd (orderly (subst (λ x. (s.view x).assigned_to ≡ x) e h.owner));
      }

  pub checkpoint-IsConsistent :
      (s : State) (w : String) (sequence_number : Option String)
      → (checkpointed db is cs id s w sequence_number).2 ≡ none
      → (s.view w).assigned_to ≡ w
      → IsConsistent db is cs id s
      → IsConsistent db is cs id (
          after db is cs id s w
            (checkpointed db is cs id s w sequence_number).0
            (checkpointed db is cs id s w sequence_number).1)
  unfolding checkpoint_item format
  checkpoint-IsConsistent s w sequence_number done owner v =
      let a = checkpoint-Accepted db is s.clock sequence_number (s.view w) s.table done in
      let t = (checkpointed db is cs id s w sequence_number).0 in
      let shard' = (checkpointed db is cs id s w sequence_number).1 in
      let same = v.same_id w in
      let keyed : str_eq (s.view w).id id ≡ true = (eq_iff (s.view w).id id).1 same in
      let written : stored (is.row t id) ≡ checkpoint_item shard' =
        ap stored (rw keyed at (a.rows id)) ∙ ap checkpoint_item (sym a.cached) in
      let mine : shard'.assigned_to ≡ w = ap (λ z. z.assigned_to) a.cached ∙ owner in
      let its : Recorded (stored (is.row t id)) w shard'.lease_timeout = (
        ap (λ (i : Item). i.assigned_to) written ∙ ap some mine,
        ap (λ (i : Item). i.lease_timeout) written,
      ) in
      let his : (stored (is.row s.table id)).assigned_to ≡ some w =
        ap (λ k. (stored (is.row s.table k)).assigned_to) (sym same) ∙ a.owner ∙ ap some owner in
      after-IsConsistent s w t shard' v (ap (λ z. z.id) a.cached ∙ same)
        (Recorded-Timed (stored (is.row t id)) w _ its) (λ o l. its)
        (λ u other h.
          let (theirs, _) = v.recorded u h in
          let both : some w ≡ some u = sym his ∙ theirs in absurd (other (cc both)))
