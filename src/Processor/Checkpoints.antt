-- ===== src/Processor/Checkpoints.antt =====
-- clientlibrary/worker/record-processor-checkpointer.go: which checkpoints are accepted, and what
-- is read back.
use vmware_go_kcl_v2_test.Prelude.{
  ◌≡◌, ◌≢◌, refl, ◌∙◌, inl, inr, ap, String, true, false, Option, none, some, arith, str_eq, str_ne,
  eq_iff, eq_refl, if◌then◌else◌, Bool-cases,
}
use vmware_go_kcl_v2_test.Prelude.Int.{◌≤ℤ◌, ◌<ℤ◌, ltb_ℤ}
use vmware_go_kcl_v2_test.Partition.{Time, ShardStatus}
use vmware_go_kcl_v2_test.Checkpoint.{
  Item, Reply, ok, failed, shutdown_error, lease_expired_error, format, parse, lease_text_is_empty,
}
use vmware_go_kcl_v2_test.Checkpoint.Service.{DynamoDbApi, IsDynamoDb, stored}
use vmware_go_kcl_v2_test.Checkpoint.Dynamo.{get_item}
use vmware_go_kcl_v2_test.Checkpoint.Reads.{get_item-stored, row-get_item, row-save_item}
use vmware_go_kcl_v2_test.Checkpoint.Rows.{
  owner_reply, checkpoint_item, checkpoint_sequence, fetch_reply, fetch_checkpoint,
}
use vmware_go_kcl_v2_test.Processor.{sequence_text, checkpoint_owned, checkpoint}

module _ (db : DynamoDbApi) (is : IsDynamoDb db) (now : Time) (sequence_number : Option String)
    (shard : ShardStatus) where
  abbrev advanced : ShardStatus
  advanced = record shard { checkpoint = sequence_text sequence_number }

  -- What an accepted checkpoint leaves.
  pub record Accepted (s s' : db.State) (shard' : ShardStatus) : Type 0 where
    pub owner : (stored (is.row s shard.id)).assigned_to ≡ some shard.assigned_to
    pub live : now ≤ℤ shard.lease_timeout
    pub cached : shard' ≡ advanced
    pub rows :
        (j : String)
        → is.row s' j ≡ (if str_eq shard.id j then some (checkpoint_item advanced) else is.row s j)

  -- The write of an accepted checkpoint, from the state after the read.
  owned-Accepted :
      (owner : String) (s t : db.State)
      → (stored (is.row s shard.id)).assigned_to ≡ some owner
      → ((j : String) → is.row t j ≡ is.row s j)
      → str_eq shard.assigned_to owner ≡ true
      → ltb_ℤ shard.lease_timeout now ≡ false
      → (checkpoint_sequence db advanced t).1 ≡ none
      → Accepted s (checkpoint_sequence db advanced t).0 advanced
  unfolding checkpoint_sequence checkpoint_item
  owned-Accepted owner s t reads keeps same live done = record {
    owner = ground (arith, eq_iff shard.assigned_to owner);
    live = ground arith;
    cached = refl;
    rows = λ j.
        row-save_item db is (checkpoint_item advanced) shard.id t j refl done
        ∙ ap (λ o. if str_eq shard.id j then some (checkpoint_item advanced) else o) (keeps j);
  }

  reply-Accepted :
      (reply : Reply String) (s t : db.State)
      → ((owner : String)
          → reply ≡ ok owner
          → (stored (is.row s shard.id)).assigned_to ≡ some owner)
      → ((j : String) → is.row t j ≡ is.row s j)
      → (checkpoint_owned db now sequence_number shard reply t).2 ≡ none
      → Accepted s
          (checkpoint_owned db now sequence_number shard reply t).0
          (checkpoint_owned db now sequence_number shard reply t).1
  unfolding checkpoint_owned
  reply-Accepted (failed e) s t reads keeps h = cc
  reply-Accepted (ok owner) s t reads keeps h = elim (Bool-cases (str_eq shard.assigned_to owner)) [
    | inr superseded ↦ absurd (ground arith)
    | inl same ↦ elim (Bool-cases (ltb_ℤ shard.lease_timeout now)) [
      | inl late ↦ absurd (ground arith)
      | inr live ↦
          rw (same, live)
            (owned-Accepted owner s t (reads owner refl) keeps same live (ground arith))
    ]
  ]

  owner_reply-ok :
      (reply : Reply Item) (owner : String)
      → owner_reply reply ≡ ok owner
      → (row : Item) × (reply ≡ ok row) × (row.assigned_to ≡ some owner)
  unfolding owner_reply
  owner_reply-ok (failed e) owner h = cc
  owner_reply-ok (ok row) owner h = (row, refl, ground arith)

  pub checkpoint-Accepted :
      (s : db.State)
      → (checkpoint db now sequence_number shard s).2 ≡ none
      → Accepted s
          (checkpoint db now sequence_number shard s).0
          (checkpoint db now sequence_number shard s).1
  unfolding checkpoint
  checkpoint-Accepted s h =
      reply-Accepted _ s (get_item db shard.id s).0
        (λ owner e.
          let (row, read, o) = owner_reply-ok (get_item db shard.id s).1 owner e in
          rw (← get_item-stored db is shard.id s row read) o)
        (row-get_item db is shard.id s) h

  -- A worker that the row no longer names is stopped: if the service answers the read, the call
  -- fails with the shutdown error, and neither a row nor the cached shard changes.
  pub checkpoint_superseded :
      (s : db.State) (row : Item) (owner : String)
      → (db.get_item shard.id s).1 ≡ ok (some row)
      → row.assigned_to ≡ some owner
      → shard.assigned_to ≢ owner
      → let result = checkpoint db now sequence_number shard s in
        (result.2 ≡ some shutdown_error)
        × (result.1 ≡ shard)
        × ((j : String) → is.row result.0 j ≡ is.row s j)
  unfolding checkpoint
  checkpoint_superseded s row owner e o differ = (
    ground (arith, str_ne shard.assigned_to owner differ),
    ground (arith, str_ne shard.assigned_to owner differ),
    λ j. ground (arith, is.get_item_keeps shard.id s j, str_ne shard.assigned_to owner differ),
  )

  -- A checkpoint of the worker that the row names, made after its lease has run out, is refused
  -- with the lease-expired error if the service answers the read, and neither a row nor the
  -- cached shard changes.
  pub checkpoint_expired :
      (s : db.State) (row : Item)
      → (db.get_item shard.id s).1 ≡ ok (some row)
      → row.assigned_to ≡ some shard.assigned_to
      → shard.lease_timeout <ℤ now
      → let result = checkpoint db now sequence_number shard s in
        (result.2 ≡ some lease_expired_error)
        × (result.1 ≡ shard)
        × ((j : String) → is.row result.0 j ≡ is.row s j)
  unfolding checkpoint
  checkpoint_expired s row e o late = (
    ground (arith, eq_refl shard.assigned_to),
    ground (arith, eq_refl shard.assigned_to),
    λ j. ground (arith, is.get_item_keeps shard.id s j, eq_refl shard.assigned_to),
  )

  fetch_reply-checkpoint_item :
      (copy : ShardStatus)
      → fetch_reply (ok (checkpoint_item advanced)) copy ≡ (
        record copy {
          checkpoint = sequence_text sequence_number;
          assigned_to = shard.assigned_to;
          lease_timeout = shard.lease_timeout;
        },
        none,
      )
  unfolding fetch_reply checkpoint_item format parse lease_text_is_empty
  fetch_reply-checkpoint_item copy = refl

  fetched :
      (s s' : db.State) (shard' copy : ShardStatus) (row : Item)
      → Accepted s s' shard'
      → copy.id ≡ shard.id
      → (get_item db copy.id s').1 ≡ ok row
      → row ≡ checkpoint_item advanced
  fetched s s' shard' copy row a same e =
      let at : is.row s' copy.id ≡ some (checkpoint_item advanced) =
        rw (same, a.rows shard.id, eq_refl shard.id) in
      get_item-stored db is copy.id s' row e ∙ ap stored at

  -- What is checkpointed is read back: after an accepted checkpoint any cached copy of the shard
  -- for which the service answers the read gets the sequence number, or SHARD_END for nil, with
  -- the owner and the timeout of the lease under which it was written, and no error is reported.
  pub fetch-checkpoint :
      (s : db.State) (copy : ShardStatus) (row : Item)
      → (checkpoint db now sequence_number shard s).2 ≡ none
      → copy.id ≡ shard.id
      → let after = (checkpoint db now sequence_number shard s).0 in
        (get_item db copy.id after).1 ≡ ok row
        → ((fetch_checkpoint db copy after).1 ≡ record copy {
          checkpoint = sequence_text sequence_number;
          assigned_to = shard.assigned_to;
          lease_timeout = shard.lease_timeout;
        })
          × ((fetch_checkpoint db copy after).2 ≡ none)
  unfolding fetch_checkpoint
  fetch-checkpoint s copy row done same e =
      let q = fetched s _ _ copy row (checkpoint-Accepted s done) same e in
      rw (e, q, fetch_reply-checkpoint_item copy) (refl, refl)
