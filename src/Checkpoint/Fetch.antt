-- ===== src/Checkpoint/Fetch.antt =====
-- clientlibrary/checkpoint/dynamodb-checkpointer.go: what FetchCheckpoint keeps of the cached shard
-- and what it takes from the row.
use vmware_go_kcl_v2_test.Prelude.{
  ◌≡◌, refl, sym, ap, ◌∙◌, String, Option, none, some, inl, inr, Bool-cases, Option-cases,
}
use vmware_go_kcl_v2_test.Partition.{Time, ShardStatus, set_checkpoint, set_lease_owner}
use vmware_go_kcl_v2_test.Checkpoint.{
  Item, LeaseText, Reply, ok, failed, parse, lease_text_is_empty,
}
use vmware_go_kcl_v2_test.Checkpoint.Service.{DynamoDbApi, IsDynamoDb, stored}
use vmware_go_kcl_v2_test.Checkpoint.Dynamo.{get_item}
use vmware_go_kcl_v2_test.Checkpoint.Reads.{get_item-stored, row-get_item}
use vmware_go_kcl_v2_test.Checkpoint.Rows.{
  fetch_checkpoint, fetch_reply, fetch_row, fetch_timeout, set_owner_if_there,
}

-- A field that the timeout does not change.
pub fetch_timeout-kept {ℓ} :
    {A : Type ℓ} (field : ShardStatus → A) (t : Option LeaseText) (shard : ShardStatus)
    → ((u : Time) → field (record shard { lease_timeout = u }) ≡ field shard)
    → field (fetch_timeout t shard).0 ≡ field shard
unfolding fetch_timeout
fetch_timeout-kept field none shard h = refl
fetch_timeout-kept field (some text) shard h = elim (Bool-cases (lease_text_is_empty text)) [
  | inl blank ↦ rw blank refl
  | inr filled ↦ elim (Option-cases (parse text)) [
    | inl bad ↦ rw (filled, bad) refl
    | inr (timeout, good) ↦ rw (filled, good) (h timeout)
  ]
]

-- A field that neither the timeout nor the owner nor the checkpoint changes.
fetch_row-kept {ℓ} :
    {A : Type ℓ} (field : ShardStatus → A) (row : Item) (sequence : Option String)
    (shard : ShardStatus)
    → ((x : ShardStatus) (u : Time) → field (record x { lease_timeout = u }) ≡ field x)
    → ((x : ShardStatus) (o : String) → field (record x { assigned_to = o }) ≡ field x)
    → ((x : ShardStatus) (q : String) → field (record x { checkpoint = q }) ≡ field x)
    → field (fetch_row row sequence shard).0 ≡ field shard
unfolding fetch_row set_checkpoint set_lease_owner
fetch_row-kept field row none shard timed owned placed = refl
fetch_row-kept field row (some q) shard timed owned placed =
    fetch_timeout-kept field row.lease_timeout _ (timed _)
    ∙ of_owner row.assigned_to (record shard { checkpoint = q })
    ∙ placed shard q
  where
    of_owner : (o : Option String) (x : ShardStatus) → field (set_owner_if_there o x) ≡ field x
    of_owner none x = refl
    of_owner (some o) x = owned x o

pub fetch_reply-id :
    (reply : Reply Item) (shard : ShardStatus) → (fetch_reply reply shard).0.id ≡ shard.id
unfolding fetch_reply
fetch_reply-id (failed e) shard = refl
fetch_reply-id (ok row) shard =
    fetch_row-kept (λ x. x.id) row row.checkpoint shard (λ x u. refl) (λ x o. refl) (λ x q. refl)

pub fetch_reply-claim_request :
    (reply : Reply Item) (shard : ShardStatus)
    → (fetch_reply reply shard).0.claim_request ≡ shard.claim_request
unfolding fetch_reply
fetch_reply-claim_request (failed e) shard = refl
fetch_reply-claim_request (ok row) shard =
    fetch_row-kept (λ x. x.claim_request) row row.checkpoint shard (λ x u. refl) (λ x o. refl)
      (λ x q. refl)

fetch_row-checkpoint :
    (row : Item) (sequence : Option String) (shard : ShardStatus)
    → (fetch_row row sequence shard).1 ≡ none
    → sequence ≡ some (fetch_row row sequence shard).0.checkpoint
unfolding fetch_row set_checkpoint set_lease_owner
fetch_row-checkpoint row none shard h = cc
fetch_row-checkpoint row (some q) shard h = ap some (
    sym (
      fetch_timeout-kept (λ x. x.checkpoint) row.lease_timeout _ (λ u. refl)
      ∙ kept row.assigned_to))
  where
    kept : (o : Option String) → (set_owner_if_there o (set_checkpoint q shard)).checkpoint ≡ q
    kept none = refl
    kept (some o) = refl

fetch_reply-checkpoint :
    (reply : Reply Item) (shard : ShardStatus)
    → (fetch_reply reply shard).1 ≡ none
    → (row : Item) × (reply ≡ ok row)
      × (row.checkpoint ≡ some (fetch_reply reply shard).0.checkpoint)
unfolding fetch_reply
fetch_reply-checkpoint (failed e) shard h = cc
fetch_reply-checkpoint (ok row) shard h =
    (row, refl, fetch_row-checkpoint row row.checkpoint shard h)

module _ (db : DynamoDbApi) (is : IsDynamoDb db) where
  pub fetch_checkpoint-reads :
      (shard : ShardStatus) (s : db.State)
      → (fetch_checkpoint db shard s).2 ≡ none
      → (stored (is.row s shard.id)).checkpoint ≡ some (fetch_checkpoint db shard s).1.checkpoint
  unfolding fetch_checkpoint
  fetch_checkpoint-reads shard s h =
      let (row, e, q) = fetch_reply-checkpoint (get_item db shard.id s).1 shard h in
      ap (λ (i : Item). i.checkpoint) (sym (get_item-stored db is shard.id s row e)) ∙ q

  pub row-fetch_checkpoint :
      (shard : ShardStatus) (s : db.State) (j : String)
      → is.row (fetch_checkpoint db shard s).0 j ≡ is.row s j
  unfolding fetch_checkpoint
  row-fetch_checkpoint shard s j = row-get_item db is shard.id s j
