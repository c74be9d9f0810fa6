-- ===== src/Checkpoint/Lease/Outcomes.antt =====
-- clientlibrary/checkpoint/dynamodb-checkpointer.go: what GetLease leaves in the lease table and in
-- the cached shard.
use vmware_go_kcl_v2_test.Prelude.{
  ◌≡◌, refl, inl, inr, ap, String, none, some, arith, str_eq, if◌then◌else◌, Option-cases,
}
use vmware_go_kcl_v2_test.Partition.{ShardStatus}
use vmware_go_kcl_v2_test.Checkpoint.{Item, Reply, ok, failed}
use vmware_go_kcl_v2_test.Checkpoint.Service.{DynamoDbApi, IsDynamoDb, stored}
use vmware_go_kcl_v2_test.Checkpoint.Dynamo.{DynamoCheckpoint, row_or_nil, get_item}
use vmware_go_kcl_v2_test.Checkpoint.Lease.{
  Instants, LeaseRequest, lease_item, lease_request, put_lease, lease_of_row, get_lease,
}
use vmware_go_kcl_v2_test.Checkpoint.Lease.Decision.{
  IsOpen, expired, timeout, lease_request-IsRequest, lease_request-holds,
}

module _ (db : DynamoDbApi) (c : DynamoCheckpoint) (now : Instants) (shard : ShardStatus)
    (worker : String) where
  -- The write that a successful call has made, after a read that left the service in state `s`.
  pub record HasWritten (row : Item) (s : db.State) (s' : db.State) (shard' : ShardStatus)
      : Type 0 where
    pub request : LeaseRequest
    pub asked : lease_request c now shard worker row ≡ ok request
    pub accepted : (db.put_item request.condition request.item s).1 ≡ none
    pub after : s' ≡ (db.put_item request.condition request.item s).0
    pub taken : shard' ≡ record shard { assigned_to = worker; lease_timeout = request.timeout }

  pub put_lease-HasWritten :
      (row : Item) (reply : Reply LeaseRequest) (s : db.State)
      → lease_request c now shard worker row ≡ reply
      → (put_lease db shard worker reply s).2 ≡ none
      → HasWritten row s (put_lease db shard worker reply s).0 (put_lease db shard worker reply s).1
  unfolding put_lease
  put_lease-HasWritten row (failed e) s q h = cc
  put_lease-HasWritten row (ok r) s q h = elim (Option-cases (db.put_item r.condition r.item s).1) [
    | inl e ↦ record { request = r; asked = q; accepted = e; after = refl; taken = ground arith }
    | inr (why, e) ↦ absurd (ground arith)
  ]

  lease_of_row-HasWritten :
      (reply : Reply Item) (s : db.State)
      → (lease_of_row db c now shard worker reply s).2 ≡ none
      → (row : Item) × (reply ≡ ok row)
        × HasWritten row s
            (lease_of_row db c now shard worker reply s).0
            (lease_of_row db c now shard worker reply s).1
  unfolding lease_of_row
  lease_of_row-HasWritten (failed e) s h = cc
  lease_of_row-HasWritten (ok row) s h =
      (row, refl, put_lease-HasWritten row (lease_request c now shard worker row) s refl h)

  module _ (is : IsDynamoDb db) where
    -- What a granted lease is: it was open, the row now holds it and no claim, the other rows are
    -- as they were, and the cached shard has the new owner and timeout.
    pub record Granted (s s' : db.State) (shard' : ShardStatus) : Type 0 where
      pub opened :
          IsOpen c.kcl_config now.check
            (expired c now shard worker)
            worker
            (stored (is.row s shard.id))
      pub rows :
          (j : String)
          → is.row s' j ≡ (
              if str_eq shard.id j
              then some (lease_item shard worker (timeout c now shard worker))
              else is.row s j)
      pub cached :
          shard' ≡ record shard { assigned_to = worker; lease_timeout = timeout c now shard worker }

    HasWritten-Granted :
        (s s' t : db.State) (row : Item) (shard' : ShardStatus)
        → ((j : String) → is.row s' j ≡ is.row s j)
        → HasWritten row s' t shard'
        → Granted s t shard'
    unfolding lease_item
    HasWritten-Granted s s' t row shard' keeps w =
        let (_, q) = lease_request-IsRequest c now shard worker row w.request w.asked in
        let key : w.request.item.shard_id ≡ some shard.id = ap (λ (i : Item). i.shard_id) q.item in
        record {
          opened = rw (← keeps shard.id) (
              lease_request-holds c now shard worker row _ w.request w.asked
                (is.put_item_holds _ _ shard.id s' key w.accepted));
          rows = λ j.
              cc (w.after, is.put_item_writes _ _ shard.id s' key w.accepted j, keeps j, q.item);
          cached = cc (w.taken, q.timed);
        }

    pub get_lease-Granted :
        (s : db.State)
        → (get_lease db c now shard worker s).2 ≡ none
        → Granted s (get_lease db c now shard worker s).0 (get_lease db c now shard worker s).1
    unfolding get_lease get_item
    get_lease-Granted s h =
        let read = db.get_item shard.id s in
        let (row, _, w) = lease_of_row-HasWritten (row_or_nil read.1) read.0 h in
        HasWritten-Granted s read.0 _ row _ (is.get_item_keeps shard.id s) w
