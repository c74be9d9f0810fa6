-- ===== src/Checkpoint/Claim/Placed.antt =====
-- clientlibrary/checkpoint/dynamodb-checkpointer.go: what ClaimShard leaves in the lease table, and
-- what the claim does to GetLease.
use vmware_go_kcl_v2_test.Prelude.{
  ◌≡◌, ◌≢◌, refl, sym, ap, subst, ◌∙◌, inl, inr, String, Bool, true, false, ◌&&◌, Option, none,
  some, arith, str_eq, eq_refl, Bool-cases, if◌then◌else◌,
}
use vmware_go_kcl_v2_test.Partition.{ShardStatus, get_lease_owner, get_lease_timeout}
use vmware_go_kcl_v2_test.Checkpoint.{
  Item, stamp, format, Error, ok, shard_claimed, holds, clause_holds, is_none, has, has-eq,
  has_lease_text, has_stamp-eq,
}
use vmware_go_kcl_v2_test.Checkpoint.Service.{DynamoDbApi, IsDynamoDb, stored}
use vmware_go_kcl_v2_test.Checkpoint.Dynamo.{DynamoCheckpoint, conditional_update, get_item}
use vmware_go_kcl_v2_test.Checkpoint.Fetch.{fetch_reply-id, row-fetch_checkpoint}
use vmware_go_kcl_v2_test.Checkpoint.Lease.{Instants, unless_empty, get_lease}
use vmware_go_kcl_v2_test.Checkpoint.Lease.Decision.{expired}
use vmware_go_kcl_v2_test.Checkpoint.Lease.Claims.{get_lease_claimed}
use vmware_go_kcl_v2_test.Checkpoint.Rows.{fetch_checkpoint}
use vmware_go_kcl_v2_test.Checkpoint.Claim.{
  blocking, claim_item, owner_clause, claim_shard_condition, claim_fetched, claim_shard,
}

none_there : (o : Option String) → is_none o ≡ true → o ≡ none
none_there none h = refl
none_there (some x) h = cc

and-left : (a b : Bool) → (a && b) ≡ true → a ≡ true
and-left true b h = refl
and-left false b h = cc

and-right : (a b : Bool) → (a && b) ≡ true → b ≡ true
and-right true b h = h
and-right false b h = cc

owner_clause-kept :
    (owner : String) (row : Item)
    → clause_holds (owner_clause owner) row ≡ true
    → row.assigned_to ≡ unless_empty owner
unfolding owner_clause clause_holds
owner_clause-kept owner row h = elim (Bool-cases (str_eq owner "")) [
  | inl nobody ↦ rw nobody (none_there row.assigned_to (ground arith))
  | inr somebody ↦ rw somebody (has-eq row.assigned_to owner (ground arith))
]

-- The row to which a claim is added, and what the write makes of it.
pub record Claimable (shard : ShardStatus) (claim_id : String) (row : Item) : Type 0 where
  pub unclaimed : row.claim_request ≡ none
  pub owner : (claim_item shard claim_id).assigned_to ≡ row.assigned_to
  pub timeout : (claim_item shard claim_id).lease_timeout ≡ row.lease_timeout

claim_shard_condition-Claimable :
    (shard : ShardStatus) (claim_id : String) (row : Item)
    → holds (claim_shard_condition shard) row ≡ true
    → Claimable shard claim_id row
unfolding claim_shard_condition holds clause_holds claim_item get_lease_owner get_lease_timeout
    format
claim_shard_condition-Claimable shard claim_id row h =
    let timed = and-right (has row.shard_id shard.id) _ h in
    let free = and-right (has_lease_text row.lease_timeout (stamp shard.lease_timeout)) _ timed in
    let owned = and-right (is_none row.claim_request) _ free in
    record {
      unclaimed = none_there row.claim_request (and-left _ _ free);
      owner = sym (
          owner_clause-kept shard.assigned_to row
            (and-left (clause_holds (owner_clause shard.assigned_to) row) _ owned));
      timeout = sym (has_stamp-eq row.lease_timeout shard.lease_timeout (and-left _ _ timed));
    }

other_row :
    (b : Bool) (item : Item) (o : Option Item) → b ≡ false → (if b then some item else o) ≡ o
other_row true item o h = cc
other_row false item o h = refl

own_row :
    (shard : ShardStatus) (item : Item) (o : Option Item)
    → (if str_eq shard.id shard.id then some item else o) ≡ some item
own_row shard item o = rw (eq_refl shard.id) refl

module _ (db : DynamoDbApi) (is : IsDynamoDb db) (claim_id : String) where
  -- A claim that was placed: the row had none, keeps its key, its owner and its timeout, and names the
  -- claimant; the other rows are as they were.
  pub record Placed (id : String) (s t : db.State) : Type 0 where
    pub unclaimed : (stored (is.row s id)).claim_request ≡ none
    pub key : (stored (is.row t id)).shard_id ≡ some id
    pub claim : (stored (is.row t id)).claim_request ≡ some claim_id
    pub owner : (stored (is.row t id)).assigned_to ≡ (stored (is.row s id)).assigned_to
    pub timeout : (stored (is.row t id)).lease_timeout ≡ (stored (is.row s id)).lease_timeout
    pub others : (j : String) → str_eq id j ≡ false → is.row t j ≡ is.row s j

  claim_fetched-Placed :
      (shard : ShardStatus) (e : Option Error) (s : db.State)
      → (claim_fetched db shard claim_id e s).2 ≡ none
      → Placed shard.id s (claim_fetched db shard claim_id e s).0
  unfolding claim_fetched conditional_update claim_item
  claim_fetched-Placed shard (some e) s h = cc
  claim_fetched-Placed shard none s h =
      let item = claim_item shard claim_id in
      let met =
        claim_shard_condition-Claimable shard claim_id (stored (is.row s shard.id))
          (is.put_item_holds (claim_shard_condition shard) item shard.id s refl h) in
      let write = is.put_item_writes (claim_shard_condition shard) item shard.id s refl h in
      let here = write shard.id ∙ own_row shard item (is.row s shard.id) in
      record {
        unclaimed = met.unclaimed;
        key = ap (λ o. (stored o).shard_id) here;
        claim = ap (λ o. (stored o).claim_request) here;
        owner = ap (λ o. (stored o).assigned_to) here ∙ met.owner;
        timeout = ap (λ o. (stored o).lease_timeout) here ∙ met.timeout;
        others = λ j other. write j ∙ other_row (str_eq shard.id j) item (is.row s j) other;
      }

  Placed-keeps :
      (id : String) (s s' t : db.State)
      → ((j : String) → is.row s' j ≡ is.row s j)
      → Placed id s' t
      → Placed id s t
  Placed-keeps id s s' t keeps p = record {
    unclaimed = ap (λ o. (stored o).claim_request) (sym (keeps id)) ∙ p.unclaimed;
    key = p.key;
    claim = p.claim;
    owner = p.owner ∙ ap (λ o. (stored o).assigned_to) (keeps id);
    timeout = p.timeout ∙ ap (λ o. (stored o).lease_timeout) (keeps id);
    others = λ j other. p.others j other ∙ keeps j;
  }

  -- ClaimShard succeeds only on a row without a claim. It then leaves the row with the claim and
  -- with its owner and timeout, and every other row as it was.
  pub claim_shard-Placed :
      (shard : ShardStatus) (s : db.State)
      → (claim_shard db shard claim_id s).2 ≡ none
      → Placed shard.id s (claim_shard db shard claim_id s).0
  unfolding claim_shard fetch_checkpoint
  claim_shard-Placed shard s h =
      let (s', shard', e) = fetch_checkpoint db shard s in
      Placed-keeps shard.id s s' _ (row-fetch_checkpoint db is shard s) (
        subst (λ id. Placed id s' (claim_fetched db shard' claim_id (blocking e) s').0)
          (fetch_reply-id (get_item db shard.id s).1 shard)
          (claim_fetched-Placed shard' (blocking e) s' h))

  -- A claim keeps the owner from renewing its lease: after a successful ClaimShard, with lease
  -- stealing on, GetLease by any worker but the claimant, the owner included, fails and changes no
  -- row, as long as its cached timeout does not make the claim expired and the service answers its
  -- read.
  pub claim_blocks_lease :
      (c : DynamoCheckpoint) (now : Instants) (shard copy : ShardStatus) (worker : String)
      (s : db.State) (row : Item)
      → (claim_shard db shard claim_id s).2 ≡ none
      → c.kcl_config.enable_lease_stealing ≡ true
      → claim_id ≢ ""
      → worker ≢ claim_id
      → copy.id ≡ shard.id
      → expired c now copy worker ≡ false
      → let t = (claim_shard db shard claim_id s).0 in
        ((db.get_item copy.id t).1 ≡ ok (some row))
        → ((get_lease db c now copy worker t).2 ≡ some shard_claimed)
          × ((get_lease db c now copy worker t).1 ≡ copy)
          × ((j : String) → is.row (get_lease db c now copy worker t).0 j ≡ is.row t j)
  claim_blocks_lease c now shard copy worker s row done on named other same current read =
      let t = (claim_shard db shard claim_id s).0 in
      let at : some row ≡ is.row t copy.id = is.get_item_reads copy.id t (some row) read in
      let claim : row.claim_request ≡ some claim_id =
        ap (λ o. (stored o).claim_request) (at ∙ ap (is.row t) same)
        ∙ (claim_shard-Placed shard s done).claim in
      get_lease_claimed c now copy worker db is t row claim_id read on claim named other current
