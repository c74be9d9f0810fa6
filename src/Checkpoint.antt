-- ===== src/Checkpoint.antt =====
-- clientlibrary/checkpoint/checkpointer.go: the attributes of a row of the lease table, its texts,
-- the errors, and what the service offers (dynamodb-api.go). The checkpointer itself is in the
-- children.
pub mod Service
pub mod Dynamo
pub mod Reads
pub mod Fetch
pub mod Lease
pub mod Rows
pub mod Claim
pub mod Workers
pub mod Checkpointer
use vmware_go_kcl_v2_test.Prelude.{
  ◌≡◌, ◌⊎◌, inl, inr, refl, ap, ◌∙◌, arith, eq_iff, String, Bool, true, false, ◌&&◌, not, Option,
  none, some, List, [], ◌∷◌, ◌++◌, str_eq, if◌then◌else◌,
}
use vmware_go_kcl_v2_test.Prelude.Int.{◌==ℤ◌, ==ℤ_eq}
use vmware_go_kcl_v2_test.Partition.{Time}

-- A text of the LeaseTimeout attribute: the RFC 3339 form of an instant, which determines the
-- instant, or a text that time.Parse refuses.
pub data LeaseText : Type 0 where
  stamp : Time → LeaseText
  other : String → LeaseText

-- t.UTC().Format(time.RFC3339Nano)
unfoldable pub format : Time → LeaseText
format t = stamp t

-- time.Parse(time.RFC3339Nano, s)
unfoldable pub parse : LeaseText → Option Time
parse (stamp t) = some t
parse (other s) = none

unfoldable pub lease_text_is_empty : LeaseText → Bool
lease_text_is_empty (stamp t) = false
lease_text_is_empty (other s) = str_eq s ""

abbrev pub lease_text_eq : LeaseText → LeaseText → Bool
lease_text_eq (stamp t) (stamp u) = t ==ℤ u
lease_text_eq (other s) (other t) = str_eq s t
lease_text_eq _ _ = false

-- A row: map[string]types.AttributeValue at the keys ShardID, AssignedTo, LeaseTimeout,
-- Checkpoint, ParentShardId and ClaimRequest.
pub record Item : Type 0 where
  pub shard_id : Option String
  pub assigned_to : Option String
  pub lease_timeout : Option LeaseText
  pub checkpoint : Option String
  pub parent_shard_id : Option String
  pub claim_request : Option String

-- The nil map.
abbrev pub empty_item : Item
empty_item = record {
  shard_id = none;
  assigned_to = none;
  lease_timeout = none;
  checkpoint = none;
  parent_shard_id = none;
  claim_request = none;
}

abbrev pub shard_end : String
shard_end = "SHARD_END"

-- The errors of the checkpointer, those of the shard consumers, record processors and Kinesis that
-- are passed on beside them, and any other failure of a service.
pub data Error : Type 0 where
  lease_not_acquired : String → Error
  conditional_check_failed : String → Error
  shard_claimed sequence_id_not_found shard_not_assigned no_lease_owner bad_timestamp : Error
  shutdown_error lease_expired_error : Error
  local_tps_exceeded max_bytes_exceeded : Error
  provisioned_throughput_exceeded kms_throttling resource_not_found : Error
  service_error processor_error : String → Error

unfoldable pub is_sequence_id_not_found : Error → Bool
is_sequence_id_not_found sequence_id_not_found = true
is_sequence_id_not_found _ = false

unfoldable pub is_lease_not_acquired : Error → Bool
is_lease_not_acquired (lease_not_acquired cause) = true
is_lease_not_acquired _ = false

-- A Go pair of a value and an error.
pub data Reply {ℓ} (A : Type ℓ) : Type ℓ where
  ok : A → Reply A
  failed : Error → Reply A

pub Reply-cases {ℓ} :
    {A : Type ℓ} (r : Reply A) → ((e : Error) × (r ≡ failed e)) ⊎ ((a : A) × (r ≡ ok a))
Reply-cases (ok a) = inr (a, refl)
Reply-cases (failed e) = inl (e, refl)

-- A clause of a condition expression with the value put in for its placeholder.
pub data Clause : Type 0 where
  attribute_not_exists_assigned_to attribute_not_exists_claim_request : Clause
  attribute_not_exists_checkpoint attribute_not_exists_parent_shard_id : Clause
  shard_id_is assigned_to_is claim_request_is checkpoint_is checkpoint_is_not : String → Clause
  parent_shard_id_is : String → Clause
  lease_timeout_is : LeaseText → Clause

-- The clauses joined by AND; a call without a condition has none.
abbrev pub Condition : Type 0
Condition = List Clause

abbrev pub has : Option String → String → Bool
has none s = false
has (some t) s = str_eq t s

abbrev pub has_lease_text : Option LeaseText → LeaseText → Bool
has_lease_text none s = false
has_lease_text (some t) s = lease_text_eq t s

abbrev pub is_none {ℓ} : {A : Type ℓ} → Option A → Bool
is_none none = true
is_none (some a) = false

-- `a <> v` holds of a row without the attribute too.
unfoldable pub clause_holds : Clause → Item → Bool
clause_holds attribute_not_exists_assigned_to i = is_none i.assigned_to
clause_holds attribute_not_exists_claim_request i = is_none i.claim_request
clause_holds attribute_not_exists_checkpoint i = is_none i.checkpoint
clause_holds attribute_not_exists_parent_shard_id i = is_none i.parent_shard_id
clause_holds (shard_id_is s) i = has i.shard_id s
clause_holds (assigned_to_is s) i = has i.assigned_to s
clause_holds (claim_request_is s) i = has i.claim_request s
clause_holds (checkpoint_is s) i = has i.checkpoint s
clause_holds (checkpoint_is_not s) i = not (has i.checkpoint s)
clause_holds (parent_shard_id_is s) i = has i.parent_shard_id s
clause_holds (lease_timeout_is t) i = has_lease_text i.lease_timeout t

unfoldable pub holds : Condition → Item → Bool
unfolding clause_holds
holds [] i = true
holds (c ∷ cs) i = clause_holds c i && holds cs i

pub has-eq : (o : Option String) (s : String) → has o s ≡ true → o ≡ some s
has-eq none s h = cc
has-eq (some t) s h = ap some ((eq_iff t s).0 h)

-- An instant's text is no other text.
pub has_stamp-eq :
    (o : Option LeaseText) (t : Time) → has_lease_text o (stamp t) ≡ true → o ≡ some (stamp t)
has_stamp-eq none t h = cc
has_stamp-eq (some (stamp u)) t h = ap (λ v. some (stamp v)) (==ℤ_eq u t h)
has_stamp-eq (some (other s)) t h = cc

pub holds-append : (cs ds : Condition) (i : Item) → holds (cs ++ ds) i ≡ (holds cs i && holds ds i)
unfolding holds
holds-append [] ds i = refl
holds-append (c ∷ cs) ds i = ground (arith, holds-append cs ds i)
