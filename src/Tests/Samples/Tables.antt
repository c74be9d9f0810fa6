-- ===== src/Tests/Samples/Tables.antt =====
-- A lease table in memory, which is as DynamoDB documents.
use vmware_go_kcl_v2_test.Prelude.{
  ◌≡◌, refl, sym, ap, String, true, false, Option, none, some, [], arith, str_eq, eq_refl,
  if◌then◌else◌, Bool-cases, inl, inr,
}
use vmware_go_kcl_v2_test.Checkpoint.{
  Item, Condition, Error, conditional_check_failed, ok, holds, has,
}
use vmware_go_kcl_v2_test.Checkpoint.Service.{DynamoDbApi, IsDynamoDb, stored}

abbrev pub Table : Type 0
Table = String → Option Item

abbrev pub put : Table → String → Option Item → Table
put t k o j = if str_eq k j then o else t j

abbrev pub key_of : Option String → String
key_of none = ""
key_of (some k) = k

abbrev pub put_at : String → Condition → Item → Table → Table × Option Error
put_at k c i t =
    if holds c (stored (t k))
    then (put t k (some i), none)
    else (t, some (conditional_check_failed "condition"))

abbrev pub remove_at : Option Item → String → String → Table → Table × Option Error
remove_at none k owner t = (t, some (conditional_check_failed "condition"))
remove_at (some i) k owner t =
    if has i.assigned_to owner
    then (put t k (some (record i { assigned_to = none })), none)
    else (t, some (conditional_check_failed "condition"))

abbrev pub table_db : DynamoDbApi
table_db = record {
  State = Table;
  get_item = λ k t. (t, ok (t k));
  put_item = λ c i t. put_at (key_of i.shard_id) c i t;
  remove_assigned_to = λ k owner t. remove_at (t k) k owner t;
  delete_item = λ k t. (put t k none, none);
  scan = λ t. (t, ok []);
  describe_table = λ t. (t, none);
  create_table = λ r w t. (t, none);
}

pub ok-injective : (a b : Option Item) → ok a ≡ ok b → a ≡ b
ok-injective a b h = cc

item-injective : (a b : Item) → some a ≡ some b → a ≡ b
item-injective a b h = cc

pub put_at-holds :
    (c : Condition) (i : Item) (k : String) (t : Table)
    → (put_at k c i t).1 ≡ none
    → holds c (stored (t k)) ≡ true
put_at-holds c i k t h = elim (Bool-cases (holds c (stored (t k)))) [
  | inl met ↦ met
  | inr unmet ↦ absurd (ground arith)
]

pub put_at-writes :
    (c : Condition) (i : Item) (k : String) (t : Table)
    → (put_at k c i t).1 ≡ none
    → (j : String) → (put_at k c i t).0 j ≡ (if str_eq k j then some i else t j)
put_at-writes c i k t h j = rw (put_at-holds c i k t h) refl

pub put_at-refuses :
    (c : Condition) (i : Item) (k : String) (t : Table) (why : String)
    → (put_at k c i t).1 ≡ some (conditional_check_failed why)
    → (j : String) → (put_at k c i t).0 j ≡ t j
put_at-refuses c i k t why h j = elim (Bool-cases (holds c (stored (t k)))) [
  | inl met ↦ absurd (ground arith)
  | inr unmet ↦ rw unmet refl
]

pub keyed :
    (c : Condition) (i : Item) (k : String) (t : Table)
    → i.shard_id ≡ some k
    → put_at (key_of i.shard_id) c i t ≡ put_at k c i t
keyed c i k t e = rw e refl

pub remove_at-removes :
    (o : Option Item) (k owner : String) (t : Table) (i : Item)
    → (remove_at o k owner t).1 ≡ none
    → o ≡ some i
    → (has i.assigned_to owner ≡ true)
      × ((remove_at o k owner t).0 k ≡ some (record i { assigned_to = none }))
remove_at-removes none k owner t i h e = cc
remove_at-removes (some row) k owner t i h e = elim (Bool-cases (has row.assigned_to owner)) [
  | inl owned ↦
      let same : row ≡ i = item-injective row i e in
      (
        rw (← same) owned,
        rw (owned, eq_refl k) (ap (λ (x : Item). some (record x { assigned_to = none })) same),
      )
  | inr not_owned ↦ absurd (ground arith)
]

pub remove_at-keeps :
    (o : Option Item) (k owner : String) (t : Table) (j : String)
    → str_eq k j ≡ false
    → (remove_at o k owner t).0 j ≡ t j
remove_at-keeps none k owner t j e = refl
remove_at-keeps (some row) k owner t j e = elim (Bool-cases (has row.assigned_to owner)) [
  | inl owned ↦ rw (owned, e) refl
  | inr not_owned ↦ rw not_owned refl
]

abbrev pub table_db-IsDynamoDb : IsDynamoDb table_db
table_db-IsDynamoDb = record {
  row = λ t k. t k;
  get_item_keeps = λ k t j. refl;
  get_item_reads = λ k t o h. sym (ok-injective (t k) o h);
  put_item_holds = λ c i k t e h. put_at-holds c i k t (rw (← keyed c i k t e) h);
  put_item_writes =
      λ c i k t e h j. rw (keyed c i k t e) (put_at-writes c i k t (rw (← keyed c i k t e) h) j);
  put_item_refuses = λ c i t why h j. put_at-refuses c i (key_of i.shard_id) t why h j;
  remove_assigned_to_removes = λ k owner t i h e. remove_at-removes (t k) k owner t i h e;
  remove_assigned_to_keeps = λ k owner t j e. remove_at-keeps (t k) k owner t j e;
}
