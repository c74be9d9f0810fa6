-- ===== src/Checkpoint/Service.antt =====
-- The calls of the DynamoDB client that the checkpointer makes (clientlibrary/checkpoint/
-- dynamodb-api.go), as a parameter: the service is no part of the repository.
use vmware_go_kcl_v2_test.Prelude.{
  ◌≡◌, String, Bool, true, Option, none, some, List, str_eq, if◌then◌else◌,
}
use vmware_go_kcl_v2_test.Prelude.Int.{ℤ}
use vmware_go_kcl_v2_test.Checkpoint.{
  Item, empty_item, Condition, Error, conditional_check_failed, Reply, ok, holds, has,
}

-- A condition is tested against the stored row, or against no attributes where there is no row.
abbrev pub stored : Option Item → Item
stored none = empty_item
stored (some i) = i

-- `State` is the whole service with whatever decides which calls fail.
pub record DynamoDbApi : Type 1 where
  pub State : Type 0
  -- GetItem with a consistent read
  pub get_item : String → State → State × Reply (Option Item)
  -- PutItem of the row, if the condition holds
  pub put_item : Condition → Item → State → State × Option Error
  -- UpdateItem "remove AssignedTo" of the row of the first text, if AssignedTo is the second one
  pub remove_assigned_to : String → String → State → State × Option Error
  -- DeleteItem
  pub delete_item : String → State → State × Option Error
  -- Scan, projected on ShardID, AssignedTo and Checkpoint
  pub scan : State → State × Reply (List Item)
  -- DescribeTable
  pub describe_table : State → State × Option Error
  -- CreateTable with its read and write capacity
  pub create_table : ℤ → ℤ → State → State × Option Error

-- What the service documents of these calls, over the rows `row s k` that it holds. A call that
-- fails for another reason than its condition may or may not have been carried out.
pub record IsDynamoDb (db : DynamoDbApi) : Type 1 where
  pub row : db.State → String → Option Item
  pub get_item_keeps :
      (k : String) (s : db.State) (j : String) → row (db.get_item k s).0 j ≡ row s j
  pub get_item_reads :
      (k : String) (s : db.State) (o : Option Item) → (db.get_item k s).1 ≡ ok o → o ≡ row s k
  pub put_item_holds :
      (c : Condition) (i : Item) (k : String) (s : db.State)
      → i.shard_id ≡ some k
      → (db.put_item c i s).1 ≡ none
      → holds c (stored (row s k)) ≡ true
  pub put_item_writes :
      (c : Condition) (i : Item) (k : String) (s : db.State)
      → i.shard_id ≡ some k
      → (db.put_item c i s).1 ≡ none
      → (j : String) → row (db.put_item c i s).0 j ≡ (if str_eq k j then some i else row s j)
  pub put_item_refuses :
      (c : Condition) (i : Item) (s : db.State) (why : String)
      → (db.put_item c i s).1 ≡ some (conditional_check_failed why)
      → (j : String) → row (db.put_item c i s).0 j ≡ row s j
  pub remove_assigned_to_removes :
      (k owner : String) (s : db.State) (i : Item)
      → (db.remove_assigned_to k owner s).1 ≡ none
      → row s k ≡ some i
      → (has i.assigned_to owner ≡ true)
        × (row (db.remove_assigned_to k owner s).0 k ≡ some (record i { assigned_to = none }))
  pub remove_assigned_to_keeps :
      (k owner : String) (s : db.State) (j : String)
      → str_eq k j ≡ Bool.false
      → row (db.remove_assigned_to k owner s).0 j ≡ row s j
