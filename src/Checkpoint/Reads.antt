-- ===== src/Checkpoint/Reads.antt =====
-- clientlibrary/checkpoint/dynamodb-checkpointer.go: getItem, saveItem and the rows of the table.
use vmware_go_kcl_v2_test.Prelude.{
  ◌≡◌, ◌∙◌, refl, ap, String, Option, none, some, arith, str_eq, if◌then◌else◌,
}
use vmware_go_kcl_v2_test.Checkpoint.{Item, Reply, ok, failed}
use vmware_go_kcl_v2_test.Checkpoint.Service.{DynamoDbApi, IsDynamoDb, stored}
use vmware_go_kcl_v2_test.Checkpoint.Dynamo.{row_or_nil, get_item, save_item}

row_or_nil-stored :
    (reply : Reply (Option Item)) (row : Item)
    → row_or_nil reply ≡ ok row
    → (o : Option Item) × (reply ≡ ok o) × (row ≡ stored o)
row_or_nil-stored (ok none) row h = (none, refl, ground arith)
row_or_nil-stored (ok (some i)) row h = (some i, refl, ground arith)
row_or_nil-stored (failed e) row h = cc

module _ (db : DynamoDbApi) (is : IsDynamoDb db) where
  pub get_item-stored :
      (k : String) (s : db.State) (row : Item)
      → (get_item db k s).1 ≡ ok row
      → row ≡ stored (is.row s k)
  unfolding get_item
  get_item-stored k s row h =
      let (o, e, q) = row_or_nil-stored (db.get_item k s).1 row h in
      q ∙ ap stored (is.get_item_reads k s o e)

  pub row-get_item :
      (k : String) (s : db.State) (j : String) → is.row (get_item db k s).0 j ≡ is.row s j
  unfolding get_item
  row-get_item k s j = is.get_item_keeps k s j

  pub row-save_item :
      (i : Item) (k : String) (s : db.State) (j : String)
      → i.shard_id ≡ some k
      → (save_item db i s).1 ≡ none
      → is.row (save_item db i s).0 j ≡ (if str_eq k j then some i else is.row s j)
  unfolding save_item
  row-save_item i k s j key e = is.put_item_writes _ i k s key e j
