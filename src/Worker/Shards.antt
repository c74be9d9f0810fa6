-- ===== src/Worker/Shards.antt =====
-- clientlibrary/worker/worker.go: getShardIDs and syncShard.
pub mod Sync
use vmware_go_kcl_v2_test.Prelude.{
  ℕ, zero, suc, String, Bool, true, false, ◌||◌, Option, none, some, List, [], ◌∷◌, ◌++◌, str_eq,
  if◌then◌else◌,
}
use vmware_go_kcl_v2_test.Partition.{ShardStatus, zero_time}
use vmware_go_kcl_v2_test.Checkpoint.{Error, Reply, ok, failed}
use vmware_go_kcl_v2_test.Checkpoint.Workers.{ShardMap}
use vmware_go_kcl_v2_test.Checkpoint.Checkpointer.{Checkpointer}
use vmware_go_kcl_v2_test.Kinesis.{Shard, ListShardsOutput, KinesisApi}

-- shardInfo[id], a set of ids.
abbrev pub contains : String → List String → Bool
contains id [] = false
contains id (i ∷ is) = str_eq i id || contains id is

abbrev pub has_shard : String → ShardMap → Bool
has_shard id [] = false
has_shard id (shard ∷ shards) = str_eq shard.id id || has_shard id shards

-- w.shardStatus[id]
abbrev pub find_shard : String → ShardMap → Option ShardStatus
find_shard id [] = none
find_shard id (shard ∷ shards) = if str_eq shard.id id then some shard else find_shard id shards

-- aws.ToString
abbrev pub to_string : Option String → String
to_string none = ""
to_string (some s) = s

unfoldable pub new_shard_status : Shard → ShardStatus
new_shard_status s = record {
  id = s.shard_id;
  parent_shard_id = to_string s.parent_shard_id;
  checkpoint = "";
  assigned_to = "";
  lease_timeout = zero_time;
  starting_sequence_number = to_string s.starting_sequence_number;
  ending_sequence_number = to_string s.ending_sequence_number;
  claim_request = "";
}

-- The loop over a page: each id is recorded, and a shard that is not cached yet is added.
unfoldable pub add_shards : List Shard → List String → ShardMap → List String × ShardMap
unfolding new_shard_status
add_shards [] info shards = (info, shards)
add_shards (s ∷ ss) info shards =
    add_shards ss (s.shard_id ∷ info)
      (if has_shard s.shard_id shards then shards else shards ++ new_shard_status s ∷ [])

module _ (k : KinesisApi) where
  -- The pages from a token on, on fuel: `none` when it runs out. What was added before an error
  -- stays.
  unfoldable pub get_shard_ids :
      ℕ
      → String
      → List String
      → ShardMap
      → k.State
      → Option (k.State × List String × ShardMap × Option Error)
  unfolding add_shards
  get_shard_ids zero next_token info shards s = none
  get_shard_ids (suc fuel) next_token info shards s =
      let (s', reply) = k.list_shards next_token s in
      elim reply [
        | failed e ↦ some (s', info, shards, some e)
        | ok page ↦
            let (info', shards') = add_shards page.shards info shards in
            elim page.next_token [
              | none ↦ some (s', info', shards', none)
              | some token ↦ get_shard_ids fuel token info' shards' s'
            ]
      ]

module _ (c : Checkpointer) where
  -- The loop of syncShard; the error of RemoveLeaseInfo is only logged.
  unfoldable pub remove_stale : List String → ShardMap → c.State → c.State × ShardMap
  remove_stale info [] s = (s, [])
  remove_stale info (shard ∷ shards) s =
      let keep = remove_stale info shards s in
      let drop = remove_stale info shards (c.remove_lease_info shard.id s).0 in
      if contains shard.id info then (keep.0, shard ∷ keep.1) else drop

  abbrev pub finish_sync {ℓ} :
      {K : Type ℓ}
      → K × List String × ShardMap × Option Error
      → c.State
      → K × c.State × ShardMap × Option Error
  finish_sync (k, info, shards, some e) s = (k, s, shards, some e)
  finish_sync (k, info, shards, none) s =
      let (s', shards') = remove_stale info shards s in (k, s', shards', none)

  unfoldable pub sync_shard :
      (k : KinesisApi)
      → ℕ
      → ShardMap
      → k.State
      → c.State
      → Option (k.State × c.State × ShardMap × Option Error)
  unfolding remove_stale
  sync_shard k fuel shards ks s = elim (get_shard_ids k fuel "" [] shards ks) [
    | none ↦ none
    | some r ↦ some (finish_sync r s)
  ]
