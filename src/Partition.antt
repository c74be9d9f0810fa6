-- ===== src/Partition.antt =====
-- clientlibrary/partition/partition.go: what a worker caches of a shard. The mutex guards single
-- field accesses, so the accessors are plain reads and writes. A time is a number of nanoseconds
-- since Go's zero time, which is 0.
use vmware_go_kcl_v2_test.Prelude.{String, Bool, false, if◌then◌else◌}
use vmware_go_kcl_v2_test.Prelude.Int.{ℤ, pos, ◌-ℤ◌, ◌*ℤ◌, ltb_ℤ, ◌==ℤ◌}
use vmware_go_kcl_v2_test.Config.{KinesisClientLibConfiguration}

abbrev pub Time : Type 0
Time = ℤ

abbrev pub zero_time : Time
zero_time = pos 0

-- time.Duration(n) * time.Millisecond
unfoldable pub milliseconds : ℤ → ℤ
milliseconds n = n *ℤ 1000000

pub record ShardStatus : Type 0 where
  pub id : String
  pub parent_shard_id : String
  pub checkpoint : String
  pub assigned_to : String
  pub lease_timeout : Time
  pub starting_sequence_number : String
  pub ending_sequence_number : String
  pub claim_request : String

unfoldable pub get_lease_owner : ShardStatus → String
get_lease_owner ss = ss.assigned_to

unfoldable pub set_lease_owner : String → ShardStatus → ShardStatus
set_lease_owner owner ss = record ss { assigned_to = owner }

unfoldable pub get_checkpoint : ShardStatus → String
get_checkpoint ss = ss.checkpoint

unfoldable pub set_checkpoint : String → ShardStatus → ShardStatus
set_checkpoint c ss = record ss { checkpoint = c }

unfoldable pub get_lease_timeout : ShardStatus → Time
get_lease_timeout ss = ss.lease_timeout

unfoldable pub set_lease_timeout : Time → ShardStatus → ShardStatus
set_lease_timeout timeout ss = record ss { lease_timeout = timeout }

-- `now` is the reading of the clock that the call makes. now.Add(-d) is `now -ℤ d`.
unfoldable pub is_claim_request_expired : KinesisClientLibConfiguration → Time → ShardStatus → Bool
unfolding get_lease_timeout
is_claim_request_expired cfg now ss =
    if get_lease_timeout ss ==ℤ zero_time
    then false
    else ltb_ℤ (get_lease_timeout ss) (now -ℤ milliseconds cfg.lease_stealing_claim_timeout_millis)
