-- ===== src/Tests/Rounds.antt =====
-- The theorems on the event loop and the worker's life at concrete rounds.
use vmware_go_kcl_v2_test.Prelude.{◌≡◌, refl, inl, true, false, Option, none, some, [], ◌∷◌, arith}
use vmware_go_kcl_v2_test.Prelude.Int.{pos, ◌+ℤ◌, ◌*ℤ◌}
use vmware_go_kcl_v2_test.Prelude.Outcome.{returns, open_channel, closed_channel}
use vmware_go_kcl_v2_test.Partition.{
  ShardStatus, milliseconds, get_checkpoint, get_lease_owner, get_lease_timeout,
  is_claim_request_expired,
}
use vmware_go_kcl_v2_test.Checkpoint.{Error, failed, service_error, parse, lease_text_is_empty}
use vmware_go_kcl_v2_test.Checkpoint.Service.{DynamoDbApi}
use vmware_go_kcl_v2_test.Checkpoint.Dynamo.{get_item, conditional_update, init}
use vmware_go_kcl_v2_test.Checkpoint.Checkpointer.{Checkpointer, dynamo_checkpointer}
use vmware_go_kcl_v2_test.Checkpoint.Lease.{
  get_lease, put_error, lease_of_row, put_lease, lease_request, lease_condition, claim_condition,
  claimed_by_another, claim_on, still_leased, lease_item, lease_taken,
}
use vmware_go_kcl_v2_test.Checkpoint.Rows.{fetch_checkpoint, fetch_reply, fetch_row, fetch_timeout}
use vmware_go_kcl_v2_test.Kinesis.{KinesisApi}
use vmware_go_kcl_v2_test.Metrics.Service.{MonitoringService, noop_monitoring_service}
use vmware_go_kcl_v2_test.Worker.Acquire.{RoundInstants, visit_shard, goes_on}
use vmware_go_kcl_v2_test.Worker.Acquire.Granting.{dynamo_grants}
use vmware_go_kcl_v2_test.Worker.Acquire.Starvation.{failed_lease_starves}
use vmware_go_kcl_v2_test.Worker.Shards.Sync.{listing}
use vmware_go_kcl_v2_test.Worker.Loop.{LoopState, LoopRound, event_loop}
use vmware_go_kcl_v2_test.Worker.Loop.Stops.{
  ListingAnswers, failing_listing_never_stops, event_loop-Returns,
}
use vmware_go_kcl_v2_test.Worker.Loop.Consumers.{Starts, event_loop-Starts}
use vmware_go_kcl_v2_test.Worker.Lifecycle.{
  Worker, new_worker, kinesis_client, checkpointer_of, consumer_arn_of, initialize_services,
  initialize, start_services, start_worker, shutdown_worker, starts, shuts_down, call_all,
}
use vmware_go_kcl_v2_test.Worker.Lifecycle.Calls.{IsOrderly, call_all-Returns}
use vmware_go_kcl_v2_test.Worker.Lifecycle.Restarts.{shutdowns, restarted_worker_runs_on}
use vmware_go_kcl_v2_test.Tests.Metrics.{naturals}
use vmware_go_kcl_v2_test.Tests.Samples.{
  table_db, sample_config, lease_table, cached, leased_row, table_of, at_time, checkpointer, stream,
  listed,
}

abbrev noop : MonitoringService naturals
noop = noop_monitoring_service naturals

abbrev at_fifty : RoundInstants
at_fifty = record { upcoming = pos 50; claim = pos 50; lease = at_time (pos 50) }

-- Bob's lease has run out at 40.
abbrev state : checkpointer.State
state = (lease_table sample_config, table_of (leased_row "bob" (pos 40) "7" none))

-- A stream whose shards are never listed.
abbrev mute : KinesisApi
mute = record stream { list_shards = λ token n. (n, failed (service_error "no access")) }

abbrev idle : (k : KinesisApi) → k.State → LoopState checkpointer k noop
idle k ks = record {
  kinesis = ks;
  table = state;
  metrics = tt;
  shards = [];
  steal_in_progress = false;
  wait_group = 1;
  started = [];
}

-- A round at 50 in which nothing else happens, with the stop channel closed.
abbrev last_round : (k : KinesisApi) → LoopRound checkpointer k noop
last_round k = record {
  pages = 1;
  now = λ id. at_fifty;
  sync = record { check = pos 50; stamp = pos 50 };
  rnd = 0;
  visit = λ workers. workers;
  stopped = true;
  meanwhile = λ shared. shared;
}

failing_listing_never_stops_example :
    (l' : LoopState checkpointer mute noop) × (event_loop checkpointer mute noop sample_config "ann"
        (last_round mute ∷ last_round mute ∷ [])
        (idle mute 0)
      ≡ some (l', false))
    × (l'.started ≡ [])
failing_listing_never_stops_example =
    failing_listing_never_stops checkpointer mute noop sample_config "ann"
      (last_round mute ∷ last_round mute ∷ []) (idle mute 0)
      (λ token n. (service_error "no access", refl)) (omega arith)

two_listed : ListingAnswers checkpointer stream noop sample_config "ann" 1
unfolding listing
two_listed n = (n, listed "shard" ∷ listed "child" ∷ [], refl)

event_loop-Returns_example :
    (l' : LoopState checkpointer stream noop) × (event_loop checkpointer stream noop sample_config
        "ann"
        (last_round stream ∷ [])
        (idle stream 0)
      ≡ some (l', true))
event_loop-Returns_example =
    event_loop-Returns checkpointer stream noop sample_config "ann" (last_round stream ∷ [])
      (idle stream 0) refl (two_listed, tt) (inl refl)

-- Where the loop ends after its one round.
abbrev ended :
    (l' : LoopState checkpointer stream noop) × (event_loop checkpointer stream noop sample_config
        "ann"
        (last_round stream ∷ [])
        (idle stream 0)
      ≡ some (l', true))
ended =
    event_loop-Returns checkpointer stream noop sample_config "ann" (last_round stream ∷ [])
      (idle stream 0) refl (two_listed, tt) (inl refl)

event_loop-Starts_example :
    Starts checkpointer
      (dynamo_grants table_db)
      stream
      noop
      sample_config
      "ann"
      1
      (idle stream 0)
      ended.0
event_loop-Starts_example =
    event_loop-Starts checkpointer (dynamo_grants table_db) stream noop sample_config "ann"
      (last_round stream ∷ []) (idle stream 0) ended.0 true ended.1

abbrev ann : Worker checkpointer stream noop
ann = new_worker checkpointer stream noop tt

call_all-Returns_example :
    (w' : Worker checkpointer stream noop) × (call_all checkpointer stream noop sample_config
        (shuts_down ∷ starts (some 0) state ∷ shuts_down ∷ shuts_down ∷ starts (some 0) state ∷ [])
        ann
      ≡ returns w')
    × IsOrderly checkpointer stream noop sample_config w'
unfolding new_worker
call_all-Returns_example =
    call_all-Returns checkpointer stream noop sample_config
      (shuts_down ∷ starts (some 0) state ∷ shuts_down ∷ shuts_down ∷ starts (some 0) state ∷ [])
      ann (omega arith) (λ e. cc)

-- Ann's worker while it runs, after Shutdown, and started again.
abbrev running : Worker checkpointer stream noop
running = record {
  consumer_arn = "";
  kc = some 0;
  checkpointer = some state;
  m_service = tt;
  stop = open_channel;
  wait_group = 1;
  done = false;
  shard_status = [];
  shard_steal_in_progress = false;
}

abbrev stopped : Worker checkpointer stream noop
stopped = record running { stop = closed_channel; done = true; wait_group = 0 }

abbrev again : Worker checkpointer stream noop
again = record running { done = true }

stops : shutdown_worker checkpointer stream noop running ≡ returns stopped
unfolding shutdown_worker
stops = refl

starts_again :
    start_worker checkpointer stream noop sample_config none state stopped ≡ returns (again, none)
unfolding start_worker initialize kinesis_client checkpointer_of consumer_arn_of initialize_services
    start_services init
starts_again = refl

restarted_worker_runs_on_example :
    (call_all checkpointer stream noop sample_config
        (shutdowns checkpointer stream noop sample_config 2)
        again
      ≡ returns again)
    × (again.stop ≡ open_channel)
    × (again.wait_group ≡ 1)
restarted_worker_runs_on_example =
    restarted_worker_runs_on checkpointer stream noop sample_config running stopped again none state
      2 refl refl stops starts_again

-- A table that takes no write.
abbrev throttled : DynamoDbApi
throttled = record table_db { put_item = λ c i t. (t, some (service_error "throttled")) }

abbrev refusing : Checkpointer
refusing = dynamo_checkpointer throttled

abbrev own_row : refusing.State
own_row = (lease_table sample_config, table_of (leased_row "ann" (pos 40) "7" none))

abbrev fetched : refusing.State × ShardStatus × Option Error
fetched = refusing.fetch_checkpoint (cached "" (pos 0)) own_row

fetched_own : fetched.1.assigned_to ≡ "ann"
unfolding fetch_checkpoint get_item fetch_reply fetch_row fetch_timeout parse lease_text_is_empty
fetched_own = refl

fetched_row : fetched.2 ≡ none
unfolding fetch_checkpoint get_item fetch_reply fetch_row fetch_timeout parse lease_text_is_empty
fetched_row = refl

lease_refused :
    ((refusing.get_lease at_fifty.lease fetched.1 "ann" fetched.0).2
      ≡ some (service_error "throttled"))
    × ((refusing.get_lease at_fifty.lease fetched.1 "ann" fetched.0).1.assigned_to
        ≡ fetched.1.assigned_to)
unfolding fetch_checkpoint get_item fetch_reply fetch_row fetch_timeout parse lease_text_is_empty
    get_lease lease_of_row put_lease put_error lease_request lease_condition claim_condition
    claimed_by_another claim_on still_leased lease_item lease_taken conditional_update milliseconds
    is_claim_request_expired ◌+ℤ◌ ◌*ℤ◌ get_checkpoint get_lease_owner get_lease_timeout
lease_refused = (refl, refl)

failed_lease_starves_example :
    let visited = visit_shard refusing sample_config "ann" at_fifty (cached "" (pos 0)) own_row in
    (visited.2 ≡ goes_on)
    × ((later : RoundInstants) (t : refusing.State)
        → visit_shard refusing sample_config "ann" later visited.1 t ≡ (t, visited.1, goes_on))
failed_lease_starves_example =
    failed_lease_starves refusing sample_config "ann" at_fifty (cached "" (pos 0)) own_row
      (service_error "throttled") fetched_row fetched_own lease_refused
