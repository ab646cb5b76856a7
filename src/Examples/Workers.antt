-- ===== src/Examples/Workers.antt =====
-- A worker, with messages of the stream and requests that are lost.
use distributed_load_testing.Worker.Main.{Start, Settings, busy_group}
use distributed_load_testing.Common.{
  ◌≡◌, refl, inl, inr, arith, true, ok, none, some, List, [], ◌∷◌, false,
}
use distributed_load_testing.Common.Int.{pos}
use distributed_load_testing.Common.Table.{find?, count_where, update_where, select_where}
use distributed_load_testing.Float.{Cents, cents_float}
use distributed_load_testing.Models.{Status, CompleteShardRequest, running, is_open}
use distributed_load_testing.Store.{shard_where, has_run_id, has_shard_id}
use distributed_load_testing.Store.Closing.{HasRuns}
use distributed_load_testing.Handlers.{World}
use distributed_load_testing.Queue.{Message}
use distributed_load_testing.Worker.{lost, delivered, Trip, send, send_over}
use distributed_load_testing.Api.{serve, serve_all}
use distributed_load_testing.Models.{parse_status}
use distributed_load_testing.Handlers.Internal.{
  takeover_shard, complete_shard_handler, complete_shard_valid,
}
use distributed_load_testing.Store.Commit.{FitsInt64}
use distributed_load_testing.Store.Rows.{claimed_store}
use distributed_load_testing.Worker.Replies.{IsFinal}
use distributed_load_testing.Worker.Delivery.{smooth_job, reported_shards, handle_message-completes}
use distributed_load_testing.Store.Shards.{
  start_guard, assignment, to_partial, shard_to_running, take_over_shard, claim_shard,
  complete_shard, complete_shard_as, finish_shard, finish_tx, barrier,
}
use distributed_load_testing.Runner.Run.{run, run_users, do_request}
use distributed_load_testing.Runner.Stats.{merge_stats, merge_vu}
use distributed_load_testing.Common.Int.{add64}
use distributed_load_testing.Worker.Client.{
  claim_shard_by_id, read_claim, complete_shard_by_id, report, read_report,
}
use distributed_load_testing.Store.Lifecycle.{IsKeyed}
use distributed_load_testing.Models.{cancelling}
use distributed_load_testing.Api.{cancel_run}
use distributed_load_testing.Worker.Watch.{
  Tick, IsCancelled, calls_of, watch_cancel, watch_cancel-IsCancelled, watch_cancel-stops,
}
use distributed_load_testing.Worker.Jobs.{
  execute_shard, run_claimed, after_claim, handle_shard, Job, Pending, Turn, xack, xadd_dead,
  handle_message, dead_letter,
}
use distributed_load_testing.Worker.Acks.{IsUnclaimable, handle_message-acked}
use distributed_load_testing.Worker.Poison.{poison_reason, dead_letter-fails, dead_letter-strands}
use distributed_load_testing.Store.Columns.{of_run}
use distributed_load_testing.Store.Shards.{shard_to_failed}
use distributed_load_testing.Handlers.Fanout.{quiet}
use distributed_load_testing.Worker.{reply_lost}
use distributed_load_testing.Examples.{
  store_a-IsKeyed, store_b, store_b-IsKeyed, shard_in, run_in, store_a, handler_a, world_a, calm,
  schedule_a,
}

store_b-HasRuns : HasRuns store_b
unfolding find?
store_b-HasRuns = ((_, refl), ((_, refl), tt))

abbrev world_b : World Cents
world_b = record { store = store_b; stream = record { entries = []; next_id = 0 } }

abbrev trip_a : Trip
trip_a = record { surroundings = calm; link = delivered }

abbrev job_a : Job Cents
job_a = record { claiming = trip_a; meanwhile = []; schedule = schedule_a; reporting = trip_a }

abbrev message_a : Message
message_a = record { id = 70; shard_id = some (pos 1) }

abbrev given_up : Pending Cents
given_up = record {
  id = 60;
  retry_count = 6;
  shard_id = pos 2;
  failing = record { surroundings = calm; link = lost };
  xclaim = none;
}

abbrev turns_a : List (Turn Cents)
turns_a = record { pending = some (given_up ∷ []); delivered = some ((message_a, job_a) ∷ []) } ∷ []

abbrev start_a : Start Cents
start_a = record { redis_ping = ok tt; group = busy_group; turns = turns_a }

abbrev settings_a : Settings
settings_a = record {
  reclaim_min_idle = pos 15000000000;
  max_deliveries = pos 5;
  heartbeat_interval = pos 2000000000;
}

finished_a : (handle_message handler_a job_a true world_b message_a).1 ≡ xack 70 ∷ []
unfolding handle_message handle_shard after_claim run_claimed claim_shard_by_id read_claim send
    send_over serve serve_all takeover_shard take_over_shard claim_shard complete_shard_by_id report
    read_report complete_shard_handler execute_shard run complete_shard_valid complete_shard
    complete_shard_as parse_status finish_shard finish_tx barrier count_where update_where find?
finished_a = refl

handle_message-acked_example :
    IsUnclaimable true 1 (handle_message handler_a job_a true world_b message_a).0.store
handle_message-acked_example =
    handle_message-acked handler_a job_a true world_b message_a 1 store_b-IsKeyed store_b-HasRuns
      refl finished_a

found_open : find? (shard_where 2 is_open) store_a.shards ≡ some (shard_in 2 1 running none)
unfolding find?
found_open = refl

found_run_a : find? (has_run_id 1) store_a.runs ≡ some (run_in 1 running)
unfolding find?
found_run_a = refl

fits_failed : FitsInt64 (
    select_where
      (of_run 1)
      (update_where (shard_where 2 is_open) (shard_to_failed 9 poison_reason) store_a.shards))
unfolding select_where update_where
fits_failed = record {
  total = omega arith;
  success = omega arith;
  failures = omega arith;
  samples = omega arith;
}

dead_letter-fails_example :
    let t : Trip = record { surroundings = quiet 9 (λ _. false); link = reply_lost } in
    let (w', commands) = dead_letter handler_a t world_a 60 6 (pos 2) in
    (commands ≡ xadd_dead (pos 2) 60 6 ∷ xack 60 ∷ [])
    × (find? (has_shard_id 2) w'.store.shards
        ≡ some (shard_to_failed 9 poison_reason (shard_in 2 1 running none)))
dead_letter-fails_example =
    dead_letter-fails handler_a reply_lost 9 (λ _. false) world_a 60 6 1 (shard_in 2 1 running none)
      (run_in 1 running) (λ e. cc) store_a-IsKeyed found_open found_run_a fits_failed

dead_letter-strands_example :
    let (w', commands) = dead_letter handler_a given_up.failing world_a 60 6 (pos 2) in
    (commands ≡ xadd_dead (pos 2) 60 6 ∷ xack 60 ∷ [])
    × (find? (shard_where 2 is_open) w'.store.shards ≡ some (shard_in 2 1 running none))
dead_letter-strands_example =
    dead_letter-strands handler_a given_up.failing world_a 60 6 1 (shard_in 2 1 running none)
      (inl refl) found_open

found_b :
    (find? (shard_where 1 (start_guard true)) store_b.shards ≡ some (shard_in 1 1 running none))
    × (find? (has_run_id 1) store_b.runs ≡ some (run_in 1 running))
unfolding find?
found_b = (refl, refl)

abbrev body_b : CompleteShardRequest Cents
body_b = execute_shard (assignment (shard_in 1 1 running none) (run_in 1 running)) schedule_a

fits_b :
    (st : Status) → FitsInt64 (reported_shards 12 st body_b 1 1 (claimed_store 9 true 1 1 store_b))
unfolding select_where update_where execute_shard run merge_stats run_users merge_vu add64
    do_request
fits_b st = record {
  total = omega arith;
  success = omega arith;
  failures = omega arith;
  samples = omega arith;
}

handle_message-completes_example :
    let (w', commands) =
      handle_message handler_a
        (smooth_job 9 (λ _. false) schedule_a 12 (λ _. false))
        true
        world_b
        (record { id = 70; shard_id = some (pos 1) }) in
    (commands ≡ xack 70 ∷ [])
    × (st : Status) × IsFinal st
    × (find? (has_shard_id 1) w'.store.shards
        ≡ some (to_partial 12 st body_b (shard_to_running 9 (shard_in 1 1 running none))))
handle_message-completes_example =
    handle_message-completes handler_a 9 12 (λ _. false) (λ _. false) schedule_a true world_b 70 0
      (shard_in 1 1 running none) (run_in 1 running) store_b-IsKeyed found_b.0 found_b.1 fits_b

abbrev world_c : World Cents
world_c = record {
  store = record store_b { runs = run_in 1 cancelling ∷ [] };
  stream = record { entries = []; next_id = 0 };
}

world_c-IsKeyed : IsKeyed world_c.store
world_c-IsKeyed = record {
  run_ids = ground arith;
  run_ids_used = ground arith;
  shard_ids = ground arith;
  shard_ids_used = ground arith;
}

world_c-IsCancelled : IsCancelled 1 world_c.store
unfolding find?
world_c-IsCancelled = (run_in 1 cancelling, refl, refl)

abbrev ticks_c : List (Tick Cents)
ticks_c =
    record {
      meanwhile = (calm, cancel_run (some (pos 1))) ∷ [];
      polling = record { surroundings = calm; link = lost };
    }
    ∷ record { meanwhile = []; polling = trip_a }
    ∷ []

watch_cancel-stops_example : watch_cancel handler_a (pos 1) world_c ticks_c ≡ true
watch_cancel-stops_example =
    watch_cancel-stops handler_a 1 world_c ticks_c (omega arith) world_c-IsKeyed world_c-IsCancelled
      (inr (inl (refl, refl)))

stopped_c : watch_cancel handler_a (pos 1) world_c ticks_c ≡ true
stopped_c =
    watch_cancel-stops handler_a 1 world_c ticks_c (omega arith) world_c-IsKeyed world_c-IsCancelled
      (inr (inl (refl, refl)))

watch_cancel-IsCancelled_example :
    IsCancelled 1 (serve_all handler_a world_c (calls_of ticks_c)).store
watch_cancel-IsCancelled_example =
    watch_cancel-IsCancelled handler_a 1 world_c ticks_c world_c-IsKeyed stopped_c
