-- ===== src/Examples/Reached.antt =====
-- A user asks for a run, a worker gets the message of its first shard and claims it, and dies.
use distributed_load_testing.Common.{◌≡◌, refl, ◌⊎◌, inl, true, false, none, some, [], ok, arith}
use distributed_load_testing.Common.Int.{pos}
use distributed_load_testing.Common.Table.{find?, update_where}
use distributed_load_testing.Float.{Cents, cents_float}
use distributed_load_testing.Models.{TestRun, running, is_open}
use distributed_load_testing.Queue.{Message, publish_shard}
use distributed_load_testing.Store.{Shard, has_run_id, shard_where}
use distributed_load_testing.Store.Create.{
  new_run, new_shard, create_tx, create_with_shards, insert_shards,
}
use distributed_load_testing.Store.Runs.{count_active_runs}
use distributed_load_testing.Store.Shards.{start_shard, claim_shard}
use distributed_load_testing.Store.Lifecycle.{IsKeyed}
use distributed_load_testing.Handlers.{World}
use distributed_load_testing.Handlers.Public.{
  create_test_run, create_valid, insert_run, publish_all, target_allowed, admission,
}
use distributed_load_testing.Handlers.Validate.{
  validate_create, check_basics, check_shards, check_shape, allowed_method, split_vus,
}
use distributed_load_testing.Handlers.Internal.{start_shard_handler}
use distributed_load_testing.Api.{post_run, serve}
use distributed_load_testing.Worker.{delivered, Trip, send, send_over}
use distributed_load_testing.Worker.Client.{claim_shard_by_id, read_claim}
use distributed_load_testing.System.{
  System, Limits, IsIn, assign, deliver, join, begin_message, fresh_system, request, delivery,
  crash, Reach, start, more,
}
use distributed_load_testing.System.Safe.{open_shard-kept}
use distributed_load_testing.Examples.{handler_a, request_a, calm, shard_in, run_in}

abbrev empty_world : World Cents
empty_world = record {
  store = record { runs = []; shards = []; next_run = 1; next_shard = 1 };
  stream = record { entries = []; next_id = 0 };
}

empty_world-IsKeyed : IsKeyed empty_world.store
empty_world-IsKeyed = record {
  run_ids = tt;
  run_ids_used = tt;
  shard_ids = tt;
  shard_ids_used = tt;
}

abbrev trip_a : Trip
trip_a = record { surroundings = calm; link = delivered }

-- The job of the run's first shard.
abbrev job_a : Message
job_a = record { id = 0; shard_id = some (pos 1) }

abbrev at_rest : System Cents
at_rest = fresh_system empty_world

abbrev limits_a : Limits
limits_a = record { max_deliveries = pos 5; min_idle = 15000 }

abbrev grouped : System Cents
grouped = record at_rest { group = some 0 }

abbrev requested : System Cents
requested = record grouped {
  world = (serve handler_a calm empty_world (post_run (ok request_a))).0;
}

abbrev claimed_a : System Cents
claimed_a = begin_message handler_a trip_a false (deliver requested 0) 0 job_a

abbrev crashed : System Cents
crashed = record claimed_a { worker = assign claimed_a.worker 0 none }

requested_job : IsIn job_a requested.world.stream.entries
unfolding serve create_test_run create_valid validate_create check_basics check_shards check_shape
    allowed_method target_allowed admission count_active_runs insert_run create_with_shards
    create_tx insert_shards publish_all publish_shard split_vus new_run new_shard
requested_job = inl refl

crashed-Reach : Reach handler_a limits_a at_rest crashed
crashed-Reach =
    more claimed_a crashed
      (more requested claimed_a
        (more grouped requested (more at_rest grouped start (join at_rest refl))
          (request grouped calm (post_run (ok request_a)) tt))
        (delivery requested trip_a 0 job_a 0 refl refl (omega arith) requested_job refl))
      (crash claimed_a 0)

abbrev shard_a : Shard Cents
shard_a = record (shard_in 1 1 running none) {
  virtual_users = 3;
  started_at = some 9;
  created_at = 9;
}

abbrev run_a : TestRun Cents
run_a = record (run_in 1 running) { started_at = some 9; created_at = 9 }

crashed_job :
    IsIn job_a crashed.world.stream.entries
    × (find? (shard_where 1 is_open) crashed.world.store.shards ≡ some shard_a)
    × (find? (has_run_id 1) crashed.world.store.runs ≡ some run_a)
unfolding serve create_test_run create_valid validate_create check_basics check_shards check_shape
    allowed_method target_allowed admission count_active_runs insert_run create_with_shards
    create_tx insert_shards publish_all publish_shard split_vus new_run new_shard begin_message
    claim_shard_by_id read_claim send send_over start_shard_handler start_shard claim_shard find?
    update_where
crashed_job = (inl refl, refl, refl)

open_shard-kept_example : (crashed.acked 0 ≡ false) ⊎ (crashed.given_up 0 ≡ true)
open_shard-kept_example =
    open_shard-kept handler_a limits_a empty_world crashed job_a 1 shard_a empty_world-IsKeyed tt
      refl crashed-Reach crashed_job.0 refl crashed_job.1
