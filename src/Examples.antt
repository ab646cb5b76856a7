-- ===== src/Examples.antt =====
-- Small tables, requests and schedules on which the theorems are tried, with floats in hundredths.
mod Witnesses
mod Workers
mod Interleavings
mod Requests
mod Groups
mod Http
mod Loads
mod Reports
mod Reached
use distributed_load_testing.Common.{
  ℕ, ◌≡◌, refl, ◌<◌, Bool, true, false, Option, none, some, List, [], ◌∷◌, String, Result, ok,
  arith,
}
use distributed_load_testing.Common.Int.{pos}
use distributed_load_testing.Common.Table.{count_where}
use distributed_load_testing.Store.Runs.{has_active}
use distributed_load_testing.Handlers.Public.{target_allowed}
use distributed_load_testing.Handlers.Validate.{
  validate_create, check_basics, check_shards, check_shape, allowed_method,
}
use distributed_load_testing.Float.{Cents}
use distributed_load_testing.Models.{
  Status, queued, running, completed, status_completed, TestRun, CreateTestRunRequest,
  CompleteShardRequest,
}
use distributed_load_testing.Store.{Shard, Store, no_faults}
use distributed_load_testing.Store.Lifecycle.{IsKeyed}
use distributed_load_testing.Handlers.{Strings, Handler, World, Surroundings}
use distributed_load_testing.Runner.Stats.{VuStats}
use distributed_load_testing.Runner.Run.{Config, Outcome, transport_error, response, Round}

abbrev pub request_a : CreateTestRunRequest
request_a = record {
  name = "smoke";
  target_url = "http://target";
  method = "GET";
  virtual_users = pos 5;
  duration_seconds = pos 10;
  shards = pos 2;
  headers = [];
  body = "";
  think_time_ms = pos 0;
}

abbrev pub run_in : ℕ → Status → TestRun Cents
run_in id st = record {
  id = id;
  name = "smoke";
  target_url = "http://target";
  method = "GET";
  virtual_users = pos 5;
  duration_seconds = pos 10;
  shard_count = 2;
  status = st;
  total_requests = none;
  successful_requests = none;
  failed_requests = none;
  avg_latency_ms = none;
  min_latency_ms = none;
  max_latency_ms = none;
  p50_latency_ms = none;
  p95_latency_ms = none;
  p99_latency_ms = none;
  error_message = none;
  created_at = 0;
  started_at = none;
  completed_at = none;
  headers = none;
  body = none;
  think_time_ms = pos 0;
}

abbrev pub shard_in : ℕ → ℕ → Status → Option ℕ → Shard Cents
shard_in id run_id st count = record {
  id = id;
  run_id = run_id;
  shard_index = 0;
  virtual_users = 2;
  status = st;
  error_message = none;
  total_requests = count;
  successful_requests = count;
  failed_requests = none;
  latency_count = count;
  avg_latency_ms = none;
  min_latency_ms = none;
  max_latency_ms = none;
  latency_buckets = none;
  started_at = none;
  completed_at = none;
  created_at = 0;
}

-- A running run, one of whose two shards is done; and a queued run with one queued shard.
abbrev pub store_a : Store Cents
store_a = record {
  runs = run_in 1 running ∷ run_in 2 queued ∷ [];
  shards =
      shard_in 1 1 completed (some 7) ∷ shard_in 2 1 running none ∷ shard_in 3 2 queued none ∷ [];
  next_run = 3;
  next_shard = 4;
}

pub store_a-IsKeyed : IsKeyed store_a
store_a-IsKeyed = record {
  run_ids = ground arith;
  run_ids_used = ground arith;
  shard_ids = ground arith;
  shard_ids_used = ground arith;
}

-- A running run with two running shards.
abbrev pub store_b : Store Cents
store_b = record {
  runs = run_in 1 running ∷ [];
  shards = shard_in 1 1 running none ∷ shard_in 2 1 running none ∷ [];
  next_run = 2;
  next_shard = 3;
}

pub store_b-IsKeyed : IsKeyed store_b
store_b-IsKeyed = record {
  run_ids = ground arith;
  run_ids_used = ground arith;
  shard_ids = ground arith;
  shard_ids_used = ground arith;
}

abbrev pub partial_a : CompleteShardRequest Cents
partial_a = record {
  status = status_completed;
  total_requests = some 3;
  successful_requests = some 3;
  failed_requests = some 0;
  latency_count = some 3;
  avg_latency_ms = some 400;
  min_latency_ms = some 100;
  max_latency_ms = some 900;
  latency_buckets = 1 ∷ 0 ∷ 1 ∷ 1 ∷ [];
  error_message = none;
}

abbrev pub strings_a : Strings
strings_a = record {
  trim_space = λ t. t;
  to_upper = λ t. t;
  to_lower = λ t. t;
  hostname = λ _. some "target";
}

abbrev pub handler_a : Handler
handler_a = record {
  strings = strings_a;
  allowed_target_hosts = λ _. true;
  max_concurrent_runs = pos 3;
}

abbrev pub world_a : World Cents
world_a = record { store = store_a; stream = record { entries = []; next_id = 0 } }

abbrev pub calm : Surroundings
calm = record { now = 9; db = no_faults; redis = λ _. false; locked = λ _. false; counted = λ n. n }

abbrev pub config_a : Config
config_a = record {
  target_url = "http://target";
  method = "GET";
  virtual_users = pos 2;
  duration = pos 1000;
  request_timeout = pos 100;
  headers = [];
  body = "";
  think_time = pos 0;
}

abbrev round_of : Outcome Cents → Round Cents
round_of o = record { over = false; outcome = o; ends_in_pause = false }

abbrev pub schedule_a : ℕ → List (Round Cents)
schedule_a _ =
    round_of (response 300 200) ∷ round_of transport_error ∷ round_of (response 9000 500) ∷ []

abbrev pub tally_of : List ℕ → VuStats Cents
tally_of buckets = record {
  total = 3;
  success = 3;
  failed = 0;
  latency_count = 3;
  sum_latency_ms = 900;
  min_latency_ms = 100;
  max_latency_ms = 500;
  buckets = buckets;
}

abbrev pub buckets_a : List ℕ
buckets_a = 1 ∷ 0 ∷ 2 ∷ 0 ∷ 0 ∷ 0 ∷ 0 ∷ 0 ∷ 0 ∷ 0 ∷ 0 ∷ 0 ∷ 4 ∷ []

pub admission_a :
    (validate_create strings_a request_a ≡ ok request_a)
    × (target_allowed handler_a request_a.target_url ≡ true)
    × (count_where has_active store_a.runs < 3)
unfolding validate_create target_allowed count_where check_basics check_shards check_shape
    allowed_method
admission_a = (refl, refl, omega arith)
