-- ===== src/Examples/Reports.antt =====
-- A run of two shards, both reported by workers.
use distributed_load_testing.Common.{
  ℕ, ◌≡◌, ◌<◌, ◌⊎◌, refl, none, ok, List, [], ◌∷◌, map, All, length, arith, false,
}
use distributed_load_testing.Common.Int.{pos, int64_half, to_int64, signed64, add64, lt64, le64}
use distributed_load_testing.Float.{Cents, cents_float, Cents-IsOrdered, ◌≼◌}
use distributed_load_testing.Models.{ShardAssignment, running, completed}
use distributed_load_testing.Store.{Store, no_faults}
use distributed_load_testing.Store.Columns.{of_run, run_percentiles, min_latency, max_latency}
use distributed_load_testing.Store.Aggregate.{
  Outcome, run_outcome, sum_totals, current_status, final_status, final_message, average,
}
use distributed_load_testing.Common.Table.{select_where, count_where}
use distributed_load_testing.Runner.Stats.{merge_stats, merge_vu, increment_at}
use distributed_load_testing.Runner.Histogram.{bucket_index}
use distributed_load_testing.Runner.Run.{response, transport_error, run, run_users, do_request}
use distributed_load_testing.Runner.Extremes.{latencies, all_latencies, IsExtremes}
use distributed_load_testing.Worker.Jobs.{execute_shard}
use distributed_load_testing.Worker.Reports.{Load, HasRun, all_recorded, reported_row}
use distributed_load_testing.Worker.Reports.Outcomes.{run_outcome-IsExtremes}
use distributed_load_testing.Examples.{store_a, shard_in}

abbrev assignment_of : ℕ → ShardAssignment
assignment_of index = record {
  shard_id = index;
  run_id = 1;
  shard_index = index;
  target_url = "http://target:8081/fast";
  method = "GET";
  virtual_users = 1;
  duration_seconds = pos 1;
  headers = [];
  body = "";
  think_time_ms = pos 0;
}

abbrev load_of : ℕ → ℕ → Load Cents
load_of index latency = record {
  assignment = assignment_of index;
  schedule = λ _.
      record { over = false; outcome = response latency 200; ends_in_pause = false }
      ∷ record { over = false; outcome = transport_error; ends_in_pause = false }
      ∷ [];
  shard = shard_in index 1 running none;
  now = 9;
}

abbrev loads_a : List (Load Cents)
loads_a = load_of 1 300 ∷ load_of 2 700 ∷ []

abbrev store_c : Store Cents
store_c = record store_a { shards = map reported_row loads_a }

rows_a : select_where (of_run 1) store_c.shards ≡ map reported_row loads_a
unfolding select_where
rows_a = refl

runs_a : All HasRun loads_a
unfolding run
runs_a = ((_, refl), ((_, refl), tt))

reals_a : All (λ (x : Cents). x ≼ x) (all_recorded loads_a)
unfolding all_latencies latencies
reals_a = (refl, (refl, tt))

fits_a : length (all_recorded loads_a) < int64_half
unfolding all_latencies latencies
fits_a = omega arith

abbrev outcome_c : Outcome Cents
outcome_c = record {
  status = completed;
  totals = record { total = 4; success = 2; failed = 2; latency_count = 2 };
  avg = 500;
  min = 300;
  max = 700;
  p50 = 500;
  p95 = 1000;
  p99 = 1000;
  error_message = none;
}

aggregated_a : run_outcome no_faults store_c 1 ≡ ok outcome_c
unfolding run_outcome execute_shard run sum_totals to_int64 select_where signed64 merge_stats
    run_users merge_vu add64 do_request run_percentiles current_status final_status average
    min_latency max_latency increment_at final_message count_where lt64 bucket_index le64
aggregated_a = refl

run_outcome-IsExtremes_example :
    (outcome_c.totals.latency_count ≡ length (all_recorded loads_a))
    × ((all_recorded loads_a ≡ []) ⊎ IsExtremes outcome_c.min outcome_c.max (all_recorded loads_a))
run_outcome-IsExtremes_example =
    run_outcome-IsExtremes Cents-IsOrdered no_faults store_c 1 outcome_c loads_a rows_a runs_a
      reals_a fits_a aggregated_a
