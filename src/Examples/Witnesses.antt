-- ===== src/Examples/Witnesses.antt =====
-- The theorems at concrete inputs.
use mathlib.Core.List.{Perm}
use Prim.Native.String.{String}
use distributed_load_testing.Common.{
  ℕ, suc, ◌+◌, ◌*◌, ◌%◌, ◌≤◌, ◌<◌, ◌≡◌, refl, ◌↔◌, false, none, some, List, [], ◌∷◌, ◌++◌, inr,
  Result, ok, err, arith, All, length, sum, take, get_or,
}
use distributed_load_testing.Common.Int.{pos, int64_mod, to_int64, signed64}
use distributed_load_testing.Common.Table.{find?, count_where, update_where, select_where}
use distributed_load_testing.Float.{Cents, p95-IsRank, p50-RankLe-p95, cents_float}
use distributed_load_testing.Models.{TestRun, queued, running, completed, is_running, is_open}
use distributed_load_testing.Store.{
  StoreError, Shard, Store, no_faults, has_run_id, not_running, shard_where,
}
use distributed_load_testing.Store.Shards.{finish_shard, fail_shard, to_partial, finish_tx, barrier}
use distributed_load_testing.Store.Lifecycle.{IsKeyed}
use distributed_load_testing.Store.Completion.{
  Barrier, finish_shard-Barrier, fail_shard-leaves_queued,
}
use distributed_load_testing.Store.Histogram.{bound_at, threshold_of, percentile, merge_buckets}
use distributed_load_testing.Store.Histogram.Percentile.{percentile-IsRank, percentile_mono}
use distributed_load_testing.Store.Aggregate.{
  sum_totals, aggregate_run, run_outcome, current_status,
}
use distributed_load_testing.Store.Columns.{run_percentiles, of_run}
use distributed_load_testing.Handlers.Validate.{normalized, validate_create, split_vus}
use distributed_load_testing.Handlers.Validate.Requests.{IsAdmissible, validate_create_iff}
use distributed_load_testing.Handlers.Validate.Split.{split_vus_lem}
use distributed_load_testing.Handlers.{Surroundings}
use distributed_load_testing.Handlers.Public.{create_test_run}
use distributed_load_testing.Handlers.Create.{Answered, create_test_run-Answered}
use distributed_load_testing.Handlers.Fanout.{quiet, jobs_of, jobs_for, create_test_run-publishes}
use distributed_load_testing.Store.Create.{shard_ids}
use distributed_load_testing.Store.Newest.{IsNewestFirst}
use distributed_load_testing.Handlers.Listing.{IsLimit, list_test_runs-IsNewestFirst}
use distributed_load_testing.Handlers.Public.{list_test_runs}
use distributed_load_testing.Handlers.{runs, write_json}
use distributed_load_testing.Store.Commit.{FitsInt64, finish_shard-commits}
use distributed_load_testing.Api.{
  Call, complete_shard, fail_shard as fail_call, cancel_run, serve, serve_all,
}
use distributed_load_testing.Api.Lifecycle.{Sound}
use distributed_load_testing.Api.Traces.{Settled, serve-Sound, serve_all-Settled}
use distributed_load_testing.Runner.Stats.{VuStats, merge_stats}
use distributed_load_testing.Runner.Run.{run, run_users}
use distributed_load_testing.Runner.Stats
use distributed_load_testing.Runner.Tally.{run-IsTally}
use distributed_load_testing.Runner.Shards.{merge_buckets-reported, reported, all_users}
use distributed_load_testing.Examples.{
  admission_a, store_a-IsKeyed, request_a, run_in, shard_in, store_a, partial_a, strings_a,
  handler_a, world_a, calm, config_a, schedule_a, tally_of, buckets_a,
}

abbrev finished : Store Cents × Result StoreError (Unit {0})
finished =
    finish_shard no_faults 9 store_a 2 is_running (to_partial 9 completed partial_a)
      (err not_running)

found_shard :
    (find? (shard_where 2 is_running) store_a.shards ≡ some (shard_in 2 1 running none))
    × (find? (shard_where 3 is_open) store_a.shards ≡ some (shard_in 3 2 queued none))
unfolding find?
found_shard = (refl, refl)

found_run :
    (find? (has_run_id 1) store_a.runs ≡ some (run_in 1 running))
    × (find? (has_run_id 2) store_a.runs ≡ some (run_in 2 queued))
unfolding find?
found_run = (refl, refl)

committed : finished.1 ≡ ok tt
unfolding find? finish_shard finish_tx barrier count_where update_where aggregate_run run_outcome
    sum_totals to_int64 select_where run_percentiles current_status signed64
committed = refl

committed_dead : (fail_shard no_faults 9 store_a 3 "gave up").1 ≡ ok tt
unfolding fail_shard find? finish_shard finish_tx barrier count_where update_where aggregate_run
    run_outcome sum_totals to_int64 select_where run_percentiles current_status
committed_dead = refl

finish_shard-Barrier_example : Barrier no_faults 9 1 (run_in 1 running) store_a finished.0
finish_shard-Barrier_example =
    finish_shard-Barrier no_faults 9 store_a 2 is_running (to_partial 9 completed partial_a)
      (err not_running) (shard_in 2 1 running none) (run_in 1 running) store_a-IsKeyed found_shard.0
      found_run.0 committed

fail_shard-leaves_queued_example :
    find? (has_run_id 2) (fail_shard no_faults 9 store_a 3 "gave up").0.runs
    ≡ some (run_in 2 queued)
fail_shard-leaves_queued_example =
    fail_shard-leaves_queued no_faults 9 store_a 3 "gave up" (shard_in 3 2 queued none)
      (run_in 2 queued) store_a-IsKeyed found_shard.1 found_run.1 refl committed_dead

abbrev completing : Call Cents
completing = complete_shard (some (pos 2)) (ok partial_a)

serve-Sound_example : Sound store_a (serve handler_a calm world_a completing).0.store
serve-Sound_example = serve-Sound handler_a calm world_a completing store_a-IsKeyed

abbrev calls_a : List (Surroundings × Call Cents)
calls_a =
    (calm, completing)
    ∷ (calm, cancel_run (some (pos 1)))
    ∷ (calm, fail_call (some (pos 3)) (ok "gave up"))
    ∷ []

serve_all-Settled_example :
    Settled store_a (serve_all handler_a world_a calls_a).store
    × IsKeyed (serve_all handler_a world_a calls_a).store
serve_all-Settled_example = serve_all-Settled handler_a world_a calls_a store_a-IsKeyed

validate_create_iff_example :
    (validate_create strings_a request_a ≡ ok request_a)
    ↔ ((request_a ≡ normalized strings_a request_a) × IsAdmissible (normalized strings_a request_a))
validate_create_iff_example = validate_create_iff strings_a request_a request_a

percentile-IsRank_example :
    let rank = threshold_of {F = Cents} 95 7 in
    (i : ℕ) × (i < 13)
    × (percentile {F = Cents} buckets_a 95 ≡ 100 * bound_at i)
    × (sum (take i buckets_a) < rank)
    × (rank ≤ sum (take (suc i) buckets_a))
percentile-IsRank_example =
    percentile-IsRank {F = Cents} buckets_a 95 p95-IsRank (omega arith) (omega arith)

percentile_mono_example :
    (a b : ℕ) × (percentile {F = Cents} buckets_a 50 ≡ 100 * a)
    × (percentile {F = Cents} buckets_a 95 ≡ 100 * b)
    × (a ≤ b)
percentile_mono_example =
    percentile_mono {F = Cents} buckets_a 50 95 p95-IsRank p50-RankLe-p95 (omega arith)
      (omega arith)

abbrev histograms_a : List (List ℕ)
histograms_a = buckets_a ∷ (4 ∷ 1 ∷ []) ∷ []

split_vus_lem_example :
    (length (split_vus 5 2) ≡ 2)
    × (sum (split_vus 5 2) ≡ 5)
    × All (λ v. (0 < v) × (2 ≤ v) × (v ≤ 3)) (split_vus 5 2)
split_vus_lem_example = split_vus_lem 5 2 (omega arith) (omega arith)

abbrev tallies_a : List (List (VuStats Cents))
tallies_a = (tally_of buckets_a ∷ tally_of buckets_a ∷ []) ∷ (tally_of buckets_a ∷ []) ∷ []

merge_buckets-reported_example :
    get_or (merge_buckets (reported tallies_a)) 12 0
    ≡ get_or (merge_stats (all_users tallies_a)).latency_buckets 12 0
merge_buckets-reported_example =
    merge_buckets-reported tallies_a 12 ((refl, (refl, tt)), ((refl, tt), tt)) (omega arith)

abbrev result_a : Result String (Stats.Result Cents)
result_a = run config_a schedule_a

run_a : result_a ≡ ok (merge_stats (run_users config_a schedule_a 2 0))
unfolding run
run_a = refl

run-IsTally_example :
    let res = merge_stats (run_users config_a schedule_a 2 0) in
    (res.total_requests ≡ (res.successful_requests + res.failed_requests) % int64_mod)
    × (res.latency_count ≡ sum res.latency_buckets % int64_mod)
    × (length res.latency_buckets ≡ 13)
run-IsTally_example =
    run-IsTally config_a schedule_a (merge_stats (run_users config_a schedule_a 2 0)) run_a

create_test_run-Answered_example :
    Answered handler_a calm world_a
      (ok request_a)
      (create_test_run handler_a calm world_a (ok request_a))
create_test_run-Answered_example = create_test_run-Answered handler_a calm world_a (ok request_a)

create_test_run-publishes_example :
    let (w, resp) = create_test_run handler_a (quiet 9 (λ _. false)) world_a (ok request_a) in
    (resp.code ≡ 201)
    × (shards : List (Shard Cents)) × (length shards ≡ 2)
    × (w.store.shards ≡ store_a.shards ++ shards)
    × (jobs_of w.stream ≡ jobs_for (shard_ids shards))
create_test_run-publishes_example =
    create_test_run-publishes handler_a 9 (λ _. false) world_a request_a request_a admission_a.0
      admission_a.1 (inr admission_a.2)

fits_a : FitsInt64 (
    select_where
      (of_run 1)
      (update_where (shard_where 2 is_running) (to_partial 9 completed partial_a) store_a.shards))
unfolding select_where update_where
fits_a = record {
  total = omega arith;
  success = omega arith;
  failures = omega arith;
  samples = omega arith;
}

finish_shard-commits_example : finished.1 ≡ ok tt
finish_shard-commits_example =
    finish_shard-commits 9 store_a 2 is_running (to_partial 9 completed partial_a) (err not_running)
      (shard_in 2 1 running none) (run_in 1 running) found_shard.0 found_run.0 fits_a

list_test_runs-IsNewestFirst_example :
    (sorted : List (TestRun Cents)) × (n : ℕ) × Perm store_a.runs sorted
    × IsNewestFirst sorted
    × IsLimit (some (pos 1)) n
    × (list_test_runs calm store_a (some (pos 1)) ≡ write_json 200 (runs (take n sorted)))
list_test_runs-IsNewestFirst_example = list_test_runs-IsNewestFirst calm store_a (some (pos 1)) refl
