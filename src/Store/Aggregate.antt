-- ===== src/Store/Aggregate.antt =====
-- aggregateRun: the shards' partial results combined into the run's result, and the barrier's guard.
use distributed_load_testing.Common.{
  ℕ, zero, suc, Option, none, some, List, map, String, Result, ok, err, if◌then◌else◌, ◌>>=◌, ◌>>◌,
  fail_if,
}
use distributed_load_testing.Common.Int.{lt64}
use distributed_load_testing.Common.Table.{find?, update_where, select_where}
use distributed_load_testing.Common.Text.{itoa}
use Prim.Native.String.{◌++◌ as ◌^^◌}
use distributed_load_testing.Float.{Float}
use distributed_load_testing.Models.{
  Status, completed, failed, cancelling, cancelled, is_finishing, TestRun,
}
use distributed_load_testing.Store.{
  StoreError, database, Shard, Store, Faults, sum_shards, read_status, write_run, has_run_id,
  run_where,
}
use distributed_load_testing.Store.Columns.{
  sum_column, scan_int64, of_run, count_failed, sum_latency, min_latency, max_latency,
  float_or_zero, run_percentiles,
}

-- The run's final state: any failed shard fails it, and a run in `cancelling` ends cancelled whatever
-- its shards did.
unfoldable pub final_status : ℕ → Status → Status
final_status failed_shards cancelling = cancelled
final_status zero _ = completed
final_status (suc n) _ = failed

unfoldable pub final_message : ℕ → Status → Option String
unfolding itoa
final_message failed_shards cancelling = some "run cancelled by user"
final_message zero _ = none
final_message (suc n) _ = some (◌^^◌ (itoa (suc n)) " shard(s) failed")

-- The sums over a run's shards.
pub record Totals : Type 0 where
  pub total : ℕ
  pub success : ℕ
  pub failed : ℕ
  pub latency_count : ℕ

module _ {F : Type 0} where
  unfoldable pub sum_totals : Faults → List (Shard F) → Result StoreError Totals
  unfolding sum_column scan_int64
  sum_totals db shards = do
    fail_if (db sum_shards) database
    total ← scan_int64 (sum_column (map (λ sh. sh.total_requests) shards))
    success ← scan_int64 (sum_column (map (λ sh. sh.successful_requests) shards))
    failures ← scan_int64 (sum_column (map (λ sh. sh.failed_requests) shards))
    latency_count ← scan_int64 (sum_column (map (λ sh. sh.latency_count) shards))
    ok (record {
      total = total;
      success = success;
      failed = failures;
      latency_count = latency_count;
    })

  unfoldable pub current_status : Faults → Store F → ℕ → Result StoreError Status
  unfolding find?
  current_status db s run_id =
      if db read_status
      then err database
      else elim (find? (has_run_id run_id) s.runs) [ none ↦ err database | some r ↦ ok r.status ]

-- What the run's row is set to.
pub record Outcome (F : Type 0) : Type 0 where
  pub status : Status
  pub totals : Totals
  pub avg : F
  pub min : F
  pub max : F
  pub p50 : F
  pub p95 : F
  pub p99 : F
  pub error_message : Option String

abbrev pub to_outcome : {F : Type 0} → ℕ → Outcome F → TestRun F → TestRun F
to_outcome now o r = record r {
  status = o.status;
  total_requests = some o.totals.total;
  successful_requests = some o.totals.success;
  failed_requests = some o.totals.failed;
  avg_latency_ms = some o.avg;
  min_latency_ms = some o.min;
  max_latency_ms = some o.max;
  p50_latency_ms = some o.p50;
  p95_latency_ms = some o.p95;
  p99_latency_ms = some o.p99;
  error_message = o.error_message;
  completed_at = some now;
}

module _ {F : Type 0} ⦃f : Float F⦄ where
  unfoldable pub average : Totals → List (Shard F) → F
  unfolding sum_latency
  average t shards =
      if lt64 0 t.latency_count
      then f.div (sum_latency shards) (f.of_int64 t.latency_count)
      else f.nought

  -- The reads of `aggregateRun`, and what they come to.
  unfoldable pub run_outcome : Faults → Store F → ℕ → Result StoreError (Outcome F)
  run_outcome db s run_id = do
    let mine = select_where (of_run run_id) s.shards
    t ← sum_totals db mine
    ps ← run_percentiles db mine
    current ← current_status db s run_id
    ok (record {
      status = final_status (count_failed mine) current;
      totals = t;
      avg = average t mine;
      min = float_or_zero (min_latency mine);
      max = float_or_zero (max_latency mine);
      p50 = ps.0;
      p95 = ps.1;
      p99 = ps.2;
      error_message = final_message (count_failed mine) current;
    })

  unfoldable pub aggregate_run : Faults → ℕ → Store F → ℕ → Result StoreError (Store F)
  aggregate_run db now s run_id = do
    o ← run_outcome db s run_id
    fail_if (db write_run) database
    ok (record s { runs = update_where (run_where run_id is_finishing) (to_outcome now o) s.runs })
