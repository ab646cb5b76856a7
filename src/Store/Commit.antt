-- ===== src/Store/Commit.antt =====
-- finishShard does commit: the counterpart of the theorems on what a committed finish leaves.
use distributed_load_testing.Common.{
  ℕ, ◌<◌, ◌≡◌, refl, inl, inr, Bool, some, List, Result, ok, Bool-cases, ◌==◌,
}
use distributed_load_testing.Common.Int.{int64_half}
use distributed_load_testing.Common.Table.{find?, update_where, count_where, select_where}
use distributed_load_testing.Float.{Float}
use distributed_load_testing.Models.{Status, TestRun}
use distributed_load_testing.Store.{StoreError, Shard, Store, no_faults, has_run_id, shard_where}
use distributed_load_testing.Store.Columns.{of_run, run_percentiles}
use distributed_load_testing.Store.Aggregate.{current_status, run_outcome, aggregate_run}
use distributed_load_testing.Store.Shards.{is_outstanding, barrier, finish_tx, finish_shard}
use distributed_load_testing.Store.Totals.{total_over, sum_totals-exact}

module _ {F : Type 0} where
  -- The four sums over some shards fit an int64.
  pub record FitsInt64 (shards : List (Shard F)) : Type 0 where
    pub total : total_over (λ sh. sh.total_requests) shards < int64_half
    pub success : total_over (λ sh. sh.successful_requests) shards < int64_half
    pub failures : total_over (λ sh. sh.failed_requests) shards < int64_half
    pub samples : total_over (λ sh. sh.latency_count) shards < int64_half

module _ {F : Type 0} ⦃f : Float F⦄ where
  aggregate_run-commits :
      (now : ℕ) (s : Store F) (k : ℕ) (r : TestRun F)
      → find? (has_run_id k) s.runs ≡ some r
      → FitsInt64 (select_where (of_run k) s.shards)
      → (s' : Store F) × (aggregate_run no_faults now s k ≡ ok s')
  unfolding aggregate_run run_outcome run_percentiles current_status
  aggregate_run-commits now s k r found fits =
      let mine = select_where (of_run k) s.shards in
      let summed =
        sum_totals-exact no_faults mine refl fits.total fits.success fits.failures fits.samples in
      rw (summed, found, run_outcome, current_status) (_, refl)

  barrier-commits :
      (now : ℕ) (s : Store F) (k : ℕ) (r : TestRun F)
      → find? (has_run_id k) s.runs ≡ some r
      → FitsInt64 (select_where (of_run k) s.shards)
      → (s' : Store F) × (barrier no_faults now s k ≡ ok s')
  unfolding barrier
  barrier-commits now s k r found fits =
      elim (Bool-cases (count_where (is_outstanding k) s.shards == 0)) [
        | inl z ↦
            let (s', fired) = aggregate_run-commits now s k r found fits in (s', rw (z, fired) refl)
        | inr p ↦ (s, rw p refl)
      ]

  -- While the database refuses nothing, writing a shard that is in the awaited state and whose run
  -- exists commits, if the run's sums with the new row fit an int64.
  pub finish_shard-commits :
      (now : ℕ) (s : Store F) (id : ℕ) (guard : Status → Bool) (set : Shard F → Shard F)
      (miss : Result StoreError (Unit {0})) (sh : Shard F) (r : TestRun F)
      → find? (shard_where id guard) s.shards ≡ some sh
      → find? (has_run_id sh.run_id) s.runs ≡ some r
      → FitsInt64
          (select_where (of_run sh.run_id) (update_where (shard_where id guard) set s.shards))
      → (finish_shard no_faults now s id guard set miss).1 ≡ ok tt
  unfolding finish_shard finish_tx
  finish_shard-commits now s id guard set miss sh r found run_found fits =
      let shards = update_where (shard_where id guard) set s.shards in
      let (s', passed) =
        barrier-commits now (record s { shards = shards }) sh.run_id r run_found fits in
      rw (found, passed, finish_shard, finish_tx) refl
