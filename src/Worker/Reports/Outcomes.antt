-- ===== src/Worker/Reports/Outcomes.antt =====
-- aggregateRun of backend/internal/store/test_run_store.go over the rows that workers have reported.
use distributed_load_testing.Common.{
  ℕ, ◌<◌, ◌≡◌, ◌⊎◌, refl, ap, sym, ◌∙◌, inl, inr, Option, List, [], map, arith, length, All, Result,
  ok, err, err-ne-ok, ◌>>=◌, >>=-eq-ok, fail_if-ok, ok-injective,
}
use distributed_load_testing.Common.Int.{int64_half}
use distributed_load_testing.Float.{Float, IsOrdered, ◌≼◌}
use distributed_load_testing.Common.Table.{select_where}
use distributed_load_testing.Store.{StoreError, Shard, Store, Faults, sum_shards}
use distributed_load_testing.Store.Aggregate.{
  Totals, Outcome, run_outcome, sum_totals, current_status,
}
use distributed_load_testing.Store.Columns.{
  of_run, sum_column, scan_int64, run_percentiles, min_latency, max_latency, float_or_zero,
}
use distributed_load_testing.Store.Totals.{column_total, scan-sum_column}
use distributed_load_testing.Runner.Extremes.{IsExtremes}
use distributed_load_testing.Worker.Reports.{
  Load, all_recorded, IsBound, reported_row, HasRun, reported-IsBound,
}

scanned_last :
    (a b c d : Result StoreError ℕ) (t : Totals)
    → (do
      total ← a
      success ← b
      failures ← c
      latency_count ← d
      ok (record {
        total = total;
        success = success;
        failed = failures;
        latency_count = latency_count;
      }))
      ≡ ok t
    → d ≡ ok t.latency_count
scanned_last (err x) b c d t e = absurd (err-ne-ok e)
scanned_last (ok a) (err x) c d t e = absurd (err-ne-ok e)
scanned_last (ok a) (ok b) (err x) d t e = absurd (err-ne-ok e)
scanned_last (ok a) (ok b) (ok c) (err x) t e = absurd (err-ne-ok e)
scanned_last (ok a) (ok b) (ok c) (ok d) t e =
    ap (λ (u : Totals). ok u.latency_count) (ok-injective e)

module _ {F : Type 0} ⦃f : Float F⦄ where
  -- What an aggregation that succeeds takes from the columns.
  run_outcome-columns :
      (db : Faults) (s : Store F) (k : ℕ) (out : Outcome F)
      → run_outcome db s k ≡ ok out
      → let mine = select_where (of_run k) s.shards in
        (scan_int64 (sum_column (map (λ (sh : Shard F). sh.latency_count) mine))
          ≡ ok out.totals.latency_count)
        × (out.min ≡ float_or_zero (min_latency mine))
        × (out.max ≡ float_or_zero (max_latency mine))
  unfolding run_outcome sum_totals
  run_outcome-columns db s k out e =
      let mine = select_where (of_run k) s.shards in
      let (t, summed, e1) = >>=-eq-ok (sum_totals db mine) _ e in
      let (ps, _, e2) = >>=-eq-ok (run_percentiles db mine) _ e1 in
      let (current, _, e3) = >>=-eq-ok (current_status db s k) _ e2 in
      let summed' = (fail_if-ok (db sum_shards) _ _ summed).1 in
      let column = λ (c : Shard F → Option ℕ). scan_int64 (sum_column (map c mine)) in
      rw (← ok-injective e3) (
        scanned_last (column λ sh. sh.total_requests) (column λ sh. sh.successful_requests)
            (column λ sh. sh.failed_requests) (column λ sh. sh.latency_count) t summed',
        refl,
        refl,
      )

  bound-IsExtremes :
      (least greatest : Option F) (xs : List F)
      → IsBound least greatest xs
      → (xs ≡ []) ⊎ IsExtremes (float_or_zero least) (float_or_zero greatest) xs
  bound-IsExtremes least greatest xs (inl (_, _, empty)) = inl empty
  bound-IsExtremes least greatest xs (inr (a, b, e, e', h)) = inr (rw (e, e') h)

  -- If the shards of a run are all reported by workers whose loads ran, then an aggregation that
  -- succeeds counts every latency that any user of any shard recorded, and its minimum and maximum are
  -- the least and the greatest of them all, if there is one: it makes no difference to them how the
  -- users were dealt to shards. No latency is NaN, and there are fewer than 2^63.
  pub run_outcome-IsExtremes :
      (o : IsOrdered F) (db : Faults) (s : Store F) (k : ℕ) (out : Outcome F)
      (loads : List (Load F))
      → select_where (of_run k) s.shards ≡ map reported_row loads
      → All HasRun loads
      → All (λ x. x ≼ x) (all_recorded loads)
      → length (all_recorded loads) < int64_half
      → run_outcome db s k ≡ ok out
      → (out.totals.latency_count ≡ length (all_recorded loads))
        × ((all_recorded loads ≡ []) ⊎ IsExtremes out.min out.max (all_recorded loads))
  run_outcome-IsExtremes o db s k out loads rows runs real fits e =
      let (scanned, least, greatest) = run_outcome-columns db s k out e in
      let (bound, total) = reported-IsBound o loads runs real fits in
      let columns = map (λ (sh : Shard F). sh.latency_count) (map reported_row loads) in
      let exact = scan-sum_column columns (omega (arith, total)) in
      let counted : out.totals.latency_count ≡ column_total columns =
        ok-injective (sym (rw rows at scanned) ∙ exact) in
      (
        counted ∙ total,
        rw (least, greatest, rows) (bound-IsExtremes _ _ (all_recorded loads) bound),
      )
