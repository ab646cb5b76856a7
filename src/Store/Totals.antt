-- ===== src/Store/Totals.antt =====
-- The sums that aggregateRun takes over the shards' columns.
use distributed_load_testing.Common.{
  ℕ, ◌<◌, ◌≡◌, refl, ap, ◌∙◌, false, Option, none, some, List, [], ◌∷◌, map, ok, arith, sum,
}
use distributed_load_testing.Common.Int.{pos, int64_half, signed64, to_int64}
use distributed_load_testing.Store.{Shard, Faults, sum_shards}
use distributed_load_testing.Store.Columns.{sum_column, scan_int64}
use distributed_load_testing.Store.Aggregate.{Totals, sum_totals}

-- A column's value, with NULL for nothing.
abbrev pub or_zero : Option ℕ → ℕ
or_zero none = 0
or_zero (some n) = n

abbrev pub column_total : List (Option ℕ) → ℕ
column_total xs = sum (map or_zero xs)

sum_column-exact :
    (xs : List (Option ℕ)) → column_total xs < int64_half → sum_column xs ≡ pos (column_total xs)
unfolding sum_column
sum_column-exact [] h = refl
sum_column-exact (none ∷ xs) h = sum_column-exact xs (omega arith) ∙ ap pos (omega arith)
sum_column-exact (some n ∷ xs) h =
    rw (sum_column-exact xs (omega arith)) (unfold signed64 in ground arith)

scan_int64-pos : (n : ℕ) → n < int64_half → scan_int64 (pos n) ≡ ok n
unfolding scan_int64 to_int64
scan_int64-pos n h = ground arith

pub scan-sum_column :
    (xs : List (Option ℕ))
    → column_total xs < int64_half
    → scan_int64 (sum_column xs) ≡ ok (column_total xs)
scan-sum_column xs h = rw (sum_column-exact xs h) (scan_int64-pos _ h)

module _ {F : Type 0} where
  -- The column of a list of shards, added up.
  abbrev pub total_over : (Shard F → Option ℕ) → List (Shard F) → ℕ
  total_over column shards = column_total (map column shards)

  abbrev pub totals_over : List (Shard F) → Totals
  totals_over shards = record {
    total = total_over (λ sh. sh.total_requests) shards;
    success = total_over (λ sh. sh.successful_requests) shards;
    failed = total_over (λ sh. sh.failed_requests) shards;
    latency_count = total_over (λ sh. sh.latency_count) shards;
  }

  -- If the database answers, the counts are not negative and each column's sum fits an int64, the four totals are read
  -- without error and are the exact sums over the shards, a missing count adding nothing.
  pub sum_totals-exact :
      (db : Faults) (shards : List (Shard F))
      → db sum_shards ≡ false
      → total_over (λ sh. sh.total_requests) shards < int64_half
      → total_over (λ sh. sh.successful_requests) shards < int64_half
      → total_over (λ sh. sh.failed_requests) shards < int64_half
      → total_over (λ sh. sh.latency_count) shards < int64_half
      → sum_totals db shards ≡ ok (totals_over shards)
  unfolding sum_totals
  sum_totals-exact db shards up h1 h2 h3 h4 = rw (
    up,
    scan-sum_column (map (λ (sh : Shard F). sh.total_requests) shards) h1,
    scan-sum_column (map (λ (sh : Shard F). sh.successful_requests) shards) h2,
    scan-sum_column (map (λ (sh : Shard F). sh.failed_requests) shards) h3,
    scan-sum_column (map (λ (sh : Shard F). sh.latency_count) shards) h4,
  )
