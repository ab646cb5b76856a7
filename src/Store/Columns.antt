-- ===== src/Store/Columns.antt =====
-- The columns that aggregateRun and runPercentiles compute over the shards of a run.
use distributed_load_testing.Common.{
  ℕ, Bool, true, false, Option, none, some, List, [], ◌∷◌, Result, ok, err, ◌==◌, if◌then◌else◌,
}
use distributed_load_testing.Common.Int.{ℤ, pos, ◌+ℤ◌, lt64, signed64, to_int64}
use distributed_load_testing.Common.Table.{count_where}
use distributed_load_testing.Float.{Float}
use distributed_load_testing.Models.{Status, failed}
use distributed_load_testing.Store.{StoreError, database, Shard, Faults, histograms}
use distributed_load_testing.Store.Histogram.{merge_buckets, percentile}

-- `COALESCE(SUM(column), 0)` of a BIGINT column: exact, and NULLs are left out.
unfoldable pub sum_column : List (Option ℕ) → ℤ
sum_column [] = pos 0
sum_column (none ∷ xs) = sum_column xs
sum_column (some n ∷ xs) = signed64 n +ℤ sum_column xs

-- `Scan` into an `int64`: a sum that does not fit is an error.
unfoldable pub scan_int64 : ℤ → Result StoreError ℕ
scan_int64 z = elim (to_int64 z) [ some n ↦ ok n | none ↦ err database ]

abbrev is_failed : Status → Bool
is_failed failed = true
is_failed _ = false

-- `latency_count > 0`, which is not true of NULL.
abbrev pub has_samples : Option ℕ → Bool
has_samples (some n) = lt64 0 n
has_samples none = false

module _ {F : Type 0} where
  abbrev pub of_run : ℕ → Shard F → Bool
  of_run run_id sh = sh.run_id == run_id

  abbrev pub buckets_of : List (Shard F) → List (List ℕ)
  buckets_of [] = []
  buckets_of (sh ∷ shs) = elim sh.latency_buckets [
    | none ↦ buckets_of shs
    | some b ↦ b ∷ buckets_of shs
  ]

  abbrev pub count_failed : List (Shard F) → ℕ
  count_failed = count_where λ sh. is_failed sh.status

module _ {F : Type 0} ⦃f : Float F⦄ where
  -- `COALESCE(SUM(avg_latency_ms * latency_count), 0)`.
  unfoldable pub sum_latency : List (Shard F) → F
  sum_latency [] = f.nought
  sum_latency (sh ∷ shs) = elim sh.avg_latency_ms [
    | none ↦ sum_latency shs
    | some avg ↦ elim sh.latency_count [
      | none ↦ sum_latency shs
      | some n ↦ f.add (f.mul avg (f.of_int64 n)) (sum_latency shs)
    ]
  ]

  -- `MIN(column) FILTER (WHERE latency_count > 0)` and MAX, by the order of the floats.
  unfoldable pub min_latency : List (Shard F) → Option F
  min_latency [] = none
  min_latency (sh ∷ shs) =
      let rest = min_latency shs in
      if has_samples sh.latency_count
      then elim sh.min_latency_ms [
        | none ↦ rest
        | some m ↦ elim rest [ none ↦ some m | some k ↦ if f.lt k m then some k else some m ]
      ]
      else rest

  unfoldable pub max_latency : List (Shard F) → Option F
  max_latency [] = none
  max_latency (sh ∷ shs) =
      let rest = max_latency shs in
      if has_samples sh.latency_count
      then elim sh.max_latency_ms [
        | none ↦ rest
        | some m ↦ elim rest [ none ↦ some m | some k ↦ if f.lt m k then some k else some m ]
      ]
      else rest

  -- `sql.NullFloat64`'s value: 0 for NULL.
  abbrev pub float_or_zero : Option F → F
  float_or_zero none = f.nought
  float_or_zero (some x) = x

  unfoldable pub run_percentiles : Faults → List (Shard F) → Result StoreError (F × F × F)
  unfolding merge_buckets percentile
  run_percentiles db shards =
      if db histograms
      then err database
      else let merged = merge_buckets (buckets_of shards) in
        ok (
          percentile merged (f.hundredths 50),
          percentile merged (f.hundredths 95),
          percentile merged (f.hundredths 99),
        )
