-- ===== src/Store/Histogram.antt =====
-- backend/internal/store/histogram.go: merging the shards' histograms, and percentiles.
pub mod Percentile
pub mod Merge
use distributed_load_testing.Common.{
  ℕ, suc, ◌+◌, List, [], ◌∷◌, ◌==◌, if◌then◌else◌, length, replicate, get_or,
}
use distributed_load_testing.Common.Int.{add64, le64}
use distributed_load_testing.Float.{Float}

abbrev pub latency_boundaries_ms : List ℕ
latency_boundaries_ms = 1 ∷ 2 ∷ 5 ∷ 10 ∷ 25 ∷ 50 ∷ 100 ∷ 250 ∷ 500 ∷ 1000 ∷ 2500 ∷ 5000 ∷ []

-- The inner loop of `mergeBuckets`: `merged[i] += b[i]` while both have an index i.
unfoldable pub add_buckets : List ℕ → List ℕ → List ℕ
add_buckets [] b = []
add_buckets (m ∷ ms) [] = m ∷ ms
add_buckets (m ∷ ms) (n ∷ ns) = add64 m n ∷ add_buckets ms ns

-- The outer loop, from the buckets merged so far.
unfoldable pub merge_from : List ℕ → List (List ℕ) → List ℕ
merge_from merged [] = merged
merge_from merged (b ∷ shards) = merge_from (add_buckets merged b) shards

unfoldable pub merge_buckets : List (List ℕ) → List ℕ
unfolding merge_from add_buckets
merge_buckets shards = merge_from (replicate (length latency_boundaries_ms + 1) 0) shards

-- `total += count` over the buckets.
unfoldable pub sum64 : ℕ → List ℕ → ℕ
sum64 total [] = total
sum64 total (count ∷ buckets) = sum64 (add64 total count) buckets

abbrev last_boundary : ℕ
last_boundary = 5000

-- The bound of bucket i, and for the overflow bucket the last one.
abbrev pub bound_at : ℕ → ℕ
bound_at i = get_or latency_boundaries_ms i last_boundary

-- The loop over the buckets from index i on.
unfoldable pub scan_buckets : ℕ → ℕ → ℕ → List ℕ → ℕ
scan_buckets threshold cumulative i [] = last_boundary
scan_buckets threshold cumulative i (count ∷ buckets) =
    let cumulative' = add64 cumulative count in
    let rest = scan_buckets threshold cumulative' (suc i) buckets in
    if le64 threshold cumulative' then bound_at i else rest

module _ {F : Type 0} ⦃f : Float F⦄ where
  unfoldable pub threshold_of : F → ℕ → ℕ
  threshold_of p total = f.ceil_int64 (f.mul p (f.of_int64 total))

  unfoldable pub percentile : List ℕ → F → F
  unfolding sum64 scan_buckets threshold_of
  percentile buckets p =
      let total = sum64 0 buckets in
      if total == 0 then f.nought else f.of_int64 (scan_buckets (threshold_of p total) 0 0 buckets)
