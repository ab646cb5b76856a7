-- ===== src/Runner/Histogram.antt =====
-- worker/internal/runner/histogram.go: the runner's own buckets and percentiles.
use distributed_load_testing.Common.{
  ℕ, suc, ◌+◌, ◌≡◌, refl, List, [], ◌∷◌, ◌==◌, if◌then◌else◌, length, get_or,
}
use distributed_load_testing.Common.Int.{add64, le64}
use distributed_load_testing.Float.{Float}
use distributed_load_testing.Store.Histogram as Backend

abbrev pub latency_boundaries_ms : List ℕ
latency_boundaries_ms = 1 ∷ 2 ∷ 5 ∷ 10 ∷ 25 ∷ 50 ∷ 100 ∷ 250 ∷ 500 ∷ 1000 ∷ 2500 ∷ 5000 ∷ []

abbrev pub num_latency_buckets : ℕ
num_latency_buckets = length latency_boundaries_ms + 1

module _ {F : Type 0} ⦃f : Float F⦄ where
  -- The loop over the boundaries from index i on; past the last comes the overflow bucket, index 12.
  unfoldable pub index_from : F → ℕ → List ℕ → ℕ
  index_from latency_ms i [] = 12
  index_from latency_ms i (bound ∷ bounds) =
      if f.le latency_ms (f.of_int64 bound) then i else index_from latency_ms (suc i) bounds

  unfoldable pub bucket_index : F → ℕ
  unfolding index_from
  bucket_index latency_ms = index_from latency_ms 0 latency_boundaries_ms

unfoldable pub total_from : ℕ → List ℕ → ℕ
total_from total [] = total
total_from total (count ∷ buckets) = total_from (add64 total count) buckets

-- The scan from index i on.
unfoldable pub find_rank : ℕ → ℕ → ℕ → List ℕ → ℕ
find_rank threshold cumulative i [] = 5000
find_rank threshold cumulative i (count ∷ buckets) =
    let cumulative' = add64 cumulative count in
    let rest = find_rank threshold cumulative' (suc i) buckets in
    if le64 threshold cumulative' then get_or latency_boundaries_ms i 5000 else rest

module _ {F : Type 0} ⦃f : Float F⦄ where
  unfoldable pub percentile : List ℕ → F → F
  unfolding total_from find_rank
  percentile buckets p =
      let total = total_from 0 buckets in
      if total == 0
      then f.nought
      else f.of_int64 (find_rank (f.ceil_int64 (f.mul p (f.of_int64 total))) 0 0 buckets)

total_from-eq-sum64 : (t : ℕ) (ns : List ℕ) → total_from t ns ≡ Backend.sum64 t ns
unfolding total_from Backend.sum64
total_from-eq-sum64 t [] = refl
total_from-eq-sum64 t (n ∷ ns) = total_from-eq-sum64 (add64 t n) ns

find_rank-eq-scan_buckets :
    (t c i : ℕ) (ns : List ℕ) → find_rank t c i ns ≡ Backend.scan_buckets t c i ns
unfolding find_rank Backend.scan_buckets
find_rank-eq-scan_buckets t c i [] = refl
find_rank-eq-scan_buckets t c i (n ∷ ns) = rw (find_rank-eq-scan_buckets t (add64 c n) (suc i) ns)

module _ {F : Type 0} ⦃f : Float F⦄ where
  -- The worker and the backend, which each have a copy of the histogram, compute the same percentile
  -- of every histogram.
  percentile_agrees : (ns : List ℕ) (p : F) → percentile ns p ≡ Backend.percentile ns p
  unfolding percentile Backend.percentile
  percentile_agrees ns p = rw (total_from-eq-sum64 0 ns, find_rank-eq-scan_buckets _ 0 0 ns)
