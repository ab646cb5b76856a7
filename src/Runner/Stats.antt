-- ===== src/Runner/Stats.antt =====
-- worker/internal/runner/stats.go: one virtual user's tally, and the merge of all tallies.
use distributed_load_testing.Common.{
  ℕ, zero, suc, Bool, ◌||◌, List, [], ◌∷◌, ◌==◌, if◌then◌else◌, replicate,
}
use distributed_load_testing.Common.Int.{add64, lt64}
use distributed_load_testing.Float.{Float}
use distributed_load_testing.Runner.Histogram.{num_latency_buckets, bucket_index, percentile}

pub record VuStats (F : Type 0) : Type 0 where
  pub total : ℕ
  pub success : ℕ
  pub failed : ℕ
  pub latency_count : ℕ
  pub sum_latency_ms : F
  pub min_latency_ms : F
  pub max_latency_ms : F
  pub buckets : List ℕ

-- `s.buckets[i]++`.
unfoldable pub increment_at : List ℕ → ℕ → List ℕ
increment_at [] i = []
increment_at (n ∷ ns) zero = add64 n 1 ∷ ns
increment_at (n ∷ ns) (suc i) = n ∷ increment_at ns i

-- `merged[i] += vu.buckets[i]` over two arrays of the same length.
unfoldable pub add_row : List ℕ → List ℕ → List ℕ
add_row (m ∷ ms) (n ∷ ns) = add64 m n ∷ add_row ms ns
add_row ms ns = ms

pub record Result (F : Type 0) : Type 0 where
  pub total_requests : ℕ
  pub successful_requests : ℕ
  pub failed_requests : ℕ
  pub latency_count : ℕ
  pub avg_latency_ms : F
  pub min_latency_ms : F
  pub max_latency_ms : F
  pub p50_latency_ms : F
  pub p95_latency_ms : F
  pub p99_latency_ms : F
  pub latency_buckets : List ℕ

module _ {F : Type 0} ⦃f : Float F⦄ where
  -- The zero value of the struct.
  unfoldable pub zero_stats : VuStats F
  zero_stats = record {
    total = 0;
    success = 0;
    failed = 0;
    latency_count = 0;
    sum_latency_ms = f.nought;
    min_latency_ms = f.nought;
    max_latency_ms = f.nought;
    buckets = replicate num_latency_buckets 0;
  }

  -- `s.total++` and the outcome's counter.
  abbrev pub count_request : VuStats F → Bool → VuStats F
  count_request s ok = record s {
    total = add64 s.total 1;
    success = if ok then add64 s.success 1 else s.success;
    failed = if ok then s.failed else add64 s.failed 1;
  }

  -- What a response adds.
  abbrev pub add_sample : VuStats F → F → VuStats F
  add_sample s latency_ms = record s {
    sum_latency_ms = f.add s.sum_latency_ms latency_ms;
    buckets = increment_at s.buckets (bucket_index latency_ms);
    min_latency_ms =
        if s.latency_count == 0 || f.lt latency_ms s.min_latency_ms
        then latency_ms
        else s.min_latency_ms;
    max_latency_ms =
        if s.latency_count == 0 || f.lt s.max_latency_ms latency_ms
        then latency_ms
        else s.max_latency_ms;
    latency_count = add64 s.latency_count 1;
  }

  unfoldable pub record_request : VuStats F → F → Bool → Bool → VuStats F
  record_request s latency_ms success got_response =
      if got_response
      then add_sample (count_request s success) latency_ms
      else count_request s success

  -- One round of the loop of `mergeStats`; the running totals are a tally themselves.
  unfoldable pub merge_vu : VuStats F → VuStats F → VuStats F
  unfolding add_row
  merge_vu acc vu = record {
    total = add64 acc.total vu.total;
    success = add64 acc.success vu.success;
    failed = add64 acc.failed vu.failed;
    latency_count = add64 acc.latency_count vu.latency_count;
    sum_latency_ms = f.add acc.sum_latency_ms vu.sum_latency_ms;
    min_latency_ms =
        if lt64 0 vu.latency_count
        then (if acc.latency_count == 0 || f.lt vu.min_latency_ms acc.min_latency_ms
            then vu.min_latency_ms
            else acc.min_latency_ms)
        else acc.min_latency_ms;
    max_latency_ms =
        if lt64 0 vu.latency_count
        then (if acc.latency_count == 0 || f.lt acc.max_latency_ms vu.max_latency_ms
            then vu.max_latency_ms
            else acc.max_latency_ms)
        else acc.max_latency_ms;
    buckets = add_row acc.buckets vu.buckets;
  }

  unfoldable pub merge_from : VuStats F → List (VuStats F) → VuStats F
  merge_from acc [] = acc
  merge_from acc (vu ∷ vus) = merge_from (merge_vu acc vu) vus

  abbrev pub to_result : VuStats F → Result F
  to_result t = record {
    total_requests = t.total;
    successful_requests = t.success;
    failed_requests = t.failed;
    latency_count = t.latency_count;
    avg_latency_ms =
        if lt64 0 t.latency_count
        then f.div t.sum_latency_ms (f.of_int64 t.latency_count)
        else f.nought;
    min_latency_ms = t.min_latency_ms;
    max_latency_ms = t.max_latency_ms;
    p50_latency_ms = percentile t.buckets (f.hundredths 50);
    p95_latency_ms = percentile t.buckets (f.hundredths 95);
    p99_latency_ms = percentile t.buckets (f.hundredths 99);
    latency_buckets = t.buckets;
  }

  unfoldable pub merge_stats : List (VuStats F) → Result F
  unfolding merge_from zero_stats
  merge_stats all = to_result (merge_from zero_stats all)
