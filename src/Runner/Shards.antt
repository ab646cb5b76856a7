-- ===== src/Runner/Shards.antt =====
-- How a run is cut into shards does not show in its histogram: the backend's merge of the shards'
-- histograms is the histogram that one runner would have reported for all the virtual users.
use distributed_load_testing.Common.{
  ℕ, zero, suc, ◌+◌, ◌%◌, ◌<◌, ◌≡◌, refl, sym, ap, ◌∙◌, List, [], ◌∷◌, ◌++◌, map, arith, length,
  sum, All, All-append, get_or,
}
use distributed_load_testing.Common.Int.{int64_mod, add64}
use distributed_load_testing.Float.{Float}
use distributed_load_testing.Store.Histogram.{merge_buckets}
use distributed_load_testing.Store.Histogram.Merge.{get_or-replicate, column, merge_buckets-column}
use distributed_load_testing.Runner.Stats.{
  VuStats, add_row, zero_stats, merge_vu, merge_from, merge_stats,
}

get_or-add_row :
    (a b : List ℕ) (i : ℕ)
    → length a ≡ length b
    → i < length a
    → get_or (add_row a b) i 0 ≡ (get_or a i 0 + get_or b i 0) % int64_mod
unfolding add_row add64
get_or-add_row [] b i h k = absurd (omega arith)
get_or-add_row (x ∷ a) [] i h k = absurd (omega arith)
get_or-add_row (x ∷ a) (y ∷ b) zero h k = refl
get_or-add_row (x ∷ a) (y ∷ b) (suc i) h k = get_or-add_row a b i (omega arith) (omega arith)

length-add_row : (a b : List ℕ) → length (add_row a b) ≡ length a
unfolding add_row
length-add_row [] b = refl
length-add_row (x ∷ a) [] = refl
length-add_row (x ∷ a) (y ∷ b) = ap suc (length-add_row a b)

module _ {F : Type 0} ⦃f : Float F⦄ where
  -- Each tally has the 13 buckets of its array.
  abbrev pub IsWide : VuStats F → Type 0
  IsWide vu = length vu.buckets ≡ 13

  abbrev pub bucket_total : ℕ → List (VuStats F) → ℕ
  bucket_total i vus = sum (map (λ vu. get_or vu.buckets i 0) vus)

  bucket-merge_from :
      (acc : VuStats F) (vus : List (VuStats F)) (i : ℕ)
      → IsWide acc
      → All IsWide vus
      → i < 13
      → get_or acc.buckets i 0 < int64_mod
      → get_or (merge_from acc vus).buckets i 0
        ≡ (get_or acc.buckets i 0 + bucket_total i vus) % int64_mod
  unfolding merge_from merge_vu
  bucket-merge_from acc [] i w ws h k = omega arith
  bucket-merge_from acc (vu ∷ vus) i w ws h k =
      let now = get_or-add_row acc.buckets vu.buckets i (omega arith) (omega arith) in
      let wide = length-add_row acc.buckets vu.buckets in
      omega (
        arith,
        now,
        bucket-merge_from (merge_vu acc vu) vus i (omega (arith, wide)) ws.1 h (omega (arith, now)),
      )

  bucket-merge_stats :
      (vus : List (VuStats F)) (i : ℕ)
      → All IsWide vus
      → i < 13
      → get_or (merge_stats vus).latency_buckets i 0 ≡ bucket_total i vus % int64_mod
  unfolding merge_stats zero_stats
  bucket-merge_stats vus i ws h =
      let empty = get_or-replicate 13 i in
      omega (arith, empty, bucket-merge_from zero_stats vus i refl ws h (omega (arith, empty)))

  abbrev pub reported : List (List (VuStats F)) → List (List ℕ)
  reported = map (λ vus. (merge_stats vus).latency_buckets)

  abbrev pub all_users : List (List (VuStats F)) → List (VuStats F)
  all_users [] = []
  all_users (vus ∷ shards) = vus ++ all_users shards

  bucket_total-append :
      (i : ℕ) (a b : List (VuStats F))
      → bucket_total i (a ++ b) ≡ bucket_total i a + bucket_total i b
  bucket_total-append i [] b = omega arith
  bucket_total-append i (vu ∷ a) b = omega (arith, bucket_total-append i a b)

  column-reported :
      (shards : List (List (VuStats F))) (i : ℕ)
      → All (All IsWide) shards
      → i < 13
      → sum (column i (reported shards)) % int64_mod ≡ bucket_total i (all_users shards) % int64_mod
  column-reported [] i ws h = refl
  column-reported (vus ∷ shards) i ws h = omega (
    arith,
    bucket-merge_stats vus i ws.0 h,
    column-reported shards i ws.1 h,
    bucket_total-append i vus (all_users shards),
  )

  All-all_users :
      (shards : List (List (VuStats F))) → All (All IsWide) shards → All IsWide (all_users shards)
  All-all_users [] ws = tt
  All-all_users (vus ∷ shards) ws =
      All-append IsWide vus (all_users shards) ws.0 (All-all_users shards ws.1)

  -- However the virtual users of a run are dealt to shards, each bucket of the merged histogram is
  -- that of one runner with all the users; each user's tally is taken to have its 13 buckets.
  pub merge_buckets-reported :
      (shards : List (List (VuStats F))) (i : ℕ)
      → All (All IsWide) shards
      → i < 13
      → get_or (merge_buckets (reported shards)) i 0
        ≡ get_or (merge_stats (all_users shards)).latency_buckets i 0
  merge_buckets-reported shards i ws h =
      (merge_buckets-column (reported shards) i h).1
      ∙ column-reported shards i ws h
      ∙ sym (bucket-merge_stats (all_users shards) i (All-all_users shards ws) h)
