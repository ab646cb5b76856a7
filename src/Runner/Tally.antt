-- ===== src/Runner/Tally.antt =====
-- The counters of a tally agree with one another, through recording and merging.
use text.Mathlib.Text.{◌==◌ as str_eq}
use distributed_load_testing.Common.{
  ok, fail_if-ok, ok-injective, ◌&&◌, ℕ, zero, suc, ◌+◌, ◌%◌, ◌<◌, ◌≡◌, refl, Bool, true, false,
  List, [], ◌∷◌, arith, length, sum, All, inl, inr, Bool-cases, ap,
}
use distributed_load_testing.Common.Int.{pos, pos_part, leb_ℤ, ltb_ℤ, int64_mod, add64}
use distributed_load_testing.Float.{Float}
use distributed_load_testing.Runner.Histogram.{index_from, bucket_index, latency_boundaries_ms}
use distributed_load_testing.Runner.Stats.{
  VuStats, Result, increment_at, add_row, zero_stats, record_request, merge_vu, merge_from,
  merge_stats,
}
use distributed_load_testing.Runner.Run.{
  Config, Outcome, not_built, transport_error, response, Round, do_request, run_virtual_user,
  run_users, run,
}

-- In int64 arithmetic: every request is a success or a failure, and every sample is in one bucket.
module _ {F : Type 0} where
  pub record IsTally (s : VuStats F) : Type 0 where
    pub outcomes : s.total ≡ (s.success + s.failed) % int64_mod
    pub samples : s.latency_count ≡ sum s.buckets % int64_mod
    pub width : length s.buckets ≡ 13

length-increment_at : (ns : List ℕ) (i : ℕ) → length (increment_at ns i) ≡ length ns
unfolding increment_at
length-increment_at [] i = refl
length-increment_at (n ∷ ns) zero = refl
length-increment_at (n ∷ ns) (suc i) = ap suc (length-increment_at ns i)

sum-increment_at :
    (ns : List ℕ) (i : ℕ)
    → i < length ns
    → sum (increment_at ns i) % int64_mod ≡ (sum ns + 1) % int64_mod
unfolding increment_at add64
sum-increment_at [] i h = absurd (omega arith)
sum-increment_at (n ∷ ns) zero h = omega arith
sum-increment_at (n ∷ ns) (suc i) h = omega (arith, sum-increment_at ns i (omega arith))

length-add_row : (a b : List ℕ) → length a ≡ length b → length (add_row a b) ≡ length a
unfolding add_row
length-add_row [] b h = refl
length-add_row (x ∷ a) [] h = refl
length-add_row (x ∷ a) (y ∷ b) h = ap suc (length-add_row a b (omega arith))

sum-add_row :
    (a b : List ℕ)
    → length a ≡ length b
    → sum (add_row a b) % int64_mod ≡ (sum a + sum b) % int64_mod
unfolding add_row add64
sum-add_row [] [] h = refl
sum-add_row [] (y ∷ b) h = absurd (omega arith)
sum-add_row (x ∷ a) [] h = absurd (omega arith)
sum-add_row (x ∷ a) (y ∷ b) h = omega (arith, sum-add_row a b (omega arith))

module _ {F : Type 0} ⦃f : Float F⦄ where
  index_from-lt :
      (latency_ms : F) (i : ℕ) (bounds : List ℕ)
      → i + length bounds < 13
      → index_from latency_ms i bounds < 13
  unfolding index_from
  index_from-lt latency_ms i [] h = omega arith
  index_from-lt latency_ms i (b ∷ bounds) h =
      ground (arith, index_from-lt latency_ms (suc i) bounds)

  bucket_index-lt : (latency_ms : F) → bucket_index latency_ms < 13
  unfolding bucket_index
  bucket_index-lt latency_ms = index_from-lt latency_ms 0 latency_boundaries_ms (omega arith)

  zero_stats-IsTally : IsTally {F = F} zero_stats
  unfolding zero_stats
  zero_stats-IsTally = omega arith

  record_request-IsTally :
      (s : VuStats F) (latency_ms : F) (success got_response : Bool)
      → IsTally s
      → IsTally (record_request s latency_ms success got_response)
  unfolding record_request add64
  record_request-IsTally s latency_ms success got_response t =
      let i = bucket_index latency_ms in
      let here : i < length s.buckets = omega (arith, bucket_index-lt latency_ms, t.width) in
      let more = sum-increment_at s.buckets i here in
      let same = length-increment_at s.buckets i in
      elim (Bool-cases success) [
        | inl e ↦ rw e (elim (Bool-cases got_response) [
          | inl g ↦ rw g (omega (arith, t, more, same))
          | inr g ↦ rw g (omega (arith, t))
        ])
        | inr e ↦ rw e (elim (Bool-cases got_response) [
          | inl g ↦ rw g (omega (arith, t, more, same))
          | inr g ↦ rw g (omega (arith, t))
        ])
      ]

  do_request-IsTally : (s : VuStats F) (o : Outcome F) → IsTally s → IsTally (do_request s o)
  unfolding do_request
  do_request-IsTally s not_built t = record_request-IsTally s f.nought false false t
  do_request-IsTally s transport_error t = record_request-IsTally s f.nought false false t
  do_request-IsTally s (response elapsed_ms status) t = record_request-IsTally s elapsed_ms _ true t

  run_virtual_user-IsTally :
      (cfg : Config) (s : VuStats F) (rounds : List (Round F))
      → IsTally s
      → IsTally (run_virtual_user cfg s rounds)
  unfolding run_virtual_user
  run_virtual_user-IsTally cfg s [] t = t
  run_virtual_user-IsTally cfg s (round ∷ rounds) t =
      let t' = do_request-IsTally s round.outcome t in
      let rest = run_virtual_user-IsTally cfg (do_request s round.outcome) rounds t' in
      elim (Bool-cases round.over) [
        | inl e ↦ rw e t
        | inr e ↦ rw e (elim (Bool-cases (ltb_ℤ (pos 0) cfg.think_time && round.ends_in_pause)) [
          | inl p ↦ rw p t'
          | inr p ↦ rw p rest
        ])
      ]

  run_users-IsTally :
      (cfg : Config) (schedule : ℕ → List (Round F)) (left i : ℕ)
      → All IsTally (run_users cfg schedule left i)
  unfolding run_users
  run_users-IsTally cfg schedule zero i = tt
  run_users-IsTally cfg schedule (suc left) i = (
    run_virtual_user-IsTally cfg zero_stats (schedule i) zero_stats-IsTally,
    run_users-IsTally cfg schedule left (suc i),
  )

  merge_vu-IsTally : (a b : VuStats F) → IsTally a → IsTally b → IsTally (merge_vu a b)
  unfolding merge_vu add64
  merge_vu-IsTally a b s t =
      let same : length a.buckets ≡ length b.buckets = omega (arith, s.width, t.width) in
      let rows = sum-add_row a.buckets b.buckets same in
      let width = length-add_row a.buckets b.buckets same in
      record {
        outcomes = omega (arith, s.outcomes, t.outcomes);
        samples = omega (arith, rows, s.samples, t.samples);
        width = omega (arith, width, s.width);
      }

  pub merge_from-IsTally :
      (acc : VuStats F) (vus : List (VuStats F))
      → IsTally acc
      → All IsTally vus
      → IsTally (merge_from acc vus)
  unfolding merge_from
  merge_from-IsTally acc [] t ts = t
  merge_from-IsTally acc (vu ∷ vus) t ts =
      merge_from-IsTally (merge_vu acc vu) vus (merge_vu-IsTally acc vu t ts.0) ts.1

  -- For every schedule of outcomes, a run that starts ends with counters that agree in int64
  -- arithmetic: requests are successes plus failures, samples are what the 13 buckets hold together.
  pub run-IsTally :
      (cfg : Config) (schedule : ℕ → List (Round F)) (res : Result F)
      → run cfg schedule ≡ ok res
      → (res.total_requests ≡ (res.successful_requests + res.failed_requests) % int64_mod)
        × (res.latency_count ≡ sum res.latency_buckets % int64_mod)
        × (length res.latency_buckets ≡ 13)
  unfolding run merge_stats
  run-IsTally cfg schedule res e =
      let e1 = (fail_if-ok (leb_ℤ cfg.virtual_users (pos 0)) _ _ e).1 in
      let e2 = (fail_if-ok (str_eq cfg.target_url "") _ _ e1).1 in
      let t =
        merge_from-IsTally zero_stats _ zero_stats-IsTally
          (run_users-IsTally cfg schedule (pos_part cfg.virtual_users) 0) in
      rw (← ok-injective e2) (t.outcomes, t.samples, t.width)
