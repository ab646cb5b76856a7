-- ===== src/Runner/Extremes/Summary.antt =====
-- That the tallies of worker/internal/runner/stats.go know the smallest and the largest latency, through
-- recording and merging.
use text.Mathlib.Text.{◌==◌ as str_eq}
use mathlib.Core.List.{append-nil, append_assoc}
use distributed_load_testing.Common.{
  ℕ, zero, suc, ◌+◌, ◌<◌, ◌≡◌, ◌⊎◌, refl, ap, inl, inr, Bool, true, false, ◌&&◌, List, [], ◌∷◌,
  ◌++◌, arith, length, length-append, All, ok, fail_if-ok, ok-injective, ltb, ◌%◌, Bool-cases,
}
use distributed_load_testing.Common.Int.{
  pos, pos_part, leb_ℤ, ltb_ℤ, int64_mod, int64_half, add64, lt64,
}
use distributed_load_testing.Float.{Float, IsOrdered, ◌≼◌}
use distributed_load_testing.Runner.Stats
use distributed_load_testing.Runner.Stats.{
  VuStats, zero_stats, record_request, add_sample, count_request, merge_vu, merge_from, merge_stats,
}
use distributed_load_testing.Runner.Run.{
  Config, Outcome, not_built, transport_error, response, Round, do_request, run_virtual_user,
  run_users, run,
}
use distributed_load_testing.Runner.Extremes.{
  latency_of, latencies, all_latencies, IsExtremes, joined, All-parts,
}

module _ {F : Type 0} ⦃f : Float F⦄ where
  abbrev IsSummary : VuStats F → List F → Type 0
  IsSummary s xs =
      (s.latency_count ≡ length xs) × ((xs ≡ []) ⊎ IsExtremes s.min_latency_ms s.max_latency_ms xs)

  module _ (o : IsOrdered F) where
    abbrev AllReal : List F → Type 0
    AllReal xs = All (λ x. x ≼ x) xs

    record_request-IsSummary :
        (s : VuStats F) (xs : List F) (elapsed_ms : F) (success : Bool)
        → suc (length xs) < int64_half
        → elapsed_ms ≼ elapsed_ms
        → IsSummary s xs
        → IsSummary (record_request s elapsed_ms success true) (xs ++ (elapsed_ms ∷ []))
    unfolding record_request add64
    record_request-IsSummary s xs elapsed_ms success fits real (count, extremes) = (
      omega (arith, count, length-append xs (elapsed_ms ∷ [])),
      inr (
          joined o s.latency_count s.min_latency_ms s.max_latency_ms elapsed_ms elapsed_ms xs
            (elapsed_ms ∷ []) count extremes ((inl refl), (real, tt), (inl refl), (real, tt))),
    )

    do_request-IsSummary :
        (s : VuStats F) (xs : List F) (outcome : Outcome F)
        → length (xs ++ latency_of outcome) < int64_half
        → AllReal (latency_of outcome)
        → IsSummary s xs
        → IsSummary (do_request s outcome) (xs ++ latency_of outcome)
    unfolding do_request record_request
    do_request-IsSummary s xs not_built fits real h = rw (append-nil xs) h
    do_request-IsSummary s xs transport_error fits real h = rw (append-nil xs) h
    do_request-IsSummary s xs (response elapsed_ms status) fits (real, _) h =
        record_request-IsSummary s xs elapsed_ms (ltb status 400)
          (omega (arith, length-append xs (elapsed_ms ∷ []))) real h

    merge_vu-IsSummary :
        (a b : VuStats F) (xs ys : List F)
        → length (xs ++ ys) < int64_half
        → IsSummary a xs
        → IsSummary b ys
        → IsSummary (merge_vu a b) (xs ++ ys)
    unfolding merge_vu add64 lt64
    merge_vu-IsSummary a b xs [] fits (count, extremes) (count', _) =
        let nothing : List F = [] in
        let no_more : ltb ((0 + int64_half) % int64_mod)
              ((b.latency_count + int64_half) % int64_mod)
            ≡ false =
          ground arith in
        rw (append-nil xs, no_more) (omega (arith, length-append xs nothing), extremes)
    merge_vu-IsSummary a b xs (y ∷ ys) fits (count, extremes) (count', inl empty) = absurd (cc)
    merge_vu-IsSummary a b xs (y ∷ ys) fits (count, extremes) (count', inr more) =
        let longer = length-append xs (y ∷ ys) in
        let some_more : ltb ((0 + int64_half) % int64_mod)
              ((b.latency_count + int64_half) % int64_mod)
            ≡ true =
          ground (arith, longer) in
        rw some_more (
          omega (arith, longer),
          inr (
              joined o a.latency_count a.min_latency_ms a.max_latency_ms b.min_latency_ms
                b.max_latency_ms xs (y ∷ ys) count extremes more),
        )

    run_virtual_user-IsSummary :
        (cfg : Config) (s : VuStats F) (xs : List F) (rounds : List (Round F))
        → length (xs ++ latencies cfg rounds) < int64_half
        → AllReal (latencies cfg rounds)
        → IsSummary s xs
        → IsSummary (run_virtual_user cfg s rounds) (xs ++ latencies cfg rounds)
    unfolding run_virtual_user latencies
    run_virtual_user-IsSummary cfg s xs [] fits real h = rw (append-nil xs) h
    run_virtual_user-IsSummary cfg s xs (round ∷ rounds) fits real h =
        let here = latency_of round.outcome in
        let rest = latencies cfg rounds in
        elim (Bool-cases round.over) [
          | inl e ↦ rw (e, append-nil xs) h
          | inr e ↦ elim (Bool-cases (ltb_ℤ (pos 0) cfg.think_time && round.ends_in_pause)) [
            | inl p ↦
                rw (e, p)
                  (do_request-IsSummary s xs round.outcome (rw (e, p) at fits) (rw (e, p) at real)
                    h)
            | inr p ↦
                let fits' : length (xs ++ (here ++ rest)) < int64_half = rw (e, p) at fits in
                let real' : AllReal (here ++ rest) = rw (e, p) at real in
                let split = append_assoc xs here rest in
                let shorter = length-append (xs ++ here) rest in
                let h' =
                  do_request-IsSummary s xs round.outcome (omega (arith, ap length split, shorter))
                    (All-parts (λ x. x ≼ x) here rest real').0 h in
                rw (e, p, ← split)
                  (run_virtual_user-IsSummary cfg (do_request s round.outcome) (xs ++ here) rounds
                    (rw split fits') (All-parts (λ x. x ≼ x) here rest real').1 h')
          ]
        ]

    merge_from-IsSummary :
        (cfg : Config) (schedule : ℕ → List (Round F)) (left i : ℕ) (acc : VuStats F) (xs : List F)
        → length (xs ++ all_latencies cfg schedule left i) < int64_half
        → AllReal (all_latencies cfg schedule left i)
        → IsSummary acc xs
        → IsSummary
            (merge_from acc (run_users cfg schedule left i))
            (xs ++ all_latencies cfg schedule left i)
    unfolding merge_from run_users all_latencies zero_stats
    merge_from-IsSummary cfg schedule zero i acc xs fits real h = rw (append-nil xs) h
    merge_from-IsSummary cfg schedule (suc left) i acc xs fits real h =
        let here = latencies cfg (schedule i) in
        let rest = all_latencies cfg schedule left (suc i) in
        let split = append_assoc xs here rest in
        let shorter = length-append (xs ++ here) rest in
        let fits' : length (xs ++ here) < int64_half = omega (arith, ap length split, shorter) in
        let (real_here, real_rest) = All-parts (λ x. x ≼ x) here rest real in
        let user =
          run_virtual_user-IsSummary cfg zero_stats [] (schedule i)
            (omega (arith, length-append xs here)) real_here (refl, inl refl) in
        let vu = run_virtual_user cfg zero_stats (schedule i) in
        rw (← split) (
          merge_from-IsSummary cfg schedule left (suc i) (merge_vu acc vu) (xs ++ here)
            (rw split fits) real_rest (merge_vu-IsSummary acc vu xs here fits' h user))

    -- The result of a run counts every latency that its users recorded, and its minimum and maximum are
    -- the least and the greatest of them, if there is one. No latency is NaN, and there are fewer than
    -- 2^63.
    pub run-IsExtremes :
        (cfg : Config) (schedule : ℕ → List (Round F)) (res : Stats.Result F)
        → length (all_latencies cfg schedule (pos_part cfg.virtual_users) 0) < int64_half
        → All (λ x. x ≼ x) (all_latencies cfg schedule (pos_part cfg.virtual_users) 0)
        → run cfg schedule ≡ ok res
        → let xs = all_latencies cfg schedule (pos_part cfg.virtual_users) 0 in
          (res.latency_count ≡ length xs)
          × ((xs ≡ []) ⊎ IsExtremes res.min_latency_ms res.max_latency_ms xs)
    unfolding run merge_stats zero_stats
    run-IsExtremes cfg schedule res fits real e =
        let e1 = (fail_if-ok (leb_ℤ cfg.virtual_users (pos 0)) _ _ e).1 in
        let e2 = (fail_if-ok (str_eq cfg.target_url "") _ _ e1).1 in
        let (count, extremes) =
          merge_from-IsSummary cfg schedule (pos_part cfg.virtual_users) 0 zero_stats [] fits real
            (refl, inl refl) in
        rw (← ok-injective e2) (count, extremes)
