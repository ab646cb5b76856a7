-- ===== src/Runner/Counts.antt =====
-- The metrics of a run agree with its result.
use mathlib.Core.Path.{subst}
use text.Mathlib.Text.{◌==◌ as str_eq}
use distributed_load_testing.Common.{
  ok, fail_if-ok, ok-injective, ◌&&◌, ℕ, zero, suc, ◌+◌, ◌%◌, ◌<◌, ◌≡◌, refl, Bool, true, false,
  sym, ◌∙◌, List, [], ◌∷◌, arith, inl, inr, Bool-cases, ltb, All,
}
use distributed_load_testing.Common.Int.{pos, pos_part, leb_ℤ, ltb_ℤ, int64_mod, add64}
use distributed_load_testing.Float.{Float}
use distributed_load_testing.Runner.Stats.{
  VuStats, Result, zero_stats, record_request, merge_vu, merge_from, merge_stats,
}
use distributed_load_testing.Runner.Run.{
  Config, Outcome, not_built, transport_error, response, Round, do_request, run_virtual_user,
  run_users, run,
}
use distributed_load_testing.Runner.Interleaving.{
  IsInterleaving, weigh, weigh_all, weigh-append, weigh-IsInterleaving, weigh-count_where,
}
use distributed_load_testing.Runner.Metrics.Classes.{
  requested, succeeded, observed, errors, one_if, request_weight, sample_weight, error_weight,
  success_weight, succeeded_lem, success_weight-status_class, error_weight-status_class,
}
use distributed_load_testing.Runner.Metrics.{
  Metric, user_starts, user_ends, is_request, is_of_class, is_observation, request_metrics,
  loop_metrics, user_metrics, users_metrics,
}

module _ {F : Type 0} where
  -- The requests of the classes that are not failures.
  abbrev IsOutcome : Outcome F → Type 0
  IsOutcome (response elapsed_ms status) = status < 1000
  IsOutcome _ = Unit

  -- Codes have three digits.
  abbrev pub IsCode : Round F → Type 0
  IsCode round = IsOutcome round.outcome

-- The numbers of a tally.
record IsCount {F : Type 0} (s : VuStats F) (total success samples : ℕ) : Type 0 where
  total_is : s.total ≡ total % int64_mod
  success_is : s.success ≡ success % int64_mod
  samples_is : s.latency_count ≡ samples % int64_mod

module _ {F : Type 0} ⦃f : Float F⦄ where
  zero_stats-IsCount : IsCount {F = F} zero_stats 0 0 0
  unfolding zero_stats
  zero_stats-IsCount = record { total_is = refl; success_is = refl; samples_is = refl }

  record_request-IsCount :
      (s : VuStats F) (t u v : ℕ) (elapsed_ms : F) (success got_response : Bool)
      → IsCount s t u v
      → IsCount
          (record_request s elapsed_ms success got_response)
          (t + 1)
          (u + one_if success)
          (v + one_if got_response)
  unfolding record_request add64
  record_request-IsCount s t u v elapsed_ms true true c = omega (arith, c)
  record_request-IsCount s t u v elapsed_ms true false c = omega (arith, c)
  record_request-IsCount s t u v elapsed_ms false true c = omega (arith, c)
  record_request-IsCount s t u v elapsed_ms false false c = omega (arith, c)

  do_request-IsCount :
      (cfg : Config) (s : VuStats F) (t u v : ℕ) (o : Outcome F)
      → IsOutcome o
      → IsCount s t u v
      → let ms = request_metrics cfg o in
        IsCount
          (do_request s o)
          (t + weigh request_weight ms)
          (u + weigh success_weight ms)
          (v + weigh sample_weight ms)
  unfolding do_request request_metrics weigh
  do_request-IsCount cfg s t u v not_built h c =
      record_request-IsCount s t u v f.nought false false c
  do_request-IsCount cfg s t u v transport_error h c =
      record_request-IsCount s t u v f.nought false false c
  do_request-IsCount cfg s t u v (response elapsed_ms status) h c =
      let success = success_weight-status_class F status cfg.method h in
      let counted = record_request-IsCount s t u v elapsed_ms (ltb status 400) true c in
      subst (λ k. IsCount (do_request s (response elapsed_ms status)) (t + 1) (u + k) (v + 1))
        (sym success ∙ omega arith) counted

  IsBalanced : List (Metric F) → Type 0
  IsBalanced ms = weigh error_weight ms + weigh sample_weight ms ≡ weigh request_weight ms

  request_metrics-IsBalanced :
      (cfg : Config) (o : Outcome F) → IsOutcome o → IsBalanced (request_metrics cfg o)
  unfolding request_metrics IsBalanced weigh
  request_metrics-IsBalanced cfg not_built h = refl
  request_metrics-IsBalanced cfg transport_error h = refl
  request_metrics-IsBalanced cfg (response elapsed_ms status) h =
      omega (arith, error_weight-status_class F status cfg.method h)

  run_virtual_user-IsCount :
      (cfg : Config) (s : VuStats F) (t u v : ℕ) (rounds : List (Round F))
      → All IsCode rounds
      → IsCount s t u v
      → let ms = loop_metrics cfg rounds in
        IsCount
          (run_virtual_user cfg s rounds)
          (t + weigh request_weight ms)
          (u + weigh success_weight ms)
          (v + weigh sample_weight ms)
  unfolding run_virtual_user loop_metrics weigh
  run_virtual_user-IsCount cfg s t u v [] codes c = omega (arith, c)
  run_virtual_user-IsCount cfg s t u v (round ∷ rounds) (code, codes) c =
      let ms = request_metrics cfg round.outcome in
      let c' = do_request-IsCount cfg s t u v round.outcome code c in
      let rest = run_virtual_user-IsCount cfg (do_request s round.outcome) _ _ _ rounds codes c' in
      elim (Bool-cases round.over) [
        | inl e ↦ rw e (omega (arith, c))
        | inr e ↦ rw e (elim (Bool-cases (ltb_ℤ (pos 0) cfg.think_time && round.ends_in_pause)) [
          | inl p ↦ rw p c'
          | inr p ↦
              rw
                (
                  p,
                  weigh-append request_weight ms (loop_metrics cfg rounds),
                  weigh-append success_weight ms (loop_metrics cfg rounds),
                  weigh-append sample_weight ms (loop_metrics cfg rounds),
                )
                (omega (arith, rest))
        ])
      ]

  loop_metrics-IsBalanced :
      (cfg : Config) (rounds : List (Round F))
      → All IsCode rounds
      → IsBalanced (loop_metrics cfg rounds)
  unfolding loop_metrics IsBalanced weigh
  loop_metrics-IsBalanced cfg [] codes = refl
  loop_metrics-IsBalanced cfg (round ∷ rounds) (code, codes) =
      let ms = request_metrics cfg round.outcome in
      let balanced = request_metrics-IsBalanced cfg round.outcome code in
      let rest = loop_metrics-IsBalanced cfg rounds codes in
      let all = λ (w : Metric F → ℕ). weigh-append w ms (loop_metrics cfg rounds) in
      elim (Bool-cases round.over) [
        | inl e ↦ rw e refl
        | inr e ↦ rw e (elim (Bool-cases (ltb_ℤ (pos 0) cfg.think_time && round.ends_in_pause)) [
          | inl p ↦ rw p balanced
          | inr p ↦
              rw (p, all request_weight, all sample_weight, all error_weight)
                (omega (arith, balanced, rest))
        ])
      ]

  -- The goroutine adds to what its loop reports nothing that is counted.
  weigh-user_metrics :
      (cfg : Config) (rounds : List (Round F)) (w : Metric F → ℕ)
      → w user_starts ≡ 0
      → w user_ends ≡ 0
      → weigh w (user_metrics cfg rounds) ≡ weigh w (loop_metrics cfg rounds)
  unfolding weigh
  weigh-user_metrics cfg rounds w starts ends =
      omega (arith, weigh-append w (loop_metrics cfg rounds) (user_ends ∷ []), starts, ends)

  merge_vu-IsCount :
      (a b : VuStats F) (t u v t' u' v' : ℕ)
      → IsCount a t u v
      → IsCount b t' u' v'
      → IsCount (merge_vu a b) (t + t') (u + u') (v + v')
  unfolding merge_vu add64
  merge_vu-IsCount a b t u v t' u' v' c c' = omega (arith, c, c')

  abbrev IsCoded : (ℕ → List (Round F)) → Type 0
  IsCoded schedule = (i : ℕ) → All IsCode (schedule i)

  merge_from-IsCount :
      (cfg : Config) (schedule : ℕ → List (Round F)) (left i : ℕ) (acc : VuStats F) (t u v : ℕ)
      → IsCoded schedule
      → IsCount acc t u v
      → let xss = users_metrics cfg schedule left i in
        IsCount
          (merge_from acc (run_users cfg schedule left i))
          (t + weigh_all request_weight xss)
          (u + weigh_all success_weight xss)
          (v + weigh_all sample_weight xss)
  unfolding merge_from run_users users_metrics
  merge_from-IsCount cfg schedule zero i acc t u v codes c = omega (arith, c)
  merge_from-IsCount cfg schedule (suc left) i acc t u v codes c =
      let user =
        run_virtual_user-IsCount cfg zero_stats 0 0 0 (schedule i) (codes i) zero_stats-IsCount in
      let one =
        merge_vu-IsCount acc (run_virtual_user cfg zero_stats (schedule i)) _ _ _ _ _ _ c user in
      let rest =
        merge_from-IsCount cfg schedule left (suc i)
          (merge_vu acc (run_virtual_user cfg zero_stats (schedule i))) _ _ _ codes one in
      let w1 = weigh-user_metrics cfg (schedule i) request_weight refl refl in
      let w2 = weigh-user_metrics cfg (schedule i) success_weight refl refl in
      let w3 = weigh-user_metrics cfg (schedule i) sample_weight refl refl in
      rw (w1, w2, w3) (omega (arith, rest))

  users_metrics-balanced :
      (cfg : Config) (schedule : ℕ → List (Round F)) (left i : ℕ)
      → IsCoded schedule
      → let xss = users_metrics cfg schedule left i in
        weigh_all error_weight xss + weigh_all sample_weight xss ≡ weigh_all request_weight xss
  unfolding users_metrics IsBalanced
  users_metrics-balanced cfg schedule zero i codes = refl
  users_metrics-balanced cfg schedule (suc left) i codes =
      let w1 = weigh-user_metrics cfg (schedule i) request_weight refl refl in
      let w2 = weigh-user_metrics cfg (schedule i) error_weight refl refl in
      let w3 = weigh-user_metrics cfg (schedule i) sample_weight refl refl in
      let here = loop_metrics-IsBalanced cfg (schedule i) (codes i) in
      let rest = users_metrics-balanced cfg schedule left (suc i) codes in
      rw (w1, w2, w3) (omega (arith, here, rest))

  -- However the users of a run interleave, its metrics agree with its result: the requests counted are
  -- the total, those of the classes below 4xx the successes, and the latencies observed the samples, in
  -- int64 arithmetic; each counted request is an error or has a latency. Codes have three digits.
  pub run-agrees :
      (cfg : Config) (schedule : ℕ → List (Round F)) (res : Result F) (ms : List (Metric F))
      → IsCoded schedule
      → run cfg schedule ≡ ok res
      → IsInterleaving (users_metrics cfg schedule (pos_part cfg.virtual_users) 0) ms
      → (res.total_requests ≡ requested ms % int64_mod)
        × (res.successful_requests ≡ succeeded ms % int64_mod)
        × (res.latency_count ≡ observed ms % int64_mod)
        × (errors ms + observed ms ≡ requested ms)
  unfolding run merge_stats
  run-agrees cfg schedule res ms codes e mixed =
      let n = pos_part cfg.virtual_users in
      let e1 = (fail_if-ok (leb_ℤ cfg.virtual_users (pos 0)) _ _ e).1 in
      let e2 = (fail_if-ok (str_eq cfg.target_url "") _ _ e1).1 in
      let c = merge_from-IsCount cfg schedule n 0 zero_stats 0 0 0 codes zero_stats-IsCount in
      let all =
        λ (w : Metric F → ℕ). weigh-IsInterleaving w (users_metrics cfg schedule n 0) ms mixed in
      let balanced = users_metrics-balanced cfg schedule n 0 codes in
      let requests = weigh-count_where is_request ms ∙ all request_weight in
      let samples = weigh-count_where is_observation ms ∙ all sample_weight in
      let failures = weigh-count_where (is_of_class "error") ms ∙ all error_weight in
      let successes = succeeded_lem ms ∙ all success_weight in
      rw (← ok-injective e2, requests, samples, failures, successes)
        (omega (arith, c), omega (arith, c), omega (arith, c), balanced)
