-- ===== src/Examples/Loads.antt =====
-- Runs of load against the sample target, and what two users report at one time.
use distributed_load_testing.Common.{
  ℕ, ◌≡◌, ◌+◌, ◌%◌, ◌<◌, ◌⊎◌, refl, true, false, ok, List, [], ◌∷◌, if◌then◌else◌, All, length,
  arith,
}
use distributed_load_testing.Common.Int.{int64_mod, int64_half}
use distributed_load_testing.Common.Decimal.{format_int}
use distributed_load_testing.Float.{Cents, cents_float, Cents-IsOrdered, ◌≼◌}
use distributed_load_testing.Runner.Stats.{merge_stats}
use distributed_load_testing.Runner.Run.{Round, response, transport_error, run, run_users}
use distributed_load_testing.Runner.Interleaving.{
  Shuffle, both_done, from_left, from_right, IsInterleaving,
}
use distributed_load_testing.Runner.Metrics.{
  Metric, user_starts, user_ends, counts_request, observes, status_class, request_metrics,
  loop_metrics, users_metrics,
}
use distributed_load_testing.Runner.Metrics.Classes.{requested, succeeded, observed, errors}
use distributed_load_testing.Runner.Counts.{run-agrees}
use distributed_load_testing.Runner.Gauge.{IsWithin, users_metrics-IsWithin}
use distributed_load_testing.Runner.Extremes.{latencies, all_latencies, IsExtremes}
use distributed_load_testing.Runner.Extremes.Summary.{run-IsExtremes}
use distributed_load_testing.Target.{reply}
use distributed_load_testing.Target.Runs.{IsServed, slow_page, run-IsServed}
use distributed_load_testing.Examples.{config_a}

-- Each user has one request that /error answers, and one that times out.
abbrev failing_a : ℕ → List (Round Cents)
failing_a _ =
    record { over = false; outcome = response 300 500; ends_in_pause = false }
    ∷ record { over = false; outcome = transport_error; ends_in_pause = false }
    ∷ []

abbrev metrics_a : List (Metric Cents)
metrics_a =
    user_starts
    ∷ user_starts
    ∷ counts_request "5xx" "GET"
    ∷ counts_request "5xx" "GET"
    ∷ observes "GET" 0
    ∷ counts_request "error" "GET"
    ∷ user_ends
    ∷ observes "GET" 0
    ∷ counts_request "error" "GET"
    ∷ user_ends
    ∷ []

Shuffle-nil : {A : Type 0} (xs : List A) → Shuffle xs [] xs
Shuffle-nil [] = both_done
Shuffle-nil (x ∷ xs) = from_left x xs [] xs (Shuffle-nil xs)

mixed_a : IsInterleaving (users_metrics config_a failing_a 2 0) metrics_a
unfolding users_metrics loop_metrics request_metrics status_class format_int
mixed_a = (
  _,
  ([], refl, Shuffle-nil _),
  from_left _ _ _ _ (
      from_right _ _ _ _ (
        from_right _ _ _ _ (
          from_left _ _ _ _ (
            from_left _ _ _ _ (
              from_left _ _ _ _ (
                from_left _ _ _ _
                  (from_right _ _ _ _ (from_right _ _ _ _ (from_right _ _ _ _ both_done))))))))),
)

failed_a : run config_a failing_a ≡ ok (merge_stats (run_users config_a failing_a 2 0))
unfolding run
failed_a = refl

run-agrees_example :
    let res = merge_stats (run_users config_a failing_a 2 0) in
    (res.total_requests ≡ requested metrics_a % int64_mod)
    × (res.successful_requests ≡ succeeded metrics_a % int64_mod)
    × (res.latency_count ≡ observed metrics_a % int64_mod)
    × (errors metrics_a + observed metrics_a ≡ requested metrics_a)
run-agrees_example =
    run-agrees config_a failing_a (merge_stats (run_users config_a failing_a 2 0)) metrics_a
      (λ i. (omega arith, (tt, tt))) failed_a mixed_a

users_metrics-IsWithin_example : IsWithin 2 0 metrics_a
users_metrics-IsWithin_example = users_metrics-IsWithin config_a failing_a 2 0 metrics_a mixed_a

-- Each user has a request that /slow answers after 600 milliseconds, and one that times out.
abbrev slow_a : ℕ → List (Round Cents)
slow_a _ =
    record { over = false; outcome = response 60000 200; ends_in_pause = false }
    ∷ record { over = false; outcome = transport_error; ends_in_pause = false }
    ∷ []

slow_a-IsServed : (user : ℕ) → All (IsServed "/slow") (slow_a user)
unfolding reply
slow_a-IsServed user = ((0, refl, refl), (tt, tt))

ran_a : run config_a slow_a ≡ ok (merge_stats (run_users config_a slow_a 2 0))
unfolding run
ran_a = refl

few_a : length (all_latencies config_a slow_a 2 0) < int64_half
unfolding all_latencies latencies
few_a = omega arith

real_a : All (λ (x : Cents). x ≼ x) (all_latencies config_a slow_a 2 0)
unfolding all_latencies latencies
real_a = (refl, (refl, tt))

run-IsExtremes_example :
    let res = merge_stats (run_users config_a slow_a 2 0) in
    let xs = all_latencies config_a slow_a 2 0 in
    (res.latency_count ≡ length xs)
    × ((xs ≡ []) ⊎ IsExtremes res.min_latency_ms res.max_latency_ms xs)
run-IsExtremes_example =
    run-IsExtremes Cents-IsOrdered config_a slow_a (merge_stats (run_users config_a slow_a 2 0))
      few_a real_a ran_a

run-IsServed_example :
    let res = merge_stats (run_users config_a slow_a 2 0) in
    (res.successful_requests ≡ (if true then res.latency_count else 0))
    × ((res.latency_count ≡ 0) ⊎ (cents_float.of_int64 500 ≼ res.min_latency_ms))
run-IsServed_example =
    run-IsServed Cents-IsOrdered config_a slow_page slow_a
      (merge_stats (run_users config_a slow_a 2 0)) slow_a-IsServed few_a real_a ran_a
