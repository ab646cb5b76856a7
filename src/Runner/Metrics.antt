-- ===== src/Runner/Metrics.antt =====
-- The metrics of worker/internal/runner/runner.go and metrics.go: the calls that the virtual users of a
-- run make of the Prometheus client, in their order. How the users' calls interleave is not fixed.
pub mod Classes
use text.Mathlib.Text.{◌==◌ as str_eq}
use Prim.Native.String.{◌++◌ as str_append}
use distributed_load_testing.Common.{
  ℕ, zero, suc, ◌/◌, Bool, true, false, ◌&&◌, ◌||◌, List, [], ◌∷◌, ◌++◌, String, if◌then◌else◌,
}
use distributed_load_testing.Common.Int.{pos, ltb_ℤ}
use distributed_load_testing.Common.Decimal.{format_int}
use distributed_load_testing.Float.{Float}
use distributed_load_testing.Runner.Run.{
  Config, Outcome, not_built, transport_error, response, Round,
}

-- `activeVUs.Inc` and `Dec`, `requestsTotal.WithLabelValues(statusClass, method).Inc`, and
-- `requestDuration.WithLabelValues(method).Observe`.
pub data Metric (F : Type 0) : Type 0 where
  user_starts user_ends : Metric F
  counts_request : String → String → Metric F
  observes : String → F → Metric F

-- The class of a status code.
unfoldable pub status_class : ℕ → String
unfolding format_int
status_class status = str_append (format_int (pos (status / 100))) "xx"

module _ {F : Type 0} where
  abbrev pub is_request : Metric F → Bool
  is_request (counts_request status_class method) = true
  is_request _ = false

  -- A request of a class.
  abbrev pub is_of_class : String → Metric F → Bool
  is_of_class wanted (counts_request class method) = str_eq class wanted
  is_of_class wanted _ = false

  abbrev pub is_observation : Metric F → Bool
  is_observation (observes method seconds) = true
  is_observation _ = false

module _ {F : Type 0} ⦃f : Float F⦄ where
  -- What `doRequest` reports.
  unfoldable pub request_metrics : Config → Outcome F → List (Metric F)
  request_metrics cfg not_built = counts_request "error" cfg.method ∷ []
  request_metrics cfg transport_error = counts_request "error" cfg.method ∷ []
  request_metrics cfg (response elapsed_ms status) =
      counts_request (status_class status) cfg.method
      ∷ observes cfg.method (f.div elapsed_ms (f.of_int64 1000))
      ∷ []

  -- What the loop of one user reports.
  unfoldable pub loop_metrics : Config → List (Round F) → List (Metric F)
  loop_metrics cfg [] = []
  loop_metrics cfg (round ∷ rounds) =
      let here = request_metrics cfg round.outcome in
      let rest = loop_metrics cfg rounds in
      if round.over
      then []
      else if ltb_ℤ (pos 0) cfg.think_time && round.ends_in_pause
      then here
      else here ++ rest

  -- What the goroutine of one user reports.
  abbrev pub user_metrics : Config → List (Round F) → List (Metric F)
  user_metrics cfg rounds = user_starts ∷ (loop_metrics cfg rounds ++ (user_ends ∷ []))

  -- The reports of users i, i + 1, ... of `left` users.
  unfoldable pub users_metrics : Config → (ℕ → List (Round F)) → ℕ → ℕ → List (List (Metric F))
  users_metrics cfg schedule zero i = []
  users_metrics cfg schedule (suc left) i =
      user_metrics cfg (schedule i) ∷ users_metrics cfg schedule left (suc i)
