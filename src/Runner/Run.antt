-- ===== src/Runner/Run.antt =====
-- worker/internal/runner/runner.go: the virtual users' loops. The target, the network and the clock
-- are a schedule: what each round of a user's loop meets.
use text.Mathlib.Text.{◌==◌ as str_eq}
use distributed_load_testing.Common.{
  ℕ, zero, suc, Bool, true, false, ◌&&◌, List, [], ◌∷◌, String, Result, ok, ltb, if◌then◌else◌,
  ◌>>◌, fail_if,
}
use distributed_load_testing.Common.Int.{ℤ, pos, ltb_ℤ, leb_ℤ, pos_part}
use distributed_load_testing.Float.{Float}
use distributed_load_testing.Models.{Headers}
use distributed_load_testing.Runner.Stats
use distributed_load_testing.Runner.Stats.{VuStats, record_request, zero_stats, merge_stats}

-- Durations are milliseconds.
pub record Config : Type 0 where
  pub target_url : String
  pub method : String
  pub virtual_users : ℤ
  pub duration : ℤ
  pub request_timeout : ℤ
  pub headers : Headers
  pub body : String
  pub think_time : ℤ

-- How one request ends: no request could be built, the transport failed, or the target answered
-- after some milliseconds with a status code.
pub data Outcome (F : Type 0) : Type 0 where
  not_built : Outcome F
  transport_error : Outcome F
  response : F → ℕ → Outcome F

-- One round: whether the run is over when the loop tests it, the request's end, and whether the run
-- ends during the pause.
pub record Round (F : Type 0) : Type 0 where
  pub over : Bool
  pub outcome : Outcome F
  pub ends_in_pause : Bool

module _ {F : Type 0} ⦃f : Float F⦄ where
  unfoldable pub do_request : VuStats F → Outcome F → VuStats F
  unfolding record_request
  do_request s not_built = record_request s f.nought false false
  do_request s transport_error = record_request s f.nought false false
  do_request s (response elapsed_ms status) = record_request s elapsed_ms (ltb status 400) true

  -- The loop of one user, to the end of the run or of the schedule.
  unfoldable pub run_virtual_user : Config → VuStats F → List (Round F) → VuStats F
  run_virtual_user cfg s [] = s
  run_virtual_user cfg s (round ∷ rounds) =
      let s' = do_request s round.outcome in
      let rest = run_virtual_user cfg s' rounds in
      if round.over
      then s
      else if ltb_ℤ (pos 0) cfg.think_time && round.ends_in_pause
      then s'
      else rest

  -- The slots of users i, i + 1, ... of `left` users; each writes only its own.
  unfoldable pub run_users : Config → (ℕ → List (Round F)) → ℕ → ℕ → List (VuStats F)
  unfolding run_virtual_user
  run_users cfg schedule zero i = []
  run_users cfg schedule (suc left) i =
      run_virtual_user cfg zero_stats (schedule i) ∷ run_users cfg schedule left (suc i)

  unfoldable pub run : Config → (ℕ → List (Round F)) → Result String (Stats.Result F)
  run cfg schedule = do
    fail_if (leb_ℤ cfg.virtual_users (pos 0)) "virtual users must be greater than 0"
    fail_if (str_eq cfg.target_url "") "target URL must not be empty"
    ok (merge_stats (run_users cfg schedule (pos_part cfg.virtual_users) 0))
