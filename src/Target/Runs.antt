-- ===== src/Target/Runs.antt =====
-- Runs of worker/internal/runner against the sample target.
use text.Mathlib.Text.{◌==◌ as str_eq}
use distributed_load_testing.Common.{
  ℕ, zero, suc, ◌≡◌, ◌<◌, ◌⊎◌, length, ◌∙◌, All-append, refl, Bool, true, false, ◌&&◌, List, [],
  ◌∷◌, String, ok, fail_if-ok, ok-injective, if◌then◌else◌, ltb, inl, inr, Bool-cases, All, arith,
  ap,
}
use distributed_load_testing.Common.Int.{int64_half, pos, pos_part, leb_ℤ, ltb_ℤ, add64}
use distributed_load_testing.Float.{Float, IsOrdered, ◌≼◌}
use distributed_load_testing.Runner.Stats
use distributed_load_testing.Runner.Stats.{
  VuStats, zero_stats, record_request, merge_vu, merge_from, merge_stats,
}
use distributed_load_testing.Runner.Run.{
  Config, Outcome, not_built, transport_error, response, Round, do_request, run_virtual_user,
  run_users, run,
}
use distributed_load_testing.Runner.Extremes.{latency_of, latencies, all_latencies, found}
use distributed_load_testing.Runner.Extremes.Summary.{run-IsExtremes}
use distributed_load_testing.Target.{reply, code_of, pause_of}

-- The codes of a path are below 400, or none is; its replies pause for so long.
abbrev pub IsPage : String → Bool → ℕ → Type 0
IsPage path fine pause =
    (dice : ℕ) → (ltb (code_of (reply dice path)) 400 ≡ fine) × (pause_of (reply dice path) ≡ pause)

health-IsPage : IsPage "/health" true 0
unfolding reply
health-IsPage dice = (refl, refl)

fast-IsPage : IsPage "/fast" true 0
unfolding reply
fast-IsPage dice = (refl, refl)

slow-IsPage : IsPage "/slow" true 500
unfolding reply
slow-IsPage dice = (refl, refl)

error-IsPage : IsPage "/error" false 0
unfolding reply
error-IsPage dice = (refl, refl)

module _ {F : Type 0} ⦃f : Float F⦄ where
  abbrev IsReply : String → Outcome F → Type 0
  IsReply path (response elapsed_ms status) =
      (dice : ℕ) × (status ≡ code_of (reply dice path))
      × (f.of_int64 (pause_of (reply dice path)) ≼ elapsed_ms)
  IsReply path _ = Unit

  -- The request is answered by the target, no sooner than it replies, or not at all.
  abbrev pub IsServed : String → Round F → Type 0
  IsServed path round = IsReply path round.outcome

module _ {F : Type 0} where
  abbrev Matches : Bool → VuStats F → Type 0
  Matches fine s = s.success ≡ (if fine then s.latency_count else 0)

zero_stats-Matches : (F : Type 0) ⦃f : Float F⦄ (fine : Bool) → Matches {F = F} fine zero_stats
unfolding zero_stats
zero_stats-Matches F true = refl
zero_stats-Matches F false = refl

module _ {F : Type 0} ⦃f : Float F⦄ where
  record_request-Matches :
      (fine : Bool) (s : VuStats F) (elapsed_ms : F)
      → Matches fine s
      → Matches fine (record_request s elapsed_ms fine true)
  unfolding record_request
  record_request-Matches true s elapsed_ms m = ap (λ n. add64 n 1) m
  record_request-Matches false s elapsed_ms m = m

  do_request-Matches :
      (path : String) (fine : Bool) (pause : ℕ) (s : VuStats F) (o : Outcome F)
      → IsPage path fine pause
      → IsReply path o
      → Matches fine s
      → Matches fine (do_request s o)
  unfolding do_request record_request
  do_request-Matches path fine pause s not_built codes r m = m
  do_request-Matches path fine pause s transport_error codes r m = m
  do_request-Matches path fine pause s (response elapsed_ms status) codes (dice, e, _) m =
      let same : ltb status 400 ≡ fine = rw e (codes dice).0 in
      rw same (record_request-Matches fine s elapsed_ms m)

  run_virtual_user-Matches :
      (cfg : Config) (path : String) (fine : Bool) (pause : ℕ) (s : VuStats F)
      (rounds : List (Round F))
      → IsPage path fine pause
      → All (IsServed path) rounds
      → Matches fine s
      → Matches fine (run_virtual_user cfg s rounds)
  unfolding run_virtual_user
  run_virtual_user-Matches cfg path fine pause s [] codes served m = m
  run_virtual_user-Matches cfg path fine pause s (round ∷ rounds) codes (r, served) m =
      let m' = do_request-Matches path fine pause s round.outcome codes r m in
      let rest =
        run_virtual_user-Matches cfg path fine pause (do_request s round.outcome) rounds codes
          served m' in
      elim (Bool-cases round.over) [
        | inl e ↦ rw e m
        | inr e ↦ rw e (elim (Bool-cases (ltb_ℤ (pos 0) cfg.think_time && round.ends_in_pause)) [
          | inl p ↦ rw p m'
          | inr p ↦ rw p rest
        ])
      ]

  merge_vu-Matches :
      (fine : Bool) (a b : VuStats F)
      → Matches fine a
      → Matches fine b
      → Matches fine (merge_vu a b)
  unfolding merge_vu add64
  merge_vu-Matches true a b m m' = omega arith
  merge_vu-Matches false a b m m' = omega arith

  merge_from-Matches :
      (cfg : Config) (path : String) (fine : Bool) (pause : ℕ) (schedule : ℕ → List (Round F))
      (left i : ℕ) (acc : VuStats F)
      → IsPage path fine pause
      → ((user : ℕ) → All (IsServed path) (schedule user))
      → Matches fine acc
      → Matches fine (merge_from acc (run_users cfg schedule left i))
  unfolding merge_from run_users
  merge_from-Matches cfg path fine pause schedule zero i acc codes served m = m
  merge_from-Matches cfg path fine pause schedule (suc left) i acc codes served m =
      let user =
        run_virtual_user-Matches cfg path fine pause zero_stats (schedule i) codes (served i)
          (zero_stats-Matches F fine) in
      merge_from-Matches cfg path fine pause schedule left (suc i)
        (merge_vu acc (run_virtual_user cfg zero_stats (schedule i))) codes served
        (merge_vu-Matches fine acc _ m user)

  latency_of-pause :
      (path : String) (fine : Bool) (pause : ℕ) (outcome : Outcome F)
      → IsPage path fine pause
      → IsReply path outcome
      → All (λ x. f.of_int64 pause ≼ x) (latency_of outcome)
  latency_of-pause path fine pause not_built codes r = tt
  latency_of-pause path fine pause transport_error codes r = tt
  latency_of-pause path fine pause (response elapsed_ms status) codes (dice, _, le) =
      (rw (codes dice).1 at le, tt)

  latencies-pause :
      (cfg : Config) (path : String) (fine : Bool) (pause : ℕ) (rounds : List (Round F))
      → IsPage path fine pause
      → All (IsServed path) rounds
      → All (λ x. f.of_int64 pause ≼ x) (latencies cfg rounds)
  unfolding latencies
  latencies-pause cfg path fine pause [] codes served = tt
  latencies-pause cfg path fine pause (round ∷ rounds) codes (r, served) =
      let here = latency_of-pause path fine pause round.outcome codes r in
      let rest = latencies-pause cfg path fine pause rounds codes served in
      elim (Bool-cases round.over) [
        | inl e ↦ rw e tt
        | inr e ↦ elim (Bool-cases (ltb_ℤ (pos 0) cfg.think_time && round.ends_in_pause)) [
          | inl p ↦ rw (e, p) here
          | inr p ↦
              rw (e, p) (All-append _ (latency_of round.outcome) (latencies cfg rounds) here rest)
        ]
      ]

  all_latencies-pause :
      (cfg : Config) (path : String) (fine : Bool) (pause : ℕ) (schedule : ℕ → List (Round F))
      (left i : ℕ)
      → IsPage path fine pause
      → ((user : ℕ) → All (IsServed path) (schedule user))
      → All (λ x. f.of_int64 pause ≼ x) (all_latencies cfg schedule left i)
  unfolding all_latencies
  all_latencies-pause cfg path fine pause schedule zero i codes served = tt
  all_latencies-pause cfg path fine pause schedule (suc left) i codes served =
      All-append _ (latencies cfg (schedule i)) (all_latencies cfg schedule left (suc i))
        (latencies-pause cfg path fine pause (schedule i) codes (served i))
        (all_latencies-pause cfg path fine pause schedule left (suc i) codes served)

  run-page :
      (o : IsOrdered F) (cfg : Config) (path : String) (fine : Bool) (pause : ℕ)
      (schedule : ℕ → List (Round F)) (res : Stats.Result F)
      → IsPage path fine pause
      → ((user : ℕ) → All (IsServed path) (schedule user))
      → length (all_latencies cfg schedule (pos_part cfg.virtual_users) 0) < int64_half
      → All (λ x. x ≼ x) (all_latencies cfg schedule (pos_part cfg.virtual_users) 0)
      → run cfg schedule ≡ ok res
      → (res.successful_requests ≡ (if fine then res.latency_count else 0))
        × ((res.latency_count ≡ 0) ⊎ (f.of_int64 pause ≼ res.min_latency_ms))
  unfolding run merge_stats
  run-page o cfg path fine pause schedule res codes served fits real e =
      let e1 = (fail_if-ok (leb_ℤ cfg.virtual_users (pos 0)) _ _ e).1 in
      let e2 = (fail_if-ok (str_eq cfg.target_url "") _ _ e1).1 in
      let xs = all_latencies cfg schedule (pos_part cfg.virtual_users) 0 in
      let slow =
        all_latencies-pause cfg path fine pause schedule (pos_part cfg.virtual_users) 0 codes
          served in
      let (count, extremes) = run-IsExtremes o cfg schedule res fits real e in
      (
        rw (← ok-injective e2) (
            merge_from-Matches cfg path fine pause schedule (pos_part cfg.virtual_users) 0
              zero_stats codes served (zero_stats-Matches F fine)),
        elim extremes [
          | inl empty ↦ inl (count ∙ ap length empty)
          | inr (least, _, _, _) ↦
              inr (found (λ x. f.of_int64 pause ≼ x) res.min_latency_ms xs least slow)
        ],
      )

-- The pages of the sample target that answer alike each time.
pub data Page : Type 0 where
  health_page fast_page slow_page error_page : Page

abbrev pub page_path : Page → String
page_path health_page = "/health"
page_path fast_page = "/fast"
page_path slow_page = "/slow"
page_path error_page = "/error"

-- Whether requests for the page are to succeed, and how long it is to take at least.
abbrev pub succeeds : Page → Bool
succeeds error_page = false
succeeds _ = true

abbrev pub least_ms : Page → ℕ
least_ms slow_page = 500
least_ms _ = 0

page_path-IsPage : (page : Page) → IsPage (page_path page) (succeeds page) (least_ms page)
page_path-IsPage health_page = health-IsPage
page_path-IsPage fast_page = fast-IsPage
page_path-IsPage slow_page = slow-IsPage
page_path-IsPage error_page = error-IsPage

module _ {F : Type 0} ⦃f : Float F⦄ where
  -- A run against /health, /fast or /slow of the sample target reports as many successes as answers,
  -- and a run against /error none. If a run against /slow reports a latency, its minimum is no less
  -- than 500 ms. An answer has the code of the target's reply and comes no sooner than the reply;
  -- requests may also fail without an answer; no latency is NaN, and there are fewer than 2^63.
  pub run-IsServed :
      (o : IsOrdered F) (cfg : Config) (page : Page) (schedule : ℕ → List (Round F))
      (res : Stats.Result F)
      → ((user : ℕ) → All (IsServed (page_path page)) (schedule user))
      → length (all_latencies cfg schedule (pos_part cfg.virtual_users) 0) < int64_half
      → All (λ x. x ≼ x) (all_latencies cfg schedule (pos_part cfg.virtual_users) 0)
      → run cfg schedule ≡ ok res
      → (res.successful_requests ≡ (if succeeds page then res.latency_count else 0))
        × ((res.latency_count ≡ 0) ⊎ (f.of_int64 (least_ms page) ≼ res.min_latency_ms))
  run-IsServed o cfg page schedule res served fits real e =
      run-page o cfg (page_path page) (succeeds page) (least_ms page) schedule res
        (page_path-IsPage page) served fits real e
