-- ===== src/Target.antt =====
-- target/cmd/target/main.go: the sample target, on which load can be tried. A reply comes after a pause;
-- its body is a JSON object.
pub mod Runs
use text.Mathlib.Text.{◌==◌ as str_eq}
use distributed_load_testing.Common.{
  ℕ, zero, suc, Option, none, some, List, [], ◌∷◌, String, if◌then◌else◌,
}

pub record Reply : Type 0 where
  pub pause_ms : ℕ
  pub code : ℕ
  pub body : List (String × String)

abbrev write_json : ℕ → List (String × String) → Reply
write_json status_code payload = record { pause_ms = 0; code = status_code; body = payload }

unfoldable pub health_handler : Reply
health_handler = write_json 200 (("service", "target") ∷ ("status", "ok") ∷ [])

unfoldable pub fast_handler : Reply
fast_handler = write_json 200 (("message", "fast response") ∷ [])

unfoldable pub slow_handler : Reply
slow_handler = record (write_json 200 (("message", "slow response") ∷ [])) { pause_ms = 500 }

unfoldable pub error_handler : Reply
error_handler = write_json 500 (("error", "intentional error response") ∷ [])

-- By the number that `rand.Intn(3)` gives.
unfoldable pub random_handler : ℕ → Reply
unfolding fast_handler slow_handler error_handler
random_handler zero = fast_handler
random_handler (suc zero) = slow_handler
random_handler _ = error_handler

-- The reply to a request for a path, with the number for /random; `none` for a path without a pattern.
unfoldable pub reply : ℕ → String → Option Reply
unfolding health_handler fast_handler slow_handler error_handler random_handler
reply dice path =
    if str_eq path "/health"
    then some health_handler
    else if str_eq path "/fast"
    then some fast_handler
    else if str_eq path "/slow"
    then some slow_handler
    else if str_eq path "/error"
    then some error_handler
    else if str_eq path "/random"
    then some (random_handler dice)
    else none

-- The status code; the mux answers 404 by itself.
abbrev pub code_of : Option Reply → ℕ
code_of none = 404
code_of (some r) = r.code

abbrev pub pause_of : Option Reply → ℕ
pause_of none = 0
pause_of (some r) = r.pause_ms
