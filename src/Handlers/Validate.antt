-- ===== src/Handlers/Validate.antt =====
-- validateCreate and splitVUs of backend/internal/handlers/test_runs.go, and validateComplete of
-- internal_api.go. A validation gives the message of the first problem, or the normalized request.
pub mod Split
pub mod Requests
use Prim.Native.String.{◌++◌ as str_append, len}
use text.Mathlib.Text.{◌==◌ as str_eq, starts_with}
use distributed_load_testing.Common.{
  ℕ, zero, suc, ◌+◌, ◌/◌, ◌%◌, Bool, true, false, not, ◌&&◌, ◌||◌, Option, none, some, List, [],
  ◌∷◌, String, Result, ok, err, ltb, if◌then◌else◌, length, ◌>>◌, fail_if,
}
use distributed_load_testing.Common.Int.{ℤ, pos, ltb_ℤ, leb_ℤ, eq_ℤ}
use distributed_load_testing.Common.Text.{itoa}
use distributed_load_testing.Models.{
  CreateTestRunRequest, CompleteTestRunRequest, status_completed, status_failed,
}
use distributed_load_testing.Handlers.{Strings}

abbrev pub max_virtual_users : ℕ
max_virtual_users = 1000

abbrev pub max_duration_seconds : ℕ
max_duration_seconds = 3600

abbrev pub max_shards : ℕ
max_shards = 64

abbrev pub max_headers : ℕ
max_headers = 50

abbrev pub max_body_bytes : ℕ
max_body_bytes = 1_048_576

abbrev pub max_think_time_ms : ℕ
max_think_time_ms = 60_000

unfoldable pub allowed_method : String → Bool
allowed_method m =
    str_eq m "GET"
    || str_eq m "POST"
    || str_eq m "PUT"
    || str_eq m "PATCH"
    || str_eq m "DELETE"
    || str_eq m "HEAD"

-- The first `switch`.
unfoldable pub check_basics : CreateTestRunRequest → Result String (Unit {0})
check_basics req = do
  fail_if (str_eq req.name "") "name is required"
  fail_if (str_eq req.target_url "") "targetUrl is required"
  fail_if
      (not (starts_with req.target_url "http://") && not (starts_with req.target_url "https://"))
      "targetUrl must start with http:// or https://"
  fail_if (leb_ℤ req.virtual_users (pos 0)) "virtualUsers must be greater than 0"
  fail_if (ltb_ℤ (pos max_virtual_users) req.virtual_users)
      (str_append "virtualUsers exceeds the maximum of " (itoa max_virtual_users))
  fail_if (leb_ℤ req.duration_seconds (pos 0)) "durationSeconds must be greater than 0"
  fail_if (ltb_ℤ (pos max_duration_seconds) req.duration_seconds)
      (str_append "durationSeconds exceeds the maximum of " (itoa max_duration_seconds))

-- The second `switch`.
unfoldable pub check_shards : ℤ → ℤ → Result String (Unit {0})
check_shards shards virtual_users = do
  fail_if (ltb_ℤ shards (pos 1)) "shards must be at least 1"
  fail_if (ltb_ℤ (pos max_shards) shards)
      (str_append "shards exceeds the maximum of " (itoa max_shards))
  fail_if (ltb_ℤ virtual_users shards)
      "shards cannot exceed virtualUsers (each shard needs at least one VU)"

-- The checks of the optional request shape.
unfoldable pub check_shape : CreateTestRunRequest → Result String (Unit {0})
check_shape req = do
  fail_if (ltb max_headers (length req.headers))
      (str_append "too many headers (max " (str_append (itoa max_headers) ")"))
  fail_if (ltb max_body_bytes (len req.body))
      (str_append "body exceeds the maximum of " (str_append (itoa max_body_bytes) " bytes"))
  fail_if (ltb_ℤ req.think_time_ms (pos 0)) "thinkTimeMs must not be negative"
  fail_if (ltb_ℤ (pos max_think_time_ms) req.think_time_ms)
      (str_append "thinkTimeMs exceeds the maximum of " (itoa max_think_time_ms))

module _ (strings : Strings) where
  open strings use {trim_space, to_upper}

  abbrev pub trimmed : CreateTestRunRequest → CreateTestRunRequest
  trimmed req = record req { name = trim_space req.name; target_url = trim_space req.target_url }

  abbrev pub with_method : CreateTestRunRequest → CreateTestRunRequest
  with_method req = record req {
    method = to_upper (if str_eq req.method "" then "GET" else req.method);
  }

  abbrev pub with_shards : CreateTestRunRequest → CreateTestRunRequest
  with_shards req = record req { shards = if eq_ℤ req.shards (pos 0) then pos 1 else req.shards }

  -- All the normalizations of a request that passes.
  abbrev pub normalized : CreateTestRunRequest → CreateTestRunRequest
  normalized req = with_shards (with_method (trimmed req))

  unfoldable pub validate_create : CreateTestRunRequest → Result String CreateTestRunRequest
  validate_create req = do
    check_basics (trimmed req)
    fail_if (not (allowed_method (with_method req).method))
        "method must be one of GET, POST, PUT, PATCH, DELETE, HEAD"
    check_shards (with_shards req).shards req.virtual_users
    check_shape req
    ok (normalized req)

-- `out[i]` for the `left` last shards.
unfoldable pub split_from : ℕ → ℕ → ℕ → ℕ → List ℕ
split_from base rem zero i = []
split_from base rem (suc left) i =
    (if ltb i rem then base + 1 else base) ∷ split_from base rem left (suc i)

-- For a total and a number of shards that are not negative; n is not 0.
unfoldable pub split_vus : ℕ → ℕ → List ℕ
unfolding split_from
split_vus total n = split_from (total / n) (total % n) n 0

abbrev is_none {ℓ} : {A : Type ℓ} → Option A → Bool
is_none none = true
is_none (some _) = false

abbrev is_empty_text : Option String → Bool
is_empty_text none = true
is_empty_text (some t) = str_eq t ""

unfoldable pub validate_complete :
    {F : Type 0} → CompleteTestRunRequest F → Result String (Unit {0})
validate_complete req =
    if str_eq req.status status_completed
    then fail_if
        (is_none req.total_requests
          || is_none req.successful_requests
          || is_none req.failed_requests)
        "a completed run requires totalRequests, successfulRequests, and failedRequests"
    else if str_eq req.status status_failed
    then fail_if (is_empty_text req.error_message) "a failed run requires a non-empty errorMessage"
    else err "status must be \"completed\" or \"failed\""
