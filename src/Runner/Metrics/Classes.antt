-- ===== src/Runner/Metrics/Classes.antt =====
-- The classes of status codes, as requestsTotal in worker/internal/runner/runner.go labels them.
use text.Mathlib.Text.{◌==◌ as str_eq}
use Prim.Native.String.{◌++◌ as str_append}
use distributed_load_testing.Common.{
  ℕ, zero, suc, ◌+◌, ◌/◌, ◌<◌, ◌≡◌, refl, Bool, false, ◌∙◌, List, [], ◌∷◌, arith, ap, ltb, String,
  if◌then◌else◌,
}
use distributed_load_testing.Common.Int.{pos}
use distributed_load_testing.Common.Decimal.{format_int}
use distributed_load_testing.Common.Table.{count_where}
use distributed_load_testing.Runner.Interleaving.{weigh}
use distributed_load_testing.Runner.Metrics.{
  Metric, counts_request, status_class, is_request, is_of_class, is_observation,
}

module _ {F : Type 0} where
  abbrev pub succeeded : List (Metric F) → ℕ
  succeeded ms =
      count_where (is_of_class "0xx") ms
      + count_where (is_of_class "1xx") ms
      + count_where (is_of_class "2xx") ms
      + count_where (is_of_class "3xx") ms

  abbrev pub requested : List (Metric F) → ℕ
  requested = count_where is_request

  abbrev pub observed : List (Metric F) → ℕ
  observed = count_where is_observation

  abbrev pub errors : List (Metric F) → ℕ
  errors = count_where (is_of_class "error")

abbrev pub one_if : Bool → ℕ
one_if b = if b then 1 else 0

abbrev class_of : ℕ → String
class_of d = str_append (format_int (pos d)) "xx"

-- The classes of failures are none of the first four, and none is that of errors.
IsApart : ℕ → Type 0
IsApart d =
    (one_if (str_eq (class_of d) "0xx")
        + one_if (str_eq (class_of d) "1xx")
        + one_if (str_eq (class_of d) "2xx")
        + one_if (str_eq (class_of d) "3xx")
      ≡ one_if (ltb d 4))
    × (str_eq (class_of d) "error" ≡ false)

class_of-IsApart : (d : ℕ) → d < 10 → IsApart d
unfolding IsApart format_int
class_of-IsApart zero h = (refl, refl)
class_of-IsApart (suc zero) h = (refl, refl)
class_of-IsApart (suc (suc zero)) h = (refl, refl)
class_of-IsApart (suc (suc (suc zero))) h = (refl, refl)
class_of-IsApart (suc (suc (suc (suc zero)))) h = (refl, refl)
class_of-IsApart (suc (suc (suc (suc (suc zero))))) h = (refl, refl)
class_of-IsApart (suc (suc (suc (suc (suc (suc zero)))))) h = (refl, refl)
class_of-IsApart (suc (suc (suc (suc (suc (suc (suc zero))))))) h = (refl, refl)
class_of-IsApart (suc (suc (suc (suc (suc (suc (suc (suc zero)))))))) h = (refl, refl)
class_of-IsApart (suc (suc (suc (suc (suc (suc (suc (suc (suc zero))))))))) h = (refl, refl)
class_of-IsApart (suc (suc (suc (suc (suc (suc (suc (suc (suc (suc d)))))))))) h =
    absurd (omega arith)

module _ {F : Type 0} where
  abbrev pub request_weight : Metric F → ℕ
  request_weight m = one_if (is_request m)

  abbrev pub sample_weight : Metric F → ℕ
  sample_weight m = one_if (is_observation m)

  abbrev pub error_weight : Metric F → ℕ
  error_weight m = one_if (is_of_class "error" m)

  abbrev pub success_weight : Metric F → ℕ
  success_weight m =
      one_if (is_of_class "0xx" m)
      + one_if (is_of_class "1xx" m)
      + one_if (is_of_class "2xx" m)
      + one_if (is_of_class "3xx" m)

  pub succeeded_lem : (ms : List (Metric F)) → succeeded ms ≡ weigh success_weight ms
  unfolding weigh count_where
  succeeded_lem [] = refl
  succeeded_lem (m ∷ ms) = omega (arith, succeeded_lem ms)

pub success_weight-status_class :
    (F : Type 0) (status : ℕ) (method : String)
    → status < 1000
    → success_weight {F = F} (counts_request (status_class status) method) ≡ one_if (ltb status 400)
unfolding status_class IsApart
success_weight-status_class F status method h =
    let hundreds : one_if (ltb (status / 100) 4) ≡ one_if (ltb status 400) = ground arith in
    (class_of-IsApart (status / 100) (omega arith)).0 ∙ hundreds

pub error_weight-status_class :
    (F : Type 0) (status : ℕ) (method : String)
    → status < 1000
    → error_weight {F = F} (counts_request (status_class status) method) ≡ 0
unfolding status_class IsApart
error_weight-status_class F status method h =
    ap one_if (class_of-IsApart (status / 100) (omega arith)).1
