-- ===== src/Common/Decimal.antt =====
-- `strconv.ParseInt(s, 10, 64)`, and that it reads what `%d` prints.
use Prim.Native.Char.{Char, code}
use Prim.Native.Nat.{ℕ, zero, suc, ◌+◌, ◌-◌, ◌*◌, ◌/◌, ◌%◌, ◌<◌, ◌≤◌}
use Prim.Native.String.{String, ◌++◌}
use Prim.Native.String.append
use mathlib.Core.Path.{◌≡◌, refl, ◌∙◌, ap}
use mathlib.Core.Logic.{inl, inr}
use mathlib.Core.Bool.{Bool, true, false, ◌&&◌}
use mathlib.Core.Option.{Option, none, some}
use native.Mathlib.Omega.{arith}
use distributed_load_testing.Common.Tests.{ltb, leb, ◌==◌, if◌then◌else◌, Bool-cases}
use distributed_load_testing.Common.Int.{ℤ, pos, negsuc, int64_half}
use distributed_load_testing.Common.Text.{digit, itoa_from, itoa}

is_digit : Char → Bool
is_digit c = leb 48 (code c) && leb (code c) 57

read_digits : ℕ → String → Option ℕ
unfolding is_digit
read_digits acc String.[] = some acc
read_digits acc (String.◌∷◌ c s) =
    let rest = read_digits (10 * acc + (code c - 48)) s in if is_digit c then rest else none

read_natural : String → Option ℕ
unfolding read_digits
read_natural String.[] = none
read_natural (String.◌∷◌ c s) = read_digits 0 (String.◌∷◌ c s)

up_to_half : Option ℕ → Option ℤ
up_to_half none = none
up_to_half (some n) = if ltb n int64_half then some (pos n) else none

down_to_half : Option ℕ → Option ℤ
down_to_half none = none
down_to_half (some zero) = some (pos 0)
down_to_half (some (suc n)) = if ltb n int64_half then some (negsuc n) else none

unfoldable pub parse_int : String → Option ℤ
unfolding read_natural up_to_half down_to_half
parse_int String.[] = none
parse_int (String.◌∷◌ c s) =
    if code c == 45
    then down_to_half (read_natural s)
    else up_to_half (read_natural (if code c == 43 then s else String.◌∷◌ c s))

-- `%d`.
unfoldable pub format_int : ℤ → String
unfolding itoa
format_int (pos n) = itoa n
format_int (negsuc n) = "-" ++ itoa (suc n)

read_digits-append :
    (s t : String) (acc m : ℕ)
    → read_digits acc s ≡ some m
    → read_digits acc (s ++ t) ≡ read_digits m t
unfolding read_digits
read_digits-append String.[] t acc m e =
    rw (append.nil t) (ap (λ k. read_digits k t) (ground arith))
read_digits-append (String.◌∷◌ c s) t acc m e = elim (Bool-cases (is_digit c)) [
  | inl d ↦ rw (append.cons c s t, d) (read_digits-append s t _ m (rw (d, read_digits) at e))
  | inr d ↦ absurd (ground (arith, rw (d, read_digits) at e))
]

read_digits-digit : (acc d : ℕ) → d < 10 → read_digits acc (digit d) ≡ some (10 * acc + d)
unfolding read_digits digit is_digit
read_digits-digit acc zero h = refl
read_digits-digit acc (suc zero) h = refl
read_digits-digit acc (suc (suc zero)) h = refl
read_digits-digit acc (suc (suc (suc zero))) h = refl
read_digits-digit acc (suc (suc (suc (suc zero)))) h = refl
read_digits-digit acc (suc (suc (suc (suc (suc zero))))) h = refl
read_digits-digit acc (suc (suc (suc (suc (suc (suc zero)))))) h = refl
read_digits-digit acc (suc (suc (suc (suc (suc (suc (suc zero))))))) h = refl
read_digits-digit acc (suc (suc (suc (suc (suc (suc (suc (suc zero)))))))) h = refl
read_digits-digit acc (suc (suc (suc (suc (suc (suc (suc (suc (suc zero))))))))) h = refl
read_digits-digit acc (suc (suc (suc (suc (suc (suc (suc (suc (suc (suc d)))))))))) h =
    absurd (omega arith)

read_digits-itoa_from : (fuel n : ℕ) → n < fuel → read_digits 0 (itoa_from fuel n) ≡ some n
unfolding itoa_from
read_digits-itoa_from zero n h = absurd (omega arith)
read_digits-itoa_from (suc fuel) n h = elim (Bool-cases (ltb n 10)) [
  | inl small ↦ rw (small, itoa_from) (read_digits-digit 0 n (ground arith) ∙ ap some (omega arith))
  | inr large ↦
      let above : 10 ≤ n = ground arith in
      let rest = read_digits-itoa_from fuel (n / 10) (omega arith) in
      let last = read_digits-digit (n / 10) (n % 10) (omega arith) in
      rw (large, itoa_from, read_digits-append _ (digit (n % 10)) 0 (n / 10) rest, last)
        (ap some (omega arith))
]

digit-unsigned :
    (c : Char) → is_digit c ≡ true → ((code c == 45) ≡ false) × ((code c == 43) ≡ false)
unfolding is_digit
digit-unsigned c d = ground arith

parse_int-digits :
    (s : String) (n : ℕ)
    → suc n < int64_half
    → read_digits 0 s ≡ some (suc n)
    → parse_int s ≡ some (pos (suc n))
unfolding parse_int read_natural up_to_half
parse_int-digits String.[] n h e = absurd (ground arith)
parse_int-digits (String.◌∷◌ c s) n h e = elim (Bool-cases (is_digit c)) [
  | inl d ↦
      let (not_minus, not_plus) = digit-unsigned c d in
      let below : ltb (suc n) int64_half ≡ true = ground arith in
      rw (not_minus, not_plus, e, below) refl
  | inr d ↦ absurd (ground (arith, rw (d, read_digits) at e))
]

zero_read : parse_int "0" ≡ some (pos 0)
unfolding parse_int read_natural up_to_half
zero_read = refl

-- What `%d` prints for a number below 2^63 that is not negative, ParseInt reads back.
pub parse_int-format_int : (n : ℕ) → n < int64_half → parse_int (format_int (pos n)) ≡ some (pos n)
unfolding format_int itoa
parse_int-format_int zero h = zero_read
parse_int-format_int (suc n) h =
    parse_int-digits _ n h (read_digits-itoa_from (suc (suc n)) (suc n) (omega arith))
