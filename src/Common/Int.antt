-- ===== src/Common/Int.antt =====
-- Go's signed integers. An `int` of a request is a `ℤ`, which is only compared; an `int64` counter,
-- and a BIGINT column, is its bit pattern, a number below 2 ^ 64 with its wrap-around written out.
use Prim.Native.Nat.{ℕ, suc, ◌+◌, ◌-◌, ◌%◌, ◌^◌, ◌<◌, ◌≤◌}
use mathlib.Core.Path.{◌≡◌}
use mathlib.Core.Bool.{Bool, false, ◌&&◌}
use mathlib.Core.Option.{Option, none, some}
use native.Mathlib.Omega.{arith}
use distributed_load_testing.Common.Tests.{ltb, leb, if◌then◌else◌}

-- `negsuc n` is -(n + 1).
pub data ℤ : Type 0 where
  pos : ℕ → ℤ
  negsuc : ℕ → ℤ

abbrev pub pos_part : ℤ → ℕ
pos_part (pos n) = n
pos_part (negsuc n) = 0

abbrev pub neg_part : ℤ → ℕ
neg_part (pos n) = 0
neg_part (negsuc n) = suc n

abbrev pub sub_ℕ : ℕ → ℕ → ℤ
sub_ℕ a b = if leb b a then pos (a - b) else negsuc (b - a - 1)

infixl 65 ◌+ℤ◌
abbrev pub ◌+ℤ◌ : ℤ → ℤ → ℤ
a +ℤ b = sub_ℕ (pos_part a + pos_part b) (neg_part a + neg_part b)

abbrev pub ltb_ℤ : ℤ → ℤ → Bool
ltb_ℤ a b = ltb (pos_part a + neg_part b) (pos_part b + neg_part a)

abbrev pub leb_ℤ : ℤ → ℤ → Bool
leb_ℤ a b = leb (pos_part a + neg_part b) (pos_part b + neg_part a)

infix 50 ◌≤ℤ◌
abbrev pub ◌≤ℤ◌ : ℤ → ℤ → Type 0
a ≤ℤ b = pos_part a + neg_part b ≤ pos_part b + neg_part a

abbrev pub eq_ℤ : ℤ → ℤ → Bool
eq_ℤ (pos a) (pos b) = leb a b && leb b a
eq_ℤ (negsuc a) (negsuc b) = leb a b && leb b a
eq_ℤ _ _ = false

abbrev pub int64_mod : ℕ
int64_mod = 2 ^ 64

abbrev pub int64_half : ℕ
int64_half = 2 ^ 63

-- `a + b` on `int64`.
unfoldable pub add64 : ℕ → ℕ → ℕ
add64 a b = (a + b) % int64_mod

-- `a < b` and `a <= b` on `int64`: the order of the patterns with the sign bit flipped.
unfoldable pub lt64 : ℕ → ℕ → Bool
lt64 a b = ltb ((a + int64_half) % int64_mod) ((b + int64_half) % int64_mod)

unfoldable pub le64 : ℕ → ℕ → Bool
le64 a b = leb ((a + int64_half) % int64_mod) ((b + int64_half) % int64_mod)

-- The integer that a pattern stands for, and the pattern of an integer that fits.
unfoldable pub signed64 : ℕ → ℤ
signed64 w = if ltb w int64_half then pos w else negsuc (int64_mod - w - 1)

unfoldable pub to_int64 : ℤ → Option ℕ
to_int64 (pos n) = if ltb n int64_half then some n else none
to_int64 (negsuc n) = if ltb n int64_half then some (int64_mod - n - 1) else none

pub add64_comm : (a b : ℕ) → add64 a b ≡ add64 b a
unfolding add64
add64_comm a b = omega arith

pub add64_assoc : (a b c : ℕ) → add64 (add64 a b) c ≡ add64 a (add64 b c)
unfolding add64
add64_assoc a b c = omega arith

pub add64_exact : (a b : ℕ) → a + b < int64_half → add64 a b ≡ a + b
unfolding add64
add64_exact a b h = omega arith

pub add64-zero : (a : ℕ) → a < int64_mod → add64 a 0 ≡ a
unfolding add64
add64-zero a h = omega arith

pub add64-lt : (a b : ℕ) → add64 a b < int64_mod
unfolding add64
add64-lt a b = omega arith

pub le64_exact : (a b : ℕ) → a < int64_half → b < int64_half → le64 a b ≡ leb a b
unfolding le64
le64_exact a b ha hb = ground arith

pub lt64_exact : (a b : ℕ) → a < int64_half → b < int64_half → lt64 a b ≡ ltb a b
unfolding lt64
lt64_exact a b ha hb = ground arith

pub to_int64-signed64 : (w : ℕ) → w < int64_mod → to_int64 (signed64 w) ≡ some w
unfolding to_int64 signed64
to_int64-signed64 w h = ground arith
