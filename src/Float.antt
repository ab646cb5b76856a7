-- ===== src/Float.antt =====
-- What the program does with a `float64`: conversions from `int64`, arithmetic, comparisons and
-- `math.Ceil`. The hardware's floats are a parameter; `Cents` shows that the laws can be met.
use distributed_load_testing.Common.{
  ℕ, ◌+◌, ◌*◌, ◌/◌, ◌≤◌, ◌<◌, ◌≡◌, Bool, true, false, arith, ltb, leb,
}
use distributed_load_testing.Common.Int.{int64_half}

pub record Float (F : Type 0) : Type 0 where
  -- The constant 0, and the constants 0.50, 0.95 and 0.99 by their hundredths.
  pub nought : F
  pub hundredths : ℕ → F
  -- `float64(n)` of a bit pattern that is not negative.
  pub of_int64 : ℕ → F
  pub add : F → F → F
  pub mul : F → F → F
  pub div : F → F → F
  pub lt : F → F → Bool
  pub le : F → F → Bool
  -- `int64(math.Ceil(x))`.
  pub ceil_int64 : F → ℕ

infix 4 ◌≼◌
abbrev pub ◌≼◌ : {F : Type 0} ⦃f : Float F⦄ → F → F → Type 0
◌≼◌ ⦃f⦄ x y = f.le x y ≡ true

-- The order on the values that are not NaN: NaN is the value that is not `<=` itself.
pub record IsOrdered (F : Type 0) ⦃f : Float F⦄ : Type 0 where
  pub le_trans : (x y z : F) → x ≼ y → y ≼ z → x ≼ z
  pub le_of_lt : (x y : F) → f.lt x y ≡ true → x ≼ y
  pub le_of_not_lt : (x y : F) → x ≼ x → y ≼ y → f.lt x y ≡ false → y ≼ x

-- `math.Ceil(p * float64(n))` is a rank among n samples, for a p above 0 and below 1.
abbrev pub IsRank : {F : Type 0} ⦃f : Float F⦄ → F → Type 0
IsRank ⦃f⦄ p =
    (n : ℕ)
    → 0 < n
    → n < int64_half
    → (0 < f.ceil_int64 (f.mul p (f.of_int64 n))) × (f.ceil_int64 (f.mul p (f.of_int64 n)) ≤ n)

-- A larger percentile has no smaller rank.
abbrev pub RankLe : {F : Type 0} ⦃f : Float F⦄ → F → F → Type 0
RankLe ⦃f⦄ p q =
    (n : ℕ)
    → n < int64_half
    → f.ceil_int64 (f.mul p (f.of_int64 n)) ≤ f.ceil_int64 (f.mul q (f.of_int64 n))

-- Whole hundredths.
abbrev pub Cents : Type 0
Cents = ℕ

instance abbrev pub cents_float : Float Cents
cents_float = record {
  nought = 0;
  hundredths = λ n. n;
  of_int64 = λ n. 100 * n;
  add = λ a b. a + b;
  mul = λ a b. a * b / 100;
  div = λ a b. a * 100 / b;
  lt = ltb;
  le = leb;
  ceil_int64 = λ a. (a + 99) / 100;
}

pub Cents-IsOrdered : IsOrdered Cents
Cents-IsOrdered = record {
  le_trans = λ x y z h k. ground arith;
  le_of_lt = λ x y h. ground arith;
  le_of_not_lt = λ x y _ _ h. ground arith;
}

pub p50-IsRank : IsRank {F = Cents} 50
p50-IsRank n h k = omega arith

pub p95-IsRank : IsRank {F = Cents} 95
p95-IsRank n h k = omega arith

pub p99-IsRank : IsRank {F = Cents} 99
p99-IsRank n h k = omega arith

pub p50-RankLe-p95 : RankLe {F = Cents} 50 95
p50-RankLe-p95 n k = omega arith

pub p95-RankLe-p99 : RankLe {F = Cents} 95 99
p95-RankLe-p99 n k = omega arith
