-- ===== src/Runner/Interleaving.antt =====
-- Sequences of calls that goroutines make at one time, and what is counted over them.
use distributed_load_testing.Common.{
  ℕ, ◌≡◌, ◌+◌, refl, Bool, List, [], ◌∷◌, ◌++◌, if◌then◌else◌, arith,
}
use distributed_load_testing.Common.Table.{count_where}

-- Two sequences are interleaved to a third, and many to one.
pub data Shuffle {A : Type 0} : List A → List A → List A → Type 0 where
  both_done : Shuffle [] [] []
  from_left : (x : A) (xs ys zs : List A) → Shuffle xs ys zs → Shuffle (x ∷ xs) ys (x ∷ zs)
  from_right : (y : A) (xs ys zs : List A) → Shuffle xs ys zs → Shuffle xs (y ∷ ys) (y ∷ zs)

abbrev pub IsInterleaving : {A : Type 0} → List (List A) → List A → Type 0
IsInterleaving [] zs = zs ≡ []
IsInterleaving {A} (xs ∷ xss) zs = (ys : List A) × IsInterleaving xss ys × Shuffle xs ys zs

module _ {A : Type 0} where
  unfoldable pub weigh : (A → ℕ) → List A → ℕ
  weigh w [] = 0
  weigh w (x ∷ xs) = w x + weigh w xs

  abbrev pub weigh_all : (A → ℕ) → List (List A) → ℕ
  weigh_all w [] = 0
  weigh_all w (xs ∷ xss) = weigh w xs + weigh_all w xss

  pub weigh-append : (w : A → ℕ) (xs ys : List A) → weigh w (xs ++ ys) ≡ weigh w xs + weigh w ys
  unfolding weigh
  weigh-append w [] ys = omega arith
  weigh-append w (x ∷ xs) ys = omega (arith, weigh-append w xs ys)

  weigh-Shuffle :
      (w : A → ℕ) (xs ys zs : List A) → Shuffle xs ys zs → weigh w zs ≡ weigh w xs + weigh w ys
  unfolding weigh
  weigh-Shuffle w _ _ _ both_done = refl
  weigh-Shuffle w _ _ _ (from_left x xs ys zs s) = omega (arith, weigh-Shuffle w xs ys zs s)
  weigh-Shuffle w _ _ _ (from_right y xs ys zs s) = omega (arith, weigh-Shuffle w xs ys zs s)

  -- An interleaving weighs what its parts weigh.
  pub weigh-IsInterleaving :
      (w : A → ℕ) (xss : List (List A)) (zs : List A)
      → IsInterleaving xss zs
      → weigh w zs ≡ weigh_all w xss
  unfolding weigh
  weigh-IsInterleaving w [] zs e = rw e refl
  weigh-IsInterleaving w (xs ∷ xss) zs (ys, rest, s) =
      omega (arith, weigh-Shuffle w xs ys zs s, weigh-IsInterleaving w xss ys rest)

  pub weigh-count_where :
      (p : A → Bool) (xs : List A) → count_where p xs ≡ weigh (λ x. if p x then 1 else 0) xs
  unfolding weigh count_where
  weigh-count_where p [] = refl
  weigh-count_where p (x ∷ xs) = omega (arith, weigh-count_where p xs)
