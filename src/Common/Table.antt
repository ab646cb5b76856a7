-- ===== src/Common/Table.antt =====
-- Tables as lists of rows: `SELECT ... WHERE`, `UPDATE ... WHERE ... RETURNING`, `COUNT(*)`.
use Prim.Native.Nat.{ℕ, ◌+◌}
use mathlib.Core.Logic.{◌≢◌}
use mathlib.Core.Bool.{false}
use mathlib.Core.Option
use distributed_load_testing.Common.Tests.{◌==◌}
use distributed_load_testing.Common.Lists.{All-append}
use Prim.Native.Nat.{◌<◌}
use mathlib.Core.Path.{sym, subst, ◌∙◌, ◌≡◌, refl}
use mathlib.Core.Logic.{inl, inr}
use mathlib.Core.Bool.{Bool, true}
use mathlib.Core.List.{List, [], ◌∷◌}
use mathlib.Core.Option.{Option, none, some}
use native.Mathlib.Omega.{arith}
use distributed_load_testing.Common.Tests.{if◌then◌else◌, Bool-cases}
use distributed_load_testing.Common.Lists.{All, All-imp}
use mathlib.Core.List.{◌++◌}

module _ {ℓ} {A : Type ℓ} where
  -- The first row that passes the test (with a primary key in the test, the only one).
  unfoldable pub find? : (A → Bool) → List A → Option A
  find? p [] = none
  find? p (x ∷ xs) = let rest = find? p xs in if p x then some x else rest

  unfoldable pub update_where : (A → Bool) → (A → A) → List A → List A
  update_where p f [] = []
  update_where p f (x ∷ xs) = (if p x then f x else x) ∷ update_where p f xs

  unfoldable pub count_where : (A → Bool) → List A → ℕ
  count_where p [] = 0
  count_where p (x ∷ xs) = (if p x then 1 else 0) + count_where p xs

  unfoldable pub select_where : (A → Bool) → List A → List A
  select_where p [] = []
  select_where p (x ∷ xs) = let rest = select_where p xs in if p x then x ∷ rest else rest

  -- The second table is the first with each row stepped by R, and new rows behind that satisfy N.
  abbrev pub Grows : (A → A → Type 0) → (A → Type 0) → List A → List A → Type 0
  Grows R N [] ys = All N ys
  Grows R N (x ∷ xs) [] = ⊥
  Grows R N (x ∷ xs) (y ∷ ys) = R x y × Grows R N xs ys

  pub Grows-refl :
      (R : A → A → Type 0) (N : A → Type 0) → ((x : A) → R x x) → (xs : List A) → Grows R N xs xs
  Grows-refl R N r [] = tt
  Grows-refl R N r (x ∷ xs) = (r x, Grows-refl R N r xs)

  pub Grows-append :
      (R : A → A → Type 0) (N : A → Type 0)
      → ((x : A) → R x x)
      → (xs ys : List A) → All N ys
      → Grows R N xs (xs ++ ys)
  Grows-append R N r [] ys h = h
  Grows-append R N r (x ∷ xs) ys h = (r x, Grows-append R N r xs ys h)

  pub Grows-trans :
      (R : A → A → Type 0) (N : A → Type 0)
      → ((x y z : A) → R x y → R y z → R x z)
      → ((x y : A) → N x → R x y → N y)
      → (xs ys zs : List A) → Grows R N xs ys
      → Grows R N ys zs
      → Grows R N xs zs
  Grows-trans R N t n [] [] zs h k = k
  Grows-trans R N t n [] (y ∷ ys) [] h k = absurd k
  Grows-trans R N t n [] (y ∷ ys) (z ∷ zs) h k =
      (n y z h.0 k.0, Grows-trans R N t n [] ys zs h.1 k.1)
  Grows-trans R N t n (x ∷ xs) [] zs h k = absurd h
  Grows-trans R N t n (x ∷ xs) (y ∷ ys) [] h k = absurd k
  Grows-trans R N t n (x ∷ xs) (y ∷ ys) (z ∷ zs) h k =
      (t x y z h.0 k.0, Grows-trans R N t n xs ys zs h.1 k.1)

  pub Grows-imp :
      (R S : A → A → Type 0) (N M : A → Type 0)
      → ((x y : A) → R x y → S x y)
      → ((x : A) → N x → M x)
      → (xs ys : List A) → Grows R N xs ys
      → Grows S M xs ys
  Grows-imp R S N M f g [] ys h = All-imp N M g ys h
  Grows-imp R S N M f g (x ∷ xs) [] h = absurd h
  Grows-imp R S N M f g (x ∷ xs) (y ∷ ys) h = (f x y h.0, Grows-imp R S N M f g xs ys h.1)

  -- An update steps each row by a relation that holds of every row and of every row it writes.
  pub update_where-Grows :
      (R : A → A → Type 0) (N : A → Type 0) (p : A → Bool) (f : A → A)
      → ((x : A) → R x x)
      → ((x : A) → p x ≡ true → R x (f x))
      → (xs : List A) → Grows R N xs (update_where p f xs)
  unfolding update_where
  update_where-Grows R N p f r h [] = tt
  update_where-Grows R N p f r h (x ∷ xs) = (
    elim (Bool-cases (p x)) [ inl e ↦ rw e (h x e) | inr e ↦ rw e (r x) ],
    update_where-Grows R N p f r h xs,
  )

  pub update_where-id :
      (p : A → Bool) (f : A → A) (xs : List A) → find? p xs ≡ none → update_where p f xs ≡ xs
  unfolding update_where find?
  update_where-id p f [] h = refl
  update_where-id p f (x ∷ xs) h = ground (arith, update_where-id p f xs)

  pub find?-true : (p : A → Bool) (xs : List A) (x : A) → find? p xs ≡ some x → p x ≡ true
  unfolding find?
  find?-true p [] x h = cc
  find?-true p (y ∷ ys) x h = ground (arith, find?-true p ys x)

-- Rows by a number that is their key.
module _ {ℓ} {A : Type ℓ} (key : A → ℕ) where
  abbrev pub Distinct : List A → Type 0
  Distinct [] = Unit
  Distinct (x ∷ xs) = All (λ y. key y ≢ key x) xs × Distinct xs

  pub update_where-no_key :
      (p : A → Bool) (f : A → A) (k : ℕ)
      → ((x : A) → p x ≡ true → key x ≡ k)
      → (xs : List A) → All (λ y. key y ≢ k) xs
      → update_where p f xs ≡ xs
  unfolding update_where
  update_where-no_key p f k on_key [] h = refl
  update_where-no_key p f k on_key (x ∷ xs) h =
      ground (arith, on_key x, h.0, update_where-no_key p f k on_key xs h.1)

  update_where-All :
      (p : A → Bool) (f : A → A) (k : ℕ)
      → ((x : A) → key (f x) ≡ key x)
      → (xs : List A) → All (λ y. key y ≢ k) xs
      → All (λ y. key y ≢ k) (update_where p f xs)
  unfolding update_where
  update_where-All p f k same [] h = tt
  update_where-All p f k same (x ∷ xs) h = (
    elim (Bool-cases (p x)) [ inl e ↦ rw (e, same x) h.0 | inr e ↦ rw e h.0 ],
    update_where-All p f k same xs h.1,
  )

  -- An update of the rows with one key steps the table, if it steps the row that a look-up finds.
  pub update_key-Grows :
      (R : A → A → Type 0) (N : A → Type 0) (p : A → Bool) (f : A → A) (k : ℕ) (r : A)
      → ((x : A) → R x x)
      → ((x : A) → p x ≡ true → key x ≡ k)
      → (p r ≡ true → R r (f r))
      → (xs : List A) → Distinct xs
      → find? (λ x. key x == k) xs ≡ some r
      → Grows R N xs (update_where p f xs)
  unfolding update_where find?
  update_key-Grows R N p f k r refl_R on_key step [] d e = tt
  update_key-Grows R N p f k r refl_R on_key step (x ∷ xs) d e = elim (Bool-cases (key x == k)) [
    | inl this ↦
        let is_r : x ≡ r = ground arith in
        let rest = update_where-no_key p f (key x) (λ y h. on_key y h ∙ ground arith) xs d.0 in
        (
          elim (Bool-cases (p x)) [
            | inl h ↦
                rw h (subst (λ y. R y (f y)) (sym is_r) (step (subst (λ y. p y ≡ true) is_r h)))
            | inr h ↦ rw h (refl_R x)
          ],
          rw rest (Grows-refl R N refl_R xs),
        )
    | inr other ↦
        let unwritten : p x ≡ false = elim (Bool-cases (p x)) [
          | inl h ↦ absurd (ground (arith, on_key x h))
          | inr h ↦ h
        ] in
        (
          rw unwritten (refl_R x),
          update_key-Grows R N p f k r refl_R on_key step xs d.1 (ground arith),
        )
  ]

  pub find?-update_key :
      (p : A → Bool) (f : A → A) (k : ℕ)
      → ((x : A) → key (f x) ≡ key x)
      → (xs : List A)
      → find? (λ x. key x == k) (update_where p f xs)
        ≡ Option.map (λ x. if p x then f x else x) (find? (λ x. key x == k) xs)
  unfolding find? update_where
  find?-update_key p f k same [] = refl
  find?-update_key p f k same (x ∷ xs) = ground (arith, same x, find?-update_key p f k same xs)

  pub update_where-Distinct :
      (p : A → Bool) (f : A → A)
      → ((x : A) → key (f x) ≡ key x)
      → (xs : List A) → Distinct xs
      → Distinct (update_where p f xs)
  unfolding update_where
  update_where-Distinct p f same [] d = tt
  update_where-Distinct p f same (x ∷ xs) d = (
    update_where-All p f (key (if p x then f x else x)) same xs
        (elim (Bool-cases (p x)) [ inl h ↦ rw (h, same x) d.0 | inr h ↦ rw h d.0 ]),
    update_where-Distinct p f same xs d.1,
  )

  pub Distinct-append :
      (xs : List A) (x : A) → Distinct xs → All (λ y. key y < key x) xs → Distinct (xs ++ x ∷ [])
  Distinct-append [] x d h = (tt, tt)
  Distinct-append (y ∷ xs) x d h = (
    All-append (λ z. key z ≢ key y) xs (x ∷ []) d.0 (omega arith, tt),
    Distinct-append xs x d.1 h.1,
  )

  pub update_where-below :
      (p : A → Bool) (f : A → A) (k : ℕ)
      → ((x : A) → key (f x) ≡ key x)
      → (xs : List A) → All (λ y. key y < k) xs
      → All (λ y. key y < k) (update_where p f xs)
  unfolding update_where
  update_where-below p f k same [] h = tt
  update_where-below p f k same (x ∷ xs) h = (
    elim (Bool-cases (p x)) [ inl e ↦ rw (e, same x) h.0 | inr e ↦ rw e h.0 ],
    update_where-below p f k same xs h.1,
  )

module _ {ℓ} {A : Type ℓ} (key : A → ℕ) where
  -- The row with a key is still there once the table has grown.
  pub Grows-find? :
      (R : A → A → Type 0) (N : A → Type 0)
      → ((x y : A) → R x y → key y ≡ key x)
      → (k : ℕ) (xs ys : List A) (r : A) → Grows R N xs ys
      → find? (λ x. key x == k) xs ≡ some r
      → (r' : A) × (find? (λ x. key x == k) ys ≡ some r') × R r r'
  unfolding find?
  Grows-find? R N same k [] ys r g e = absurd (cc)
  Grows-find? R N same k (x ∷ xs) [] r g e = absurd g
  Grows-find? R N same k (x ∷ xs) (y ∷ ys) r (step, g) e = elim (Bool-cases (key x == k)) [
    | inl this ↦
        let is_r : x ≡ r = ground arith in
        let kept : (key y == k) ≡ true = rw (same x y step) this in
        (y, rw kept refl, subst (λ z. R z y) is_r step)
    | inr other ↦
        let (r', found, kept) = Grows-find? R N same k xs ys r g (ground arith) in
        let missed : (key y == k) ≡ false = rw (same x y step) other in (r', rw missed found, kept)
  ]
