-- ===== src/Store/Newest.antt =====
-- TestRunStore.List of backend/internal/store/test_run_store.go: the order of the dashboard's list.
use mathlib.Core.List.{Perm}
use mathlib.Core.List.Perm
use distributed_load_testing.Common.{
  ◌≡◌, ◌<◌, ◌≤◌, ◌⊎◌, true, false, List, [], ◌∷◌, arith, All, All-imp, Bool-cases, inl, inr,
}
use distributed_load_testing.Models.{TestRun}
use distributed_load_testing.Store.Runs.{newer, insert_newest, newest_first}

module _ {F : Type 0} where
  -- The second run was created before the first, or at the same time with a smaller id.
  abbrev pub IsBefore : TestRun F → TestRun F → Type 0
  IsBefore r x = (x.created_at < r.created_at) ⊎ ((x.created_at ≡ r.created_at) × (x.id ≤ r.id))

  -- Each run stands before those that were created before it.
  abbrev pub IsNewestFirst : List (TestRun F) → Type 0
  IsNewestFirst [] = Unit
  IsNewestFirst (r ∷ rs) = All (IsBefore r) rs × IsNewestFirst rs

  newer-IsBefore : (a b : TestRun F) → newer a b ≡ true → IsBefore a b
  newer-IsBefore a b h = ground arith

  older-IsBefore : (a b : TestRun F) → newer a b ≡ false → IsBefore b a
  older-IsBefore a b h = ground arith

  IsBefore-trans : (a b c : TestRun F) → IsBefore a b → IsBefore b c → IsBefore a c
  IsBefore-trans a b c h k = ground arith

  insert_newest-All :
      (P : TestRun F → Type 0) (r : TestRun F) (rs : List (TestRun F))
      → P r
      → All P rs
      → All P (insert_newest r rs)
  unfolding insert_newest
  insert_newest-All P r [] p ps = (p, tt)
  insert_newest-All P r (x ∷ xs) p (q, qs) =
      let rest = insert_newest-All P r xs p qs in
      elim (Bool-cases (newer r x)) [ inl n ↦ rw n (p, (q, qs)) | inr n ↦ rw n (q, rest) ]

  insert_newest-IsNewestFirst :
      (r : TestRun F) (rs : List (TestRun F))
      → IsNewestFirst rs
      → IsNewestFirst (insert_newest r rs)
  unfolding insert_newest
  insert_newest-IsNewestFirst r [] s = (tt, tt)
  insert_newest-IsNewestFirst r (x ∷ xs) (below, s) =
      let rest = insert_newest-IsNewestFirst r xs s in
      elim (Bool-cases (newer r x)) [
        | inl n ↦ rw n (
          (
            newer-IsBefore r x n,
            All-imp _ _ (λ y k. IsBefore-trans r x y (newer-IsBefore r x n) k) xs below,
          ),
          (below, s),
        )
        | inr n ↦ rw n (insert_newest-All (IsBefore x) r xs (older-IsBefore r x n) below, rest)
      ]

  pub newest_first-IsNewestFirst : (rs : List (TestRun F)) → IsNewestFirst (newest_first rs)
  unfolding newest_first
  newest_first-IsNewestFirst [] = tt
  newest_first-IsNewestFirst (r ∷ rs) =
      insert_newest-IsNewestFirst r (newest_first rs) (newest_first-IsNewestFirst rs)

  insert_newest-Perm : (r : TestRun F) (rs : List (TestRun F)) → Perm (r ∷ rs) (insert_newest r rs)
  unfolding insert_newest
  insert_newest-Perm r [] = Perm.refl _
  insert_newest-Perm r (x ∷ xs) =
      let rest = insert_newest-Perm r xs in
      elim (Bool-cases (newer r x)) [
        | inl n ↦ rw n (Perm.refl _)
        | inr n ↦ rw n (Perm.trans (Perm.swap x r xs) (Perm.cons x rest))
      ]

  pub newest_first-Perm : (rs : List (TestRun F)) → Perm rs (newest_first rs)
  unfolding newest_first
  newest_first-Perm [] = Perm.refl _
  newest_first-Perm (r ∷ rs) =
      Perm.trans (Perm.cons r (newest_first-Perm rs)) (insert_newest-Perm r (newest_first rs))
