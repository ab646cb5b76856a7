-- ===== src/Handlers/Listing.antt =====
-- ListTestRuns of backend/internal/handlers/test_runs.go: the dashboard's list.
use mathlib.Core.List.{Perm}
use distributed_load_testing.Common.{
  ℕ, zero, suc, ◌≤◌, ◌≡◌, ◌⊎◌, refl, false, Option, none, some, List, take, arith,
}
use distributed_load_testing.Common.Int.{ℤ, pos, negsuc}
use distributed_load_testing.Models.{TestRun}
use distributed_load_testing.Store.{Store, select}
use distributed_load_testing.Store.Runs.{newest_first, list}
use distributed_load_testing.Store.Newest.{
  IsNewestFirst, newest_first-IsNewestFirst, newest_first-Perm,
}
use distributed_load_testing.Handlers.{Surroundings, runs, write_json}
use distributed_load_testing.Handlers.Public.{list_limit, list_test_runs}

-- The number asked for or 200, whichever is less; 50 without a positive number.
abbrev pub IsLimit : Option ℤ → ℕ → Type 0
IsLimit (some (pos (suc m))) n = (n ≤ 200) × (n ≤ suc m) × ((n ≡ 200) ⊎ (n ≡ suc m))
IsLimit _ n = n ≡ 50

list_limit-IsLimit : (limit : Option ℤ) → IsLimit limit (list_limit limit)
unfolding list_limit
list_limit-IsLimit none = refl
list_limit-IsLimit (some (negsuc m)) = ground arith
list_limit-IsLimit (some (pos zero)) = ground arith
list_limit-IsLimit (some (pos (suc m))) = ground arith

module _ {F : Type 0} where
  -- While the database answers, GET /test-runs answers with 200 and, of the runs of the table in an
  -- order in which each stands before those created before it, and of two created at one time the one
  -- with the greater id first, the first so many: 50, or the positive number asked for, but at most 200.
  pub list_test_runs-IsNewestFirst :
      (e : Surroundings) (s : Store F) (limit : Option ℤ)
      → e.db select ≡ false
      → (sorted : List (TestRun F)) × (n : ℕ) × Perm s.runs sorted
        × IsNewestFirst sorted
        × IsLimit limit n
        × (list_test_runs e s limit ≡ write_json 200 (runs (take n sorted)))
  unfolding list_test_runs list
  list_test_runs-IsNewestFirst e s limit up = (
    newest_first s.runs,
    list_limit limit,
    newest_first-Perm s.runs,
    newest_first-IsNewestFirst s.runs,
    list_limit-IsLimit limit,
    rw (up, list, list_test_runs) refl,
  )
