-- ===== src/Handlers/Validate/Split.antt =====
-- `splitVUs` of backend/internal/handlers/test_runs.go shares the virtual users out evenly.
use distributed_load_testing.Common.{
  ℕ, zero, suc, ◌+◌, ◌-◌, ◌*◌, ◌/◌, ◌%◌, ◌<◌, ◌≤◌, ◌≡◌, arith, length, sum, All, All-imp,
}
use distributed_load_testing.Handlers.Validate.{split_from, split_vus}

-- A share of one shard: the quotient, or one more.
abbrev pub IsShare : ℕ → ℕ → Type 0
IsShare base v = (base ≤ v) × (v ≤ base + 1)

-- The shards from index i on hold their quotients, and the extra users whose turn is still to come.
split_from_lem :
    (base rem left i : ℕ)
    → rem ≤ i + left
    → let out = split_from base rem left i in
      (length out ≡ left) × (sum out ≡ left * base + (rem - i)) × All (IsShare base) out
unfolding split_from
split_from_lem base rem zero i h = omega arith
split_from_lem base rem (suc left) i h = ground (arith, split_from_lem base rem left (suc i))

-- For 1 <= n <= total, n shards are made, their users add up to the total, no shard is without a
-- user, and two shards differ by at most one user.
pub split_vus_lem :
    (total n : ℕ)
    → 0 < n
    → n ≤ total
    → let out = split_vus total n in
      (length out ≡ n)
      × (sum out ≡ total)
      × All (λ v. (0 < v) × (total / n ≤ v) × (v ≤ total / n + 1)) out
unfolding split_vus
split_vus_lem total n h k =
    let (shards, users, shares) = split_from_lem (total / n) (total % n) n 0 (omega arith) in
    let one : 1 ≤ total / n = grind arith in
    (
      shards,
      grind arith,
      All-imp (IsShare (total / n)) _ (λ v s. (omega arith, omega arith, omega arith)) _ shares,
    )
