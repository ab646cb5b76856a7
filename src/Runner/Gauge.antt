-- ===== src/Runner/Gauge.antt =====
-- The gauge loadtest_active_vus of worker/internal/runner: the users that are running.
use mathlib.Core.Path.{subst}
use mathlib.Core.List.{append_assoc}
use distributed_load_testing.Common.{
  ℕ, zero, suc, ◌+◌, ◌-◌, ◌≤◌, ◌≡◌, refl, List, [], ◌∷◌, ◌++◌, arith, ◌&&◌, Bool-cases, inl, inr,
}
use distributed_load_testing.Common.Int.{pos, ltb_ℤ}
use distributed_load_testing.Float.{Float}
use distributed_load_testing.Runner.Run.{
  Config, Round, not_built, transport_error, response, Outcome,
}
use distributed_load_testing.Runner.Interleaving.{
  Shuffle, both_done, from_left, from_right, IsInterleaving,
}
use distributed_load_testing.Runner.Metrics.{
  Metric, user_starts, user_ends, counts_request, observes, request_metrics, loop_metrics,
  user_metrics, users_metrics,
}

module _ {F : Type 0} where
  -- From a value on, the gauge stays between 0 and a limit, and ends at 0.
  abbrev pub IsWithin : ℕ → ℕ → List (Metric F) → Type 0
  IsWithin limit active [] = active ≡ 0
  IsWithin limit active (user_starts ∷ ms) = (suc active ≤ limit) × IsWithin limit (suc active) ms
  IsWithin limit active (user_ends ∷ ms) = (1 ≤ active) × IsWithin limit (active - 1) ms
  IsWithin limit active (_ ∷ ms) = IsWithin limit active ms

  Shuffle-IsWithin :
      (a b n m k : ℕ) (xs ys zs : List (Metric F))
      → Shuffle xs ys zs
      → n + m ≡ k
      → n ≤ a
      → m ≤ b
      → IsWithin a n xs
      → IsWithin b m ys
      → IsWithin (a + b) k zs
  Shuffle-IsWithin a b n m k _ _ _ both_done e h g p q = omega arith
  Shuffle-IsWithin a b n m k _ _ _ (from_left user_starts xs ys zs s) e h g (p, ps) q =
      (omega arith, Shuffle-IsWithin a b (suc n) m (suc k) xs ys zs s (omega arith) p g ps q)
  Shuffle-IsWithin a b n m k _ _ _ (from_left user_ends xs ys zs s) e h g (p, ps) q = (
    omega arith,
    Shuffle-IsWithin a b (n - 1) m (k - 1) xs ys zs s (omega arith) (omega arith) g ps q,
  )
  Shuffle-IsWithin a b n m k _ _ _ (from_left (counts_request c t) xs ys zs s) e h g p q =
      Shuffle-IsWithin a b n m k xs ys zs s e h g p q
  Shuffle-IsWithin a b n m k _ _ _ (from_left (observes t x) xs ys zs s) e h g p q =
      Shuffle-IsWithin a b n m k xs ys zs s e h g p q
  Shuffle-IsWithin a b n m k _ _ _ (from_right user_starts xs ys zs s) e h g p (q, qs) =
      (omega arith, Shuffle-IsWithin a b n (suc m) (suc k) xs ys zs s (omega arith) h q p qs)
  Shuffle-IsWithin a b n m k _ _ _ (from_right user_ends xs ys zs s) e h g p (q, qs) = (
    omega arith,
    Shuffle-IsWithin a b n (m - 1) (k - 1) xs ys zs s (omega arith) h (omega arith) p qs,
  )
  Shuffle-IsWithin a b n m k _ _ _ (from_right (counts_request c t) xs ys zs s) e h g p q =
      Shuffle-IsWithin a b n m k xs ys zs s e h g p q
  Shuffle-IsWithin a b n m k _ _ _ (from_right (observes t x) xs ys zs s) e h g p q =
      Shuffle-IsWithin a b n m k xs ys zs s e h g p q

module _ {F : Type 0} ⦃f : Float F⦄ where
  -- A request leaves the gauge alone, and so does the loop.
  request_metrics-IsWithin :
      (cfg : Config) (o : Outcome F) (limit active : ℕ) (ms : List (Metric F))
      → IsWithin limit active ms
      → IsWithin limit active (request_metrics cfg o ++ ms)
  unfolding request_metrics
  request_metrics-IsWithin cfg not_built limit active ms h = h
  request_metrics-IsWithin cfg transport_error limit active ms h = h
  request_metrics-IsWithin cfg (response elapsed_ms status) limit active ms h = h

  loop_metrics-IsWithin :
      (cfg : Config) (rounds : List (Round F)) (limit active : ℕ) (ms : List (Metric F))
      → IsWithin limit active ms
      → IsWithin limit active (loop_metrics cfg rounds ++ ms)
  unfolding loop_metrics
  loop_metrics-IsWithin cfg [] limit active ms h = h
  loop_metrics-IsWithin cfg (round ∷ rounds) limit active ms h =
      let here = request_metrics cfg round.outcome in
      let rest = loop_metrics cfg rounds in
      elim (Bool-cases round.over) [
        | inl e ↦ rw e h
        | inr e ↦ rw e (elim (Bool-cases (ltb_ℤ (pos 0) cfg.think_time && round.ends_in_pause)) [
          | inl p ↦ rw p (request_metrics-IsWithin cfg round.outcome limit active ms h)
          | inr p ↦
              rw (p, append_assoc here rest ms)
                (request_metrics-IsWithin cfg round.outcome limit active (rest ++ ms)
                  (loop_metrics-IsWithin cfg rounds limit active ms h))
        ])
      ]

  -- However many users interleave, the gauge of active users is never below 0 and never above their
  -- number, and it is back at 0 when all have ended.
  pub users_metrics-IsWithin :
      (cfg : Config) (schedule : ℕ → List (Round F)) (users first : ℕ) (ms : List (Metric F))
      → IsInterleaving (users_metrics cfg schedule users first) ms
      → IsWithin users 0 ms
  unfolding users_metrics
  users_metrics-IsWithin cfg schedule zero first ms e = rw e refl
  users_metrics-IsWithin cfg schedule (suc users) first ms (others, rest, s) =
      let one : IsWithin 1 0 (user_metrics cfg (schedule first)) = (
        omega arith,
        loop_metrics-IsWithin cfg (schedule first) 1 1 (user_ends ∷ []) (omega arith, refl),
      ) in
      let all = users_metrics-IsWithin cfg schedule users (suc first) others rest in
      subst (λ n. IsWithin n 0 ms) (omega arith)
        (Shuffle-IsWithin 1 users 0 0 0 _ others ms s refl (omega arith) (omega arith) one all)
