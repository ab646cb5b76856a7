-- ===== src/Runner/Extremes.antt =====
-- The smallest and the largest latency of worker/internal/runner/stats.go, against the latencies that
-- the loops of runner.go record.
pub mod Summary
use text.Mathlib.Text.{◌==◌ as str_eq}
use mathlib.Core.List.{append-nil, append_assoc}
use mathlib.Core.Path.{subst}
use distributed_load_testing.Common.{
  ℕ, zero, suc, ◌+◌, ◌<◌, ◌≡◌, ◌≢◌, ◌⊎◌, refl, ap, sym, inl, inr, Bool, true, false, ◌&&◌, ◌||◌,
  ◌==◌, List, [], ◌∷◌, ◌++◌, arith, length, length-append, All, All-append, All-imp, Any, ok,
  fail_if-ok, ok-injective, if◌then◌else◌, ltb, ◌%◌, Bool-cases,
}
use distributed_load_testing.Common.Int.{
  pos, pos_part, leb_ℤ, ltb_ℤ, int64_mod, int64_half, add64, lt64,
}
use distributed_load_testing.Float.{Float, IsOrdered, ◌≼◌}
use distributed_load_testing.Runner.Stats
use distributed_load_testing.Runner.Stats.{
  VuStats, zero_stats, record_request, add_sample, count_request, merge_vu, merge_from, merge_stats,
}
use distributed_load_testing.Runner.Run.{
  Config, Outcome, not_built, transport_error, response, Round, do_request, run_virtual_user,
  run_users, run,
}

module _ {F : Type 0} where
  abbrev pub latency_of : Outcome F → List F
  latency_of (response elapsed_ms status) = elapsed_ms ∷ []
  latency_of _ = []

  -- The latencies that the loop of one user records.
  unfoldable pub latencies : Config → List (Round F) → List F
  latencies cfg [] = []
  latencies cfg (round ∷ rounds) =
      let here = latency_of round.outcome in
      let rest = latencies cfg rounds in
      if round.over
      then []
      else if ltb_ℤ (pos 0) cfg.think_time && round.ends_in_pause
      then here
      else here ++ rest

  unfoldable pub all_latencies : Config → (ℕ → List (Round F)) → ℕ → ℕ → List F
  all_latencies cfg schedule zero i = []
  all_latencies cfg schedule (suc left) i =
      latencies cfg (schedule i) ++ all_latencies cfg schedule left (suc i)

  Any-append : (P : F → Type 0) (xs ys : List F) → Any P xs ⊎ Any P ys → Any P (xs ++ ys)
  Any-append P [] ys (inr h) = h
  Any-append P [] ys (inl h) = absurd h
  Any-append P (x ∷ xs) ys (inl (inl h)) = inl h
  Any-append P (x ∷ xs) ys (inl (inr h)) = inr (Any-append P xs ys (inl h))
  Any-append P (x ∷ xs) ys (inr h) = inr (Any-append P xs ys (inr h))

  pub All-parts : (P : F → Type 0) (xs ys : List F) → All P (xs ++ ys) → All P xs × All P ys
  All-parts P [] ys h = (tt, h)
  All-parts P (x ∷ xs) ys (p, ps) = let (qs, rs) = All-parts P xs ys ps in ((p, qs), rs)

  pub found : (P : F → Type 0) (x : F) (xs : List F) → Any (λ y. y ≡ x) xs → All P xs → P x
  found P x (y ∷ ys) (inl e) (p, ps) = subst P e p
  found P x (y ∷ ys) (inr h) (p, ps) = found P x ys h ps
  found P x [] h ps = absurd h

module _ {F : Type 0} ⦃f : Float F⦄ where
  -- The least and the greatest of some values are among them.
  abbrev pub IsExtremes : F → F → List F → Type 0
  IsExtremes least greatest xs =
      Any (λ x. x ≡ least) xs
      × All (λ x. least ≼ x) xs
      × Any (λ x. x ≡ greatest) xs
      × All (λ x. x ≼ greatest) xs

  module _ (o : IsOrdered F) where
    pub least_of :
        (a b : F) (xs ys : List F)
        → Any (λ x. x ≡ a) xs
        → All (λ x. a ≼ x) xs
        → Any (λ x. x ≡ b) ys
        → All (λ x. b ≼ x) ys
        → let m = if f.lt b a then b else a in
          Any (λ x. x ≡ m) (xs ++ ys) × All (λ x. m ≼ x) (xs ++ ys)
    least_of a b xs ys in_a all_a in_b all_b = elim (Bool-cases (f.lt b a)) [
      | inl e ↦ rw e (
        Any-append _ xs ys (inr in_b),
        All-append _ xs ys (All-imp _ _ (λ x h. o.le_trans b a x (o.le_of_lt b a e) h) xs all_a)
            all_b,
      )
      | inr e ↦
          let reflexive_a = found (λ x. a ≼ x) a xs in_a all_a in
          let reflexive_b = found (λ x. b ≼ x) b ys in_b all_b in
          let le = o.le_of_not_lt b a reflexive_b reflexive_a e in
          rw e (
            Any-append _ xs ys (inl in_a),
            All-append _ xs ys all_a (All-imp _ _ (λ x h. o.le_trans a b x le h) ys all_b),
          )
    ]

    pub greatest_of :
        (a b : F) (xs ys : List F)
        → Any (λ x. x ≡ a) xs
        → All (λ x. x ≼ a) xs
        → Any (λ x. x ≡ b) ys
        → All (λ x. x ≼ b) ys
        → let m = if f.lt a b then b else a in
          Any (λ x. x ≡ m) (xs ++ ys) × All (λ x. x ≼ m) (xs ++ ys)
    greatest_of a b xs ys in_a all_a in_b all_b = elim (Bool-cases (f.lt a b)) [
      | inl e ↦ rw e (
        Any-append _ xs ys (inr in_b),
        All-append _ xs ys (All-imp _ _ (λ x h. o.le_trans x a b h (o.le_of_lt a b e)) xs all_a)
            all_b,
      )
      | inr e ↦
          let reflexive_a = found (λ x. x ≼ a) a xs in_a all_a in
          let reflexive_b = found (λ x. x ≼ b) b ys in_b all_b in
          let le = o.le_of_not_lt a b reflexive_a reflexive_b e in
          rw e (
            Any-append _ xs ys (inl in_a),
            All-append _ xs ys all_a (All-imp _ _ (λ x h. o.le_trans x b a h le) ys all_b),
          )
    ]

    -- How the program joins the extremes of n values with those of more values.
    pub joined :
        (n : ℕ) (a a' b b' : F) (xs ys : List F)
        → n ≡ length xs
        → (xs ≡ []) ⊎ IsExtremes a a' xs
        → IsExtremes b b' ys
        → IsExtremes
            (if n == 0 || f.lt b a then b else a)
            (if n == 0 || f.lt a' b' then b' else a')
            (xs ++ ys)
    joined n a a' b b' [] ys e h g = let none_yet : (n == 0) ≡ true = ground arith in rw none_yet g
    joined n a a' b b' (x ∷ xs) ys e (inl empty) g = absurd (cc)
    joined n a a' b b' (x ∷ xs) ys e (inr (p, q, r, s)) (p', q', r', s') =
        let (u, v) = least_of a b (x ∷ xs) ys p q p' q' in
        let (u', v') = greatest_of a' b' (x ∷ xs) ys r s r' s' in
        let some_yet : (n == 0) ≡ false = ground arith in
        subst
          (λ t.
            IsExtremes (if t || f.lt b a then b else a) (if t || f.lt a' b' then b' else a')
              ((x ∷ xs) ++ ys))
          (sym some_yet) (u, v, u', v')
