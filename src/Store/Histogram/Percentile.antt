-- ===== src/Store/Histogram/Percentile.antt =====
-- `percentile` of backend/internal/store/histogram.go finds the bucket of the ranked sample.
use native.Mathlib.Nat.{le_refl}
use distributed_load_testing.Common.{
  All, get_or, ℕ, zero, suc, ◌+◌, ◌<◌, ◌≤◌, ◌≡◌, ap, ◌∙◌, false, List, [], ◌∷◌, arith, ◌==◌, leb,
  if◌then◌else◌, length, take, sum, inl, inr, Bool-cases, leb→le,
}
use distributed_load_testing.Common.Int.{int64_half, add64_exact, le64_exact}
use distributed_load_testing.Float.{Float, IsRank, RankLe}
use distributed_load_testing.Store.Histogram.{
  latency_boundaries_ms, sum64, bound_at, scan_buckets, threshold_of, percentile,
}

pub sum64_exact :
    (total : ℕ) (ns : List ℕ) → total + sum ns < int64_half → sum64 total ns ≡ total + sum ns
unfolding sum64
sum64_exact total [] h = omega arith
sum64_exact total (n ∷ ns) h =
    rw (add64_exact total n (omega arith)) (omega (arith, sum64_exact (total + n) ns (omega arith)))

-- One step of the scan, while the counts fit.
scan_step :
    (t c i n : ℕ) (ns : List ℕ)
    → t < int64_half
    → c + n < int64_half
    → scan_buckets t c i (n ∷ ns)
      ≡ (if leb t (c + n) then bound_at i else scan_buckets t (c + n) (suc i) ns)
unfolding scan_buckets
scan_step t c i n ns ht hc = rw (add64_exact c n hc, le64_exact t (c + n) ht hc)

-- From index j on, the scan stops at the first bucket at which the running count reaches t.
scan_lem :
    (t c j : ℕ) (ns : List ℕ)
    → c < t
    → t ≤ c + sum ns
    → c + sum ns < int64_half
    → (i : ℕ) × (i < length ns)
      × (scan_buckets t c j ns ≡ bound_at (j + i))
      × (c + sum (take i ns) < t)
      × (t ≤ c + sum (take (suc i) ns))
scan_lem t c j [] h k l = absurd (omega arith)
scan_lem t c j (n ∷ ns) h k l = elim (Bool-cases (leb t (c + n))) [
  | inl e ↦ (
    0,
    omega arith,
    rw (scan_step t c j n ns (omega arith) (omega arith), e) (ap bound_at (omega arith)),
    omega arith,
    omega (arith, leb→le t (c + n) e),
  )
  | inr e ↦
      let (i, inside, found, below, above) =
        scan_lem t (c + n) (suc j) ns (ground arith) (omega arith) (omega arith) in
      (
        suc i,
        omega arith,
        rw (scan_step t c j n ns (omega arith) (omega arith), e)
            (found ∙ ap bound_at (omega arith)),
        omega arith,
        omega arith,
      )
]

bound_at-suc : (i : ℕ) → bound_at i ≤ bound_at (suc i)
bound_at-suc zero = omega arith
bound_at-suc (suc zero) = omega arith
bound_at-suc (suc (suc zero)) = omega arith
bound_at-suc (suc (suc (suc zero))) = omega arith
bound_at-suc (suc (suc (suc (suc zero)))) = omega arith
bound_at-suc (suc (suc (suc (suc (suc zero))))) = omega arith
bound_at-suc (suc (suc (suc (suc (suc (suc zero)))))) = omega arith
bound_at-suc (suc (suc (suc (suc (suc (suc (suc zero))))))) = omega arith
bound_at-suc (suc (suc (suc (suc (suc (suc (suc (suc zero)))))))) = omega arith
bound_at-suc (suc (suc (suc (suc (suc (suc (suc (suc (suc zero))))))))) = omega arith
bound_at-suc (suc (suc (suc (suc (suc (suc (suc (suc (suc (suc zero)))))))))) = omega arith
bound_at-suc (suc (suc (suc (suc (suc (suc (suc (suc (suc (suc (suc zero))))))))))) = omega arith
bound_at-suc (suc (suc (suc (suc (suc (suc (suc (suc (suc (suc (suc (suc i)))))))))))) = omega arith

get_or-le : (xs : List ℕ) (d i : ℕ) → All (λ x. x ≤ d) xs → get_or xs i d ≤ d
get_or-le [] d i h = le_refl d
get_or-le (x ∷ xs) d zero h = h.0
get_or-le (x ∷ xs) d (suc i) h = get_or-le xs d i h.1

bound_at-le : (i : ℕ) → bound_at i ≤ 5000
bound_at-le i = get_or-le latency_boundaries_ms 5000 i (omega arith)

-- What is still to be scanned lies at or above the bound of the current bucket.
scan_lower :
    (t c j : ℕ) (ns : List ℕ)
    → t < int64_half
    → c + sum ns < int64_half
    → bound_at j ≤ scan_buckets t c j ns
scan_lower t c j [] h k = unfold scan_buckets in bound_at-le j
scan_lower t c j (n ∷ ns) h k =
    rw (scan_step t c j n ns h (omega arith))
      (ground (arith, bound_at-suc j, scan_lower t (c + n) (suc j) ns))

scan_mono :
    (t u c j : ℕ) (ns : List ℕ)
    → t ≤ u
    → u < int64_half
    → c + sum ns < int64_half
    → scan_buckets t c j ns ≤ scan_buckets u c j ns
scan_mono t u c j [] h k l = unfold scan_buckets in le_refl _
scan_mono t u c j (n ∷ ns) h k l =
    rw (scan_step t c j n ns (omega arith) (omega arith), scan_step u c j n ns k (omega arith))
      (ground (
        arith,
        bound_at-suc j,
        scan_lower u (c + n) (suc j) ns,
        scan_mono t u (c + n) (suc j) ns h k,
      ))

module _ {F : Type 0} ⦃f : Float F⦄ where
  percentile_of_samples :
      (ns : List ℕ) (p : F)
      → 0 < sum ns
      → sum ns < int64_half
      → percentile ns p ≡ f.of_int64 (scan_buckets (threshold_of p (sum ns)) 0 0 ns)
  unfolding percentile
  percentile_of_samples ns p h k =
      let total : sum64 0 ns ≡ sum ns = omega (arith, sum64_exact 0 ns (omega arith)) in
      let some_samples : (sum ns == 0) ≡ false = ground arith in rw (total, some_samples)

  -- For a p that gives a rank (above 0 and at most the number of samples) and at least one sample,
  -- with counts that fit an int64: the percentile is the bound of the first bucket at which the
  -- running count reaches the rank ceil(p * total).
  pub percentile-IsRank :
      (ns : List ℕ) (p : F)
      → IsRank p
      → 0 < sum ns
      → sum ns < int64_half
      → let rank = threshold_of p (sum ns) in
        (i : ℕ) × (i < length ns)
        × (percentile ns p ≡ f.of_int64 (bound_at i))
        × (sum (take i ns) < rank)
        × (rank ≤ sum (take (suc i) ns))
  unfolding threshold_of
  percentile-IsRank ns p r h k =
      let (low, high) = r (sum ns) h k in
      let (i, inside, found, below, above) =
        scan_lem (threshold_of p (sum ns)) 0 0 ns low (omega arith) (omega arith) in
      (
        i,
        inside,
        percentile_of_samples ns p h k ∙ ap f.of_int64 (found ∙ ap bound_at (omega arith)),
        omega arith,
        omega arith,
      )

  -- A larger percentile is never reported lower: if q gives a rank that is no smaller than that of p,
  -- with at least one sample and counts that fit an int64, both are boundaries, in their order.
  pub percentile_mono :
      (ns : List ℕ) (p q : F)
      → IsRank q
      → RankLe p q
      → 0 < sum ns
      → sum ns < int64_half
      → (a b : ℕ) × (percentile ns p ≡ f.of_int64 a) × (percentile ns q ≡ f.of_int64 b) × (a ≤ b)
  unfolding threshold_of
  percentile_mono ns p q r m h k = (
    scan_buckets (threshold_of p (sum ns)) 0 0 ns,
    scan_buckets (threshold_of q (sum ns)) 0 0 ns,
    percentile_of_samples ns p h k,
    percentile_of_samples ns q h k,
    scan_mono (threshold_of p (sum ns)) (threshold_of q (sum ns)) 0 0 ns (m (sum ns) k)
        (omega (arith, (r (sum ns) h k).1)) (omega arith),
  )

  -- Without samples every percentile is 0.
  pub percentile_no_samples : (ns : List ℕ) (p : F) → sum ns ≡ 0 → percentile ns p ≡ f.nought
  unfolding percentile
  percentile_no_samples ns p h =
      let total : sum64 0 ns ≡ 0 = omega (arith, sum64_exact 0 ns (omega arith)) in rw total
