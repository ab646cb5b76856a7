-- ===== src/Store/Histogram/Merge.antt =====
-- `mergeBuckets` of backend/internal/store/histogram.go adds the shards' counts column by column.
use distributed_load_testing.Common.{
  ℕ, zero, suc, ◌+◌, ◌%◌, ◌<◌, ◌≤◌, ◌≡◌, refl, ap, ◌∙◌, List, [], ◌∷◌, arith, All, length,
  replicate, get_or, map, sum,
}
use distributed_load_testing.Common.Int.{int64_half, int64_mod, add64, add64_exact}
use distributed_load_testing.Store.Histogram.{add_buckets, merge_from, merge_buckets}

length-add_buckets : (m b : List ℕ) → length (add_buckets m b) ≡ length m
unfolding add_buckets
length-add_buckets [] b = refl
length-add_buckets (x ∷ m) [] = refl
length-add_buckets (x ∷ m) (y ∷ b) = ap suc (length-add_buckets m b)

length-merge_from : (m : List ℕ) (shards : List (List ℕ)) → length (merge_from m shards) ≡ length m
unfolding merge_from
length-merge_from m [] = refl
length-merge_from m (b ∷ shards) =
    length-merge_from (add_buckets m b) shards ∙ length-add_buckets m b

-- Bucket i over all shards; a shard with no such bucket counts 0.
abbrev pub column : ℕ → List (List ℕ) → List ℕ
column i = map (λ b. get_or b i 0)

get_or-add_buckets :
    (m b : List ℕ) (i : ℕ)
    → i < length m
    → get_or m i 0 < int64_mod
    → get_or (add_buckets m b) i 0 ≡ (get_or m i 0 + get_or b i 0) % int64_mod
unfolding add_buckets add64
get_or-add_buckets [] b i h k = absurd (omega arith)
get_or-add_buckets (x ∷ m) [] i h k = omega arith
get_or-add_buckets (x ∷ m) (y ∷ b) zero h k = refl
get_or-add_buckets (x ∷ m) (y ∷ b) (suc i) h k = get_or-add_buckets m b i (omega arith) k

get_or-merge_from :
    (m : List ℕ) (shards : List (List ℕ)) (i : ℕ)
    → i < length m
    → get_or m i 0 < int64_mod
    → get_or (merge_from m shards) i 0 ≡ (get_or m i 0 + sum (column i shards)) % int64_mod
unfolding merge_from
get_or-merge_from m [] i h k = omega arith
get_or-merge_from m (b ∷ shards) i h k =
    let now = get_or-add_buckets m b i h k in
    omega (
      arith,
      now,
      get_or-merge_from (add_buckets m b) shards i (omega (arith, length-add_buckets m b))
          (omega (arith, now)),
    )

pub get_or-replicate : (n i : ℕ) → get_or {A = ℕ} (replicate n 0) i 0 ≡ 0
get_or-replicate zero i = refl
get_or-replicate (suc n) zero = refl
get_or-replicate (suc n) (suc i) = get_or-replicate n i

-- The merged histogram has 13 buckets, and each is the sum, as an int64, of that bucket over all the
-- shards, whatever their order and length.
pub merge_buckets-column :
    (shards : List (List ℕ)) (i : ℕ)
    → i < 13
    → (length (merge_buckets shards) ≡ 13)
      × (get_or (merge_buckets shards) i 0 ≡ sum (column i shards) % int64_mod)
unfolding merge_buckets
merge_buckets-column shards i h =
    let empty = get_or-replicate 13 i in
    (
      length-merge_from (replicate 13 0) shards,
      omega (arith, empty, get_or-merge_from (replicate 13 0) shards i h (omega (arith, empty))),
    )

sum-add_buckets :
    (m b : List ℕ)
    → length b ≤ length m
    → sum m + sum b < int64_half
    → sum (add_buckets m b) ≡ sum m + sum b
unfolding add_buckets
sum-add_buckets [] [] h k = omega arith
sum-add_buckets [] (y ∷ b) h k = absurd (omega arith)
sum-add_buckets (x ∷ m) [] h k = omega arith
sum-add_buckets (x ∷ m) (y ∷ b) h k =
    omega (arith, add64_exact x y (omega arith), sum-add_buckets m b (omega arith) (omega arith))

abbrev pub total_of : List (List ℕ) → ℕ
total_of shards = sum (map sum shards)

sum-merge_from :
    (m : List ℕ) (shards : List (List ℕ))
    → All (λ b. length b ≤ length m) shards
    → sum m + total_of shards < int64_half
    → sum (merge_from m shards) ≡ sum m + total_of shards
unfolding merge_from
sum-merge_from m [] h k = omega arith
sum-merge_from m (b ∷ shards) (fits, rest) k =
    let added = sum-add_buckets m b fits (omega arith) in
    let same = length-add_buckets m b in
    omega
      (arith, added, sum-merge_from (add_buckets m b) shards (rw same rest) (omega (arith, added)))

-- No sample is lost or counted twice: if no shard reports more than 13 buckets and the samples fit
-- an int64, the merged histogram holds as many samples as the shards together.
pub sum-merge_buckets :
    (shards : List (List ℕ))
    → All (λ b. length b ≤ 13) shards
    → total_of shards < int64_half
    → sum (merge_buckets shards) ≡ total_of shards
unfolding merge_buckets
sum-merge_buckets shards h k = omega (arith, sum-merge_from (replicate 13 0) shards h (omega arith))
