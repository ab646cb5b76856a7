-- ===== src/System/Jobs.antt =====
-- The stream: each message names one shard, and each shard has at most one message.
use mathlib.Core.Path.{subst}
use distributed_load_testing.Common.{
  ℕ, suc, ◌≤◌, ◌<◌, ◌≡◌, refl, sym, ap, ◌∙◌, ◌⊎◌, inl, inr, Bool, true, false, some, List, [], ◌∷◌,
  ◌++◌, All, All-imp, arith,
}
use distributed_load_testing.Common.Int.{pos}
use distributed_load_testing.Store.{Shard}
use distributed_load_testing.Store.Create.{shard_ids}
use distributed_load_testing.Store.Lifecycle.Keys.{AreNumbered}
use distributed_load_testing.Queue.{Message, Stream, publish_shard}
use distributed_load_testing.Handlers.Public.{publish_all}
use distributed_load_testing.System.{IsIn}

-- Ids are below the next one and shard numbers below `bound`; neither occurs twice.
pub record IsStream (bound : ℕ) (q : Stream) : Type 0 where
  pub numbered :
      (m : Message)
      → IsIn m q.entries
      → (n : ℕ) × (m.shard_id ≡ some (pos n)) × (n < bound) × (m.id < q.next_id)
  pub apart :
      (m m' : Message)
      → IsIn m q.entries
      → IsIn m' q.entries
      → m.shard_id ≡ m'.shard_id
      → m.id ≡ m'.id
  pub same_job :
      (m m' : Message)
      → IsIn m q.entries
      → IsIn m' q.entries
      → m.id ≡ m'.id
      → m.shard_id ≡ m'.shard_id

-- Messages are added only, with new ids and new shard numbers.
pub record Grown (bound : ℕ) (q q' : Stream) : Type 0 where
  pub ids : q.next_id ≤ q'.next_id
  pub kept : (m : Message) → IsIn m q.entries → IsIn m q'.entries
  pub added :
      (m : Message)
      → IsIn m q'.entries
      → IsIn m q.entries
        ⊎ ((q.next_id ≤ m.id) × (n : ℕ) × (m.shard_id ≡ some (pos n)) × (bound ≤ n))

pub number_unique :
    (m : Message) (n k : ℕ) → m.shard_id ≡ some (pos n) → m.shard_id ≡ some (pos k) → n ≡ k
number_unique m n k e h = cc

pub Grown-refl : (bound : ℕ) (q : Stream) → Grown bound q q
Grown-refl bound q = record { ids = omega arith; kept = λ m h. h; added = λ m h. inl h }

IsIn-append : (m x : Message) (ms : List Message) → IsIn m (ms ++ (x ∷ [])) → IsIn m ms ⊎ (x ≡ m)
IsIn-append m x [] (inl e) = inr e
IsIn-append m x [] (inr none_left) = absurd none_left
IsIn-append m x (y ∷ ms) (inl e) = inl (inl e)
IsIn-append m x (y ∷ ms) (inr h) = elim (IsIn-append m x ms h) [
  | inl i ↦ inl (inr i)
  | inr e ↦ inr e
]

IsIn-first : (m x : Message) (ms : List Message) → IsIn m ms → IsIn m (ms ++ (x ∷ []))
IsIn-first m x [] h = absurd h
IsIn-first m x (y ∷ ms) (inl e) = inl e
IsIn-first m x (y ∷ ms) (inr h) = inr (IsIn-first m x ms h)

weaker : (lo hi : ℕ) (q : Stream) → lo ≤ hi → IsStream lo q → IsStream hi q
weaker lo hi q le s = record {
  numbered = λ m h. let (n, e, b, i) = s.numbered m h in (n, e, omega arith, i);
  apart = s.apart;
  same_job = s.same_job;
}

-- The message that PublishShard adds.
abbrev job : Stream → ℕ → Message
job q n = record { id = q.next_id; shard_id = some (pos n) }

abbrev with_job : Stream → ℕ → Stream
with_job q n = record q { entries = q.entries ++ (job q n ∷ []); next_id = suc q.next_id }

with_job-Grown : (n : ℕ) (q : Stream) → Grown n q (with_job q n)
with_job-Grown n q = record {
  ids = omega arith;
  kept = λ m h. IsIn-first m (job q n) q.entries h;
  added = λ m h. elim (IsIn-append m (job q n) q.entries h) [
    | inl i ↦ inl i
    | inr e ↦ inr (
        subst (λ x. (q.next_id ≤ x.id) × (k : ℕ) × (x.shard_id ≡ some (pos k)) × (n ≤ k)) e
          (omega arith, n, refl, omega arith))
  ];
}

fresh_number :
    (n : ℕ) (q : Stream) (m m' : Message)
    → IsStream n q
    → IsIn m q.entries
    → job q n ≡ m'
    → m.shard_id ≡ m'.shard_id
    → ⊥
fresh_number n q m m' s i e same =
    let (k, is_k, below, _) = s.numbered m i in
    let is_n : m.shard_id ≡ some (pos n) = same ∙ ap (λ (y : Message). y.shard_id) (sym e) in
    omega (arith, number_unique m k n is_k is_n)

fresh_id :
    (n : ℕ) (q : Stream) (m m' : Message)
    → IsStream n q
    → IsIn m q.entries
    → job q n ≡ m'
    → m.id ≡ m'.id
    → ⊥
fresh_id n q m m' s i e same =
    let (_, _, _, below) = s.numbered m i in
    let is_next : m.id ≡ q.next_id = same ∙ ap (λ (y : Message). y.id) (sym e) in
    omega (arith, is_next, below)

with_job-IsStream : (n : ℕ) (q : Stream) → IsStream n q → IsStream (suc n) (with_job q n)
with_job-IsStream n q s =
    let x = job q n in
    let in_all = λ (m : Message) (h : IsIn m (with_job q n).entries). IsIn-append m x q.entries h in
    record {
      numbered = λ m h. elim (in_all m h) [
        | inl i ↦ let (k, e, b, j) = s.numbered m i in (k, e, omega arith, omega arith)
        | inr e ↦
            subst
              (λ y. (k : ℕ) × (y.shard_id ≡ some (pos k)) × (k < suc n) × (y.id < suc q.next_id)) e
              (n, refl, omega arith, omega arith)
      ];
      apart = λ m m' h h' same. elim (in_all m h) [
        | inl i ↦ elim (in_all m' h') [
          | inl i' ↦ s.apart m m' i i' same
          | inr e' ↦ absurd (fresh_number n q m m' s i e' same)
        ]
        | inr e ↦ elim (in_all m' h') [
          | inl i' ↦ absurd (fresh_number n q m' m s i' e (sym same))
          | inr e' ↦ ap (λ (y : Message). y.id) (sym e ∙ e')
        ]
      ];
      same_job = λ m m' h h' same. elim (in_all m h) [
        | inl i ↦ elim (in_all m' h') [
          | inl i' ↦ s.same_job m m' i i' same
          | inr e' ↦ absurd (fresh_id n q m m' s i e' same)
        ]
        | inr e ↦ elim (in_all m' h') [
          | inl i' ↦ absurd (fresh_id n q m' m s i' e (sym same))
          | inr e' ↦ ap (λ (y : Message). y.shard_id) (sym e ∙ e')
        ]
      ];
    }

publish_one :
    (refused : Bool) (n : ℕ) (q : Stream)
    → IsStream n q
    → IsStream (suc n) (publish_shard refused q n).0 × Grown n q (publish_shard refused q n).0
unfolding publish_shard
publish_one true n q s = (weaker n (suc n) q (omega arith) s, Grown-refl n q)
publish_one false n q s = (with_job-IsStream n q s, with_job-Grown n q)

Grown-trans : (lo mid : ℕ) (q r t : Stream) → lo ≤ mid → Grown lo q r → Grown mid r t → Grown lo q t
Grown-trans lo mid q r t le a b = record {
  ids = omega (arith, a.ids, b.ids);
  kept = λ m h. b.kept m (a.kept m h);
  added = λ m h. elim (b.added m h) [
    | inl i ↦ a.added m i
    | inr (above, n, e, k) ↦ inr (omega (arith, above, a.ids), n, e, omega (arith, k, le))
  ];
}

module _ {F : Type 0} where
  -- The jobs of a created run.
  pub publish_all-IsStream :
      (redis : ℕ → Bool) (i lo hi : ℕ) (q : Stream) (shards : List (Shard F))
      → AreNumbered lo hi shards
      → IsStream lo q
      → let q' = publish_all redis i q (shard_ids shards) in IsStream hi q' × Grown lo q q'
  unfolding publish_all
  publish_all-IsStream redis i lo hi q [] n s = (subst (λ b. IsStream b q) n s, Grown-refl lo q)
  publish_all-IsStream redis i lo hi q (sh ∷ shards) (is_lo, n) s =
      let q1 = (publish_shard (redis i) q lo).0 in
      let (s1, g1) = publish_one (redis i) lo q s in
      let (s2, g2) = publish_all-IsStream redis (suc i) (suc lo) hi q1 shards n s1 in
      rw is_lo (s2, Grown-trans lo (suc lo) q q1 _ (omega arith) g1 g2)

  pub AreNumbered-above :
      (lo hi : ℕ) (shards : List (Shard F))
      → AreNumbered lo hi shards
      → All (λ sh. lo ≤ sh.id) shards
  AreNumbered-above lo hi [] n = tt
  AreNumbered-above lo hi (sh ∷ shards) (is_lo, n) = (
    omega (arith, is_lo),
    All-imp _ _ (λ sh h. omega arith) shards (AreNumbered-above (suc lo) hi shards n),
  )
