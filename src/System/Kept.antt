-- ===== src/System/Kept.antt =====
-- What is always true of the platform, and the single changes that a step is made of.
use mathlib.Core.Path.{subst}
use distributed_load_testing.Common.{
  ℕ, ◌≤◌, ◌<◌, ◌≡◌, ◌≢◌, ◌⊎◌, ◌∙◌, inl, inr, Bool, true, false, ◌==◌, ==_iff, Option, some, arith,
  Bool-cases,
}
use distributed_load_testing.Common.Int.{pos}
use distributed_load_testing.Models.{is_open, is_running, ShardAssignment}
use distributed_load_testing.Queue.{Message}
use distributed_load_testing.Store.Lifecycle.{IsKeyed}
use distributed_load_testing.Store.Closing.{HasRuns}
use distributed_load_testing.Handlers.{World}
use distributed_load_testing.System.{System, IsIn, mark, assign}
use distributed_load_testing.System.Shards.{HasNone}
use distributed_load_testing.System.Jobs.{IsStream, Grown, number_unique}

pub mark_same : (set : ℕ → Bool) (id : ℕ) → mark set id id ≡ true
mark_same set id = ground (arith, ==_iff id id)

mark-true : (set : ℕ → Bool) (id j : ℕ) → set j ≡ true → mark set id j ≡ true
mark-true set id j h = ground arith

marked : (set : ℕ → Bool) (id j : ℕ) → mark set id j ≡ true → (id ≡ j) ⊎ (set j ≡ true)
marked set id j h = elim (Bool-cases (id == j)) [
  | inl e ↦ inl ((==_iff id j).0 e)
  | inr e ↦ inr (rw e at h)
]

unmarked : (set : ℕ → Bool) (id j : ℕ) → mark set id j ≡ false → (id ≢ j) × (set j ≡ false)
unmarked set id j h = elim (Bool-cases (id == j)) [
  | inl e ↦ absurd (ground arith)
  | inr e ↦ (λ q. ground (arith, ==_iff id j), rw e at h)
]

module _ {F : Type 0} where
  -- A message that nobody has read has a shard that is not running, and an acknowledged one a shard
  -- that is finished, unless it is dead-lettered. What a worker runs is the job of a message.
  pub record Kept (s : System F) : Type 0 where
    pub keyed : IsKeyed s.world.store
    pub runs : HasRuns s.world.store
    pub stream : IsStream s.world.store.next_shard s.world.stream
    pub unread : (j : ℕ) → s.world.stream.next_id ≤ j → s.read j ≡ false
    pub acked_read : (j : ℕ) → s.acked j ≡ true → s.read j ≡ true
    pub waiting :
        (m : Message) (n : ℕ)
        → IsIn m s.world.stream.entries
        → m.shard_id ≡ some (pos n)
        → s.read m.id ≡ false
        → HasNone is_running n s.world.store
    pub settled :
        (m : Message) (n : ℕ)
        → IsIn m s.world.stream.entries
        → m.shard_id ≡ some (pos n)
        → s.acked m.id ≡ true
        → s.given_up m.id ≡ false
        → HasNone is_open n s.world.store
    pub busy :
        (k : ℕ) (m : Message) (a : ShardAssignment)
        → s.worker k ≡ some (m, a)
        → IsIn m s.world.stream.entries
          × (s.read m.id ≡ true)
          × (m.shard_id ≡ some (pos a.shard_id))

  pub world-Kept :
      (s : System F) (w : World F)
      → Kept s
      → IsKeyed w.store
      → HasRuns w.store
      → IsStream w.store.next_shard w.stream
      → Grown s.world.store.next_shard s.world.stream w.stream
      → ((n : ℕ) → s.world.store.next_shard ≤ n → HasNone is_running n w.store)
      → ((m : Message) (n : ℕ)
          → IsIn m s.world.stream.entries
          → m.shard_id ≡ some (pos n)
          → s.read m.id ≡ false
          → HasNone is_running n s.world.store
          → HasNone is_running n w.store)
      → ((n : ℕ)
          → n < s.world.store.next_shard
          → HasNone is_open n s.world.store
          → HasNone is_open n w.store)
      → Kept (record s { world = w })
  world-Kept s w kept keyed runs stream grown new waiting closed = record {
    keyed = keyed;
    runs = runs;
    stream = stream;
    unread = λ j above. kept.unread j (omega (arith, above, grown.ids));
    acked_read = kept.acked_read;
    waiting = λ m n i e unread. elim (grown.added m i) [
      | inl old ↦ waiting m n old e unread (kept.waiting m n old e unread)
      | inr (_, k, is_k, above) ↦ new n (omega (arith, number_unique m n k e is_k, above))
    ];
    settled = λ m n i e acked held. elim (grown.added m i) [
      | inl old ↦
          let (k, is_k, below, _) = kept.stream.numbered m old in
          closed n (omega (arith, number_unique m n k e is_k, below))
            (kept.settled m n old e acked held)
      | inr (above, _, _, _) ↦
          absurd (ground (arith, kept.acked_read m.id acked, kept.unread m.id above))
    ];
    busy = λ k m a e. let (i, r, is_n) = kept.busy k m a e in (grown.kept m i, r, is_n);
  }

  pub read-Kept :
      (s : System F) (m : Message)
      → Kept s
      → IsIn m s.world.stream.entries
      → Kept (record s { read = mark s.read m.id })
  read-Kept s m kept i = record {
    keyed = kept.keyed;
    runs = kept.runs;
    stream = kept.stream;
    unread = λ j above.
        let (_, _, _, below) = kept.stream.numbered m i in
        elim (Bool-cases (mark s.read m.id j)) [
          | inr e ↦ e
          | inl e ↦ elim (marked s.read m.id j e) [
            | inl same ↦ absurd (omega (arith, same, above, below))
            | inr r ↦ absurd (ground (arith, kept.unread j above))
          ]
        ];
    acked_read = λ j a. mark-true s.read m.id j (kept.acked_read j a);
    waiting = λ m' n i' e r. kept.waiting m' n i' e (unmarked s.read m.id m'.id r).1;
    settled = kept.settled;
    busy = λ k m' a e.
        let (i', r, is_n) = kept.busy k m' a e in (i', mark-true s.read m.id m'.id r, is_n);
  }

  -- The clock and what the group counts of its messages.
  pub group-Kept :
      (s : System F) (clock : ℕ) (group : Option ℕ) (since deliveries : ℕ → ℕ)
      → Kept s
      → Kept (record s { clock = clock; group = group; since = since; deliveries = deliveries })
  group-Kept s clock group since deliveries kept = record {
    keyed = kept.keyed;
    runs = kept.runs;
    stream = kept.stream;
    unread = kept.unread;
    acked_read = kept.acked_read;
    waiting = kept.waiting;
    settled = kept.settled;
    busy = kept.busy;
  }

  pub acked-Kept :
      (s : System F) (m : Message) (n : ℕ)
      → Kept s
      → IsIn m s.world.stream.entries
      → m.shard_id ≡ some (pos n)
      → s.read m.id ≡ true
      → HasNone is_open n s.world.store
      → Kept (record s { acked = mark s.acked m.id })
  acked-Kept s m n kept i is_n r closed = record {
    keyed = kept.keyed;
    runs = kept.runs;
    stream = kept.stream;
    unread = kept.unread;
    acked_read = λ j a. elim (marked s.acked m.id j a) [
      | inl same ↦ subst (λ j. s.read j ≡ true) same r
      | inr old ↦ kept.acked_read j old
    ];
    waiting = kept.waiting;
    settled = λ m' k i' e a held. elim (marked s.acked m.id m'.id a) [
      | inl same ↦
          let is_k : m.shard_id ≡ some (pos k) = kept.stream.same_job m m' i i' same ∙ e in
          subst (λ j. HasNone is_open j s.world.store) (number_unique m n k is_n is_k) closed
      | inr old ↦ kept.settled m' k i' e old held
    ];
    busy = kept.busy;
  }

  pub given_up-Kept :
      (s : System F) (m : Message)
      → Kept s
      → s.read m.id ≡ true
      → Kept (record s { acked = mark s.acked m.id; given_up = mark s.given_up m.id })
  given_up-Kept s m kept r = record {
    keyed = kept.keyed;
    runs = kept.runs;
    stream = kept.stream;
    unread = kept.unread;
    acked_read = λ j a. elim (marked s.acked m.id j a) [
      | inl same ↦ subst (λ j. s.read j ≡ true) same r
      | inr old ↦ kept.acked_read j old
    ];
    waiting = kept.waiting;
    settled = λ m' k i' e a held.
        let (other, held') = unmarked s.given_up m.id m'.id held in
        elim (marked s.acked m.id m'.id a) [
          | inl same ↦ absurd (other same)
          | inr old ↦ kept.settled m' k i' e old held'
        ];
    busy = kept.busy;
  }

  pub assign-Kept :
      (s : System F) (k : ℕ) (job : Option (Message × ShardAssignment))
      → Kept s
      → ((m : Message) (a : ShardAssignment)
          → job ≡ some (m, a)
          → IsIn m s.world.stream.entries
            × (s.read m.id ≡ true)
            × (m.shard_id ≡ some (pos a.shard_id)))
      → Kept (record s { worker = assign s.worker k job })
  assign-Kept s k job kept has = record {
    keyed = kept.keyed;
    runs = kept.runs;
    stream = kept.stream;
    unread = kept.unread;
    acked_read = kept.acked_read;
    waiting = kept.waiting;
    settled = kept.settled;
    busy = λ j m a e. elim (Bool-cases (k == j)) [
      | inl this ↦ has m a (rw this at e)
      | inr other ↦ kept.busy j m a (rw other at e)
    ];
  }
