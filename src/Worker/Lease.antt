-- ===== src/Worker/Lease.antt =====
-- The lease of worker/cmd/worker/main.go: while a job runs, `heartbeat` renews the claim of its message,
-- so that no other worker's reclaimStuck takes it.
use mathlib.Core.Option.{some-injective}
use distributed_load_testing.Common.{
  ℕ, ◌+◌, ◌-◌, ◌≤◌, ◌<◌, ◌≡◌, ◌≢◌, sym, ap, ◌∙◌, inl, inr, ◌⊎◌, Option-cases, Bool, true, false,
  some, none, List, [], ◌∷◌, ◌==◌, ==_iff, arith, Bool-cases,
}
use distributed_load_testing.Worker.Group.{Group}

-- What reaches the group while a worker runs the job of a message, each at its time: a heartbeat, which
-- fails or not; the XPENDING of a worker; a worker's XCLAIM of a message that it has seen listed, maybe
-- long ago; the XACK of a message.
pub data Event : Type 0 where
  beat : ℕ → Bool → Event
  scans : ℕ → Event
  claims : ℕ → ℕ → Event
  acks : ℕ → ℕ → Event

abbrev pub at : Event → ℕ
at (beat t success) = t
at (scans t) = t
at (claims t m) = t
at (acks t m) = t

-- The last renewal, after an event.
abbrev pub renewed : ℕ → Event → ℕ
renewed last (beat t true) = t
renewed last _ = last

-- The event does not acknowledge the message.
abbrev pub Spares : ℕ → Event → Type 0
Spares m (acks t j) = j ≢ m
Spares m _ = Unit

-- The events follow each other, the next one no later than an interval after the last renewal; and no
-- one acknowledges the message.
abbrev pub IsTimely : ℕ → ℕ → ℕ → ℕ → List Event → Type 0
IsTimely m interval last now [] = Unit
IsTimely m interval last now (e ∷ es) =
    (now ≤ at e)
    × (at e ≤ last + interval)
    × Spares m e
    × IsTimely m interval (renewed last e) (at e) es

module _ (redis : Group) where
  open redis use {
    State, idle, deliveries, touch, xclaim, xack, xpending, idle_later, idle-touch, xclaim_young,
    xclaim_other, xack_other, xpending_listed,
  }

  -- One tick of `heartbeat` for the message m.
  unfoldable pub heartbeat : ℕ → State → ℕ → Bool → State
  heartbeat m g t true = touch g t m
  heartbeat m g t false = g

  unfoldable pub after : ℕ → ℕ → State → Event → State
  unfolding heartbeat
  after m min_idle g (beat t success) = heartbeat m g t success
  after m min_idle g (scans t) = g
  after m min_idle g (claims t j) = (xclaim g t min_idle j).0
  after m min_idle g (acks t j) = xack g j

  -- The event does not take the message away: XPENDING does not list it, and XCLAIM does not give it.
  abbrev pub IsKept : ℕ → ℕ → State → Event → Type 0
  IsKept m min_idle g (scans t) = xpending g t min_idle m ≡ none
  IsKept m min_idle g (claims t j) = (j ≢ m) ⊎ ((xclaim g t min_idle j).1 ≡ false)
  IsKept m min_idle g _ = Unit

  abbrev pub IsHeld : ℕ → ℕ → State → List Event → Type 0
  IsHeld m min_idle g [] = Unit
  IsHeld m min_idle g (e ∷ es) = IsKept m min_idle g e × IsHeld m min_idle (after m min_idle g e) es

  -- The message has been idle since its last renewal.
  abbrev IsFresh : ℕ → State → ℕ → ℕ → Type 0
  IsFresh m g last now = (last ≤ now) × (idle g now m ≡ some (now - last))

  IsFresh-later :
      (m : ℕ) (g : State) (last now t : ℕ) → now ≤ t → IsFresh m g last now → IsFresh m g last t
  IsFresh-later m g last now t h (le, e) =
      (omega arith, idle_later g now t m (now - last) h e ∙ ap some (omega arith))

  unlisted :
      (m min_idle : ℕ) (g : State) (t n : ℕ)
      → idle g t m ≡ some n
      → n < min_idle
      → xpending g t min_idle m ≡ none
  unlisted m min_idle g t n e young = elim (Option-cases (xpending g t min_idle m)) [
    | inl none_listed ↦ none_listed
    | inr (c, listed) ↦
        let (n', e', old, _) = xpending_listed g t min_idle m c listed in
        let same : n' ≡ n = some-injective _ _ (sym e' ∙ e) in absurd (omega arith)
  ]

  after-IsKept :
      (m min_idle : ℕ) (g : State) (last : ℕ) (e : Event)
      → Spares m e
      → IsFresh m g last (at e)
      → at e < last + min_idle
      → IsKept m min_idle g e × IsFresh m (after m min_idle g e) (renewed last e) (at e)
  unfolding after heartbeat
  after-IsKept m min_idle g last (beat t true) spared (le, e) young =
      (tt, (omega arith, idle-touch g t m (t - last) e ∙ ap some (omega arith)))
  after-IsKept m min_idle g last (beat t false) spared fresh young = (tt, fresh)
  after-IsKept m min_idle g last (scans t) spared (le, e) young =
      (unlisted m min_idle g t (t - last) e (omega arith), (le, e))
  after-IsKept m min_idle g last (claims t j) spared (le, e) young = elim (Bool-cases (j == m)) [
    | inr apart ↦
        let other : j ≢ m = λ same. ground arith in
        (inl other, (le, xclaim_other g t t min_idle j m other ∙ e))
    | inl this ↦
        let same : j ≡ m = (==_iff j m).0 this in
        let refused = xclaim_young g t min_idle j (t - last) (rw same e) (omega arith) in
        (inr (ap (λ x. x.1) refused), (le, ap (λ x. idle x.0 t m) refused ∙ e))
  ]
  after-IsKept m min_idle g last (acks t j) spared (le, e) young =
      (tt, (le, xack_other g t j m spared ∙ e))

  -- A message that was last renewed, or delivered, at some time is not taken from the worker while its
  -- heartbeats go through in time: if the interval is shorter than the idle time that reclaimStuck
  -- asks for, no XPENDING lists the message and no XCLAIM gives it to another worker. No one may
  -- acknowledge it meanwhile.
  pub heartbeat-IsHeld :
      (m interval min_idle : ℕ) (g : State) (last now : ℕ) (events : List Event)
      → interval < min_idle
      → last ≤ now
      → idle g now m ≡ some (now - last)
      → IsTimely m interval last now events
      → IsHeld m min_idle g events
  heartbeat-IsHeld m interval min_idle g last now [] short le e timely = tt
  heartbeat-IsHeld m interval min_idle g last now (ev ∷ events) short le e
        (h, soon, spared, timely) =
      let fresh = IsFresh-later m g last now (at ev) h (le, e) in
      let (kept, (le', e')) = after-IsKept m min_idle g last ev spared fresh (omega arith) in
      (
        kept,
        heartbeat-IsHeld m interval min_idle (after m min_idle g ev) (renewed last ev) (at ev)
            events short le' e' timely,
      )
