-- ===== src/Examples/Groups.antt =====
-- A consumer group in which the laws of the commands hold: for each message that is pending, when it
-- was last given or renewed, and how often it was given.
use distributed_load_testing.Common.{
  ℕ, suc, ◌+◌, ◌-◌, ◌≤◌, ◌<◌, ◌≡◌, ◌≢◌, refl, ap, Bool, true, false, Option, none, some, List, [],
  ◌∷◌, arith, ◌==◌, leb, ==_refl, ==_iff, if◌then◌else◌, Bool-cases, Option-cases, inl, inr,
}
use distributed_load_testing.Worker.Group.{Group}
use distributed_load_testing.Worker.Lease.{Event, IsHeld, heartbeat-IsHeld}

abbrev Pending : Type 0
Pending = ℕ → Option (ℕ × ℕ)

abbrev age : ℕ → ℕ → Option ℕ
age since t = if leb since t then some (t - since) else none

abbrev idle_of : Option (ℕ × ℕ) → ℕ → Option ℕ
idle_of none t = none
idle_of (some (since, count)) t = age since t

abbrev count_of : Option (ℕ × ℕ) → ℕ
count_of none = 0
count_of (some (since, count)) = count

abbrev put : Pending → ℕ → Option (ℕ × ℕ) → Pending
put g m e j = if m == j then e else g j

abbrev touched : Option (ℕ × ℕ) → ℕ → Option (ℕ × ℕ)
touched none t = none
touched (some (since, count)) t = some (t, count)

abbrev is_old : Option ℕ → ℕ → Bool
is_old none min = false
is_old (some n) min = leb min n

abbrev claim : Pending → ℕ → ℕ → ℕ → Pending × Bool
claim g t min m =
    if is_old (idle_of (g m) t) min
    then (put g m (some (t, suc (count_of (g m)))), true)
    else (g, false)

abbrev listing : Pending → ℕ → ℕ → ℕ → Option ℕ
listing g t min m = if is_old (idle_of (g m) t) min then some (count_of (g m)) else none

put_same : (g : Pending) (m : ℕ) (e : Option (ℕ × ℕ)) → put g m e m ≡ e
put_same g m e = rw (==_refl m) refl

put_other : (g : Pending) (m j : ℕ) (e : Option (ℕ × ℕ)) → m ≢ j → put g m e j ≡ g j
put_other g m j e apart = let other : (m == j) ≡ false = ground arith in rw other refl

idle_of-later :
    (e : Option (ℕ × ℕ)) (t t' n : ℕ)
    → t ≤ t'
    → idle_of e t ≡ some n
    → idle_of e t' ≡ some (n + (t' - t))
idle_of-later none t t' n h e = absurd (cc)
idle_of-later (some (since, count)) t t' n h e = ground arith

idle_of-touched :
    (e : Option (ℕ × ℕ)) (t n : ℕ) → idle_of e t ≡ some n → idle_of (touched e t) t ≡ some 0
idle_of-touched none t n e = absurd (cc)
idle_of-touched (some (since, count)) t n e = ground arith

count_of-touched : (e : Option (ℕ × ℕ)) (t : ℕ) → count_of (touched e t) ≡ count_of e
count_of-touched none t = refl
count_of-touched (some (since, count)) t = refl

never_idle : (e : Option (ℕ × ℕ)) → ((t : ℕ) → idle_of e t ≡ none) → e ≡ none
never_idle none h = refl
never_idle (some (since, count)) h = absurd (ground (arith, h since))

age_now : (t : ℕ) → age t t ≡ some 0
age_now t = ground arith

count_of-put : (g : Pending) (t m j : ℕ) → count_of (put g m (touched (g m) t) j) ≡ count_of (g j)
count_of-put g t m j = elim (Bool-cases (m == j)) [
  | inl this ↦ rw (this, count_of-touched (g m) t) (ap (λ k. count_of (g k)) ((==_iff m j).0 this))
  | inr other ↦ rw other refl
]

claim_old :
    (g : Pending) (t min m n : ℕ)
    → idle_of (g m) t ≡ some n
    → min ≤ n
    → let (g', given) = claim g t min m in
      (given ≡ true) × (idle_of (g' m) t ≡ some 0) × (count_of (g' m) ≡ suc (count_of (g m)))
claim_old g t min m n e old =
    let is_due : is_old (idle_of (g m) t) min ≡ true = rw e (ground arith) in
    rw (is_due, put_same g m (some (t, suc (count_of (g m))))) (refl, age_now t, refl)

claim_young :
    (g : Pending) (t min m n : ℕ)
    → idle_of (g m) t ≡ some n
    → n < min
    → claim g t min m ≡ (g, false)
claim_young g t min m n e young =
    let is_young : is_old (idle_of (g m) t) min ≡ false = rw e (ground arith) in rw is_young refl

claim_other :
    (g : Pending) (t t' min m j : ℕ) → m ≢ j → idle_of ((claim g t min m).0 j) t' ≡ idle_of (g j) t'
claim_other g t t' min m j apart = elim (Bool-cases (is_old (idle_of (g m) t) min)) [
  | inl old ↦ rw (old, put_other g m j (some (t, suc (count_of (g m)))) apart) refl
  | inr young ↦ rw young refl
]

listing_sound :
    (g : Pending) (t min m c : ℕ)
    → listing g t min m ≡ some c
    → (n : ℕ) × (idle_of (g m) t ≡ some n) × (min ≤ n) × (c ≡ count_of (g m))
listing_sound g t min m c e = elim (Option-cases (idle_of (g m) t)) [
  | inl young ↦ absurd (ground (arith, rw young at e))
  | inr (n, found) ↦ (n, found, ground (arith, rw found at e), ground (arith, rw found at e))
]

abbrev group_a : Group
group_a = record {
  State = Pending;
  idle = λ g t m. idle_of (g m) t;
  deliveries = λ g m. count_of (g m);
  touch = λ g t m. put g m (touched (g m) t);
  xclaim = claim;
  xack = λ g m. put g m none;
  xpending = listing;
  idle_later = λ g t t' m n. idle_of-later (g m) t t' n;
  idle-touch = λ g t m n e. rw (put_same g m (touched (g m) t)) (idle_of-touched (g m) t n e);
  deliveries-touch = count_of-put;
  touch_gone = λ g t m gone t'. rw (put_same g m (touched (g m) t), never_idle (g m) gone) refl;
  xclaim_old = claim_old;
  xclaim_young = claim_young;
  xclaim_other = claim_other;
  xack_other = λ g t' m j apart. rw (put_other g m j none apart) refl;
  xack_gone = λ g t m. rw (put_same g m none) refl;
  xpending_listed = listing_sound;
}

-- Message 7 was given at time 100, for the third time.
abbrev pending_a : Pending
pending_a j = if j == 7 then some (100, 3) else none

-- Heartbeats every 2 seconds, one of which fails, while another worker asks for what has been idle for
-- 15 seconds.
abbrev events_a : List Event
events_a =
    Event.beat 2100 true
    ∷ Event.scans 3000
    ∷ Event.beat 4100 false
    ∷ Event.claims 5000 7
    ∷ Event.beat 6100 true
    ∷ Event.acks 6200 8
    ∷ Event.scans 8000
    ∷ []

heartbeat-IsHeld_example : IsHeld group_a 7 15000 pending_a events_a
heartbeat-IsHeld_example =
    heartbeat-IsHeld group_a 7 4000 15000 pending_a 100 100 events_a (omega arith) (omega arith)
      refl (ground arith)
