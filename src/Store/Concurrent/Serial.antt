-- ===== src/Store/Concurrent/Serial.antt =====
-- The row lock of the run makes concurrent finishes serial: what is committed is what the finishes
-- would have left one after another, in the order of their commits.
use mathlib.Core.Path.{subst}
use mathlib.Core.Option.{some-injective}
use distributed_load_testing.Common.{
  ℕ, ◌≡◌, ◌≢◌, refl, ◌∙◌, inl, inr, Bool, true, false, ◌==◌, Option, none, some, List, [], ◌∷◌,
  Result, ok, arith, Bool-cases, Option-cases, ==_iff,
}
use distributed_load_testing.Common.Table.{find?, update_where}
use distributed_load_testing.Float.{Float}
use distributed_load_testing.Models.{Status, TestRun}
use distributed_load_testing.Store.Runs.{
  update_run, answer, start_by_id, take_over, fail, complete_as, claim_next, oldest_queued,
  cancel_run,
}
use distributed_load_testing.Store.{StoreError, Shard, Store, no_faults, shard_where}
use distributed_load_testing.Store.Shards.{barrier, finish_tx, finish_shard}
use distributed_load_testing.Store.Closing.{barrier-shards}
use distributed_load_testing.Store.Concurrent.{
  Finish, completes, fails, guard_of, set_of, miss_of, time_of, Phase, idle, wrote, locked, decided,
  Database, set_phase, view, at_rest, Step, write, lock_run, decide, commit_tx, write_run,
  roll_back, roll_back_locked, RunCall, run_call, starts, takes_over, fails_run, completes_run,
  claims_next, cancels, Run, done, next,
}

-- A whole call.
pub data Act (F : Type 0) : Type 0 where
  finishes : ℕ → Finish F → Act F
  writes_run : RunCall F → Act F

none-ne-some : (id : ℕ) → ◌≢◌ {A = Option ℕ} none (some id)
none-ne-some id e = cc

other_holder : (id j : ℕ) → id ≢ j → ◌≢◌ {A = Option ℕ} (some id) (some j)
other_holder id j apart e = apart (some-injective _ _ e)

module _ {F : Type 0} where
  find?-other :
      (id j : ℕ) (g g' : Status → Bool) (set : Shard F → Shard F)
      → ((x : Shard F) → (set x).id ≡ x.id)
      → id ≢ j
      → (xs : List (Shard F))
      → find? (shard_where j g') (update_where (shard_where id g) set xs)
        ≡ find? (shard_where j g') xs
  unfolding find? update_where
  find?-other id j g g' set same apart [] = refl
  find?-other id j g g' set same apart (x ∷ xs) =
      ground (arith, same x, apart, find?-other id j g g' set same apart xs)

  pub set_of-id : (fin : Finish F) (x : Shard F) → (set_of fin x).id ≡ x.id
  set_of-id (completes now st req) x = refl
  set_of-id (fails now reason) x = refl

  answer_shards :
      (s : Store F) (p : TestRun F → Bool) (set : TestRun F → TestRun F)
      (miss : Result StoreError (TestRun F))
      → (answer (update_run no_faults s p set) miss).0.shards ≡ s.shards
  unfolding update_run answer
  answer_shards s p set miss = elim (Option-cases (find? p s.runs)) [
    | inl m ↦ rw m refl
    | inr (r, m) ↦ rw m refl
  ]

  claim_next_shards :
      (now : ℕ) (others : ℕ → Bool) (s : Store F)
      → (claim_next no_faults now others s).0.shards ≡ s.shards
  unfolding claim_next
  claim_next_shards now others s = elim (Option-cases (oldest_queued others s.runs)) [
    | inl m ↦ rw m refl
    | inr (r, m) ↦ rw m refl
  ]

  -- The other methods write no shard.
  pub run_call-shards : (c : RunCall F) (k : ℕ) (s : Store F) → (run_call c k s).shards ≡ s.shards
  unfolding run_call start_by_id take_over fail complete_as claim_next cancel_run
  run_call-shards (starts now) k s = answer_shards s _ _ _
  run_call-shards (takes_over now) k s = answer_shards s _ _ _
  run_call-shards (fails_run now reason) k s = answer_shards s _ _ _
  run_call-shards (completes_run now true req) k s = answer_shards s _ _ _
  run_call-shards (completes_run now false req) k s = answer_shards s _ _ _
  run_call-shards (claims_next now others) k s = claim_next_shards now others s
  run_call-shards cancels k s = answer_shards s _ _ _

  -- The shard that a transaction has written is, as committed, in the state that it asked for.
  abbrev pub Found : ℕ → Store F → ℕ → Finish F → Type 0
  Found k s id fin =
      (sh : Shard F) × (find? (shard_where id (guard_of fin)) s.shards ≡ some sh) × (sh.run_id ≡ k)

module _ {F : Type 0} ⦃f : Float F⦄ where
  -- What holds of a transaction in its phase, given the committed tables and the lock's holder.
  abbrev pub PhaseInv : ℕ → Store F → Option ℕ → ℕ → Phase F → Type 0
  PhaseInv k s holder id idle = Unit
  PhaseInv k s holder id (wrote fin) = Found k s id fin
  PhaseInv k s holder id (locked fin) = Found k s id fin × (holder ≡ some id)
  PhaseInv k s holder id (decided fin out) =
      Found k s id fin
      × (holder ≡ some id)
      × (barrier no_faults (time_of fin) (view s id fin) k ≡ ok out)

  abbrev pub Inv : ℕ → Database F → Type 0
  Inv k d = (id : ℕ) → PhaseInv k d.committed d.holder id (d.phase id)

  -- No other transaction is past the lock.
  PhaseInv-released :
      (k : ℕ) (s s' : Store F) (holder : Option ℕ) (j : ℕ) (p : Phase F)
      → holder ≢ some j
      → ((fin : Finish F) → Found k s j fin → Found k s' j fin)
      → PhaseInv k s holder j p
      → (h : Option ℕ) → PhaseInv k s' h j p
  PhaseInv-released k s s' holder j idle other keep inv h = tt
  PhaseInv-released k s s' holder j (wrote fin) other keep inv h = keep fin inv
  PhaseInv-released k s s' holder j (locked fin) other keep (_, held) h = absurd (other held)
  PhaseInv-released k s s' holder j (decided fin out) other keep (_, held, _) h =
      absurd (other held)

  -- A step of one transaction keeps the invariant, if it holds of that one's new phase and of the
  -- phases of the others.
  Inv-set_phase :
      (k : ℕ) (s s' : Store F) (h h' : Option ℕ) (ph : ℕ → Phase F) (id : ℕ) (p : Phase F)
      → PhaseInv k s' h' id p
      → ((j : ℕ) → id ≢ j → PhaseInv k s h j (ph j) → PhaseInv k s' h' j (ph j))
      → ((j : ℕ) → PhaseInv k s h j (ph j))
      → (j : ℕ) → PhaseInv k s' h' j (set_phase ph id p j)
  Inv-set_phase k s s' h h' ph id p mine others inv j = elim (Bool-cases (id == j)) [
    | inl e ↦ rw e (subst (λ n. PhaseInv k s' h' n p) ((==_iff _ _).0 e) mine)
    | inr e ↦ rw e (others j (λ same. ground arith) (inv j))
  ]

  Found-other :
      (k : ℕ) (s s' : Store F) (id j : ℕ) (fin : Finish F)
      → id ≢ j
      → s'.shards ≡ update_where (shard_where id (guard_of fin)) (set_of fin) s.shards
      → (fin' : Finish F) → Found k s j fin'
      → Found k s' j fin'
  Found-other k s s' id j fin apart same fin' (sh, found, is_k) = (
    sh,
    rw same (
        find?-other id j (guard_of fin) (guard_of fin') (set_of fin) (set_of-id fin) apart s.shards
        ∙ found),
    is_k,
  )

  pub Step-Inv : (k : ℕ) (d e : Database F) → Step k d e → Inv k d → Inv k e
  Step-Inv k d _ (write _ id fin sh p found is_k) inv =
      Inv-set_phase k d.committed d.committed d.holder d.holder d.phase id (wrote fin)
        (sh, found, is_k) (λ j _ h. h) inv
  Step-Inv k d _ (lock_run _ id fin p free) inv =
      Inv-set_phase k d.committed d.committed d.holder (some id) d.phase id (locked fin)
        (subst (PhaseInv k d.committed d.holder id) p (inv id), refl)
        (λ j _ h.
          PhaseInv-released k d.committed d.committed d.holder j (d.phase j)
            (rw free (none-ne-some j)) (λ _ x. x) h (some id))
        inv
  Step-Inv k d _ (decide _ id fin s p out) inv =
      let (found, held) = subst (PhaseInv k d.committed d.holder id) p (inv id) in
      Inv-set_phase k d.committed d.committed d.holder d.holder d.phase id (decided fin s)
        (found, held, out) (λ j _ h. h) inv
  Step-Inv k d _ (commit_tx _ id fin s p) inv =
      let (found, held, out) = subst (PhaseInv k d.committed d.holder id) p (inv id) in
      Inv-set_phase k d.committed s d.holder none d.phase id idle tt
        (λ j apart h.
          PhaseInv-released k d.committed s d.holder j (d.phase j)
            (rw held (other_holder id j apart))
            (Found-other k d.committed s id j fin apart
              (barrier-shards no_faults (time_of fin) (view d.committed id fin) k s out))
            h none)
        inv
  Step-Inv k d _ (write_run _ c free) inv = λ j.
      PhaseInv-released k d.committed (run_call c k d.committed) d.holder j (d.phase j)
        (rw free (none-ne-some j))
        (λ fin (sh, found, is_k). (sh, rw (run_call-shards c k d.committed) found, is_k)) (inv j)
        d.holder
  Step-Inv k d _ (roll_back _ id fin p) inv =
      Inv-set_phase k d.committed d.committed d.holder d.holder d.phase id idle tt (λ j _ h. h) inv
  Step-Inv k d _ (roll_back_locked _ id held) inv =
      Inv-set_phase k d.committed d.committed d.holder none d.phase id idle tt
        (λ j apart h.
          PhaseInv-released k d.committed d.committed d.holder j (d.phase j)
            (rw held (other_holder id j apart)) (λ _ x. x) h none)
        inv

  -- A finish as one call of finishShard.
  abbrev pub finish_one : Store F → ℕ × Finish F → Store F × Result StoreError (Unit {0})
  finish_one s (id, fin) =
      finish_shard no_faults (time_of fin) s id (guard_of fin) (set_of fin) (miss_of fin)

  -- The second tables are the first after whole calls, of which the finishes are of the run's shards
  -- and all succeed.
  abbrev pub IsSerial : ℕ → Store F → List (Act F) → Store F → Type 0
  IsSerial k s [] s' = s' ≡ s
  IsSerial k s (writes_run c ∷ cs) s' = IsSerial k (run_call c k s) cs s'
  IsSerial k s (finishes id fin ∷ cs) s' =
      Found k s id fin
      × ((finish_one s (id, fin)).1 ≡ ok tt)
      × IsSerial k (finish_one s (id, fin)).0 cs s'

  pub commit-finish_one :
      (k : ℕ) (s s' : Store F) (id : ℕ) (fin : Finish F)
      → Found k s id fin
      → barrier no_faults (time_of fin) (view s id fin) k ≡ ok s'
      → finish_one s (id, fin) ≡ (s', ok tt)
  unfolding finish_shard finish_tx
  commit-finish_one k s s' id fin (sh, found, is_k) out =
      let passed : barrier no_faults (time_of fin) (view s id fin) sh.run_id ≡ ok s' =
        rw is_k out in
      rw (found, passed, finish_shard, finish_tx) refl

  Step-then :
      (k : ℕ) (d e : Database F) (s : Store F) (cs : List (Act F))
      → Step k d e
      → Inv k d
      → IsSerial k e.committed cs s
      → (calls : List (Act F)) × IsSerial k d.committed calls s
  Step-then k d _ s cs (write _ id fin sh p found is_k) inv rest = (cs, rest)
  Step-then k d _ s cs (lock_run _ id fin p free) inv rest = (cs, rest)
  Step-then k d _ s cs (decide _ id fin out p e) inv rest = (cs, rest)
  Step-then k d _ s cs (commit_tx _ id fin out p) inv rest =
      let (found, held, e) = subst (PhaseInv k d.committed d.holder id) p (inv id) in
      let same = commit-finish_one k d.committed out id fin found e in
      (finishes id fin ∷ cs, (found, rw same refl, rw same rest))
  Step-then k d _ s cs (write_run _ c free) inv rest = (writes_run c ∷ cs, rest)
  Step-then k d _ s cs (roll_back _ id fin p) inv rest = (cs, rest)
  Step-then k d _ s cs (roll_back_locked _ id held) inv rest = (cs, rest)

  serialize :
      (k : ℕ) (d e : Database F)
      → Inv k d
      → Run k d e
      → (calls : List (Act F)) × IsSerial k d.committed calls e.committed
  serialize k d _ inv (done _) = ([], refl)
  serialize k d g inv (next _ e _ step rest) =
      let (calls, serial) = serialize k e g (Step-Inv k d e step inv) rest in
      Step-then k d e g.committed calls step inv serial

  -- However the statements of concurrent finishes of a run's shards are interleaved, with each other
  -- and with calls that claim, start, take over, fail, complete or cancel the run, from a moment at which no finish is
  -- under way, the committed tables are those that whole calls leave, one after another; each finish
  -- finds its shard and succeeds.
  pub Run-IsSerial :
      (k : ℕ) (s : Store F) (e : Database F)
      → Run k (at_rest s) e
      → (calls : List (Act F)) × IsSerial k s calls e.committed
  Run-IsSerial k s e run = serialize k (at_rest s) e (λ _. tt) run
