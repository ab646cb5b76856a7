-- ===== src/Store/Concurrent/Cancelled.antt =====
-- A cancelled run ends as cancelled, whatever comes in while its last shards are finished.
use mathlib.Core.Path.{subst}
use mathlib.Core.Option.{some-injective}
use distributed_load_testing.Common.{
  ℕ, ◌<◌, ◌≡◌, refl, ap, sym, ◌∙◌, inl, inr, Bool, true, false, some, ok, arith,
}
use distributed_load_testing.Common.Table.{find?, count_where, Grows-find?}
use distributed_load_testing.Float.{Float}
use distributed_load_testing.Models.{
  Status, cancelling, cancelled, is_finishing, is_active, TestRun,
}
use distributed_load_testing.Store.{Store, no_faults, has_run_id}
use distributed_load_testing.Store.Aggregate.{to_outcome, final_status}
use distributed_load_testing.Store.Shards.{is_outstanding}
use distributed_load_testing.Store.Lifecycle.{IsKeyed, RunStep, IsNewRun, may_move}
use distributed_load_testing.Store.Lifecycle.Keys.{finish_shard-IsKeyed}
use distributed_load_testing.Store.Completion.{finish_shard-Barrier}
use distributed_load_testing.Store.Concurrent.{
  Finish, guard_of, set_of, miss_of, time_of, Database, at_rest, Run, RunCall, run_call, Step,
  write, lock_run, decide, commit_tx, write_run, roll_back, roll_back_locked, done, next,
}
use distributed_load_testing.Store.Concurrent.Serial.{
  set_of-id, Found, PhaseInv, Inv, Step-Inv, commit-finish_one, finish_one,
}
use distributed_load_testing.Store.Concurrent.Ends.{run_call-Evolves, run_call-IsKeyed, Run-ends}

-- Cancelling or cancelled.
abbrev is_stopped : Status → Bool
is_stopped cancelling = true
is_stopped cancelled = true
is_stopped _ = false

stays_stopped : (a b : Status) → may_move a b ≡ true → is_stopped a ≡ true → is_stopped b ≡ true
stays_stopped a b m h = ground arith

final_stopped :
    (n : ℕ) (st : Status)
    → is_stopped st ≡ true
    → is_finishing st ≡ true
    → is_stopped (final_status n st) ≡ true
unfolding final_status
final_stopped n cancelling h g = refl
final_stopped n _ h g = absurd (ground arith)

stopped_ends : (st : Status) → is_stopped st ≡ true → is_active st ≡ false → st ≡ cancelled
stopped_ends st h over = ground arith

module _ {F : Type 0} where
  -- The run is cancelling or cancelled.
  abbrev pub IsStopped : ℕ → Store F → Type 0
  IsStopped k s =
      (r : TestRun F) × (find? (has_run_id k) s.runs ≡ some r) × (is_stopped r.status ≡ true)

  RunStep-stays :
      (r r' : TestRun F) → RunStep r r' → is_stopped r.status ≡ true → is_stopped r'.status ≡ true
  RunStep-stays r r' st h = elim st.moved [
    | inl same ↦ rw same h
    | inr m ↦ stays_stopped r.status r'.status m h
  ]

  run_call-IsStopped :
      (c : RunCall F) (k : ℕ) (s : Store F)
      → IsKeyed s
      → IsStopped k s
      → IsStopped k (run_call c k s)
  run_call-IsStopped c k s keyed (r, found, h) =
      let (r', found', st) =
        Grows-find? (λ (r : TestRun F). r.id) RunStep IsNewRun (λ _ _ st. st.same_id) k _ _ r
          (run_call-Evolves c k s keyed).runs found in
      (r', found', RunStep-stays r r' st h)

module _ {F : Type 0} ⦃f : Float F⦄ where
  finish_one-IsStopped :
      (k : ℕ) (s : Store F) (id : ℕ) (fin : Finish F)
      → IsKeyed s
      → Found k s id fin
      → (finish_one s (id, fin)).1 ≡ ok tt
      → IsStopped k s
      → IsStopped k (finish_one s (id, fin)).0
  finish_one-IsStopped k s id fin keyed (sh, found, is_k) success (r, run_found, h) =
      elim (finish_shard-Barrier no_faults (time_of fin) s id (guard_of fin) (set_of fin)
        (miss_of fin) sh r keyed found (rw is_k run_found) success) [
          | inl (_, same) ↦ (r, rw same run_found, h)
          | inr (inl (_, finishing, o, written, _, status, _)) ↦ (
            to_outcome (time_of fin) o r,
            rw (← is_k) written,
            rw status (final_stopped _ r.status h finishing),
          )
          | inr (inr (_, _, same)) ↦ (r, rw same run_found, h)
        ]

  -- What whole calls keep, interleaved statements keep.
  module _ (P : Store F → Type 0) (k : ℕ)
      (finished : (s : Store F) (id : ℕ) (fin : Finish F)
        → Found k s id fin
        → (finish_one s (id, fin)).1 ≡ ok tt
        → P s
        → P (finish_one s (id, fin)).0)
      (written : (c : RunCall F) (s : Store F) → P s → P (run_call c k s)) where
    Step-keeps : (d e : Database F) → Step k d e → Inv k d → P d.committed → P e.committed
    Step-keeps d _ (write _ id fin sh p found is_k) inv h = h
    Step-keeps d _ (lock_run _ id fin p free) inv h = h
    Step-keeps d _ (decide _ id fin s p out) inv h = h
    Step-keeps d _ (commit_tx _ id fin s p) inv h =
        let (found, held, out) = subst (PhaseInv k d.committed d.holder id) p (inv id) in
        let same = commit-finish_one k d.committed s id fin found out in
        subst P (ap (λ x. x.0) same) (finished d.committed id fin found (ap (λ x. x.1) same) h)
    Step-keeps d _ (write_run _ c free) inv h = written c d.committed h
    Step-keeps d _ (roll_back _ id fin p) inv h = h
    Step-keeps d _ (roll_back_locked _ id held) inv h = h

    Run-keeps : (d e : Database F) → Run k d e → Inv k d → P d.committed → Inv k e × P e.committed
    Run-keeps d _ (done _) inv h = (inv, h)
    Run-keeps d g (next _ e _ step rest) inv h =
        Run-keeps e g rest (Step-Inv k d e step inv) (Step-keeps d e step inv h)

  finish_one-IsKeyed :
      (s : Store F) (id : ℕ) (fin : Finish F) → IsKeyed s → IsKeyed (finish_one s (id, fin)).0
  finish_one-IsKeyed s id fin =
      finish_shard-IsKeyed no_faults (time_of fin) s id (guard_of fin) (set_of fin) (miss_of fin)
        (set_of-id fin)

  Run-append : (k : ℕ) (d e g : Database F) → Run k d e → Run k e g → Run k d g
  Run-append k d e g (done _) rest = rest
  Run-append k d e g (next _ d' _ step run) rest = next d d' g step (Run-append k d' e g run rest)

  -- However finishes of its shards are interleaved, with each other and with calls that claim,
  -- start, take over, fail, complete or cancel the run, a run that is found cancelling on the way is cancelled at the end,
  -- once no shard is outstanding. It was running or cancelling with a shard outstanding at the start,
  -- when no finish was under way; ids are distinct.
  pub Run-cancelled :
      (k : ℕ) (s : Store F) (r : TestRun F) (d e : Database F)
      → IsKeyed s
      → find? (has_run_id k) s.runs ≡ some r
      → is_finishing r.status ≡ true
      → 0 < count_where (is_outstanding k) s.shards
      → Run k (at_rest s) d
      → IsStopped k d.committed
      → Run k d e
      → count_where (is_outstanding k) e.committed.shards ≡ 0
      → (r' : TestRun F) × (find? (has_run_id k) e.committed.runs ≡ some r')
        × (r'.status ≡ cancelled)
  Run-cancelled k s r d e keyed found finishing left before stopped after none_left =
      let (inv, keyed_d) =
        Run-keeps IsKeyed k (λ s id fin _ _. finish_one-IsKeyed s id fin)
          (λ c s. run_call-IsKeyed c k s) (at_rest s) d before (λ _. tt) keyed in
      let (_, (_, (r', found', h))) =
        Run-keeps (λ s. IsKeyed s × IsStopped k s) k
          (λ s id fin here success (keyed, h). (
            finish_one-IsKeyed s id fin keyed,
            finish_one-IsStopped k s id fin keyed here success h,
          ))
          (λ c s (keyed, h). (run_call-IsKeyed c k s keyed, run_call-IsStopped c k s keyed h)) d e
          after inv (keyed_d, stopped) in
      let (x, found_x, over) =
        Run-ends k s r e keyed found finishing left (Run-append k (at_rest s) d e before after)
          none_left in
      let same : r' ≡ x = some-injective _ _ (sym found' ∙ found_x) in
      (r', found', stopped_ends r'.status h (rw same over))
