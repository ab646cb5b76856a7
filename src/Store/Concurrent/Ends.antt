-- ===== src/Store/Concurrent/Ends.antt =====
-- Concurrent finishes never leave a run behind: when its last shard is finished, the run ends.
use mathlib.Core.Path.{subst}
use distributed_load_testing.Common.{
  ℕ, ◌<◌, ◌≡◌, refl, true, false, sym, ◌⊎◌, inl, inr, some, List, [], ◌∷◌, ok, arith,
}
use distributed_load_testing.Common.Table.{find?, count_where, Grows-find?}
use distributed_load_testing.Float.{Float}
use distributed_load_testing.Models.{
  Status, completed, failed, is_running, is_finishing, is_active, TestRun,
}
use distributed_load_testing.Store.{Store, no_faults, has_run_id, run_where}
use distributed_load_testing.Store.Aggregate.{to_outcome}
use distributed_load_testing.Store.Shards.{is_outstanding}
use distributed_load_testing.Store.Lifecycle.{IsKeyed, Evolves, RunStep, IsNewRun, may_move}
use distributed_load_testing.Store.Lifecycle.Runs.{
  answer-Evolves, start_by_id-Evolves, take_over-Evolves, fail-Evolves, claim_next-Evolves,
  cancel_run-Evolves,
}
use distributed_load_testing.Store.Runs.{
  start_by_id, take_over, fail, complete_as, to_complete, cancel_run,
}
use distributed_load_testing.Store.Lifecycle.Keys.{
  finish_shard-IsKeyed, update_run-IsKeyed, claim_next-IsKeyed,
}
use distributed_load_testing.Store.Completion.{finish_shard-Barrier}
use distributed_load_testing.Store.Concurrent.{
  Finish, guard_of, set_of, miss_of, time_of, Database, at_rest, Run, RunCall, run_call, starts,
  takes_over, fails_run, completes_run, claims_next, cancels,
}
use distributed_load_testing.Store.Concurrent.Serial.{
  set_of-id, Found, finish_one, Act, finishes, writes_run, IsSerial, Run-IsSerial, run_call-shards,
}

may_move-ends :
    (a b : Status)
    → may_move a b ≡ true
    → is_finishing a ≡ true
    → (is_finishing b ≡ true) ⊎ (is_active b ≡ false)
may_move-ends a b m h = ground arith

no_move : (a b : Status) → is_active a ≡ false → may_move a b ≡ true → ⊥
no_move a b h m = ground arith

module _ {F : Type 0} where
  -- The run is over.
  abbrev pub IsOver : ℕ → Store F → Type 0
  IsOver k s =
      (r : TestRun F) × (find? (has_run_id k) s.runs ≡ some r) × (is_active r.status ≡ false)

  -- The run is under way, and a shard of it is outstanding.
  abbrev pub IsUnderWay : ℕ → Store F → Type 0
  IsUnderWay k s =
      (r : TestRun F) × (find? (has_run_id k) s.runs ≡ some r)
      × (is_finishing r.status ≡ true)
      × (0 < count_where (is_outstanding k) s.shards)

  pub run_call-Evolves :
      (c : RunCall F) (k : ℕ) (s : Store F) → IsKeyed s → Evolves s (run_call c k s)
  unfolding run_call complete_as
  run_call-Evolves (starts now) k s keyed = start_by_id-Evolves no_faults now s k
  run_call-Evolves (takes_over now) k s keyed = take_over-Evolves no_faults now s k
  run_call-Evolves (fails_run now reason) k s keyed = fail-Evolves no_faults now s k reason
  run_call-Evolves (completes_run now true req) k s keyed =
      answer-Evolves no_faults s (run_where k is_running) (to_complete now completed req) _
        λ r h. ground arith
  run_call-Evolves (completes_run now false req) k s keyed =
      answer-Evolves no_faults s (run_where k is_running) (to_complete now failed req) _
        λ r h. ground arith
  run_call-Evolves (claims_next now others) k s keyed =
      claim_next-Evolves no_faults now others s keyed.run_ids
  run_call-Evolves cancels k s keyed = cancel_run-Evolves no_faults s k

  pub run_call-IsKeyed :
      (c : RunCall F) (k : ℕ) (s : Store F) → IsKeyed s → IsKeyed (run_call c k s)
  unfolding run_call start_by_id take_over fail complete_as cancel_run
  run_call-IsKeyed (starts now) k s = update_run-IsKeyed no_faults s _ _ _ (λ _. refl)
  run_call-IsKeyed (takes_over now) k s = update_run-IsKeyed no_faults s _ _ _ (λ _. refl)
  run_call-IsKeyed (fails_run now reason) k s = update_run-IsKeyed no_faults s _ _ _ (λ _. refl)
  run_call-IsKeyed (completes_run now true req) k s =
      update_run-IsKeyed no_faults s _ _ _ (λ _. refl)
  run_call-IsKeyed (completes_run now false req) k s =
      update_run-IsKeyed no_faults s _ _ _ (λ _. refl)
  run_call-IsKeyed (claims_next now others) k s = claim_next-IsKeyed no_faults now others s
  run_call-IsKeyed cancels k s = update_run-IsKeyed no_faults s _ _ _ (λ _. refl)

  RunStep-ends :
      (r r' : TestRun F)
      → RunStep r r'
      → is_finishing r.status ≡ true
      → (is_finishing r'.status ≡ true) ⊎ (is_active r'.status ≡ false)
  RunStep-ends r r' st finishing = elim st.moved [
    | inl same ↦ inl (rw same finishing)
    | inr m ↦ may_move-ends r.status r'.status m finishing
  ]

  RunStep-over :
      (r r' : TestRun F) → RunStep r r' → is_active r.status ≡ false → is_active r'.status ≡ false
  RunStep-over r r' st over = elim st.moved [
    | inl same ↦ rw same over
    | inr m ↦ absurd (no_move r.status r'.status over m)
  ]

  -- A call that writes the run leaves it under way or over.
  run_call-ends :
      (c : RunCall F) (k : ℕ) (s : Store F)
      → IsKeyed s
      → IsUnderWay k s ⊎ IsOver k s
      → IsUnderWay k (run_call c k s) ⊎ IsOver k (run_call c k s)
  run_call-ends c k s keyed (inl (r, found, finishing, left)) =
      let (r', found', st) =
        Grows-find? (λ (r : TestRun F). r.id) RunStep IsNewRun (λ _ _ st. st.same_id) k _ _ r
          (run_call-Evolves c k s keyed).runs found in
      elim (RunStep-ends r r' st finishing) [
        | inl still ↦ inl (r', found', still, rw (run_call-shards c k s) left)
        | inr over ↦ inr (r', found', over)
      ]
  run_call-ends c k s keyed (inr (r, found, over)) =
      let (r', found', st) =
        Grows-find? (λ (r : TestRun F). r.id) RunStep IsNewRun (λ _ _ st. st.same_id) k _ _ r
          (run_call-Evolves c k s keyed).runs found in
      inr (r', found', RunStep-over r r' st over)

module _ {F : Type 0} ⦃f : Float F⦄ where
  finish_one-ends :
      (k : ℕ) (s : Store F) (id : ℕ) (fin : Finish F)
      → IsKeyed s
      → Found k s id fin
      → (finish_one s (id, fin)).1 ≡ ok tt
      → IsUnderWay k s ⊎ IsOver k s
      → IsUnderWay k (finish_one s (id, fin)).0 ⊎ IsOver k (finish_one s (id, fin)).0
  finish_one-ends k s id fin keyed (sh, found, is_k) success (inl (r, run_found, finishing, _)) =
      elim (finish_shard-Barrier no_faults (time_of fin) s id (guard_of fin) (set_of fin)
        (miss_of fin) sh r keyed found (rw is_k run_found) success) [
          | inl (left, same) ↦ inl (r, rw same run_found, finishing, rw (← is_k) left)
          | inr (inl (_, _, o, written, _, _, over)) ↦
              inr (to_outcome (time_of fin) o r, rw (← is_k) written, over)
          | inr (inr (_, idle, _)) ↦ absurd (cc)
        ]
  finish_one-ends k s id fin keyed (sh, found, is_k) success (inr (r, run_found, over)) =
      elim (finish_shard-Barrier no_faults (time_of fin) s id (guard_of fin) (set_of fin)
        (miss_of fin) sh r keyed found (rw is_k run_found) success) [
          | inl (_, same) ↦ inr (r, rw same run_found, over)
          | inr (inl (_, finishing, _, _, _, _, _)) ↦ absurd (ground arith)
          | inr (inr (_, _, same)) ↦ inr (r, rw same run_found, over)
        ]

  IsSerial-ends :
      (k : ℕ) (s s' : Store F) (cs : List (Act F))
      → IsKeyed s
      → IsSerial k s cs s'
      → IsUnderWay k s ⊎ IsOver k s
      → IsUnderWay k s' ⊎ IsOver k s'
  IsSerial-ends k s s' [] keyed same now =
      subst (λ (t : Store F). IsUnderWay k t ⊎ IsOver k t) (sym same) now
  IsSerial-ends k s s' (writes_run c ∷ cs) keyed rest now =
      IsSerial-ends k (run_call c k s) s' cs (run_call-IsKeyed c k s keyed) rest
        (run_call-ends c k s keyed now)
  IsSerial-ends k s s' (finishes id fin ∷ cs) keyed (found, success, rest) now =
      IsSerial-ends k (finish_one s (id, fin)).0 s' cs
        (finish_shard-IsKeyed no_faults (time_of fin) s id (guard_of fin) (set_of fin) (miss_of fin)
          (set_of-id fin) keyed)
        rest (finish_one-ends k s id fin keyed found success now)

  -- However concurrent finishes of its shards are interleaved, with each other and with calls that
  -- claim, start, take over, fail, complete or cancel the run, a run that was running or cancelling with a shard
  -- outstanding is over as soon as no shard is outstanding in the committed tables. Ids are distinct,
  -- and no finish was under way at the start.
  pub Run-ends :
      (k : ℕ) (s : Store F) (r : TestRun F) (e : Database F)
      → IsKeyed s
      → find? (has_run_id k) s.runs ≡ some r
      → is_finishing r.status ≡ true
      → 0 < count_where (is_outstanding k) s.shards
      → Run k (at_rest s) e
      → count_where (is_outstanding k) e.committed.shards ≡ 0
      → IsOver k e.committed
  Run-ends k s r e keyed found finishing some_left run none_left =
      let (calls, serial) = Run-IsSerial k s e run in
      elim (IsSerial-ends k s e.committed calls keyed serial
        (inl (r, found, finishing, some_left))) [
          | inl (_, _, _, left) ↦ absurd (omega arith)
          | inr over ↦ over
        ]
