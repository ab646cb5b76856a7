-- ===== src/Store/Lifecycle/Shards.antt =====
-- Each method on shards makes only allowed moves, and so does the run that the barrier finishes.
use mathlib.Core.Path.{subst}
use distributed_load_testing.Common.{
  zero, suc, ℕ, ◌≡◌, refl, sym, ap, ◌⊎◌, inl, inr, Bool, true, false, ◌||◌, some, String, Result,
  ok, arith, Bool-cases, Option-cases, &&_true, ==_iff,
}
use distributed_load_testing.Common.Table.{
  Grows, Grows-refl, Distinct, find?, update_where, update_where-Grows, update_key-Grows,
}
use distributed_load_testing.Float.{Float}
use distributed_load_testing.Models.{
  Status, completed, failed, is_queued, is_running, is_open, is_finishing, parse_status, TestRun,
  CompleteShardRequest,
}
use distributed_load_testing.Store.{
  StoreError, Shard, Store, Faults, update, decode, flip, has_run_id, run_where, shard_where,
}
use distributed_load_testing.Store.Runs.{to_running}
use distributed_load_testing.Store.Aggregate.{Outcome, final_status, aggregate_run, to_outcome}
use distributed_load_testing.Store.Shards.{
  shard_to_running, start_guard, claim_shard, start_shard, take_over_shard, to_partial,
  shard_to_failed, finish_shard, complete_shard_as, complete_shard, fail_shard,
}
use distributed_load_testing.Store.Lifecycle.Barrier.{
  aggregate_run-ok, barrier-ok, finish_shard-cases,
}
use distributed_load_testing.Store.Lifecycle.{
  RunStep, RunStep-refl, ShardStep, ShardStep-refl, IsNewRun, IsNewShard, Evolves, Evolves-refl,
}

module _ {F : Type 0} where
  shard_to_running-ShardStep :
      (allow : Bool) (now id : ℕ) (sh : Shard F)
      → shard_where id (start_guard allow) sh ≡ true
      → ShardStep sh (shard_to_running now sh)
  shard_to_running-ShardStep true now id sh h = ground arith
  shard_to_running-ShardStep false now id sh h = ground arith

  -- What a claim leaves: the tables as they were; or the shard claimed and its run not yet flipped;
  -- or both written.
  pub claim_shard-cases :
      (db : Faults) (now : ℕ) (s : Store F) (id : ℕ) (allow : Bool) (miss : StoreError)
      → let s' = (claim_shard db now s id allow miss).0 in
        let guard = shard_where id (start_guard allow) in
        (s' ≡ s)
        ⊎ ((s' ≡ record s { shards = update_where guard (shard_to_running now) s.shards })
            ⊎ ((k : ℕ) × (s' ≡ record s {
              shards = update_where guard (shard_to_running now) s.shards;
              runs = update_where (run_where k is_queued) (to_running now) s.runs;
            })))
  unfolding claim_shard
  claim_shard-cases db now s id allow miss = elim (Bool-cases (db update)) [
    | inl e ↦ rw e (inl refl)
    | inr e ↦ rw e (elim (Option-cases (find? (shard_where id (start_guard allow)) s.shards)) [
      | inl m ↦ rw m (inl refl)
      | inr (sh, m) ↦ rw m (elim (Option-cases (find? (has_run_id sh.run_id) s.runs)) [
        | inl l ↦ rw l (inl refl)
        | inr (r, l) ↦ rw l (elim (Bool-cases (db decode || db flip)) [
          | inl d ↦ rw d (inr (inl refl))
          | inr d ↦ rw d (inr (inr (sh.run_id, refl)))
        ])
      ])
    ])
  ]

  claim_shard-Evolves :
      (db : Faults) (now : ℕ) (s : Store F) (id : ℕ) (allow : Bool) (miss : StoreError)
      → Evolves s (claim_shard db now s id allow miss).0
  claim_shard-Evolves db now s id allow miss =
      let guard = shard_where id (start_guard allow) in
      let shards =
        update_where-Grows ShardStep IsNewShard guard (shard_to_running now) ShardStep-refl
          (shard_to_running-ShardStep allow now id) s.shards in
      elim (claim_shard-cases db now s id allow miss) [
        | inl e ↦ rw e (Evolves-refl s)
        | inr (inl e) ↦
            rw e
              (record { runs = Grows-refl RunStep IsNewRun RunStep-refl s.runs; shards = shards })
        | inr (inr (k, e)) ↦ rw e (record {
          runs =
              update_where-Grows RunStep IsNewRun (run_where k is_queued) (to_running now)
                RunStep-refl (λ r h. ground arith) s.runs;
          shards = shards;
        })
      ]

  pub start_shard-Evolves :
      (db : Faults) (now : ℕ) (s : Store F) (id : ℕ) → Evolves s (start_shard db now s id).0
  unfolding start_shard
  start_shard-Evolves db now s id = claim_shard-Evolves db now s id false _

  pub take_over_shard-Evolves :
      (db : Faults) (now : ℕ) (s : Store F) (id : ℕ) → Evolves s (take_over_shard db now s id).0
  unfolding take_over_shard
  take_over_shard-Evolves db now s id = claim_shard-Evolves db now s id true _

module _ {F : Type 0} ⦃f : Float F⦄ where
  -- The row that the barrier writes makes an allowed move.
  to_outcome-RunStep :
      (now n : ℕ) (o : Outcome F) (r : TestRun F)
      → o.status ≡ final_status n r.status
      → is_finishing r.status ≡ true
      → RunStep r (to_outcome now o r)
  unfolding final_status
  to_outcome-RunStep now zero o r e h = ground arith
  to_outcome-RunStep now (suc n) o r e h = ground arith

  pub aggregate_run-Evolves :
      (db : Faults) (now : ℕ) (s : Store F) (k : ℕ) (s' : Store F)
      → Distinct (λ (r : TestRun F). r.id) s.runs
      → aggregate_run db now s k ≡ ok s'
      → Evolves s s'
  aggregate_run-Evolves db now s k s' d e =
      let (o, r, _, found, status, is_s) = aggregate_run-ok db now s k s' e in
      rw is_s (record {
        runs =
            update_key-Grows (λ (r : TestRun F). r.id) RunStep IsNewRun (run_where k is_finishing)
              (to_outcome now o) k r RunStep-refl (λ x h. (==_iff _ _).0 (&&_true _ _ h).0)
              (λ h. to_outcome-RunStep now _ o r status (&&_true _ _ h).1) s.runs d found;
        shards = Grows-refl ShardStep IsNewShard ShardStep-refl s.shards;
      })

  Evolves-trans_shards :
      (s s1 s' : Store F)
      → s1.runs ≡ s.runs
      → Grows ShardStep IsNewShard s.shards s1.shards
      → s'.shards ≡ s1.shards
      → Grows RunStep IsNewRun s1.runs s'.runs
      → Evolves s s'
  Evolves-trans_shards s s1 s' same_runs shards same_shards runs = record {
    runs = subst (λ rs. Grows RunStep IsNewRun rs s'.runs) same_runs runs;
    shards = subst (Grows ShardStep IsNewShard s.shards) (sym same_shards) shards;
  }

  pub finish_shard-Evolves :
      (db : Faults) (now : ℕ) (s : Store F) (id : ℕ) (guard : Status → Bool)
      (set : Shard F → Shard F) (miss : Result StoreError (Unit {0}))
      → Distinct (λ (r : TestRun F). r.id) s.runs
      → ((sh : Shard F) → shard_where id guard sh ≡ true → ShardStep sh (set sh))
      → Evolves s (finish_shard db now s id guard set miss).0
  finish_shard-Evolves db now s id guard set miss d step =
      let shards =
        update_where-Grows ShardStep IsNewShard (shard_where id guard) set ShardStep-refl step
          s.shards in
      let written = record s { shards = update_where (shard_where id guard) set s.shards } in
      elim (finish_shard-cases db now s id guard set miss) [
        | inl (_, _, e) ↦ rw e (Evolves-refl s)
        | inr (_, inl (_, e)) ↦ rw e (Evolves-refl s)
        | inr (_, inr (sh, _, e)) ↦ elim (barrier-ok db now written sh.run_id _ e) [
          | inl (_, same) ↦
              rw same
                (record { runs = Grows-refl RunStep IsNewRun RunStep-refl s.runs; shards = shards })
          | inr (_, fired) ↦
              let ev = aggregate_run-Evolves db now written sh.run_id _ d fired in
              let (_, _, _, _, _, is_s) = aggregate_run-ok db now written sh.run_id _ fired in
              Evolves-trans_shards s written _ refl shards (ap (λ (u : Store F). u.shards) is_s)
                ev.runs
        ]
      ]

  -- The status that a partial result reports, as the handler checks it.
  pub complete_shard-Evolves :
      (db : Faults) (now : ℕ) (s : Store F) (id : ℕ) (req : CompleteShardRequest F)
      → Distinct (λ (r : TestRun F). r.id) s.runs
      → (parse_status req.status ≡ some completed) ⊎ (parse_status req.status ≡ some failed)
      → Evolves s (complete_shard db now s id req).0
  unfolding complete_shard complete_shard_as
  complete_shard-Evolves db now s id req d (inl e) = rw e (
      finish_shard-Evolves db now s id is_running (to_partial now completed req) _ d
        λ sh h. ground arith)
  complete_shard-Evolves db now s id req d (inr e) = rw e (
      finish_shard-Evolves db now s id is_running (to_partial now failed req) _ d
        λ sh h. ground arith)

  pub fail_shard-Evolves :
      (db : Faults) (now : ℕ) (s : Store F) (id : ℕ) (reason : String)
      → Distinct (λ (r : TestRun F). r.id) s.runs
      → Evolves s (fail_shard db now s id reason).0
  unfolding fail_shard
  fail_shard-Evolves db now s id reason d =
      finish_shard-Evolves db now s id is_open (shard_to_failed now reason) _ d λ sh h. ground arith
