-- ===== src/Store/Lifecycle/Runs.antt =====
-- Each method on runs makes only allowed moves.
use mathlib.Core.Path.{subst}
use mathlib.Core.Option.{some-injective}
use distributed_load_testing.Common.{
  ok-injective, err-ne-ok, suc, sym, ◌∙◌, ◌≢◌, not, ◌||◌, ==_refl, ==_iff, ℕ, ◌≡◌, refl, ◌⊎◌, inl,
  inr, Bool, true, Option, none, some, List, [], ◌∷◌, String, Result, ok, err, ◌==◌, arith, All,
  Bool-cases, Option-cases, Result-cases,
}
use distributed_load_testing.Common.Table.{
  update_key-Grows, Distinct, Grows-refl, Grows-append, find?, update_where-Grows,
}
use distributed_load_testing.Models.{
  completed, failed, parse_status, is_queued, is_running, is_open, TestRun, CreateTestRunRequest,
  CompleteTestRunRequest,
}
use distributed_load_testing.Store.{
  StoreError, Shard, Store, Faults, insert_shard, insert_run, update, has_run_id, run_where,
}
use distributed_load_testing.Store.Create.{
  created_run, with_created, run_checks, create, create_tx, create_with_shards, insert_shards,
  new_run, new_shard,
}
use distributed_load_testing.Store.Runs.{
  complete_as, update_run, to_running, to_failed, to_complete, to_cancelling, oldest_queued,
  claim_next, answer, start_by_id, take_over, fail, complete, cancel_run,
}
use distributed_load_testing.Store.Lifecycle.{
  RunStep, RunStep-refl, ShardStep, ShardStep-refl, IsNewRun, IsNewShard, Evolves, Evolves-refl,
}

module _ {F : Type 0} where
  pub answer-fst :
      (u : Store F × Result StoreError (Option (TestRun F))) (miss : Result StoreError (TestRun F))
      → (answer u miss).0 ≡ u.0
  unfolding answer
  answer-fst (s, ok (some r)) miss = refl
  answer-fst (s, ok none) miss = refl
  answer-fst (s, err e) miss = refl

  update_run-Evolves :
      (db : Faults) (s : Store F) (p : TestRun F → Bool) (set : TestRun F → TestRun F)
      → ((r : TestRun F) → p r ≡ true → RunStep r (set r))
      → Evolves s (update_run db s p set).0
  unfolding update_run
  update_run-Evolves db s p set step = elim (Bool-cases (db update)) [
    | inl e ↦ rw e (Evolves-refl s)
    | inr e ↦ rw e (elim (Option-cases (find? p s.runs)) [
      | inl m ↦ rw m (Evolves-refl s)
      | inr (r, m) ↦ rw m (record {
        runs = update_where-Grows RunStep IsNewRun p set RunStep-refl step s.runs;
        shards = Grows-refl ShardStep IsNewShard ShardStep-refl s.shards;
      })
    ])
  ]

  -- An answered update: the shape of StartByID, TakeOver, Fail, Complete and CancelRun.
  pub answer-Evolves :
      (db : Faults) (s : Store F) (p : TestRun F → Bool) (set : TestRun F → TestRun F)
      (miss : Result StoreError (TestRun F))
      → ((r : TestRun F) → p r ≡ true → RunStep r (set r))
      → Evolves s (answer (update_run db s p set) miss).0
  answer-Evolves db s p set miss step =
      rw (answer-fst (update_run db s p set) miss) (update_run-Evolves db s p set step)

  pub start_by_id-Evolves :
      (db : Faults) (now : ℕ) (s : Store F) (id : ℕ) → Evolves s (start_by_id db now s id).0
  unfolding start_by_id
  start_by_id-Evolves db now s id =
      answer-Evolves db s (run_where id is_queued) (to_running now) _ λ r h. ground arith

  pub take_over-Evolves :
      (db : Faults) (now : ℕ) (s : Store F) (id : ℕ) → Evolves s (take_over db now s id).0
  unfolding take_over
  take_over-Evolves db now s id =
      answer-Evolves db s (run_where id is_open) (to_running now) _ λ r h. ground arith

  pub fail-Evolves :
      (db : Faults) (now : ℕ) (s : Store F) (id : ℕ) (reason : String)
      → Evolves s (fail db now s id reason).0
  unfolding fail
  fail-Evolves db now s id reason =
      answer-Evolves db s (run_where id is_open) (to_failed now reason) _ λ r h. ground arith

  pub cancel_run-Evolves : (db : Faults) (s : Store F) (id : ℕ) → Evolves s (cancel_run db s id).0
  unfolding cancel_run
  cancel_run-Evolves db s id =
      answer-Evolves db s (run_where id is_open) to_cancelling _ λ r h. ground arith

  -- The status that a completion reports, as the handler checks it.
  pub complete-Evolves :
      (db : Faults) (now : ℕ) (s : Store F) (id : ℕ) (req : CompleteTestRunRequest F)
      → (parse_status req.status ≡ some completed) ⊎ (parse_status req.status ≡ some failed)
      → Evolves s (complete db now s id req).0
  unfolding complete complete_as
  complete-Evolves db now s id req (inl e) = rw e (
      answer-Evolves db s (run_where id is_running) (to_complete now completed req) _
        λ r h. ground arith)
  complete-Evolves db now s id req (inr e) = rw e (
      answer-Evolves db s (run_where id is_running) (to_complete now failed req) _
        λ r h. ground arith)

  oldest_queued-cons :
      (locked : ℕ → Bool) (x : TestRun F) (rs : List (TestRun F))
      → ((is_queued x.status ≡ true) × (oldest_queued locked (x ∷ rs) ≡ some x))
        ⊎ (oldest_queued locked (x ∷ rs) ≡ oldest_queued locked rs)
  unfolding oldest_queued
  oldest_queued-cons locked x rs = ground arith

  oldest_queued-All :
      (locked : ℕ → Bool) (P : TestRun F → Type 0) (rs : List (TestRun F)) (r : TestRun F)
      → All P rs
      → oldest_queued locked rs ≡ some r
      → P r
  oldest_queued-All locked P [] r h e = unfold oldest_queued in cc
  oldest_queued-All locked P (x ∷ rs) r h e = elim (oldest_queued-cons locked x rs) [
    | inl (_, m) ↦ subst P (some-injective _ _ (sym m ∙ e)) h.0
    | inr m ↦ oldest_queued-All locked P rs r h.1 (sym m ∙ e)
  ]

  -- The row that the subquery picks is queued, and is the one that its id names.
  oldest_queued-find? :
      (locked : ℕ → Bool) (rs : List (TestRun F)) (r : TestRun F)
      → Distinct (λ (r : TestRun F). r.id) rs
      → oldest_queued locked rs ≡ some r
      → (is_queued r.status ≡ true) × (find? (has_run_id r.id) rs ≡ some r)
  unfolding find?
  oldest_queued-find? locked [] r d e = unfold oldest_queued in cc
  oldest_queued-find? locked (x ∷ rs) r d e = elim (oldest_queued-cons locked x rs) [
    | inl (q, m) ↦
        let same = some-injective _ _ (sym m ∙ e) in
        subst (λ y. (is_queued y.status ≡ true) × (find? (has_run_id y.id) (x ∷ rs) ≡ some y)) same
          (q, rw (==_refl x.id))
    | inr m ↦
        let (q, found) = oldest_queued-find? locked rs r d.1 (sym m ∙ e) in
        let other = oldest_queued-All locked (λ y. y.id ≢ x.id) rs r d.0 (sym m ∙ e) in
        (q, ground arith)
  ]

  pub claim_next-Evolves :
      (db : Faults) (now : ℕ) (locked : ℕ → Bool) (s : Store F)
      → Distinct (λ (r : TestRun F). r.id) s.runs
      → Evolves s (claim_next db now locked s).0
  unfolding claim_next
  claim_next-Evolves db now locked s d = elim (Bool-cases (db update)) [
    | inl e ↦ rw e (Evolves-refl s)
    | inr e ↦ rw e (elim (Option-cases (oldest_queued locked s.runs)) [
      | inl m ↦ rw m (Evolves-refl s)
      | inr (r, m) ↦
          let (q, found) = oldest_queued-find? locked s.runs r d m in
          rw m (record {
            runs =
                update_key-Grows (λ (r : TestRun F). r.id) RunStep IsNewRun (has_run_id r.id)
                  (to_running now) r.id r RunStep-refl (λ x h. (==_iff _ _).0 h) (λ _. ground arith)
                  s.runs d found;
            shards = Grows-refl ShardStep IsNewShard ShardStep-refl s.shards;
          })
    ])
  ]

  pub create-Evolves :
      (db : Faults) (now : ℕ) (s : Store F) (req : CreateTestRunRequest)
      → Evolves s (create db now s req).0
  unfolding create
  create-Evolves db now s req = elim (Bool-cases (db insert_run || not (run_checks req))) [
    | inl e ↦ rw e (Evolves-refl s)
    | inr e ↦ rw e (record {
      runs = Grows-append RunStep IsNewRun RunStep-refl s.runs _ (refl, tt);
      shards = Grows-refl ShardStep IsNewShard ShardStep-refl s.shards;
    })
  ]

  pub insert_shards-All :
      (P : Shard F → Type 0) (db : Faults) (now run_id id i : ℕ) (vus : List ℕ)
      → ((id i v : ℕ) → P (new_shard id run_id now i v))
      → (shards : List (Shard F)) → insert_shards db now run_id id i vus ≡ ok shards
      → All P shards
  unfolding insert_shards
  insert_shards-All P db now run_id id i [] n shards e = subst (All P) (ok-injective e) tt
  insert_shards-All P db now run_id id i (v ∷ vus) n shards e =
      elim (Bool-cases (db (insert_shard i) || v == 0)) [
        | inl b ↦ absurd (err-ne-ok (rw b at e))
        | inr b ↦ elim (Result-cases (insert_shards {F = F} db now run_id (suc id) (suc i) vus)) [
          | inl (rest, m) ↦
              subst (All P) (ok-injective (rw (b, m) at e))
                (n id i v, insert_shards-All P db now run_id (suc id) (suc i) vus n rest m)
          | inr (_, m) ↦ absurd (err-ne-ok (rw (b, m) at e))
        ]
      ]

  -- A creation that commits: the checks passed, and the tables have one run and its shards more.
  pub create_tx-ok :
      (db : Faults) (now : ℕ) (s : Store F) (req : CreateTestRunRequest) (vus : List ℕ)
      (s' : Store F) (run : TestRun F) (shards : List (Shard F))
      → create_tx db now s req vus ≡ ok (s', run, shards)
      → (run_checks req ≡ true)
        × (insert_shards db now s.next_run s.next_shard 0 vus ≡ ok shards)
        × (run ≡ created_run now s req vus)
        × (s' ≡ with_created s run shards vus)
  unfolding create_tx
  create_tx-ok db now s req vus s' run shards e = ground arith

  create_tx-Evolves :
      (db : Faults) (now : ℕ) (s : Store F) (req : CreateTestRunRequest) (vus : List ℕ)
      (s' : Store F) (run : TestRun F) (shards : List (Shard F))
      → create_tx db now s req vus ≡ ok (s', run, shards)
      → Evolves s s'
  create_tx-Evolves db now s req vus s' run shards e =
      let (_, inserted, is_run, is_s) = create_tx-ok db now s req vus s' run shards e in
      rw is_s (record {
        runs =
            Grows-append RunStep IsNewRun RunStep-refl s.runs (run ∷ [])
              (unfold new_run in rw is_run refl, tt);
        shards = Grows-append ShardStep IsNewShard ShardStep-refl s.shards shards (
            insert_shards-All IsNewShard db now s.next_run s.next_shard 0 vus
              (λ _ _ _. unfold new_shard in refl) shards inserted);
      })

  pub create_with_shards-Evolves :
      (db : Faults) (now : ℕ) (s : Store F) (req : CreateTestRunRequest) (vus : List ℕ)
      → Evolves s (create_with_shards db now s req vus).0
  create_with_shards-Evolves db now s req vus = elim (Result-cases (create_tx db now s req vus)) [
    | inl ((s', run, shards), e) ↦
        unfold create_with_shards in
        rw (e, create_with_shards) (create_tx-Evolves db now s req vus s' run shards e)
    | inr (x, e) ↦ unfold create_with_shards in rw (e, create_with_shards) (Evolves-refl s)
  ]
