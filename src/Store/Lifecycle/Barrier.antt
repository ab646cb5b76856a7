-- ===== src/Store/Lifecycle/Barrier.antt =====
-- What aggregateRun, the completion barrier and finishShard leave when they succeed.
use distributed_load_testing.Common.{
  ◌<◌, ℕ, ◌≡◌, refl, sym, ap, ◌∙◌, ◌⊎◌, inl, inr, Bool, none, some, Result, ok, err, ◌==◌, arith,
  Bool-cases, Option-cases, Result-cases, ok-injective, err-ne-ok, >>=-eq-ok, fail_if-ok, ==_iff,
}
use distributed_load_testing.Common.Table.{find?, update_where, select_where, count_where}
use distributed_load_testing.Float.{Float}
use distributed_load_testing.Models.{Status, is_finishing, TestRun}
use distributed_load_testing.Store.{
  StoreError, Shard, Store, Faults, update, has_run_id, run_where, shard_where, begin, write_run,
  read_status, lock, count_open, commit,
}
use distributed_load_testing.Store.Columns.{run_percentiles, of_run, count_failed}
use distributed_load_testing.Store.Aggregate.{
  Totals, Outcome, final_status, final_message, sum_totals, current_status, run_outcome,
  aggregate_run, to_outcome,
}
use distributed_load_testing.Store.Shards.{
  shard_miss, is_outstanding, barrier, finish_tx, finish_shard,
}

module _ {F : Type 0} ⦃f : Float F⦄ where
  current_status-ok :
      (db : Faults) (s : Store F) (k : ℕ) (st : Status)
      → current_status db s k ≡ ok st
      → (r : TestRun F) × (find? (has_run_id k) s.runs ≡ some r) × (r.status ≡ st)
  unfolding current_status
  current_status-ok db s k st e = elim (Bool-cases (db read_status)) [
    | inl b ↦ absurd (err-ne-ok (rw b at e))
    | inr b ↦ elim (Option-cases (find? (has_run_id k) s.runs)) [
      | inl m ↦ absurd (err-ne-ok (rw (b, m) at e))
      | inr (r, m) ↦ (r, m, ok-injective (rw (b, m) at e))
    ]
  ]

  run_outcome-ok :
      (db : Faults) (s : Store F) (k : ℕ) (o : Outcome F)
      → run_outcome db s k ≡ ok o
      → let mine = select_where (of_run k) s.shards in
        (t : Totals) × (st : Status) × (sum_totals db mine ≡ ok t)
        × (current_status db s k ≡ ok st)
        × (o.totals ≡ t)
        × (o.status ≡ final_status (count_failed mine) st)
        × (o.error_message ≡ final_message (count_failed mine) st)
  unfolding run_outcome
  run_outcome-ok db s k o e =
      let mine = select_where (of_run k) s.shards in
      let (t, summed, e1) = >>=-eq-ok (sum_totals db mine) _ e in
      let (ps, _, e2) = >>=-eq-ok (run_percentiles db mine) _ e1 in
      let (st, read, e3) = >>=-eq-ok (current_status db s k) _ e2 in
      (
        t,
        st,
        summed,
        read,
        ap (λ (o : Outcome F). o.totals) (sym (ok-injective e3)),
        ap (λ (o : Outcome F). o.status) (sym (ok-injective e3)),
        ap (λ (o : Outcome F). o.error_message) (sym (ok-injective e3)),
      )

  -- What the barrier writes when it fires.
  pub aggregate_run-ok :
      (db : Faults) (now : ℕ) (s : Store F) (k : ℕ) (s' : Store F)
      → aggregate_run db now s k ≡ ok s'
      → (o : Outcome F) × (r : TestRun F) × (run_outcome db s k ≡ ok o)
        × (find? (has_run_id k) s.runs ≡ some r)
        × (o.status ≡ final_status (count_failed (select_where (of_run k) s.shards)) r.status)
        × (s'
            ≡ record s { runs = update_where (run_where k is_finishing) (to_outcome now o) s.runs })
  unfolding aggregate_run
  aggregate_run-ok db now s k s' e =
      let (o, read, e1) = >>=-eq-ok (run_outcome db s k) _ e in
      let (t, st, summed, current, _, status, _) = run_outcome-ok db s k o read in
      let (r, found, is_st) = current_status-ok db s k st current in
      (
        o,
        r,
        read,
        found,
        status ∙ ap (final_status _) (sym is_st),
        sym (ok-injective ((fail_if-ok (db write_run) _ _ e1).1)),
      )

  -- A committed barrier: the rows as they are while a shard of the run is outstanding, and the
  -- aggregated run when none is.
  pub barrier-ok :
      (db : Faults) (now : ℕ) (s : Store F) (k : ℕ) (s' : Store F)
      → barrier db now s k ≡ ok s'
      → let left = count_where (is_outstanding k) s.shards in
        ((0 < left) × (s' ≡ s)) ⊎ ((left ≡ 0) × (aggregate_run db now s k ≡ ok s'))
  unfolding barrier
  barrier-ok db now s k s' e =
      let e1 = (fail_if-ok (db lock) _ _ e).1 in
      let e2 = (fail_if-ok (db count_open) _ _ e1).1 in
      let left = count_where (is_outstanding k) s.shards in
      elim (Bool-cases (left == 0)) [
        | inl z ↦
            let (s1, fired, e3) = >>=-eq-ok (aggregate_run db now s k) _ (rw z at e2) in
            let done = ok-injective (fail_if-ok (db commit) _ _ e3).1 in
            inr ((==_iff left 0).0 z, fired ∙ ap ok done)
        | inr p ↦ inl (ground arith, sym (ok-injective (fail_if-ok (db commit) _ _ (rw p at e2)).1))
      ]

  -- A finish that commits: nothing was to be written and nothing is; or the shard is written, and the
  -- barrier of its run is passed.
  abbrev pub Finished :
      Faults → ℕ → Store F → ℕ → (Status → Bool) → (Shard F → Shard F) → Store F → Type 0
  Finished db now s id guard set s' =
      ((find? (shard_where id guard) s.shards ≡ none) × (s' ≡ s))
      ⊎ ((sh : Shard F) × (find? (shard_where id guard) s.shards ≡ some sh)
          × (barrier db now (record s { shards = update_where (shard_where id guard) set s.shards })
                sh.run_id
              ≡ ok s'))

  finish_tx-ok :
      (db : Faults) (now : ℕ) (s : Store F) (id : ℕ) (guard : Status → Bool)
      (set : Shard F → Shard F) (miss : Result StoreError (Unit {0})) (s' : Store F)
      → finish_tx db now s id guard set miss ≡ ok s'
      → Finished db now s id guard set s'
  unfolding finish_tx
  finish_tx-ok db now s id guard set miss s' e =
      let e1 = (fail_if-ok (db begin) _ _ e).1 in
      let e2 = (fail_if-ok (db update) _ _ e1).1 in
      elim (Option-cases (find? (shard_where id guard) s.shards)) [
        | inl m ↦
            let (_, _, e3) = >>=-eq-ok (shard_miss db s id miss) _ (rw m at e2) in
            inl (m, sym (ok-injective e3))
        | inr (sh, m) ↦ inr (sh, m, rw m at e2)
      ]

  -- A finish is all or nothing, whatever the database refuses: with an error the tables stay as they
  -- were; without one, either no shard was in the awaited state and nothing is written, or the shard
  -- is written and the barrier of its run is passed.
  pub finish_shard-cases :
      (db : Faults) (now : ℕ) (s : Store F) (id : ℕ) (guard : Status → Bool)
      (set : Shard F → Shard F) (miss : Result StoreError (Unit {0}))
      → let (s', result) = finish_shard db now s id guard set miss in
        ((x : StoreError) × (result ≡ err x) × (s' ≡ s))
        ⊎ ((result ≡ ok tt) × Finished db now s id guard set s')
  unfolding finish_shard
  finish_shard-cases db now s id guard set miss =
      elim (Result-cases (finish_tx db now s id guard set miss)) [
        | inl (s', e) ↦
            rw (e, finish_shard) (inr (refl, finish_tx-ok db now s id guard set miss s' e))
        | inr (x, e) ↦ rw (e, finish_shard) (inl (x, refl, refl))
      ]
