-- ===== src/Store/Completion.antt =====
-- The completion barrier of finishShard: when it fires, and what the run then holds.
use mathlib.Core.Path.{subst}
use mathlib.Core.Option.{some-injective}
use distributed_load_testing.Common.{
  ℕ, zero, suc, ◌<◌, ◌≡◌, ◌≢◌, ◌⊎◌, refl, sym, ap, ◌∙◌, inl, inr, Bool, true, false, ◌==◌, none,
  some, List, [], ◌∷◌, String, Result, ok, arith, All, Bool-cases, err-ne-ok, ==_iff,
}
use distributed_load_testing.Common.Table.{
  find?-true, Distinct, find?, update_where, update_where-id, find?-update_key, select_where,
  count_where,
}
use distributed_load_testing.Float.{Float}
use distributed_load_testing.Models.{Status, queued, is_open, is_finishing, is_active, TestRun}
use distributed_load_testing.Store.{
  StoreError, Shard, Store, Faults, has_run_id, run_where, shard_where,
}
use distributed_load_testing.Store.Columns.{of_run, count_failed}
use distributed_load_testing.Store.Aggregate.{Outcome, final_status, run_outcome, to_outcome}
use distributed_load_testing.Store.Shards.{
  is_outstanding, barrier, shard_to_failed, finish_shard, fail_shard,
}
use distributed_load_testing.Store.Lifecycle.{IsKeyed}
use distributed_load_testing.Store.Lifecycle.Barrier.{
  aggregate_run-ok, barrier-ok, finish_shard-cases,
}

final_status_ends : (n : ℕ) (st : Status) → is_active (final_status n st) ≡ false
unfolding final_status
final_status_ends zero st = ground arith
final_status_ends (suc n) st = ground arith

module _ {F : Type 0} where
  has_id :
      (k : ℕ) (rs : List (TestRun F)) (r : TestRun F) → find? (has_run_id k) rs ≡ some r → r.id ≡ k
  has_id k rs r e = (==_iff _ _).0 (find?-true (has_run_id k) rs r e)

  no_row :
      (k : ℕ) (rs : List (TestRun F))
      → All (λ r. r.id ≢ k) rs
      → (guard : Status → Bool) → find? (run_where k guard) rs ≡ none
  unfolding find?
  no_row k [] h guard = refl
  no_row k (x ∷ rs) h guard = ground (arith, h.0, no_row k rs h.1 guard)

  guarded_none :
      (k : ℕ) (guard : Status → Bool) (rs : List (TestRun F)) (r : TestRun F)
      → Distinct (λ (r : TestRun F). r.id) rs
      → find? (has_run_id k) rs ≡ some r
      → guard r.status ≡ false
      → find? (run_where k guard) rs ≡ none
  unfolding find?
  guarded_none k guard [] r d e g = refl
  guarded_none k guard (x ∷ rs) r d e g = elim (Bool-cases (x.id == k)) [
    | inl this ↦
        let is_r : x ≡ r = ground arith in
        let off : guard x.status ≡ false = rw is_r g in
        let none_later =
          no_row k rs (subst (λ n. All (λ (r : TestRun F). r.id ≢ n) rs) ((==_iff _ _).0 this) d.0)
            guard in
        ground arith
    | inr other ↦ let later = guarded_none k guard rs r d.1 (ground arith) g in ground arith
  ]

module _ {F : Type 0} ⦃f : Float F⦄ where
  -- What a committed finish leaves of the run with number k, whose row was r: while a shard is
  -- outstanding, no run changes; with none left, a running or cancelling run gets the outcome of its
  -- shards and is over; a run in any other state is left alone.
  abbrev pub Barrier : Faults → ℕ → ℕ → TestRun F → Store F → Store F → Type 0
  Barrier db now k r s s' =
      let left = count_where (is_outstanding k) s'.shards in
      ((0 < left) × (s'.runs ≡ s.runs))
      ⊎ ((left ≡ 0)
          × (is_finishing r.status ≡ true)
          × (o : Outcome F) × (find? (has_run_id k) s'.runs ≡ some (to_outcome now o r))
          × (run_outcome db (record s { shards = s'.shards }) k ≡ ok o)
          × (o.status ≡ final_status (count_failed (select_where (of_run k) s'.shards)) r.status)
          × (is_active o.status ≡ false))
      ⊎ ((left ≡ 0) × (is_finishing r.status ≡ false) × (s'.runs ≡ s.runs))

  passed-Barrier :
      (db : Faults) (now : ℕ) (s s' : Store F) (shards : List (Shard F)) (k : ℕ) (r : TestRun F)
      → Distinct (λ (r : TestRun F). r.id) s.runs
      → find? (has_run_id k) s.runs ≡ some r
      → barrier db now (record s { shards = shards }) k ≡ ok s'
      → Barrier db now k r s s'
  passed-Barrier db now s s' shards k r d found passed =
      elim (barrier-ok db now (record s { shards = shards }) k s' passed) [
        | inl (left, same) ↦ subst (Barrier db now k r s) (sym same) (inl (left, refl))
        | inr (none_left, fired) ↦
            let (o, r', read, found', status, is_s) =
              aggregate_run-ok db now (record s { shards = shards }) k s' fired in
            let same : r' ≡ r = some-injective _ _ (sym found' ∙ found) in
            subst (Barrier db now k r s) (sym is_s) (
              inr (elim (Bool-cases (is_finishing r.status)) [
                | inl finishing ↦ inl (
                  none_left,
                  finishing,
                  o,
                  find?-update_key (λ (r : TestRun F). r.id) (run_where k is_finishing)
                        (to_outcome now o) k (λ _. refl) s.runs
                      ∙ rw (found, finishing, (==_iff _ _).1 (has_id k s.runs r found)) refl,
                  read,
                  status
                      ∙ ap
                          (λ (r : TestRun F).
                            final_status (count_failed (select_where (of_run k) shards)) r.status)
                          same,
                  rw status (final_status_ends _ _),
                )
                | inr unfinishing ↦ inr (
                  none_left,
                  unfinishing,
                  update_where-id (run_where k is_finishing) (to_outcome now o) s.runs
                      (guarded_none k is_finishing s.runs r d found unfinishing),
                )
              ]))
      ]

  -- If a finish commits after writing a shard of a run that exists, the barrier fires exactly when
  -- no shard of the run is outstanding any more and the run is running or cancelling; then the run
  -- ends, as cancelled, failed or completed. Ids are assumed to be distinct.
  pub finish_shard-Barrier :
      (db : Faults) (now : ℕ) (s : Store F) (id : ℕ) (guard : Status → Bool)
      (set : Shard F → Shard F) (miss : Result StoreError (Unit {0})) (sh : Shard F) (r : TestRun F)
      → IsKeyed s
      → find? (shard_where id guard) s.shards ≡ some sh
      → find? (has_run_id sh.run_id) s.runs ≡ some r
      → (finish_shard db now s id guard set miss).1 ≡ ok tt
      → Barrier db now sh.run_id r s (finish_shard db now s id guard set miss).0
  finish_shard-Barrier db now s id guard set miss sh r k found run_found done =
      elim (finish_shard-cases db now s id guard set miss) [
        | inl (_, e, _) ↦ absurd (err-ne-ok (sym e ∙ done))
        | inr (_, inl (e, _)) ↦ absurd (ground arith)
        | inr (_, inr (sh', e, passed)) ↦
            passed-Barrier db now s _ (update_where (shard_where id guard) set s.shards) sh.run_id r
              k.run_ids run_found
              (subst
                (λ (x : Shard F).
                  barrier db now
                    (record s { shards = update_where (shard_where id guard) set s.shards })
                    x.run_id
                  ≡ ok (finish_shard db now s id guard set miss).0)
                (some-injective _ _ (sym e ∙ found)) passed)
      ]

  -- If failing an open shard of a queued run commits, the row of the run stays as it is, so that the
  -- run is still queued, also when that was its last open shard. Ids are assumed to be distinct.
  pub fail_shard-leaves_queued :
      (db : Faults) (now : ℕ) (s : Store F) (id : ℕ) (reason : String) (sh : Shard F)
      (r : TestRun F)
      → IsKeyed s
      → find? (shard_where id is_open) s.shards ≡ some sh
      → find? (has_run_id sh.run_id) s.runs ≡ some r
      → r.status ≡ queued
      → (fail_shard db now s id reason).1 ≡ ok tt
      → find? (has_run_id sh.run_id) (fail_shard db now s id reason).0.runs ≡ some r
  unfolding fail_shard
  fail_shard-leaves_queued db now s id reason sh r k found run_found q done =
      elim (finish_shard-Barrier db now s id is_open (shard_to_failed now reason) (ok tt) sh r k
        found run_found done) [
          | inl (_, same) ↦ rw same run_found
          | inr (inl (_, finishing, _, _, _, _, _)) ↦ absurd (ground arith)
          | inr (inr (_, _, same)) ↦ rw same run_found
        ]
