-- ===== src/Store/Rows.antt =====
-- The row of a shard as a claim and a report leave it, while the database refuses nothing.
use mathlib.Core.Option.{none-ne-some}
use mathlib.Core.Path.{subst}
use distributed_load_testing.Models.{is_open}
use distributed_load_testing.Store.Shards.{fail_shard, shard_to_failed}
use distributed_load_testing.Common.{
  String, Result, ℕ, ◌≡◌, ◌≢◌, refl, sym, ap, ◌∙◌, inl, inr, Bool, true, ◌==◌, some, List, [], ◌∷◌,
  ok, err, arith, All, Bool-cases, ==_iff, err-ne-ok,
}
use distributed_load_testing.Common.Table.{
  find?, find?-true, update_where, find?-update_key, select_where, Distinct,
}
use distributed_load_testing.Float.{Float}
use distributed_load_testing.Models.{
  CompleteShardRequest, parse_status, Status, running, is_queued, is_running, TestRun,
}
use distributed_load_testing.Store.{
  StoreError, not_running, Shard, Store, no_faults, has_run_id, run_where, shard_where,
  has_shard_id,
}
use distributed_load_testing.Store.Runs.{to_running}
use distributed_load_testing.Store.Columns.{of_run}
use distributed_load_testing.Store.Shards.{
  start_guard, shard_to_running, assignment, claim_shard, to_partial, shard_status, finish_shard,
  complete_shard, complete_shard_as,
}
use distributed_load_testing.Store.Commit.{FitsInt64, finish_shard-commits}
use distributed_load_testing.Store.Closing.{no_shard, barrier-shards}
use distributed_load_testing.Store.Lifecycle.Barrier.{finish_shard-cases}

module _ {F : Type 0} where
  -- Once claimed, the shard is the one that a report finds.
  pub update-opens :
      (id : ℕ) (guard : Status → Bool) (set : Shard F → Shard F) (sh : Shard F)
      → ((x : Shard F) → ((set x).id ≡ x.id) × ((set x).status ≡ running))
      → (shs : List (Shard F)) → Distinct (λ (sh : Shard F). sh.id) shs
      → find? (shard_where id guard) shs ≡ some sh
      → find? (shard_where id is_running) (update_where (shard_where id guard) set shs)
        ≡ some (set sh)
  unfolding find? update_where
  update-opens id guard set sh sets [] d e = absurd (cc)
  update-opens id guard set sh sets (x ∷ shs) d e = elim (Bool-cases (x.id == id)) [
    | inl this ↦
        let others : All (λ (y : Shard F). y.id ≢ id) shs =
          subst (λ n. All (λ (y : Shard F). y.id ≢ n) shs) ((==_iff _ _).0 this) d.0 in
        let none_found = no_shard id guard shs others in
        elim (Bool-cases (guard x.status)) [
          | inl g ↦
              let is_sh : x ≡ sh = ground arith in
              let same_id : ((set x).id == id) ≡ true = rw (sets x).0 this in
              let set_runs : is_running (set x).status ≡ true = rw (sets x).1 refl in
              rw (this, g, same_id, set_runs) (ap (λ (y : Shard F). some (set y)) is_sh)
          | inr g ↦ absurd (ground arith)
        ]
    | inr other ↦
        let rest = update-opens id guard set sh sets shs d.1 (ground arith) in ground (arith, rest)
  ]

  -- The tables after a claim.
  abbrev pub claimed_store : ℕ → Bool → ℕ → ℕ → Store F → Store F
  claimed_store now reclaimed n run_id s = record s {
    shards = update_where (shard_where n (start_guard reclaimed)) (shard_to_running now) s.shards;
    runs = update_where (run_where run_id is_queued) (to_running now) s.runs;
  }

  pub claim_shard-claims :
      (now : ℕ) (s : Store F) (n : ℕ) (reclaimed : Bool) (miss : StoreError) (sh : Shard F)
      (r : TestRun F)
      → find? (shard_where n (start_guard reclaimed)) s.shards ≡ some sh
      → find? (has_run_id sh.run_id) s.runs ≡ some r
      → claim_shard no_faults now s n reclaimed miss
        ≡ (claimed_store now reclaimed n sh.run_id s, ok (assignment sh r))
  unfolding claim_shard
  claim_shard-claims now s n reclaimed miss sh r found run_found = rw (found, run_found) refl

  pub find?-has_shard_id :
      (id : ℕ) (guard : Status → Bool) (sh : Shard F) (shs : List (Shard F))
      → Distinct (λ (sh : Shard F). sh.id) shs
      → find? (shard_where id guard) shs ≡ some sh
      → find? (has_shard_id id) shs ≡ some sh
  unfolding find?
  find?-has_shard_id id guard sh [] d e = e
  find?-has_shard_id id guard sh (x ∷ shs) d e = elim (Bool-cases (x.id == id)) [
    | inl this ↦
        let others : All (λ (y : Shard F). y.id ≢ id) shs =
          subst (λ n. All (λ (y : Shard F). y.id ≢ n) shs) ((==_iff _ _).0 this) d.0 in
        ground (arith, no_shard id guard shs others)
    | inr other ↦ ground (arith, find?-has_shard_id id guard sh shs d.1 (ground arith))
  ]

  pub find?-guard :
      (id : ℕ) (guard : Status → Bool) (sh : Shard F) (shs : List (Shard F))
      → find? (shard_where id guard) shs ≡ some sh
      → shard_where id guard sh ≡ true
  find?-guard id guard sh shs e = find?-true _ shs sh e

  -- The row of a shard once it is written.
  pub update-row :
      (id : ℕ) (guard : Status → Bool) (set : Shard F → Shard F) (sh : Shard F)
      (shs : List (Shard F))
      → ((x : Shard F) → (set x).id ≡ x.id)
      → Distinct (λ (sh : Shard F). sh.id) shs
      → find? (shard_where id guard) shs ≡ some sh
      → find? (has_shard_id id) (update_where (shard_where id guard) set shs) ≡ some (set sh)
  update-row id guard set sh shs same d e = rw (
    find?-update_key (λ (x : Shard F). x.id) (shard_where id guard) set id same shs,
    find?-has_shard_id id guard sh shs d e,
    find?-guard id guard sh shs e,
  )

module _ {F : Type 0} ⦃f : Float F⦄ where
  finish_shard-row :
      (now : ℕ) (s : Store F) (n : ℕ) (guard : Status → Bool) (set : Shard F → Shard F)
      (miss : Result StoreError (Unit {0})) (sh : Shard F)
      → ((x : Shard F) → (set x).id ≡ x.id)
      → Distinct (λ (sh : Shard F). sh.id) s.shards
      → find? (shard_where n guard) s.shards ≡ some sh
      → (finish_shard no_faults now s n guard set miss).1 ≡ ok tt
      → find? (has_shard_id n) (finish_shard no_faults now s n guard set miss).0.shards
        ≡ some (set sh)
  finish_shard-row now s n guard set miss sh same d found done =
      elim (finish_shard-cases no_faults now s n guard set miss) [
        | inl (_, e, _) ↦ absurd (err-ne-ok (sym e ∙ done))
        | inr (_, inl (m, _)) ↦ absurd (none-ne-some sh (sym m ∙ found))
        | inr (_, inr (sh', e, passed)) ↦
            rw (barrier-shards no_faults now _ sh'.run_id _ passed)
              (update-row n guard set sh s.shards same d found)
      ]

  -- A report of a running shard is taken and is what the shard's row then holds.
  pub complete_shard-row :
      (now : ℕ) (s : Store F) (n : ℕ) (req : CompleteShardRequest F) (st : Status) (sh : Shard F)
      (r : TestRun F)
      → shard_status (parse_status req.status) ≡ some st
      → Distinct (λ (sh : Shard F). sh.id) s.shards
      → find? (shard_where n is_running) s.shards ≡ some sh
      → find? (has_run_id sh.run_id) s.runs ≡ some r
      → FitsInt64 (
          select_where
            (of_run sh.run_id)
            (update_where (shard_where n is_running) (to_partial now st req) s.shards))
      → let (s', result) = complete_shard no_faults now s n req in
        (result ≡ ok tt) × (find? (has_shard_id n) s'.shards ≡ some (to_partial now st req sh))
  complete_shard-row now s n req st sh r parsed d found run_found fits =
      let done =
        finish_shard-commits now s n is_running (to_partial now st req) (err not_running) sh r found
          run_found fits in
      let row =
        finish_shard-row now s n is_running (to_partial now st req) (err not_running) sh (λ _. refl)
          d found done in
      unfold complete_shard complete_shard_as in rw parsed (done, row)

  -- FailShard on an open shard.
  pub fail_shard-row :
      (now : ℕ) (s : Store F) (n : ℕ) (reason : String) (sh : Shard F) (r : TestRun F)
      → Distinct (λ (sh : Shard F). sh.id) s.shards
      → find? (shard_where n is_open) s.shards ≡ some sh
      → find? (has_run_id sh.run_id) s.runs ≡ some r
      → FitsInt64 (
          select_where
            (of_run sh.run_id)
            (update_where (shard_where n is_open) (shard_to_failed now reason) s.shards))
      → find? (has_shard_id n) (fail_shard no_faults now s n reason).0.shards
        ≡ some (shard_to_failed now reason sh)
  unfolding fail_shard
  fail_shard-row now s n reason sh r d found run_found fits =
      finish_shard-row now s n is_open (shard_to_failed now reason) (ok tt) sh (λ _. refl) d found
        (finish_shard-commits now s n is_open (shard_to_failed now reason) (ok tt) sh r found
          run_found fits)
