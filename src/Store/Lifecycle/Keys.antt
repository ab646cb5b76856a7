-- ===== src/Store/Lifecycle/Keys.antt =====
-- Every method keeps the ids of runs and of shards distinct and below the next ones.
use mathlib.Core.Path.{subst}
use mathlib.Core.List.{append-nil, append_assoc}
use distributed_load_testing.Common.{
  ℕ, suc, ◌+◌, ◌<◌, ◌≡◌, refl, sym, inl, inr, Bool, ◌||◌, not, ◌==◌, List, [], ◌∷◌, ◌++◌, Result,
  ok, arith, All, All-append, All-imp, length, Bool-cases, Option-cases, Result-cases, ok-injective,
  err-ne-ok,
}
use distributed_load_testing.Common.Table.{
  Distinct, Distinct-append, find?, update_where, update_where-Distinct, update_where-below,
}
use distributed_load_testing.Float.{Float}
use distributed_load_testing.Models.{Status, is_queued, is_finishing, TestRun, CreateTestRunRequest}
use distributed_load_testing.Store.{
  StoreError, Shard, Store, Faults, insert_run, insert_shard, update, has_run_id, run_where,
  shard_where,
}
use distributed_load_testing.Store.Create.{
  run_checks, new_run, create, new_shard, insert_shards, create_tx, create_with_shards,
}
use distributed_load_testing.Store.Runs.{update_run, to_running, oldest_queued, claim_next, answer}
use distributed_load_testing.Store.Aggregate.{to_outcome}
use distributed_load_testing.Store.Shards.{shard_to_running, start_guard, claim_shard, finish_shard}
use distributed_load_testing.Store.Lifecycle.{IsKeyed}
use distributed_load_testing.Store.Lifecycle.Runs.{answer-fst, create_tx-ok}
use distributed_load_testing.Store.Lifecycle.Barrier.{
  aggregate_run-ok, barrier-ok, finish_shard-cases,
}
use distributed_load_testing.Store.Lifecycle.Shards.{claim_shard-cases}

module _ {F : Type 0} where
  abbrev run_key : TestRun F → ℕ
  run_key r = r.id

  abbrev shard_key : Shard F → ℕ
  shard_key sh = sh.id

  with_runs-IsKeyed :
      (s : Store F) (p : TestRun F → Bool) (set : TestRun F → TestRun F)
      → ((r : TestRun F) → (set r).id ≡ r.id)
      → IsKeyed s
      → IsKeyed (record s { runs = update_where p set s.runs })
  with_runs-IsKeyed s p set same k = record {
    run_ids = update_where-Distinct run_key p set same s.runs k.run_ids;
    run_ids_used = update_where-below run_key p set s.next_run same s.runs k.run_ids_used;
    shard_ids = k.shard_ids;
    shard_ids_used = k.shard_ids_used;
  }

  with_shards-IsKeyed :
      (s : Store F) (p : Shard F → Bool) (set : Shard F → Shard F)
      → ((sh : Shard F) → (set sh).id ≡ sh.id)
      → IsKeyed s
      → IsKeyed (record s { shards = update_where p set s.shards })
  with_shards-IsKeyed s p set same k = record {
    run_ids = k.run_ids;
    run_ids_used = k.run_ids_used;
    shard_ids = update_where-Distinct shard_key p set same s.shards k.shard_ids;
    shard_ids_used = update_where-below shard_key p set s.next_shard same s.shards k.shard_ids_used;
  }

  pub update_run-IsKeyed :
      (db : Faults) (s : Store F) (p : TestRun F → Bool) (set : TestRun F → TestRun F)
      (miss : Result StoreError (TestRun F))
      → ((r : TestRun F) → (set r).id ≡ r.id)
      → IsKeyed s
      → IsKeyed (answer (update_run db s p set) miss).0
  unfolding update_run
  update_run-IsKeyed db s p set miss same k =
      rw (answer-fst (update_run db s p set) miss) (elim (Bool-cases (db update)) [
        | inl e ↦ rw e k
        | inr e ↦ rw e (elim (Option-cases (find? p s.runs)) [
          | inl m ↦ rw m k
          | inr (r, m) ↦ rw m (with_runs-IsKeyed s p set same k)
        ])
      ])

  pub claim_next-IsKeyed :
      (db : Faults) (now : ℕ) (locked : ℕ → Bool) (s : Store F)
      → IsKeyed s
      → IsKeyed (claim_next db now locked s).0
  unfolding claim_next
  claim_next-IsKeyed db now locked s k = elim (Bool-cases (db update)) [
    | inl e ↦ rw e k
    | inr e ↦ rw e (elim (Option-cases (oldest_queued locked s.runs)) [
      | inl m ↦ rw m k
      | inr (r, m) ↦ rw m (with_runs-IsKeyed s (has_run_id r.id) (to_running now) (λ _. refl) k)
    ])
  ]

  add_run-IsKeyed :
      (s : Store F) (r : TestRun F)
      → r.id ≡ s.next_run
      → IsKeyed s
      → IsKeyed (record s { runs = s.runs ++ (r ∷ []); next_run = suc s.next_run })
  add_run-IsKeyed s r e k =
      let below = subst (λ n. All (λ (r : TestRun F). r.id < n) s.runs) (sym e) k.run_ids_used in
      record {
        run_ids = Distinct-append run_key s.runs r k.run_ids below;
        run_ids_used =
            All-append (λ (r : TestRun F). r.id < suc s.next_run) s.runs (r ∷ [])
              (All-imp _ _ (λ _ h. omega arith) s.runs k.run_ids_used) (omega arith, tt);
        shard_ids = k.shard_ids;
        shard_ids_used = k.shard_ids_used;
      }

  pub create-IsKeyed :
      (db : Faults) (now : ℕ) (s : Store F) (req : CreateTestRunRequest)
      → IsKeyed s
      → IsKeyed (create db now s req).0
  unfolding create
  create-IsKeyed db now s req k = elim (Bool-cases (db insert_run || not (run_checks req))) [
    | inl e ↦ rw e k
    | inr e ↦ rw e (add_run-IsKeyed s _ refl k)
  ]

  -- Rows numbered from `lo` on, up to `hi`.
  abbrev pub AreNumbered : ℕ → ℕ → List (Shard F) → Type 0
  AreNumbered lo hi [] = lo ≡ hi
  AreNumbered lo hi (sh ∷ shs) = (sh.id ≡ lo) × AreNumbered (suc lo) hi shs

  pub insert_shards-AreNumbered :
      (db : Faults) (now run_id id i : ℕ) (vus : List ℕ) (shards : List (Shard F))
      → insert_shards db now run_id id i vus ≡ ok shards
      → AreNumbered id (id + length vus) shards
  unfolding insert_shards
  insert_shards-AreNumbered db now run_id id i [] shards e =
      subst (AreNumbered id (id + 0)) (ok-injective e) (omega arith)
  insert_shards-AreNumbered db now run_id id i (v ∷ vus) shards e =
      elim (Bool-cases (db (insert_shard i) || v == 0)) [
        | inl b ↦ absurd (err-ne-ok (rw b at e))
        | inr b ↦ elim (Result-cases (insert_shards {F = F} db now run_id (suc id) (suc i) vus)) [
          | inl (rest, m) ↦
              let h = insert_shards-AreNumbered db now run_id (suc id) (suc i) vus rest m in
              let same : suc id + length vus ≡ id + suc (length vus) = omega arith in
              subst (AreNumbered id (id + suc (length vus))) (ok-injective (rw (b, m) at e))
                (unfold new_shard in (refl, rw same at h))
          | inr (_, m) ↦ absurd (err-ne-ok (rw (b, m) at e))
        ]
      ]

  append_numbered :
      (lo hi : ℕ) (xs ys : List (Shard F))
      → AreNumbered lo hi ys
      → Distinct shard_key xs
      → All (λ sh. sh.id < lo) xs
      → Distinct shard_key (xs ++ ys) × All (λ sh. sh.id < hi) (xs ++ ys)
  append_numbered lo hi xs [] n d b =
      rw (append-nil xs) (d, subst (λ k. All (λ (sh : Shard F). sh.id < k) xs) n b)
  append_numbered lo hi xs (y ∷ ys) n d b =
      let first = subst (λ k. All (λ (sh : Shard F). sh.id < k) xs) (sym n.0) b in
      let longer =
        append_numbered (suc lo) hi (xs ++ y ∷ []) ys n.1 (Distinct-append shard_key xs y d first) (
          All-append (λ (sh : Shard F). sh.id < suc lo) xs (y ∷ [])
            (All-imp _ _ (λ _ h. omega arith) xs b) (omega (arith, n.0), tt)) in
      subst (λ zs. Distinct shard_key zs × All (λ (sh : Shard F). sh.id < hi) zs)
        (append_assoc xs (y ∷ []) ys) longer

  pub create_with_shards-IsKeyed :
      (db : Faults) (now : ℕ) (s : Store F) (req : CreateTestRunRequest) (vus : List ℕ)
      → IsKeyed s
      → IsKeyed (create_with_shards db now s req vus).0
  unfolding create_with_shards
  create_with_shards-IsKeyed db now s req vus k = elim (Result-cases (create_tx db now s req vus)) [
    | inr (x, e) ↦ rw (e, create_with_shards) k
    | inl ((s', run, shards), e) ↦
        let (_, inserted, is_run, is_s) = create_tx-ok db now s req vus s' run shards e in
        let added = add_run-IsKeyed s run (unfold new_run in rw is_run refl) k in
        let numbered =
          insert_shards-AreNumbered db now s.next_run s.next_shard 0 vus shards inserted in
        let (distinct, below) =
          append_numbered s.next_shard (s.next_shard + length vus) s.shards shards numbered
            k.shard_ids k.shard_ids_used in
        rw (e, create_with_shards)
          (rw is_s (record {
            run_ids = added.run_ids;
            run_ids_used = added.run_ids_used;
            shard_ids = distinct;
            shard_ids_used = below;
          }))
  ]

  pub claim_shard-IsKeyed :
      (db : Faults) (now : ℕ) (s : Store F) (id : ℕ) (allow : Bool) (miss : StoreError)
      → IsKeyed s
      → IsKeyed (claim_shard db now s id allow miss).0
  claim_shard-IsKeyed db now s id allow miss k =
      let guard = shard_where id (start_guard allow) in
      let claimed = with_shards-IsKeyed s guard (shard_to_running now) (λ _. refl) k in
      elim (claim_shard-cases db now s id allow miss) [
        | inl e ↦ rw e k
        | inr (inl e) ↦ rw e claimed
        | inr (inr (j, e)) ↦
            let flipped =
              with_runs-IsKeyed s (run_where j is_queued) (to_running now) (λ _. refl) k in
            rw e (record {
              run_ids = flipped.run_ids;
              run_ids_used = flipped.run_ids_used;
              shard_ids = claimed.shard_ids;
              shard_ids_used = claimed.shard_ids_used;
            })
      ]

module _ {F : Type 0} ⦃f : Float F⦄ where
  pub finish_shard-IsKeyed :
      (db : Faults) (now : ℕ) (s : Store F) (id : ℕ) (guard : Status → Bool)
      (set : Shard F → Shard F) (miss : Result StoreError (Unit {0}))
      → ((sh : Shard F) → (set sh).id ≡ sh.id)
      → IsKeyed s
      → IsKeyed (finish_shard db now s id guard set miss).0
  finish_shard-IsKeyed db now s id guard set miss same k =
      let written = record s { shards = update_where (shard_where id guard) set s.shards } in
      let kept = with_shards-IsKeyed s (shard_where id guard) set same k in
      elim (finish_shard-cases db now s id guard set miss) [
        | inl (_, _, e) ↦ rw e k
        | inr (_, inl (_, e)) ↦ rw e k
        | inr (_, inr (sh, _, e)) ↦ elim (barrier-ok db now written sh.run_id _ e) [
          | inl (_, as_written) ↦ rw as_written kept
          | inr (_, fired) ↦
              let (o, _, _, _, _, is_s) = aggregate_run-ok db now written sh.run_id _ fired in
              rw is_s (
                with_runs-IsKeyed written (run_where sh.run_id is_finishing) (to_outcome now o)
                  (λ _. refl) kept)
        ]
      ]
