-- ===== src/Worker/Reports.antt =====
-- From the virtual users to the row of a run: what worker/internal/runner measures in each shard,
-- executeShard of worker/cmd/worker/main.go reports, and aggregateRun of
-- backend/internal/store/test_run_store.go combines.
pub mod Outcomes
use mathlib.Core.List.{append-nil}
use mathlib.Core.Path.{subst}
use distributed_load_testing.Common.{
  ℕ, zero, suc, ◌+◌, ◌<◌, ◌≡◌, ◌⊎◌, refl, ap, sym, ◌∙◌, inl, inr, Bool, true, false, Option, none,
  some, List, [], ◌∷◌, ◌++◌, map, arith, length, length-append, All, Any, Result, ok, err,
  err-ne-ok, ◌>>=◌, >>=-eq-ok, fail_if-ok, ok-injective, if◌then◌else◌,
}
use distributed_load_testing.Common.Int.{int64_half, lt64}
use distributed_load_testing.Float.{Float, IsOrdered, ◌≼◌}
use distributed_load_testing.Models.{ShardAssignment, completed}
use distributed_load_testing.Common.Table.{select_where}
use distributed_load_testing.Store.{StoreError, Shard, Store, Faults, sum_shards}
use distributed_load_testing.Store.Aggregate.{
  Totals, Outcome, run_outcome, sum_totals, current_status,
}
use distributed_load_testing.Store.Columns.{
  has_samples, of_run, sum_column, scan_int64, run_percentiles, min_latency, max_latency,
  float_or_zero,
}
use distributed_load_testing.Store.Shards.{to_partial}
use distributed_load_testing.Store.Totals.{total_over, column_total, scan-sum_column}
use distributed_load_testing.Runner.Stats
use distributed_load_testing.Runner.Run.{Round, run}
use distributed_load_testing.Runner.Extremes.{
  all_latencies, IsExtremes, least_of, greatest_of, All-parts,
}
use distributed_load_testing.Runner.Extremes.Summary.{run-IsExtremes}
use distributed_load_testing.Worker.Jobs.{to_config, execute_shard}

-- The load of one shard: what the worker was given, what its users met, and the row with the time at
-- which the report is written to it.
pub record Load (F : Type 0) : Type 0 where
  pub assignment : ShardAssignment
  pub schedule : ℕ → List (Round F)
  pub shard : Shard F
  pub now : ℕ

module _ {F : Type 0} where
  -- The latencies that the users of a shard record.
  abbrev recorded : Load F → List F
  recorded load =
      all_latencies (to_config load.assignment) load.schedule load.assignment.virtual_users 0

  abbrev pub all_recorded : List (Load F) → List F
  all_recorded [] = []
  all_recorded (load ∷ loads) = recorded load ++ all_recorded loads

  -- The bounds of some values, NULL if there are none.
  abbrev pub IsBound : ⦃f : Float F⦄ → Option F → Option F → List F → Type 0
  IsBound least greatest xs =
      ((least ≡ none) × (greatest ≡ none) × (xs ≡ []))
      ⊎ ((a : F) × (b : F) × (least ≡ some a) × (greatest ≡ some b) × IsExtremes a b xs)

module _ {F : Type 0} ⦃f : Float F⦄ where
  -- The row of the shard after the report.
  abbrev pub reported_row : Load F → Shard F
  reported_row load =
      to_partial load.now completed (execute_shard load.assignment load.schedule) load.shard

  abbrev pub HasRun : Load F → Type 0
  HasRun load = (res : Stats.Result F) × (run (to_config load.assignment) load.schedule ≡ ok res)

  reported_row_lem :
      (load : Load F) (res : Stats.Result F)
      → run (to_config load.assignment) load.schedule ≡ ok res
      → ((reported_row load).latency_count ≡ some res.latency_count)
        × ((reported_row load).min_latency_ms ≡ some res.min_latency_ms)
        × ((reported_row load).max_latency_ms ≡ some res.max_latency_ms)
  unfolding execute_shard
  reported_row_lem load res e = rw (e, execute_shard) (refl, refl, refl)

  not_empty : (P : F → Type 0) (xs : List F) → Any P xs → 0 < length xs
  not_empty P [] h = absurd h
  not_empty P (x ∷ xs) h = omega arith

  some-if : (b : Bool) (x y : F) → (if b then some x else some y) ≡ some (if b then x else y)
  some-if true x y = refl
  some-if false x y = refl

  -- A row without samples does not count.
  min-empty :
      (sh : Shard F) (rows : List (Shard F))
      → sh.latency_count ≡ some 0
      → (min_latency (sh ∷ rows) ≡ min_latency rows) × (max_latency (sh ∷ rows) ≡ max_latency rows)
  unfolding min_latency max_latency lt64
  min-empty sh rows e = rw e (refl, refl)

  module _ (o : IsOrdered F) where
    -- A row with samples takes part.
    min-sample :
        (sh : Shard F) (rows : List (Shard F)) (n : ℕ) (a a' : F) (xs ys : List F)
        → sh.latency_count ≡ some n
        → sh.min_latency_ms ≡ some a
        → sh.max_latency_ms ≡ some a'
        → 0 < n
        → n < int64_half
        → IsExtremes a a' xs
        → IsBound (min_latency rows) (max_latency rows) ys
        → IsBound (min_latency (sh ∷ rows)) (max_latency (sh ∷ rows)) (xs ++ ys)
    unfolding min_latency max_latency lt64
    min-sample sh rows n a a' xs ys e least greatest more fits h
          (inl (no_least, no_greatest, empty)) =
        let counted : has_samples (some n) ≡ true = ground arith in
        rw
          (
            e,
            counted,
            least,
            greatest,
            no_least,
            no_greatest,
            empty,
            append-nil xs,
            min_latency,
            max_latency,
          )
          (inr (a, a', refl, refl, h))
    min-sample sh rows n a a' xs ys e least greatest more fits (p, q, r, s)
          (inr (b, b', is_b, is_b', (p', q', r', s'))) =
        let counted : has_samples (some n) ≡ true = ground arith in
        let (u, v) = least_of o a b xs ys p q p' q' in
        let (u', v') = greatest_of o a' b' xs ys r s r' s' in
        rw (e, counted, least, greatest, is_b, is_b', min_latency, max_latency)
          (inr (
            (if f.lt b a then b else a),
            (if f.lt a' b' then b' else a'),
            some-if (f.lt b a) b a,
            some-if (f.lt a' b') b' a',
            (u, v, u', v'),
          ))

    pub reported-IsBound :
        (loads : List (Load F))
        → All HasRun loads
        → All (λ x. x ≼ x) (all_recorded loads)
        → length (all_recorded loads) < int64_half
        → let rows = map reported_row loads in
          IsBound (min_latency rows) (max_latency rows) (all_recorded loads)
          × (total_over (λ sh. sh.latency_count) rows ≡ length (all_recorded loads))
    unfolding min_latency max_latency
    reported-IsBound [] runs real fits = (inl (refl, refl, refl), refl)
    reported-IsBound (load ∷ loads) ((res, e), runs) real fits =
        let rows = map reported_row loads in
        let sum = length-append (recorded load) (all_recorded loads) in
        let (real_here, real_rest) =
          All-parts (λ x. x ≼ x) (recorded load) (all_recorded loads) real in
        let (rest, total) = reported-IsBound loads runs real_rest (omega (arith, sum)) in
        let (count, extremes) =
          run-IsExtremes o (to_config load.assignment) load.schedule res (omega (arith, sum))
            real_here e in
        let (is_count, is_min, is_max) = reported_row_lem load res e in
        (
          elim extremes [
            | inl empty ↦
                let (same_min, same_max) =
                  min-empty (reported_row load) rows
                    (is_count ∙ ap some (count ∙ ap length empty)) in
                rw (same_min, same_max, empty) rest
            | inr (p, q, r, s) ↦
                min-sample (reported_row load) rows res.latency_count res.min_latency_ms
                  res.max_latency_ms (recorded load) (all_recorded loads) is_count is_min is_max
                  (omega (arith, count, not_empty _ (recorded load) p)) (omega (arith, count, sum))
                  (p, q, r, s) rest
          ],
          rw is_count (omega (arith, count, sum, total)),
        )
