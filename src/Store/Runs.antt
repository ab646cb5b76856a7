-- ===== src/Store/Runs.antt =====
-- The methods of the store on runs that exist: GetByID, List, ClaimNext, StartByID, TakeOver, Fail,
-- Complete, CancelRun and CountActiveRuns. `now` is the database's clock.
use distributed_load_testing.Common.{
  ℕ, Bool, not, ◌&&◌, ◌||◌, Option, none, some, List, [], ◌∷◌, String, Result, ok, err, ◌==◌, ltb,
  if◌then◌else◌, take,
}
use distributed_load_testing.Common.Table.{find?, update_where, count_where}
use distributed_load_testing.Models.{
  Status, running, failed, cancelling, parse_status, is_queued, is_running, is_open, is_active,
  TestRun, CompleteTestRunRequest,
}
use distributed_load_testing.Store.{
  StoreError, not_found, no_queued_runs, not_running, not_queued, already_done, database, Store,
  Faults, select, update, has_run_id, run_where,
}

module _ {F : Type 0} where
  unfoldable pub get_by_id : Faults → Store F → ℕ → Result StoreError (TestRun F)
  unfolding find?
  get_by_id db s id =
      if db select
      then err database
      else elim (find? (has_run_id id) s.runs) [ none ↦ err not_found | some r ↦ ok r ]

  -- `ORDER BY created_at DESC, id DESC`.
  abbrev pub newer : TestRun F → TestRun F → Bool
  newer a b = ltb b.created_at a.created_at || (b.created_at == a.created_at && ltb b.id a.id)

  unfoldable pub insert_newest : TestRun F → List (TestRun F) → List (TestRun F)
  insert_newest r [] = r ∷ []
  insert_newest r (x ∷ xs) =
      let rest = insert_newest r xs in if newer r x then r ∷ x ∷ xs else x ∷ rest

  unfoldable pub newest_first : List (TestRun F) → List (TestRun F)
  unfolding insert_newest
  newest_first [] = []
  newest_first (r ∷ rs) = insert_newest r (newest_first rs)

  unfoldable pub list : Faults → Store F → ℕ → Result StoreError (List (TestRun F))
  unfolding newest_first
  list db s limit = if db select then err database else ok (take limit (newest_first s.runs))

  -- `UPDATE test_runs SET ... WHERE id = $1 AND ... RETURNING ...`; `none` is `sql.ErrNoRows`.
  unfoldable pub update_run :
      Faults
      → Store F
      → (TestRun F → Bool)
      → (TestRun F → TestRun F)
      → Store F × Result StoreError (Option (TestRun F))
  unfolding find? update_where
  update_run db s p set = if db update then (s, err database) else elim (find? p s.runs) [
    | none ↦ (s, ok none)
    | some r ↦ (record s { runs = update_where p set s.runs }, ok (some (set r)))
  ]

  abbrev pub to_running : ℕ → TestRun F → TestRun F
  to_running now r = record r { status = running; started_at = some now }

  -- The oldest queued row that no other transaction has locked (SKIP LOCKED). Postgres leaves open
  -- which of two rows created at one instant comes first; here it is the one that stands first.
  unfoldable pub oldest_queued : (ℕ → Bool) → List (TestRun F) → Option (TestRun F)
  oldest_queued locked [] = none
  oldest_queued locked (r ∷ rs) =
      let rest = oldest_queued locked rs in
      if is_queued r.status && not (locked r.id)
      then elim rest [
        | none ↦ some r
        | some best ↦ if ltb best.created_at r.created_at then some best else some r
      ]
      else rest

  unfoldable pub claim_next :
      Faults → ℕ → (ℕ → Bool) → Store F → Store F × Result StoreError (TestRun F)
  unfolding oldest_queued update_where
  claim_next db now locked s =
      if db update then (s, err database) else elim (oldest_queued locked s.runs) [
        | none ↦ (s, err no_queued_runs)
        | some r ↦ (
          record s { runs = update_where (has_run_id r.id) (to_running now) s.runs },
          ok (to_running now r),
        )
      ]

  -- Nothing updated: a missing run is `ErrNotFound`, any other outcome of the lookup is `miss`.
  unfoldable pub run_miss : Faults → Store F → ℕ → StoreError → Result StoreError (TestRun F)
  unfolding get_by_id
  run_miss db s id miss = elim (get_by_id db s id) [
    | ok _ ↦ err miss
    | err not_found ↦ err not_found
    | err _ ↦ err miss
  ]

  -- What the methods make of an update: the row, the miss when there is none, or the error.
  unfoldable pub answer :
      Store F × Result StoreError (Option (TestRun F))
      → Result StoreError (TestRun F)
      → Store F × Result StoreError (TestRun F)
  answer (s, ok (some r)) miss = (s, ok r)
  answer (s, ok none) miss = (s, miss)
  answer (s, err e) miss = (s, err e)

  unfoldable pub start_by_id : Faults → ℕ → Store F → ℕ → Store F × Result StoreError (TestRun F)
  unfolding update_run run_miss answer
  start_by_id db now s id =
      answer (update_run db s (run_where id is_queued) (to_running now))
        (run_miss db s id not_queued)

  unfoldable pub take_over : Faults → ℕ → Store F → ℕ → Store F × Result StoreError (TestRun F)
  unfolding update_run run_miss answer
  take_over db now s id =
      answer (update_run db s (run_where id is_open) (to_running now))
        (run_miss db s id already_done)

  abbrev pub to_failed : ℕ → String → TestRun F → TestRun F
  to_failed now reason r = record r {
    status = failed;
    error_message = some reason;
    completed_at = some now;
  }

  unfoldable pub fail : Faults → ℕ → Store F → ℕ → String → Store F × Result StoreError (TestRun F)
  unfolding update_run get_by_id answer
  fail db now s id reason =
      answer (update_run db s (run_where id is_open) (to_failed now reason)) (get_by_id db s id)

  abbrev pub to_complete : ℕ → Status → CompleteTestRunRequest F → TestRun F → TestRun F
  to_complete now st req r = record r {
    status = st;
    total_requests = req.total_requests;
    successful_requests = req.successful_requests;
    failed_requests = req.failed_requests;
    avg_latency_ms = req.avg_latency_ms;
    min_latency_ms = req.min_latency_ms;
    max_latency_ms = req.max_latency_ms;
    error_message = req.error_message;
    completed_at = some now;
  }

  -- The update with the request's status as the column reads it; `none` is a text outside the CHECK
  -- constraint, which the database refuses if a row would get it.
  unfoldable pub complete_as :
      Faults
      → ℕ
      → Store F
      → ℕ
      → CompleteTestRunRequest F
      → Option Status
      → Store F × Result StoreError (TestRun F)
  unfolding update_run run_miss answer find?
  complete_as db now s id req (some st) =
      answer (update_run db s (run_where id is_running) (to_complete now st req))
        (run_miss db s id not_running)
  complete_as db now s id req none = elim (find? (run_where id is_running) s.runs) [
    | some _ ↦ (s, err database)
    | none ↦
        answer (update_run db s (run_where id is_running) (λ r. r)) (run_miss db s id not_running)
  ]

  unfoldable pub complete :
      Faults → ℕ → Store F → ℕ → CompleteTestRunRequest F → Store F × Result StoreError (TestRun F)
  complete db now s id req = complete_as db now s id req (parse_status req.status)

  abbrev pub to_cancelling : TestRun F → TestRun F
  to_cancelling r = record r { status = cancelling }

  unfoldable pub cancel_run : Faults → Store F → ℕ → Store F × Result StoreError (TestRun F)
  unfolding update_run get_by_id answer
  cancel_run db s id =
      answer (update_run db s (run_where id is_open) to_cancelling) (get_by_id db s id)

  abbrev pub has_active : TestRun F → Bool
  has_active r = is_active r.status

  unfoldable pub count_active_runs : Faults → Store F → Result StoreError ℕ
  unfolding count_where
  count_active_runs db s = if db select then err database else ok (count_where has_active s.runs)
