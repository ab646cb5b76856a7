-- ===== src/Worker/Delivery.antt =====
-- A message that meets no trouble: its shard is claimed, run and completed, and it is acknowledged.
use text.Mathlib.Text.{◌==◌ as str_eq}
use distributed_load_testing.Common.{
  ℕ, suc, ◌≡◌, refl, ap, ◌∙◌, inl, inr, Bool, true, false, ==_iff, ◌&&◌, not, some, List, [], ◌∷◌,
  ok, arith, Result-cases, if◌then◌else◌,
}
use distributed_load_testing.Common.Int.{pos}
use mathlib.Core.Option
use distributed_load_testing.Store.Runs.{to_running}
use distributed_load_testing.Store.Lifecycle.{IsKeyed}
use distributed_load_testing.Common.Table.{
  find?, update_where, update_where-Distinct, find?-true, find?-update_key, select_where, Distinct,
}
use distributed_load_testing.Float.{Float}
use distributed_load_testing.Models.{
  Status, is_queued, is_running, status_completed, status_failed, TestRun, ShardAssignment,
  CompleteShardRequest,
}
use distributed_load_testing.Store.{
  not_queued, already_done, Shard, Store, no_faults, has_run_id, run_where, shard_where,
  has_shard_id,
}
use distributed_load_testing.Store.Columns.{of_run}
use distributed_load_testing.Store.Shards.{
  start_guard, shard_to_running, assignment, start_shard, take_over_shard, to_partial,
  complete_shard,
}
use distributed_load_testing.Store.Commit.{FitsInt64}
use distributed_load_testing.Store.Rows.{
  claimed_store, claim_shard-claims, update-opens, complete_shard-row,
}
use distributed_load_testing.Handlers.{Handler, World, Payload, status_ok, write_json}
use distributed_load_testing.Handlers.Fanout.{quiet}
use distributed_load_testing.Handlers.Internal.{
  start_shard_handler, takeover_shard, complete_shard_handler, complete_shard_valid,
}
use distributed_load_testing.Api.{serve, serve_all}
use distributed_load_testing.Runner.Run.{Round, run}
use distributed_load_testing.Worker.{delivered, Trip, send, send_over}
use distributed_load_testing.Worker.Client.{
  claimed, claim_shard_by_id, read_claim, complete_shard_by_id, report, read_report,
}
use distributed_load_testing.Worker.Jobs.{
  to_config, Job, xack, execute_shard, run_claimed, after_claim, handle_shard, handle_message,
}
use distributed_load_testing.Worker.Replies.{IsFinal, execute_shard-IsFinal}

-- A request that is served while nothing is refused, and whose answer comes back.
abbrev pub smooth : ℕ → (ℕ → Bool) → Trip
smooth now locked = record { surroundings = quiet now locked; link = delivered }

module _ {F : Type 0} ⦃f : Float F⦄ where
  -- The handlers of the two routes of a claim.
  claim_served :
      (now : ℕ) (locked : ℕ → Bool) (s : Store F) (reclaimed : Bool) (n : ℕ) (sh : Shard F)
      (r : TestRun F)
      → find? (shard_where (suc n) (start_guard reclaimed)) s.shards ≡ some sh
      → find? (has_run_id sh.run_id) s.runs ≡ some r
      → (if reclaimed then takeover_shard else start_shard_handler)
          (quiet now locked)
          s
          (some (pos (suc n)))
        ≡ (
          claimed_store now reclaimed (suc n) sh.run_id s,
          write_json 200 (Payload.assignment (assignment sh r)),
        )
  unfolding start_shard_handler takeover_shard start_shard take_over_shard
  claim_served now locked s true n sh r found run_found =
      rw (claim_shard-claims now s (suc n) true already_done sh r found run_found) refl
  claim_served now locked s false n sh r found run_found =
      rw (claim_shard-claims now s (suc n) false not_queued sh r found run_found) refl

  claim_shard_by_id-claims :
      (h : Handler) (now : ℕ) (locked : ℕ → Bool) (w : World F) (reclaimed : Bool) (n : ℕ)
      (sh : Shard F) (r : TestRun F)
      → find? (shard_where (suc n) (start_guard reclaimed)) w.store.shards ≡ some sh
      → find? (has_run_id sh.run_id) w.store.runs ≡ some r
      → claim_shard_by_id h (smooth now locked) w reclaimed (pos (suc n)) ≡ (
        record w { store = claimed_store now reclaimed (suc n) sh.run_id w.store },
        claimed (assignment sh r),
      )
  unfolding claim_shard_by_id send send_over serve read_claim
  claim_shard_by_id-claims h now locked w true n sh r found run_found =
      rw (claim_served now locked w.store true n sh r found run_found) refl
  claim_shard_by_id-claims h now locked w false n sh r found run_found =
      rw (claim_served now locked w.store false n sh r found run_found) refl

  -- The handler lets the body of a worker's report pass.
  execute_shard-accepted :
      (a : ShardAssignment) (schedule : ℕ → List (Round F))
      → let body = execute_shard a schedule in
        (not (str_eq body.status status_completed) && not (str_eq body.status status_failed))
        ≡ false
  unfolding execute_shard
  execute_shard-accepted a schedule = elim (Result-cases (run (to_config a) schedule)) [
    | inl (res, e) ↦ rw (e, execute_shard) refl
    | inr (m, e) ↦ rw (e, execute_shard) refl
  ]

  complete_shard_valid-taken :
      (now : ℕ) (locked : ℕ → Bool) (s : Store F) (k : ℕ) (req : CompleteShardRequest F)
      → (complete_shard no_faults now s k req).1 ≡ ok tt
      → complete_shard_valid (quiet now locked) s k req
        ≡ ((complete_shard no_faults now s k req).0, write_json 200 status_ok)
  unfolding complete_shard_valid
  complete_shard_valid-taken now locked s k req done = rw done refl

  complete_shard_by_id-taken :
      (h : Handler) (now : ℕ) (locked : ℕ → Bool) (w : World F) (n : ℕ)
      (req : CompleteShardRequest F)
      → (not (str_eq req.status status_completed) && not (str_eq req.status status_failed)) ≡ false
      → (complete_shard no_faults now w.store (suc n) req).1 ≡ ok tt
      → complete_shard_by_id h (smooth now locked) w (pos (suc n)) req
        ≡ (record w { store = (complete_shard no_faults now w.store (suc n) req).0 }, true)
  unfolding complete_shard_by_id report send send_over serve complete_shard_handler read_report
  complete_shard_by_id-taken h now locked w n req accepted done =
      rw (accepted, complete_shard_valid-taken now locked w.store (suc n) req done) refl

  abbrev pub smooth_job : ℕ → (ℕ → Bool) → (ℕ → List (Round F)) → ℕ → (ℕ → Bool) → Job F
  smooth_job now locked schedule now' locked' = record {
    claiming = smooth now locked;
    meanwhile = [];
    schedule = schedule;
    reporting = smooth now' locked';
  }

  -- The rows of a run's shards once the shard n has been reported.
  abbrev pub reported_shards :
      ℕ → Status → CompleteShardRequest F → ℕ → ℕ → Store F → List (Shard F)
  reported_shards now st body n run_id s =
      select_where (of_run run_id)
        (update_where (shard_where n is_running) (to_partial now st body) s.shards)

  run_claimed-completes :
      (h : Handler) (now now' : ℕ) (locked locked' : ℕ → Bool) (schedule : ℕ → List (Round F))
      (w : World F) (msg_id n : ℕ) (a : ShardAssignment) (sh : Shard F) (r : TestRun F)
      → a.shard_id ≡ suc n
      → Distinct (λ (sh : Shard F). sh.id) w.store.shards
      → find? (shard_where (suc n) is_running) w.store.shards ≡ some sh
      → find? (has_run_id sh.run_id) w.store.runs ≡ some r
      → let body = execute_shard a schedule in
        ((st : Status) → FitsInt64 (reported_shards now' st body (suc n) sh.run_id w.store))
        → let (w', commands) =
            run_claimed h (smooth_job now locked schedule now' locked') w msg_id a in
          (commands ≡ xack msg_id ∷ [])
          × (st : Status) × IsFinal st
          × (find? (has_shard_id (suc n)) w'.store.shards ≡ some (to_partial now' st body sh))
  unfolding run_claimed serve_all
  run_claimed-completes h now now' locked locked' schedule w msg_id n a sh r is_n d found run_found
        fits =
      let body = execute_shard a schedule in
      let (st, parsed, final) = execute_shard-IsFinal a schedule in
      let (done, row) =
        complete_shard-row now' w.store (suc n) body st sh r parsed d found run_found (fits st) in
      let taken =
        ap (λ k. complete_shard_by_id h (smooth now' locked') w (pos k) body) is_n
        ∙ complete_shard_by_id-taken h now' locked' w n body (execute_shard-accepted a schedule)
            done in
      rw taken (refl, st, final, row)

  claimed-run :
      (now : ℕ) (reclaimed : Bool) (n k : ℕ) (s : Store F) (r : TestRun F)
      → find? (has_run_id k) s.runs ≡ some r
      → (r' : TestRun F) × (find? (has_run_id k) (claimed_store now reclaimed n k s).runs ≡ some r')
  claimed-run now reclaimed n k s r found = (
    _,
    find?-update_key (λ (r : TestRun F). r.id) (run_where k is_queued) (to_running now) k
          (λ _. refl) s.runs
        ∙ ap (Option.map (λ x. if run_where k is_queued x then to_running now x else x)) found,
  )

  -- While the database refuses nothing, the answers come back and no one else meddles, a message for a
  -- shard in a state in which it can be claimed, whose run is in the table and whose run's sums with
  -- the new row fit an int64, is handled in full: the message is acknowledged, and the shard's row
  -- holds the figures of the load and is in a final state.
  pub handle_message-completes :
      (h : Handler) (now now' : ℕ) (locked locked' : ℕ → Bool) (schedule : ℕ → List (Round F))
      (reclaimed : Bool) (w : World F) (msg_id n : ℕ) (sh : Shard F) (r : TestRun F)
      → IsKeyed w.store
      → find? (shard_where (suc n) (start_guard reclaimed)) w.store.shards ≡ some sh
      → find? (has_run_id sh.run_id) w.store.runs ≡ some r
      → let body = execute_shard (assignment sh r) schedule in
        let s' = claimed_store now reclaimed (suc n) sh.run_id w.store in
        ((st : Status) → FitsInt64 (reported_shards now' st body (suc n) sh.run_id s'))
        → let (w', commands) =
            handle_message h
              (smooth_job now locked schedule now' locked')
              reclaimed
              w
              (record { id = msg_id; shard_id = some (pos (suc n)) }) in
          (commands ≡ xack msg_id ∷ [])
          × (st : Status) × IsFinal st
          × (find? (has_shard_id (suc n)) w'.store.shards
              ≡ some (to_partial now' st body (shard_to_running now sh)))
  unfolding handle_message handle_shard after_claim
  handle_message-completes h now now' locked locked' schedule reclaimed w msg_id n sh r keyed found
        run_found fits =
      let is_n : sh.id ≡ suc n =
        ground (arith, ==_iff sh.id (suc n), find?-true _ w.store.shards sh found) in
      let s' = claimed_store now reclaimed (suc n) sh.run_id w.store in
      let (r', run_found') = claimed-run now reclaimed (suc n) sh.run_id w.store r run_found in
      let opened =
        update-opens (suc n) (start_guard reclaimed) (shard_to_running now) sh (λ _. (refl, refl))
          w.store.shards keyed.shard_ids found in
      let d =
        update_where-Distinct (λ (sh : Shard F). sh.id)
          (shard_where (suc n) (start_guard reclaimed)) (shard_to_running now) (λ _. refl)
          w.store.shards keyed.shard_ids in
      rw (claim_shard_by_id-claims h now locked w reclaimed n sh r found run_found) (
        run_claimed-completes h now now' locked locked' schedule (record w { store = s' }) msg_id n
          (assignment sh r) (shard_to_running now sh) r' is_n d opened run_found' fits)
