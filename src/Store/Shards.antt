-- ===== src/Store/Shards.antt =====
-- The shard methods of the store: StartShard, TakeOverShard, CompleteShard, FailShard, and the
-- completion barrier in finishShard.
use distributed_load_testing.Common.{
  ℕ, Bool, true, false, ◌&&◌, ◌||◌, Option, none, some, List, [], ◌∷◌, String, Result, ok, err,
  ◌==◌, if◌then◌else◌, ◌>>=◌, ◌>>◌, fail_if,
}
use distributed_load_testing.Common.Table.{find?, update_where, count_where}
use distributed_load_testing.Float.{Float}
use distributed_load_testing.Models.{
  Status, queued, running, completed, failed, is_queued, is_running, is_open, parse_status, Headers,
  TestRun, ShardAssignment, CompleteShardRequest,
}
use distributed_load_testing.Store.{
  StoreError, not_found, not_running, not_queued, already_done, database, Shard, Store, Faults,
  begin, update, recheck, decode, flip, lock, count_open, commit, has_run_id, has_shard_id,
  run_where, shard_where,
}
use distributed_load_testing.Store.Runs.{to_running}
use distributed_load_testing.Store.Aggregate.{aggregate_run}

-- The CHECK constraint of `test_run_shards.status`.
abbrev pub shard_status : Option Status → Option Status
shard_status (some queued) = some queued
shard_status (some running) = some running
shard_status (some completed) = some completed
shard_status (some failed) = some failed
shard_status _ = none

abbrev some_buckets : List ℕ → Option (List ℕ)
some_buckets [] = none
some_buckets (b ∷ bs) = some (b ∷ bs)

abbrev or_empty : Option String → String
or_empty none = ""
or_empty (some b) = b

abbrev or_none : Option Headers → Headers
or_none none = []
or_none (some h) = h

abbrev pub start_guard : Bool → Status → Bool
start_guard allow_running = if allow_running then is_open else is_queued

module _ {F : Type 0} where
  -- `shardMiss`: nothing was updated. `miss` is the error for a shard in another state, or the nil
  -- that FailShard passes.
  unfoldable pub shard_miss {ℓ} :
      {A : Type ℓ} → Faults → Store F → ℕ → Result StoreError A → Result StoreError A
  unfolding find?
  shard_miss db s id miss =
      if db recheck
      then err database
      else elim (find? (has_shard_id id) s.shards) [ none ↦ err not_found | some _ ↦ miss ]

  abbrev pub shard_to_running : ℕ → Shard F → Shard F
  shard_to_running now sh = record sh { status = running; started_at = some now }

  abbrev pub assignment : Shard F → TestRun F → ShardAssignment
  assignment sh r = record {
    shard_id = sh.id;
    run_id = sh.run_id;
    shard_index = sh.shard_index;
    target_url = r.target_url;
    method = r.method;
    virtual_users = sh.virtual_users;
    duration_seconds = r.duration_seconds;
    headers = or_none r.headers;
    body = or_empty r.body;
    think_time_ms = r.think_time_ms;
  }

  -- The joined update, then, outside any transaction, the update that flips a queued run.
  unfoldable pub claim_shard :
      Faults → ℕ → Store F → ℕ → Bool → StoreError → Store F × Result StoreError ShardAssignment
  unfolding find? update_where shard_miss
  claim_shard db now s id allow_running miss =
      if db update
      then (s, err database)
      else elim (find? (shard_where id (start_guard allow_running)) s.shards) [
        | none ↦ (s, shard_miss db s id (err miss))
        | some sh ↦ elim (find? (has_run_id sh.run_id) s.runs) [
          | none ↦ (s, shard_miss db s id (err miss))
          | some r ↦
              let guard = shard_where id (start_guard allow_running) in
              let s1 = record s { shards = update_where guard (shard_to_running now) s.shards } in
              if db decode || db flip then (s1, err database) else (
                record s1 {
                  runs = update_where (run_where sh.run_id is_queued) (to_running now) s.runs;
                },
                ok (assignment sh r),
              )
        ]
      ]

  unfoldable pub start_shard :
      Faults → ℕ → Store F → ℕ → Store F × Result StoreError ShardAssignment
  start_shard db now s id = claim_shard db now s id false not_queued

  unfoldable pub take_over_shard :
      Faults → ℕ → Store F → ℕ → Store F × Result StoreError ShardAssignment
  take_over_shard db now s id = claim_shard db now s id true already_done

  -- A shard of the run that is still outstanding.
  abbrev pub is_outstanding : ℕ → Shard F → Bool
  is_outstanding run_id sh = sh.run_id == run_id && is_open sh.status

  -- Whether a CHECK on the written row can be violated: some row would be written.
  unfoldable pub is_written : ℕ → List (Shard F) → Bool
  unfolding find?
  is_written id shards = elim (find? (shard_where id is_running) shards) [
    | none ↦ false
    | some _ ↦ true
  ]

  abbrev pub to_partial : ℕ → Status → CompleteShardRequest F → Shard F → Shard F
  to_partial now st req sh = record sh {
    status = st;
    error_message = req.error_message;
    total_requests = req.total_requests;
    successful_requests = req.successful_requests;
    failed_requests = req.failed_requests;
    latency_count = req.latency_count;
    avg_latency_ms = req.avg_latency_ms;
    min_latency_ms = req.min_latency_ms;
    max_latency_ms = req.max_latency_ms;
    latency_buckets = some_buckets req.latency_buckets;
    completed_at = some now;
  }

  abbrev pub shard_to_failed : ℕ → String → Shard F → Shard F
  shard_to_failed now reason sh = record sh {
    status = failed;
    error_message = some reason;
    completed_at = some now;
  }

module _ {F : Type 0} ⦃f : Float F⦄ where
  -- What `finishShard` does once the shard's row is written, up to the commit.
  unfoldable pub barrier : Faults → ℕ → Store F → ℕ → Result StoreError (Store F)
  barrier db now s run_id = do
    fail_if (db lock) database
    fail_if (db count_open) database
    s' ←
        (if count_where (is_outstanding run_id) s.shards == 0
          then aggregate_run db now s run_id
          else ok s)
    fail_if (db commit) database
    ok s'

  unfoldable pub finish_tx :
      Faults
      → ℕ
      → Store F
      → ℕ
      → (Status → Bool)
      → (Shard F → Shard F)
      → Result StoreError (Unit {0})
      → Result StoreError (Store F)
  finish_tx db now s id guard set miss = do
    fail_if (db begin) database
    fail_if (db update) database
    elim (find? (shard_where id guard) s.shards) [
      | none ↦ shard_miss db s id miss >>= λ _. ok s
      | some sh ↦
          barrier db now (record s { shards = update_where (shard_where id guard) set s.shards })
            sh.run_id
    ]

  -- `defer tx.Rollback()`: on any error the tables stay as they were.
  unfoldable pub finish_shard :
      Faults
      → ℕ
      → Store F
      → ℕ
      → (Status → Bool)
      → (Shard F → Shard F)
      → Result StoreError (Unit {0})
      → Store F × Result StoreError (Unit {0})
  finish_shard db now s id guard set miss = elim (finish_tx db now s id guard set miss) [
    | ok s' ↦ (s', ok tt)
    | err e ↦ (s, err e)
  ]

  -- The status of the request goes into a column with a CHECK; `none` is a text outside it, which the
  -- database refuses if a row would get it.
  unfoldable pub complete_shard_as :
      Faults
      → ℕ
      → Store F
      → ℕ
      → CompleteShardRequest F
      → Option Status
      → Store F × Result StoreError (Unit {0})
  complete_shard_as db now s id req (some st) =
      finish_shard db now s id is_running (to_partial now st req) (err not_running)
  complete_shard_as db now s id req none =
      if is_written id s.shards
      then (s, err database)
      else finish_shard db now s id is_running (λ sh. sh) (err not_running)

  unfoldable pub complete_shard :
      Faults → ℕ → Store F → ℕ → CompleteShardRequest F → Store F × Result StoreError (Unit {0})
  complete_shard db now s id req =
      complete_shard_as db now s id req (shard_status (parse_status req.status))

  unfoldable pub fail_shard :
      Faults → ℕ → Store F → ℕ → String → Store F × Result StoreError (Unit {0})
  fail_shard db now s id reason =
      finish_shard db now s id is_open (shard_to_failed now reason) (ok tt)
