-- ===== src/Store/Create.antt =====
-- Create and CreateWithShards of the store: a run is inserted with its shards. `now` is the database's
-- clock.
use text.Mathlib.Text.{◌==◌ as str_eq}
use distributed_load_testing.Common.{
  ℕ, suc, ◌+◌, Bool, not, ◌&&◌, ◌||◌, Option, none, some, List, [], ◌∷◌, ◌++◌, map, String, Result,
  ok, err, ◌==◌, if◌then◌else◌, length, ◌>>=◌, ◌>>◌, fail_if,
}
use distributed_load_testing.Common.Int.{ℤ, pos, ltb_ℤ}
use distributed_load_testing.Models.{queued, Headers, TestRun, CreateTestRunRequest}
use distributed_load_testing.Store.{
  StoreError, database, Shard, Store, Faults, begin, insert_run, insert_shard, commit,
}

abbrev pub positive : ℤ → Bool
positive z = ltb_ℤ (pos 0) z

-- The CHECK constraints of `test_runs` on an inserted row.
abbrev pub run_checks : CreateTestRunRequest → Bool
run_checks req = positive req.virtual_users && positive req.duration_seconds

abbrev pub opt_headers : Headers → Option Headers
opt_headers [] = none
opt_headers (h ∷ hs) = some (h ∷ hs)

abbrev pub opt_body : String → Option String
opt_body b = if str_eq b "" then none else some b

module _ {F : Type 0} where
  -- A row as INSERT leaves it: queued, with no results.
  unfoldable pub new_run :
      ℕ → ℕ → ℕ → Option Headers → Option String → ℤ → CreateTestRunRequest → TestRun F
  new_run id now shard_count headers body think req = record {
    id = id;
    name = req.name;
    target_url = req.target_url;
    method = req.method;
    virtual_users = req.virtual_users;
    duration_seconds = req.duration_seconds;
    shard_count = shard_count;
    status = queued;
    total_requests = none;
    successful_requests = none;
    failed_requests = none;
    avg_latency_ms = none;
    min_latency_ms = none;
    max_latency_ms = none;
    p50_latency_ms = none;
    p95_latency_ms = none;
    p99_latency_ms = none;
    error_message = none;
    created_at = now;
    started_at = none;
    completed_at = none;
    headers = headers;
    body = body;
    think_time_ms = think;
  }

  unfoldable pub create :
      Faults → ℕ → Store F → CreateTestRunRequest → Store F × Result StoreError (TestRun F)
  unfolding new_run
  create db now s req =
      if db insert_run || not (run_checks req)
      then (s, err database)
      else let run = new_run s.next_run now 1 none none (pos 0) req in
        (record s { runs = s.runs ++ (run ∷ []); next_run = suc s.next_run }, ok run)

  unfoldable pub new_shard : ℕ → ℕ → ℕ → ℕ → ℕ → Shard F
  new_shard id run_id now index vus = record {
    id = id;
    run_id = run_id;
    shard_index = index;
    virtual_users = vus;
    status = queued;
    error_message = none;
    total_requests = none;
    successful_requests = none;
    failed_requests = none;
    latency_count = none;
    avg_latency_ms = none;
    min_latency_ms = none;
    max_latency_ms = none;
    latency_buckets = none;
    started_at = none;
    completed_at = none;
    created_at = now;
  }

  -- The loop that inserts the shards, from index i on; the CHECK wants a positive number of users.
  unfoldable pub insert_shards :
      Faults → ℕ → ℕ → ℕ → ℕ → List ℕ → Result StoreError (List (Shard F))
  unfolding new_shard
  insert_shards db now run_id id i [] = ok []
  insert_shards db now run_id id i (vus ∷ rest) =
      let later = insert_shards db now run_id (suc id) (suc i) rest in
      fail_if (db (insert_shard i) || vus == 0) database
      >> (later >>= λ shards. ok (new_shard id run_id now i vus ∷ shards))

  abbrev pub shard_ids : List (Shard F) → List ℕ
  shard_ids = map (λ sh. sh.id)

  abbrev pub created_run : ℕ → Store F → CreateTestRunRequest → List ℕ → TestRun F
  created_run now s req shard_vus =
      new_run s.next_run now (length shard_vus) (opt_headers req.headers) (opt_body req.body)
        req.think_time_ms req

  -- The tables with a run and its shards added.
  abbrev pub with_created : Store F → TestRun F → List (Shard F) → List ℕ → Store F
  with_created s run shards shard_vus = record s {
    runs = s.runs ++ (run ∷ []);
    shards = s.shards ++ shards;
    next_run = suc s.next_run;
    next_shard = s.next_shard + length shard_vus;
  }

  -- The transaction of `CreateWithShards`: the tables with the new rows, and those rows.
  unfoldable pub create_tx :
      Faults
      → ℕ
      → Store F
      → CreateTestRunRequest
      → List ℕ
      → Result StoreError (Store F × TestRun F × List (Shard F))
  create_tx db now s req shard_vus = do
    fail_if (db begin) database
    let run = created_run now s req shard_vus
    fail_if (db insert_run || not (run_checks req)) database
    shards ← insert_shards db now s.next_run s.next_shard 0 shard_vus
    fail_if (db commit) database
    ok (with_created s run shards shard_vus, run, shards)

  unfoldable pub create_with_shards :
      Faults
      → ℕ
      → Store F
      → CreateTestRunRequest
      → List ℕ
      → Store F × Result StoreError (TestRun F × List ℕ)
  create_with_shards db now s req shard_vus = elim (create_tx db now s req shard_vus) [
    | ok (s', run, shards) ↦ (s', ok (run, shard_ids shards))
    | err e ↦ (s, err e)
  ]
