-- ===== src/Store.antt =====
-- backend/internal/store/test_run_store.go: the database that the store queries. A call of a store
-- method gives the database after it and the method's result.
pub mod Histogram
pub mod Create
pub mod Runs
pub mod Columns
pub mod Aggregate
pub mod Shards
pub mod Lifecycle
pub mod Completion
pub mod Totals
pub mod Commit
pub mod Closing
pub mod Rows
pub mod Concurrent
pub mod Newest
use distributed_load_testing.Common.{ℕ, Bool, false, ◌&&◌, Option, List, String, ◌==◌}
use distributed_load_testing.Models.{Status, TestRun}

-- The errors of the package, and any error of the database.
pub data StoreError : Type 0 where
  not_found no_queued_runs not_running not_queued already_done database : StoreError

-- One row of `test_run_shards`.
pub record Shard (F : Type 0) : Type 0 where
  pub id : ℕ
  pub run_id : ℕ
  pub shard_index : ℕ
  pub virtual_users : ℕ
  pub status : Status
  pub error_message : Option String
  pub total_requests : Option ℕ
  pub successful_requests : Option ℕ
  pub failed_requests : Option ℕ
  pub latency_count : Option ℕ
  pub avg_latency_ms : Option F
  pub min_latency_ms : Option F
  pub max_latency_ms : Option F
  pub latency_buckets : Option (List ℕ)
  pub started_at : Option ℕ
  pub completed_at : Option ℕ
  pub created_at : ℕ

-- The two tables and the next value of each BIGSERIAL column.
pub record Store (F : Type 0) : Type 0 where
  pub runs : List (TestRun F)
  pub shards : List (Shard F)
  pub next_run : ℕ
  pub next_shard : ℕ

-- The statements that a method sends. The database may refuse any of them; a statement that it
-- refuses, and a transaction that is not committed, changes no table.
pub data Statement : Type 0 where
  begin select insert_run update recheck decode flip lock count_open sum_shards histograms :
      Statement
  read_status write_run commit : Statement
  insert_shard : ℕ → Statement

-- Which statements of a call the database refuses.
abbrev pub Faults : Type 0
Faults = Statement → Bool

abbrev pub no_faults : Faults
no_faults _ = false

module _ {F : Type 0} where
  abbrev pub has_run_id : ℕ → TestRun F → Bool
  has_run_id id r = r.id == id

  abbrev pub has_shard_id : ℕ → Shard F → Bool
  has_shard_id id sh = sh.id == id

  -- The row that `id` and a guard on its status select.
  abbrev pub run_where : ℕ → (Status → Bool) → TestRun F → Bool
  run_where id guard r = r.id == id && guard r.status

  abbrev pub shard_where : ℕ → (Status → Bool) → Shard F → Bool
  shard_where id guard sh = sh.id == id && guard sh.status
