-- ===== src/Models.antt =====
-- backend/internal/models/test_run.go: the statuses, the run and the payloads of the API. `int64` is
-- a bit pattern, `int` a `ℤ`, a pointer an `Option`, a time a number, a float any type of floats.
use text.Mathlib.Text.{◌==◌ as str_eq}
use distributed_load_testing.Common.{
  ℕ, ◌≡◌, refl, Bool, true, false, Option, none, some, List, String, if◌then◌else◌,
}
use distributed_load_testing.Common.Int.{ℤ}

-- The values that the CHECK constraint of `test_runs.status` admits.
pub data Status : Type 0 where
  queued running completed failed cancelling cancelled : Status

abbrev pub status_queued : String
status_queued = "queued"

abbrev pub status_running : String
status_running = "running"

abbrev pub status_completed : String
status_completed = "completed"

abbrev pub status_failed : String
status_failed = "failed"

abbrev pub status_cancelling : String
status_cancelling = "cancelling"

abbrev pub status_cancelled : String
status_cancelled = "cancelled"

-- The text of a status, and the reading of a text into a column with the constraint of migration 006.
unfoldable pub to_text : Status → String
to_text queued = status_queued
to_text running = status_running
to_text completed = status_completed
to_text failed = status_failed
to_text cancelling = status_cancelling
to_text cancelled = status_cancelled

unfoldable pub parse_status : String → Option Status
parse_status t =
    if str_eq t status_queued
    then some queued
    else if str_eq t status_running
    then some running
    else if str_eq t status_completed
    then some completed
    else if str_eq t status_failed
    then some failed
    else if str_eq t status_cancelling
    then some cancelling
    else if str_eq t status_cancelled
    then some cancelled
    else none

abbrev pub is_queued : Status → Bool
is_queued queued = true
is_queued _ = false

abbrev pub is_running : Status → Bool
is_running running = true
is_running _ = false

-- `status IN ('queued', 'running')`.
abbrev pub is_open : Status → Bool
is_open queued = true
is_open running = true
is_open _ = false

-- `status IN ('running', 'cancelling')`.
abbrev pub is_finishing : Status → Bool
is_finishing running = true
is_finishing cancelling = true
is_finishing _ = false

-- `status IN ('queued', 'running', 'cancelling')`.
abbrev pub is_active : Status → Bool
is_active queued = true
is_active running = true
is_active cancelling = true
is_active _ = false

abbrev pub Headers : Type 0
Headers = List (String × String)

-- One row of `test_runs`; `headers`, `body` and `think_time_ms` are columns that the Go struct leaves
-- out of the JSON.
pub record TestRun (F : Type 0) : Type 0 where
  pub id : ℕ
  pub name : String
  pub target_url : String
  pub method : String
  pub virtual_users : ℤ
  pub duration_seconds : ℤ
  pub shard_count : ℕ
  pub status : Status
  pub total_requests : Option ℕ
  pub successful_requests : Option ℕ
  pub failed_requests : Option ℕ
  pub avg_latency_ms : Option F
  pub min_latency_ms : Option F
  pub max_latency_ms : Option F
  pub p50_latency_ms : Option F
  pub p95_latency_ms : Option F
  pub p99_latency_ms : Option F
  pub error_message : Option String
  pub created_at : ℕ
  pub started_at : Option ℕ
  pub completed_at : Option ℕ
  pub headers : Option Headers
  pub body : Option String
  pub think_time_ms : ℤ

pub record CreateTestRunRequest : Type 0 where
  pub name : String
  pub target_url : String
  pub method : String
  pub virtual_users : ℤ
  pub duration_seconds : ℤ
  pub shards : ℤ
  pub headers : Headers
  pub body : String
  pub think_time_ms : ℤ

pub record ShardAssignment : Type 0 where
  pub shard_id : ℕ
  pub run_id : ℕ
  pub shard_index : ℕ
  pub target_url : String
  pub method : String
  pub virtual_users : ℕ
  pub duration_seconds : ℤ
  pub headers : Headers
  pub body : String
  pub think_time_ms : ℤ

pub record CompleteShardRequest (F : Type 0) : Type 0 where
  pub status : String
  pub total_requests : Option ℕ
  pub successful_requests : Option ℕ
  pub failed_requests : Option ℕ
  pub latency_count : Option ℕ
  pub avg_latency_ms : Option F
  pub min_latency_ms : Option F
  pub max_latency_ms : Option F
  pub latency_buckets : List ℕ
  pub error_message : Option String

pub record CompleteTestRunRequest (F : Type 0) : Type 0 where
  pub status : String
  pub total_requests : Option ℕ
  pub successful_requests : Option ℕ
  pub failed_requests : Option ℕ
  pub avg_latency_ms : Option F
  pub min_latency_ms : Option F
  pub max_latency_ms : Option F
  pub error_message : Option String

-- A status survives its text.
pub parse_status-to_text : (st : Status) → parse_status (to_text st) ≡ some st
unfolding parse_status to_text
parse_status-to_text queued = refl
parse_status-to_text running = refl
parse_status-to_text completed = refl
parse_status-to_text failed = refl
parse_status-to_text cancelling = refl
parse_status-to_text cancelled = refl
