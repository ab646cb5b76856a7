-- ===== src/Handlers.antt =====
-- backend/internal/handlers: what the handlers know of their surroundings, and what they answer.
pub mod Validate
pub mod Public
pub mod Internal
pub mod Create
pub mod Fanout
pub mod Listing
use distributed_load_testing.Common.{ℕ, Bool, Option, none, some, List, String, suc, zero}
use distributed_load_testing.Common.Int.{ℤ, pos, negsuc}
use distributed_load_testing.Models.{TestRun, ShardAssignment}
use distributed_load_testing.Store.{Store, Faults}
use distributed_load_testing.Queue.{Stream}

-- The functions of Go's `strings` and `net/url` that rest on Unicode's tables and on the grammar of
-- URLs: `hostname` is `url.Parse` and then `Hostname`, `none` where the parse fails.
pub record Strings : Type 0 where
  pub trim_space : String → String
  pub to_upper : String → String
  pub to_lower : String → String
  pub hostname : String → Option String

-- The `Handler` struct; the database and the stream are the `World`.
pub record Handler : Type 0 where
  pub strings : Strings
  pub allowed_target_hosts : String → Bool
  pub max_concurrent_runs : ℤ

pub record World (F : Type 0) : Type 0 where
  pub store : Store F
  pub stream : Stream

-- What the surroundings decide during one request: the clock, the refusals of Postgres and of Redis
-- (by the position of the job), and the rows that other transactions have locked. `counted` is what
-- CountActiveRuns has read when so many runs are active at the insert: other requests may have come in
-- between.
pub record Surroundings : Type 0 where
  pub now : ℕ
  pub db : Faults
  pub redis : ℕ → Bool
  pub locked : ℕ → Bool
  pub counted : ℕ → ℕ

pub data Payload (F : Type 0) : Type 0 where
  empty : Payload F
  status_ok : Payload F
  error_text : String → Payload F
  run : TestRun F → Payload F
  runs : List (TestRun F) → Payload F
  assignment : ShardAssignment → Payload F

pub record Response (F : Type 0) : Type 0 where
  pub code : ℕ
  pub payload : Payload F

module _ {F : Type 0} where
  -- writeJSON and writeError.
  abbrev pub write_json : ℕ → Payload F → Response F
  write_json code payload = record { code = code; payload = payload }

  abbrev pub write_error : ℕ → String → Response F
  write_error code message = record { code = code; payload = error_text message }

-- `strconv.ParseInt` and the check that the id is positive; `none` is its error.
abbrev pub positive_id : Option ℤ → Option ℕ
positive_id (some (pos (suc n))) = some (suc n)
positive_id _ = none
