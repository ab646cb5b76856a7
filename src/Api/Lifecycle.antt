-- ===== src/Api/Lifecycle.antt =====
-- Every request of the API makes only allowed moves, and keeps the ids apart.
pub mod Runs
pub mod Shards
use text.Mathlib.Text.{◌==◌ as str_eq}
use text.Mathlib.TextEquality.{eq_iff}
use distributed_load_testing.Common.{
  ℕ, ◌≡◌, refl, sym, ◌⊎◌, inl, inr, Bool, true, false, not, ◌&&◌, Option, none, some, List, String,
  Result, ok, err, arith, Bool-cases, Option-cases, Result-cases, err-ne-ok,
}
use distributed_load_testing.Common.Int.{ℤ, pos_part}
use distributed_load_testing.Float.{Float}
use distributed_load_testing.Models.{
  Status, completed, failed, status_completed, status_failed, parse_status, TestRun,
  CreateTestRunRequest, CompleteTestRunRequest, CompleteShardRequest, to_text, parse_status-to_text,
  is_running, is_open,
}
use distributed_load_testing.Store.{Store}
use distributed_load_testing.Store.Create.{create_with_shards}
use distributed_load_testing.Store.Runs.{
  start_by_id, take_over, fail, complete, complete_as, cancel_run, claim_next,
}
use distributed_load_testing.Store.Shards.{
  start_shard, take_over_shard, complete_shard, complete_shard_as, fail_shard,
}
use distributed_load_testing.Store.Lifecycle.{Evolves, Evolves-refl, IsKeyed}
use distributed_load_testing.Store.Lifecycle.Runs.{
  start_by_id-Evolves, take_over-Evolves, fail-Evolves, cancel_run-Evolves, complete-Evolves,
  claim_next-Evolves, create_with_shards-Evolves,
}
use distributed_load_testing.Store.Lifecycle.Shards.{
  start_shard-Evolves, take_over_shard-Evolves, complete_shard-Evolves, fail_shard-Evolves,
}
use distributed_load_testing.Store.Lifecycle.Keys.{
  update_run-IsKeyed, claim_next-IsKeyed, create_with_shards-IsKeyed, claim_shard-IsKeyed,
  finish_shard-IsKeyed,
}
use distributed_load_testing.Handlers.{Handler, World, Surroundings, Response, positive_id}
use distributed_load_testing.Handlers.Validate.{validate_create, validate_complete, split_vus}
use distributed_load_testing.Handlers.Public.{
  create_test_run, create_valid, insert_run, admission, target_allowed, cancel_test_run,
}
use distributed_load_testing.Handlers.Internal.{
  claim_next_run, start_test_run, takeover_test_run, fail_test_run, complete_test_run,
  complete_valid, start_shard_handler, takeover_shard, complete_shard_handler, complete_shard_valid,
  fail_shard_handler,
}

-- What holds of a request's effect on the tables, in one statement.
abbrev pub Sound : {F : Type 0} → Store F → Store F → Type 0
Sound s s' = Evolves s s' × IsKeyed s'

pub parse_completed :
    (t : String) → str_eq t status_completed ≡ true → parse_status t ≡ some completed
parse_completed t h =
    unfold to_text in rw ((eq_iff t status_completed).0 h) (parse_status-to_text completed)

pub parse_failed : (t : String) → str_eq t status_failed ≡ true → parse_status t ≡ some failed
parse_failed t h = unfold to_text in rw ((eq_iff t status_failed).0 h) (parse_status-to_text failed)
