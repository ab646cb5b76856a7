-- ===== src/Handlers/Internal.antt =====
-- The handlers for workers, backend/internal/handlers/internal_api.go.
use Prim.Native.String.{◌++◌ as str_append}
use text.Mathlib.Text.{◌==◌ as str_eq}
use distributed_load_testing.Common.{
  ℕ, not, ◌&&◌, Option, none, some, String, Result, ok, err, if◌then◌else◌,
}
use distributed_load_testing.Common.Int.{ℤ}
use distributed_load_testing.Float.{Float}
use distributed_load_testing.Models.{
  CompleteTestRunRequest, CompleteShardRequest, status_completed, status_failed,
}
use distributed_load_testing.Store.{
  not_found, no_queued_runs, not_queued, not_running, already_done, Store,
}
use distributed_load_testing.Store.Runs.{claim_next, start_by_id, take_over, fail, complete}
use distributed_load_testing.Store.Shards.{start_shard, take_over_shard, complete_shard, fail_shard}
use distributed_load_testing.Handlers.{
  Surroundings, Response, empty, status_ok, run, assignment, write_json, write_error, positive_id,
}
use distributed_load_testing.Handlers.Public.{answer_run}
use distributed_load_testing.Handlers.Validate.{validate_complete}

abbrev bad_id : {F : Type 0} → Response F
bad_id = write_error 400 "id must be a positive integer"

abbrev pub or_default : String → String → String
or_default text fallback = if str_eq text "" then fallback else text

module _ {F : Type 0} where
  unfoldable pub claim_next_run : Surroundings → Store F → Store F × Response F
  claim_next_run e s =
      let (s', result) = claim_next e.db e.now e.locked s in
      (
        s',
        elim result [
          | ok tr ↦ write_json 200 (run tr)
          | err no_queued_runs ↦ write_json 204 empty
          | err _ ↦ write_error 500 "could not claim a test run"
        ],
      )

  unfoldable pub start_test_run : Surroundings → Store F → Option ℤ → Store F × Response F
  start_test_run e s id = elim (positive_id id) [
    | none ↦ (s, bad_id)
    | some k ↦
        let (s', result) = start_by_id e.db e.now s k in
        (
          s',
          elim result [
            | ok tr ↦ write_json 200 (run tr)
            | err not_found ↦ write_error 404 "test run not found"
            | err not_queued ↦ write_error 409 "test run is not queued"
            | err _ ↦ write_error 500 "could not start test run"
          ],
        )
  ]

  unfoldable pub takeover_test_run : Surroundings → Store F → Option ℤ → Store F × Response F
  takeover_test_run e s id = elim (positive_id id) [
    | none ↦ (s, bad_id)
    | some k ↦
        let (s', result) = take_over e.db e.now s k in
        (
          s',
          elim result [
            | ok tr ↦ write_json 200 (run tr)
            | err not_found ↦ write_error 404 "test run not found"
            | err already_done ↦ write_error 409 "test run is already completed or failed"
            | err _ ↦ write_error 500 "could not take over test run"
          ],
        )
  ]

  -- The body is its `errorMessage`.
  unfoldable pub fail_test_run :
      Surroundings → Store F → Option ℤ → Result String String → Store F × Response F
  fail_test_run e s id body = elim (positive_id id) [
    | none ↦ (s, bad_id)
    | some k ↦ elim body [
      | err text ↦ (s, write_error 400 (str_append "invalid JSON body: " text))
      | ok reason ↦
          let (s', result) = fail e.db e.now s k (or_default reason "run failed") in
          (s', answer_run "could not fail test run" result)
    ]
  ]

  unfoldable pub complete_valid :
      Surroundings → Store F → ℕ → CompleteTestRunRequest F → Store F × Response F
  complete_valid e s k req =
      let (s', result) = complete e.db e.now s k req in
      (
        s',
        elim result [
          | ok tr ↦ write_json 200 (run tr)
          | err not_found ↦ write_error 404 "test run not found"
          | err not_running ↦ write_error 409 "test run is not in the running state"
          | err _ ↦ write_error 500 "could not complete test run"
        ],
      )

  unfoldable pub complete_test_run :
      Surroundings
      → Store F
      → Option ℤ
      → Result String (CompleteTestRunRequest F)
      → Store F × Response F
  complete_test_run e s id body = elim (positive_id id) [
    | none ↦ (s, bad_id)
    | some k ↦ elim body [
      | err text ↦ (s, write_error 400 (str_append "invalid JSON body: " text))
      | ok req ↦ elim (validate_complete req) [
        | err message ↦ (s, write_error 400 message)
        | ok _ ↦ complete_valid e s k req
      ]
    ]
  ]

  unfoldable pub start_shard_handler : Surroundings → Store F → Option ℤ → Store F × Response F
  start_shard_handler e s id = elim (positive_id id) [
    | none ↦ (s, bad_id)
    | some k ↦
        let (s', result) = start_shard e.db e.now s k in
        (
          s',
          elim result [
            | ok a ↦ write_json 200 (assignment a)
            | err not_found ↦ write_error 404 "shard not found"
            | err not_queued ↦ write_error 409 "shard is not queued"
            | err _ ↦ write_error 500 "could not start shard"
          ],
        )
  ]

  unfoldable pub takeover_shard : Surroundings → Store F → Option ℤ → Store F × Response F
  takeover_shard e s id = elim (positive_id id) [
    | none ↦ (s, bad_id)
    | some k ↦
        let (s', result) = take_over_shard e.db e.now s k in
        (
          s',
          elim result [
            | ok a ↦ write_json 200 (assignment a)
            | err not_found ↦ write_error 404 "shard not found"
            | err already_done ↦ write_error 409 "shard is already completed or failed"
            | err _ ↦ write_error 500 "could not take over shard"
          ],
        )
  ]

module _ {F : Type 0} ⦃f : Float F⦄ where
  unfoldable pub complete_shard_valid :
      Surroundings → Store F → ℕ → CompleteShardRequest F → Store F × Response F
  complete_shard_valid e s k req =
      let (s', result) = complete_shard e.db e.now s k req in
      (
        s',
        elim result [
          | ok _ ↦ write_json 200 status_ok
          | err not_found ↦ write_error 404 "shard not found"
          | err not_running ↦ write_error 409 "shard is not running"
          | err _ ↦ write_error 500 "could not complete shard"
        ],
      )

  unfoldable pub complete_shard_handler :
      Surroundings
      → Store F
      → Option ℤ
      → Result String (CompleteShardRequest F)
      → Store F × Response F
  complete_shard_handler e s id body = elim (positive_id id) [
    | none ↦ (s, bad_id)
    | some k ↦ elim body [
      | err text ↦ (s, write_error 400 (str_append "invalid JSON body: " text))
      | ok req ↦
          if not (str_eq req.status status_completed) && not (str_eq req.status status_failed)
          then (s, write_error 400 "status must be \"completed\" or \"failed\"")
          else complete_shard_valid e s k req
    ]
  ]

  unfoldable pub fail_shard_handler :
      Surroundings → Store F → Option ℤ → Result String String → Store F × Response F
  fail_shard_handler e s id body = elim (positive_id id) [
    | none ↦ (s, bad_id)
    | some k ↦ elim body [
      | err text ↦ (s, write_error 400 (str_append "invalid JSON body: " text))
      | ok reason ↦
          let (s', result) = fail_shard e.db e.now s k (or_default reason "shard failed") in
          (
            s',
            elim result [
              | ok _ ↦ write_json 200 status_ok
              | err not_found ↦ write_error 404 "shard not found"
              | err _ ↦ write_error 500 "could not fail shard"
            ],
          )
    ]
  ]
