-- ===== src/Handlers/Public.antt =====
-- The public handlers of backend/internal/handlers/test_runs.go. A request body is the decoded value
-- or the decoder's error text.
use Prim.Native.String.{◌++◌ as str_append}
use distributed_load_testing.Common.{
  ℕ, suc, Bool, false, Option, none, some, List, [], ◌∷◌, String, Result, ok, err, ltb,
  if◌then◌else◌,
}
use distributed_load_testing.Common.Int.{ℤ, pos, ltb_ℤ, leb_ℤ, pos_part}
use distributed_load_testing.Models.{CreateTestRunRequest, TestRun}
use distributed_load_testing.Store.{StoreError, not_found, Store}
use distributed_load_testing.Store.Create.{create_with_shards}
use distributed_load_testing.Store.Runs.{count_active_runs, list, get_by_id, cancel_run}
use distributed_load_testing.Queue.{Stream, publish_shard}
use distributed_load_testing.Handlers.{
  Handler, World, Surroundings, Response, run, runs, write_json, write_error, positive_id,
}
use distributed_load_testing.Handlers.Validate.{validate_create, split_vus}

unfoldable pub target_allowed : Handler → String → Bool
target_allowed h raw_url = elim (h.strings.hostname raw_url) [
  | none ↦ false
  | some host ↦ h.allowed_target_hosts (h.strings.to_lower host)
]

-- The publish loop, from job i on; a failed publish is logged and passed over.
unfoldable pub publish_all : (ℕ → Bool) → ℕ → Stream → List ℕ → Stream
publish_all redis i q [] = q
publish_all redis i q (sid ∷ sids) =
    publish_all redis (suc i) (publish_shard (redis i) q sid).0 sids

-- `limit` is the query parameter as `strconv.Atoi` reads it, `none` where it is absent or no number.
unfoldable pub list_limit : Option ℤ → ℕ
list_limit none = 50
list_limit (some n) =
    if ltb_ℤ (pos 0) n then (if ltb 200 (pos_part n) then 200 else pos_part n) else 50

module _ {F : Type 0} where
  -- The admission check: the answer that refuses the run, if any. The count is a statement of its own
  -- before the insert, so that the tables of the insert are what it may not have seen.
  unfoldable pub admission : Handler → Surroundings → Store F → Option (Response F)
  admission h e s =
      if ltb_ℤ (pos 0) h.max_concurrent_runs
      then elim (count_active_runs e.db s) [
        | err _ ↦ some (write_error 500 "could not check run capacity")
        | ok active ↦
            if leb_ℤ h.max_concurrent_runs (pos (e.counted active))
            then some (write_error 429 "too many runs in progress; try again once some finish")
            else none
      ]
      else none

  -- The insert and the publishing.
  unfoldable pub insert_run : Surroundings → World F → CreateTestRunRequest → World F × Response F
  insert_run e w req =
      let shard_vus = split_vus (pos_part req.virtual_users) (pos_part req.shards) in
      let (s', created) = create_with_shards e.db e.now w.store req shard_vus in
      elim created [
        | err _ ↦ (record w { store = s' }, write_error 500 "could not create test run")
        | ok (tr, shard_ids) ↦ (
          record { store = s'; stream = publish_all e.redis 0 w.stream shard_ids },
          write_json 201 (run tr),
        )
      ]

  -- CreateTestRun after the decoding.
  unfoldable pub create_valid :
      Handler → Surroundings → World F → CreateTestRunRequest → World F × Response F
  create_valid h e w req =
      if target_allowed h req.target_url
      then elim (admission h e w.store) [ some refusal ↦ (w, refusal) | none ↦ insert_run e w req ]
      else (w, write_error 403 "target host is not allowed")

  unfoldable pub create_test_run :
      Handler → Surroundings → World F → Result String CreateTestRunRequest → World F × Response F
  create_test_run h e w (err text) = (w, write_error 400 (str_append "invalid JSON body: " text))
  create_test_run h e w (ok req) = elim (validate_create h.strings req) [
    | err message ↦ (w, write_error 400 message)
    | ok valid ↦ create_valid h e w valid
  ]

  unfoldable pub list_test_runs : Surroundings → Store F → Option ℤ → Response F
  list_test_runs e s limit = elim (list e.db s (list_limit limit)) [
    | err _ ↦ write_error 500 "could not list test runs"
    | ok rs ↦ write_json 200 (runs rs)
  ]

  -- What GetTestRun, CancelTestRun and FailTestRun make of the store's result.
  unfoldable pub answer_run : String → Result StoreError (TestRun F) → Response F
  answer_run failure (ok tr) = write_json 200 (run tr)
  answer_run failure (err not_found) = write_error 404 "test run not found"
  answer_run failure (err _) = write_error 500 failure

  unfoldable pub get_test_run : Surroundings → Store F → Option ℤ → Response F
  get_test_run e s id = elim (positive_id id) [
    | none ↦ write_error 400 "id must be a positive integer"
    | some k ↦ answer_run "could not fetch test run" (get_by_id e.db s k)
  ]

  unfoldable pub cancel_test_run : Surroundings → Store F → Option ℤ → Store F × Response F
  cancel_test_run e s id = elim (positive_id id) [
    | none ↦ (s, write_error 400 "id must be a positive integer")
    | some k ↦
        let (s', result) = cancel_run e.db s k in
        (s', answer_run "could not cancel test run" result)
  ]
