-- ===== src/Worker/Client.antt =====
-- worker/internal/client/client.go: one function for each request of a worker.
use distributed_load_testing.Common.{
  ℕ, Bool, false, Option, none, some, String, ok, ◌==◌, ◌||◌, if◌then◌else◌,
}
use distributed_load_testing.Common.Int.{ℤ}
use distributed_load_testing.Float.{Float}
use distributed_load_testing.Models.{
  Status, ShardAssignment, CompleteTestRunRequest, CompleteShardRequest,
}
use distributed_load_testing.Handlers.{Handler, World, Payload, run, assignment}
use distributed_load_testing.Api.{
  Call, get_run, claim, start_run, takeover_run, fail_run, complete_run, start_shard,
  takeover_shard_call, complete_shard, fail_shard,
}
use distributed_load_testing.Worker.{Received, no_answer, no_body, answer, Trip, send}

-- The fields of a run that the worker reads.
pub record ClaimedRun : Type 0 where
  pub id : ℕ
  pub name : String
  pub target_url : String
  pub method : String
  pub virtual_users : ℤ
  pub duration_seconds : ℤ

-- The three ends of `(*T, bool, error)`: a value; nothing to claim; an error.
pub data Claim (A : Type 0) : Type 0 where
  claimed : A → Claim A
  unclaimable : Claim A
  claim_error : Claim A

abbrev decoded : {A : Type 0} → Option A → Claim A
decoded none = claim_error
decoded (some a) = claimed a

module _ {F : Type 0} where
  -- Decoding a body as a run, an assignment, or a run's status.
  abbrev pub decode_run : Payload F → Option ClaimedRun
  decode_run (run r) = some (record {
    id = r.id;
    name = r.name;
    target_url = r.target_url;
    method = r.method;
    virtual_users = r.virtual_users;
    duration_seconds = r.duration_seconds;
  })
  decode_run _ = none

  abbrev pub decode_assignment : Payload F → Option ShardAssignment
  decode_assignment (assignment a) = some a
  decode_assignment _ = none

  abbrev pub decode_status : Payload F → Option Status
  decode_status (run r) = some r.status
  decode_status _ = none

  -- The switch on the status code, for the codes that mean that there is nothing to claim.
  unfoldable pub read_claim :
      {A : Type 0} → (ℕ → Bool) → (Payload F → Option A) → Received F → Claim A
  read_claim idle decode no_answer = claim_error
  read_claim idle decode (no_body r) =
      if r.code == 200 then claim_error else if idle r.code then unclaimable else claim_error
  read_claim idle decode (answer r) =
      if r.code == 200
      then decoded (decode r.payload)
      else if idle r.code
      then unclaimable
      else claim_error

  -- Whether a request that only reports was taken: any answer but 200 is an error.
  unfoldable pub read_report : Received F → Bool
  read_report no_answer = false
  read_report (no_body r) = r.code == 200
  read_report (answer r) = r.code == 200

abbrev pub no_content : ℕ → Bool
no_content code = code == 204

abbrev pub conflict_or_missing : ℕ → Bool
conflict_or_missing code = code == 409 || code == 404

module _ {F : Type 0} ⦃f : Float F⦄ where
  abbrev request_claim :
      {A : Type 0}
      → (ℕ → Bool)
      → (Payload F → Option A)
      → Handler
      → Trip
      → World F
      → Call F
      → World F × Claim A
  request_claim idle decode h t w call =
      let (w', r) = send h t w call in (w', read_claim idle decode r)

  unfoldable pub claim_next_queued : Handler → Trip → World F → World F × Claim ClaimedRun
  claim_next_queued h t w = request_claim no_content decode_run h t w claim

  unfoldable pub start_run_by_id : Handler → Trip → World F → ℤ → World F × Claim ClaimedRun
  start_run_by_id h t w id =
      request_claim conflict_or_missing decode_run h t w (start_run (some id))

  unfoldable pub take_over_run : Handler → Trip → World F → ℤ → World F × Claim ClaimedRun
  take_over_run h t w id =
      request_claim conflict_or_missing decode_run h t w (takeover_run (some id))

  -- `claimShard`, with `/takeover` or `/start` for its path.
  unfoldable pub claim_shard_by_id :
      Handler → Trip → World F → Bool → ℤ → World F × Claim ShardAssignment
  claim_shard_by_id h t w takeover id =
      request_claim conflict_or_missing decode_assignment h t w
        (if takeover then takeover_shard_call (some id) else start_shard (some id))

  unfoldable pub report : Handler → Trip → World F → Call F → World F × Bool
  report h t w call = let (w', r) = send h t w call in (w', read_report r)

  unfoldable pub fail_run_by_id : Handler → Trip → World F → ℤ → String → World F × Bool
  fail_run_by_id h t w id reason = report h t w (fail_run (some id) (ok reason))

  unfoldable pub complete_run_by_id :
      Handler → Trip → World F → ℤ → CompleteTestRunRequest F → World F × Bool
  complete_run_by_id h t w id body = report h t w (complete_run (some id) (ok body))

  unfoldable pub complete_shard_by_id :
      Handler → Trip → World F → ℤ → CompleteShardRequest F → World F × Bool
  complete_shard_by_id h t w id body = report h t w (complete_shard (some id) (ok body))

  unfoldable pub fail_shard_by_id : Handler → Trip → World F → ℤ → String → World F × Bool
  fail_shard_by_id h t w id reason = report h t w (fail_shard (some id) (ok reason))

  -- `RunStatus`; any answer but a decodable 200 is an error.
  unfoldable pub run_status : Handler → Trip → World F → ℤ → World F × Claim Status
  run_status h t w id = request_claim (λ _. false) decode_status h t w (get_run (some id))
