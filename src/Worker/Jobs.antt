-- ===== src/Worker/Jobs.antt =====
-- worker/cmd/worker/main.go: what a worker does with the messages of the stream. Of Redis only the
-- commands are recorded that a worker sends for a message; its answers are arguments.
use distributed_load_testing.Common.{
  ℕ, suc, ◌*◌, ◌-◌, Bool, true, false, Option, none, some, List, [], ◌∷◌, ◌++◌, ok, err,
  if◌then◌else◌,
}
use distributed_load_testing.Common.Int.{ℤ, pos, negsuc, ltb_ℤ}
use distributed_load_testing.Float.{Float}
use distributed_load_testing.Models.{
  Status, cancelling, cancelled, ShardAssignment, CompleteShardRequest, status_failed,
  status_completed,
}
use distributed_load_testing.Queue.{Message}
use distributed_load_testing.Handlers.{Handler, World, Surroundings}
use distributed_load_testing.Api.{Call, serve_all}
use distributed_load_testing.Runner.Run.{Config, Round, run}
use distributed_load_testing.Worker.{Trip}
use distributed_load_testing.Worker.Client.{
  Claim, claimed, unclaimable, claim_error, claim_shard_by_id, complete_shard_by_id,
  fail_shard_by_id,
}

-- What a worker sends to Redis: XACK of a message, and XADD to the dead-letter stream with the
-- shard's id, the message's id and the number of deliveries.
pub data Command : Type 0 where
  xack : ℕ → Command
  xadd_dead : ℤ → ℕ → ℕ → Command

-- What is met while a worker handles one message: the trips of its two requests, the requests of
-- others that are served while the load runs, and the rounds of the virtual users. A cancelled run
-- shows in those rounds, which end early.
pub record Job (F : Type 0) : Type 0 where
  pub claiming : Trip
  pub meanwhile : List (Surroundings × Call F)
  pub schedule : ℕ → List (Round F)
  pub reporting : Trip

-- `time.Duration(n) * time.Second`, in milliseconds.
abbrev pub seconds : ℤ → ℤ
seconds (pos n) = pos (1000 * n)
seconds (negsuc n) = negsuc (1000 * suc n - 1)

abbrev pub to_config : ShardAssignment → Config
to_config a = record {
  target_url = a.target_url;
  method = a.method;
  virtual_users = pos a.virtual_users;
  duration = seconds a.duration_seconds;
  request_timeout = pos 5000;
  headers = a.headers;
  body = a.body;
  think_time = a.think_time_ms;
}

-- Whether `watchCancel` stops the load when a poll of the run's status ends so.
abbrev pub stops_load : Claim Status → Bool
stops_load (claimed cancelling) = true
stops_load (claimed cancelled) = true
stops_load _ = false

module _ {F : Type 0} ⦃f : Float F⦄ where
  unfoldable pub execute_shard : ShardAssignment → (ℕ → List (Round F)) → CompleteShardRequest F
  execute_shard a schedule = elim (run (to_config a) schedule) [
    | err message ↦ record {
      status = status_failed;
      total_requests = none;
      successful_requests = none;
      failed_requests = none;
      latency_count = none;
      avg_latency_ms = none;
      min_latency_ms = none;
      max_latency_ms = none;
      latency_buckets = [];
      error_message = some message;
    }
    | ok res ↦ record {
      status = status_completed;
      total_requests = some res.total_requests;
      successful_requests = some res.successful_requests;
      failed_requests = some res.failed_requests;
      latency_count = some res.latency_count;
      avg_latency_ms = some res.avg_latency_ms;
      min_latency_ms = some res.min_latency_ms;
      max_latency_ms = some res.max_latency_ms;
      latency_buckets = res.latency_buckets;
      error_message = none;
    }
  ]

  -- Running a claimed shard and reporting it; the message is acknowledged if the report was taken.
  unfoldable pub run_claimed :
      Handler → Job F → World F → ℕ → ShardAssignment → World F × List Command
  run_claimed h job w msg_id a =
      let body = execute_shard a job.schedule in
      let (w', reported) =
        complete_shard_by_id h job.reporting (serve_all h w job.meanwhile) (pos a.shard_id) body in
      (w', if reported then xack msg_id ∷ [] else [])

  -- What follows the answer to the claim. Without an answer the message is left pending.
  unfoldable pub after_claim :
      Handler → Job F → ℕ → World F → Claim ShardAssignment → World F × List Command
  unfolding run_claimed
  after_claim h job msg_id w claim_error = (w, [])
  after_claim h job msg_id w unclaimable = (w, xack msg_id ∷ [])
  after_claim h job msg_id w (claimed a) = run_claimed h job w msg_id a

  unfoldable pub handle_shard : Handler → Job F → Bool → World F → ℕ → ℤ → World F × List Command
  unfolding after_claim
  handle_shard h job reclaimed w msg_id id =
      let (w', reply) = claim_shard_by_id h job.claiming w reclaimed id in
      after_claim h job msg_id w' reply

  unfoldable pub handle_message :
      Handler → Job F → Bool → World F → Message → World F × List Command
  handle_message h job reclaimed w m = elim m.shard_id [
    | none ↦ (w, xack m.id ∷ [])
    | some id ↦ handle_shard h job reclaimed w m.id id
  ]

  -- `shard_id` is what XRANGE and ParseInt leave in the variable: 0 for a message that is gone, has
  -- no such key, or whose value is no number.
  unfoldable pub dead_letter : Handler → Trip → World F → ℕ → ℕ → ℤ → World F × List Command
  dead_letter h t w msg_id deliveries shard_id =
      let commands = xadd_dead shard_id msg_id deliveries ∷ xack msg_id ∷ [] in
      if ltb_ℤ (pos 0) shard_id
      then (
        (fail_shard_by_id h t w shard_id "dead-lettered after too many delivery attempts").0,
        commands,
      )
      else (w, commands)

-- One entry that XPENDING reports, with what the worker meets if it dead-letters it, and what XCLAIM
-- gives for it: `none` where it fails, and no message where another worker was faster.
pub record Pending (F : Type 0) : Type 0 where
  pub id : ℕ
  pub retry_count : ℕ
  pub shard_id : ℤ
  pub failing : Trip
  pub xclaim : Option (List (Message × Job F))

-- One round of main's loop: what XPENDING reports, and what XREADGROUP delivers; `none` for an error
-- or, of the latter, a timeout.
pub record Turn (F : Type 0) : Type 0 where
  pub pending : Option (List (Pending F))
  pub delivered : Option (List (Message × Job F))

abbrev pub or_nothing {ℓ} : {A : Type ℓ} → Option (List A) → List A
or_nothing none = []
or_nothing (some xs) = xs

module _ {F : Type 0} ⦃f : Float F⦄ where
  unfoldable pub handle_all :
      Handler → Bool → World F → List (Message × Job F) → World F × List Command
  handle_all h reclaimed w [] = (w, [])
  handle_all h reclaimed w ((m, job) ∷ rest) =
      let (w', sent) = handle_message h job reclaimed w m in
      let (w'', later) = handle_all h reclaimed w' rest in (w'', sent ++ later)

  unfoldable pub reclaim_one : Handler → ℤ → World F → Pending F → World F × List Command
  reclaim_one h max_deliveries w p =
      if ltb_ℤ max_deliveries (pos p.retry_count)
      then dead_letter h p.failing w p.id p.retry_count p.shard_id
      else handle_all h true w (or_nothing p.xclaim)

  unfoldable pub reclaim_all : Handler → ℤ → World F → List (Pending F) → World F × List Command
  reclaim_all h max_deliveries w [] = (w, [])
  reclaim_all h max_deliveries w (p ∷ ps) =
      let (w', sent) = reclaim_one h max_deliveries w p in
      let (w'', later) = reclaim_all h max_deliveries w' ps in (w'', sent ++ later)

  unfoldable pub reclaim_stuck :
      Handler → ℤ → World F → Option (List (Pending F)) → World F × List Command
  reclaim_stuck h max_deliveries w scan = reclaim_all h max_deliveries w (or_nothing scan)

  -- The rounds of main's loop until the worker is stopped.
  unfoldable pub consume : Handler → ℤ → World F → List (Turn F) → World F × List Command
  consume h max_deliveries w [] = (w, [])
  consume h max_deliveries w (turn ∷ turns) =
      let (w1, reclaimed) = reclaim_stuck h max_deliveries w turn.pending in
      let (w2, handled) = handle_all h false w1 (or_nothing turn.delivered) in
      let (w3, later) = consume h max_deliveries w2 turns in (w3, reclaimed ++ handled ++ later)
