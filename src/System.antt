-- ===== src/System.antt =====
-- The platform as a whole: users' requests to the backend, the stream between the backend and the
-- workers, and any number of workers, each of which handles one message at a time. A worker's handling
-- of a message in worker/cmd/worker/main.go is two events, the claim of the shard and the report of its
-- load, between which everything else may happen. A worker that dies between a request and what
-- follows it has lost that request or its answer, and so has one whose XACK fails.
pub mod Shards
pub mod Calls
pub mod Jobs
pub mod Kept
pub mod Created
pub mod Requests
pub mod Messages
pub mod Safe
pub mod Steps
pub mod Finish
use distributed_load_testing.Common.{
  ℕ, suc, ◌+◌, ◌≤◌, ◌≡◌, ◌⊎◌, Bool, true, false, Option, none, some, List, [], ◌∷◌, ◌==◌,
  if◌then◌else◌, Any,
}
use distributed_load_testing.Common.Int.{ℤ, pos, ltb_ℤ}
use distributed_load_testing.Float.{Float}
use distributed_load_testing.Models.{ShardAssignment}
use distributed_load_testing.Queue.{Message}
use distributed_load_testing.Handlers.{Handler, World, Surroundings}
use distributed_load_testing.Api.{Call, post_run, get_runs, get_run, cancel_run, serve}
use distributed_load_testing.Runner.Run.{Round}
use distributed_load_testing.Worker.{Trip}
use distributed_load_testing.Worker.Client.{
  Claim, claimed, unclaimable, claim_error, claim_shard_by_id, complete_shard_by_id,
}
use distributed_load_testing.Worker.Jobs.{execute_shard, dead_letter}

-- The tables and the stream; the clock; the first message that the consumer group gets, once a worker has
-- created it; which messages XREADGROUP has delivered, when each was last given or renewed, and how
-- often it was given; which are acknowledged, and which are dead-lettered; and what each worker is at.
pub record System (F : Type 0) : Type 0 where
  pub world : World F
  pub clock : ℕ
  pub group : Option ℕ
  pub since : ℕ → ℕ
  pub deliveries : ℕ → ℕ
  pub read : ℕ → Bool
  pub acked : ℕ → Bool
  pub given_up : ℕ → Bool
  pub worker : ℕ → Option (Message × ShardAssignment)

abbrev pub mark : (ℕ → Bool) → ℕ → ℕ → Bool
mark set id j = if id == j then true else set j

abbrev pub put : (ℕ → ℕ) → ℕ → ℕ → ℕ → ℕ
put f id x j = if id == j then x else f j

-- MAX_DELIVERIES and RECLAIM_MIN_IDLE.
pub record Limits : Type 0 where
  pub max_deliveries : ℤ
  pub min_idle : ℕ

abbrev pub assign :
    (ℕ → Option (Message × ShardAssignment))
    → ℕ
    → Option (Message × ShardAssignment)
    → ℕ
    → Option (Message × ShardAssignment)
assign worker k job j = if k == j then job else worker j

abbrev pub IsIn : Message → List Message → Type 0
IsIn m ms = Any (λ x. x ≡ m) ms

module _ {F : Type 0} where
  -- A request of a user or of the dashboard, or a worker's poll for a cancelled run.
  abbrev pub IsPublic : Call F → Type 0
  IsPublic (post_run body) = Unit
  IsPublic (get_runs limit) = Unit
  IsPublic (get_run id) = Unit
  IsPublic (cancel_run id) = Unit
  IsPublic _ = ⊥

  -- A message is given for the first time, and once more.
  abbrev pub deliver : System F → ℕ → System F
  deliver s id = record s {
    read = mark s.read id;
    since = put s.since id s.clock;
    deliveries = put s.deliveries id 1;
  }

  abbrev pub redeliver : System F → ℕ → System F
  redeliver s id = record s {
    since = put s.since id s.clock;
    deliveries = put s.deliveries id (suc (s.deliveries id));
  }

  -- What a worker does with the answer to its claim: it leaves the message pending, acknowledges it,
  -- or goes on to the load.
  abbrev pub answered : System F → ℕ → Message → Claim ShardAssignment → System F
  answered s k m claim_error = s
  answered s k m unclaimable = record s { acked = mark s.acked m.id }
  answered s k m (claimed a) = record s { worker = assign s.worker k (some (m, a)) }

module _ {F : Type 0} ⦃f : Float F⦄ where
  -- The handling of a message, new or reclaimed, up to the claim.
  unfoldable pub begin_message : Handler → Trip → Bool → System F → ℕ → Message → System F
  begin_message h t reclaimed s k m = elim m.shard_id [
    | none ↦ record s { acked = mark s.acked m.id }
    | some id ↦
        let (w', reply) = claim_shard_by_id h t s.world reclaimed id in
        answered (record s { world = w' }) k m reply
  ]

  -- The load of the shard, and its report.
  unfoldable pub finish_message :
      Handler → Trip → (ℕ → List (Round F)) → System F → ℕ → Message → ShardAssignment → System F
  finish_message h t schedule s k m a =
      let (w', reported) =
        complete_shard_by_id h t s.world (pos a.shard_id) (execute_shard a schedule) in
      record s {
        world = w';
        acked = if reported then mark s.acked m.id else s.acked;
        worker = assign s.worker k none;
      }

  unfoldable pub give_up : Handler → Trip → ℕ → ℤ → System F → Message → System F
  give_up h t deliveries shard_id s m = record s {
    world = (dead_letter h t s.world m.id deliveries shard_id).0;
    acked = mark s.acked m.id;
    given_up = mark s.given_up m.id;
  }

  pub data Event (h : Handler) (limits : Limits) : System F → System F → Type 0 where
    request :
        (s : System F) (e : Surroundings) (call : Call F)
        → IsPublic call
        → Event h limits s (record s { world = (serve h e s.world call).0 })
    tick : (s : System F) (n : ℕ) → Event h limits s (record s { clock = s.clock + n })
    -- XGROUP CREATE with "$": the group gets what is published from now on.
    join :
        (s : System F)
        → s.group ≡ none
        → Event h limits s (record s { group = some s.world.stream.next_id })
    -- XREADGROUP delivers each message of the group once.
    delivery :
        (s : System F) (t : Trip) (k : ℕ) (m : Message) (first : ℕ)
        → s.worker k ≡ none
        → s.group ≡ some first
        → first ≤ m.id
        → IsIn m s.world.stream.entries
        → s.read m.id ≡ false
        → Event h limits s (begin_message h t false (deliver s m.id) k m)
    -- XCLAIM gives what is delivered, not acknowledged and idle for long enough, also while another
    -- worker is at it. The count that XPENDING has listed before may be less than it is by now.
    redelivery :
        (s : System F) (t : Trip) (k : ℕ) (m : Message) (retry_count : ℕ)
        → s.worker k ≡ none
        → IsIn m s.world.stream.entries
        → s.read m.id ≡ true
        → s.acked m.id ≡ false
        → retry_count ≤ s.deliveries m.id
        → ltb_ℤ limits.max_deliveries (pos retry_count) ≡ false
        → s.since m.id + limits.min_idle ≤ s.clock
        → Event h limits s (begin_message h t true (redeliver s m.id) k m)
    -- A heartbeat: XCLAIM JUSTID of the own message.
    renewal :
        (s : System F) (k : ℕ) (m : Message) (a : ShardAssignment)
        → s.worker k ≡ some (m, a)
        → Event h limits s (record s { since = put s.since m.id s.clock })
    finish :
        (s : System F) (t : Trip) (schedule : ℕ → List (Round F)) (k : ℕ) (m : Message)
        (a : ShardAssignment)
        → s.worker k ≡ some (m, a)
        → Event h limits s (finish_message h t schedule s k m a)
    crash : (s : System F) (k : ℕ) → Event h limits s (record s { worker = assign s.worker k none })
    -- By now the message may be acknowledged, or dead-lettered by another worker. `shard_id` is what
    -- deadLetter reads in the message, if it can.
    dead :
        (s : System F) (t : Trip) (m : Message) (retry_count : ℕ) (shard_id : ℤ)
        → IsIn m s.world.stream.entries
        → s.read m.id ≡ true
        → retry_count ≤ s.deliveries m.id
        → ltb_ℤ limits.max_deliveries (pos retry_count) ≡ true
        → (shard_id ≡ pos 0) ⊎ (m.shard_id ≡ some shard_id)
        → Event h limits s (give_up h t retry_count shard_id s m)

  pub data Reach (h : Handler) (limits : Limits) (s : System F) : System F → Type 0 where
    start : Reach h limits s s
    more : (u v : System F) → Reach h limits s u → Event h limits u v → Reach h limits s v

  -- Nothing has been delivered yet, there is no group, and no worker is at anything.
  abbrev pub fresh_system : World F → System F
  fresh_system w = record {
    world = w;
    clock = 0;
    group = none;
    since = λ _. 0;
    deliveries = λ _. 0;
    read = λ _. false;
    acked = λ _. false;
    given_up = λ _. false;
    worker = λ _. none;
  }
