-- ===== src/Store/Concurrent.antt =====
-- finishShard of backend/internal/store/test_run_store.go statement by statement, many of them at one
-- time, under READ COMMITTED: a statement sees what is committed, and the own writes of its
-- transaction. The transactions are those that finish shards of one run, and each is known by the
-- shard's number: a second transaction on a shard waits for the first at its UPDATE. Between them the
-- methods that write the row of the run in one statement may come: ClaimNext, StartByID, TakeOver, Fail,
-- Complete, CancelRun. While the row is locked, ClaimNext passes it over and writes another run, which is
-- no step here; the others wait.
pub mod Serial
pub mod Ends
pub mod Cancelled
use distributed_load_testing.Common.{
  ℕ, ◌≡◌, Bool, true, false, ◌==◌, if◌then◌else◌, Option, none, some, String, Result, ok, err,
}
use distributed_load_testing.Common.Table.{find?, update_where}
use distributed_load_testing.Float.{Float}
use distributed_load_testing.Models.{
  Status, completed, failed, CompleteShardRequest, CompleteTestRunRequest, is_running, is_open,
}
use distributed_load_testing.Store.{StoreError, not_running, Shard, Store, no_faults, shard_where}
use distributed_load_testing.Store.Runs.{
  start_by_id, take_over, fail, complete_as, claim_next, cancel_run,
}
use distributed_load_testing.Store.Shards.{to_partial, shard_to_failed, barrier}

-- What a transaction writes, and at which time of the clock: CompleteShard with the status of the
-- request, or FailShard with a reason.
pub data Finish (F : Type 0) : Type 0 where
  completes : ℕ → Status → CompleteShardRequest F → Finish F
  fails : ℕ → String → Finish F

module _ {F : Type 0} where
  abbrev pub guard_of : Finish F → Status → Bool
  guard_of (completes now st req) = is_running
  guard_of (fails now reason) = is_open

  abbrev pub set_of : Finish F → Shard F → Shard F
  set_of (completes now st req) = to_partial now st req
  set_of (fails now reason) = shard_to_failed now reason

  abbrev pub miss_of : Finish F → Result StoreError (Unit {0})
  miss_of (completes now st req) = err not_running
  miss_of (fails now reason) = ok tt

  abbrev pub time_of : Finish F → ℕ
  time_of (completes now st req) = now
  time_of (fails now reason) = now

-- A method that writes the row of the run in one statement, at which time of the clock.
-- `completes_run` has whether the request's status is completed or failed, one of which the handler
-- makes sure it is; `claims_next` has the other runs' locked rows.
pub data RunCall (F : Type 0) : Type 0 where
  starts takes_over : ℕ → RunCall F
  fails_run : ℕ → String → RunCall F
  completes_run : ℕ → Bool → CompleteTestRunRequest F → RunCall F
  claims_next : ℕ → (ℕ → Bool) → RunCall F
  cancels : RunCall F

module _ {F : Type 0} where
  unfoldable pub run_call : RunCall F → ℕ → Store F → Store F
  run_call (starts now) k s = (start_by_id no_faults now s k).0
  run_call (takes_over now) k s = (take_over no_faults now s k).0
  run_call (fails_run now reason) k s = (fail no_faults now s k reason).0
  run_call (completes_run now true req) k s = (complete_as no_faults now s k req (some completed)).0
  run_call (completes_run now false req) k s = (complete_as no_faults now s k req (some failed)).0
  run_call (claims_next now others) k s = (claim_next no_faults now others s).0
  run_call cancels k s = (cancel_run no_faults s k).0

-- How far a transaction is: not begun; its shard is written; it holds the row lock of the run; or it
-- has counted the outstanding shards, aggregated the run if there were none, and is about to commit.
pub data Phase (F : Type 0) : Type 0 where
  idle : Phase F
  wrote : Finish F → Phase F
  locked : Finish F → Phase F
  decided : Finish F → Store F → Phase F

-- The committed tables, the transactions, and which of them holds the row lock of the run.
pub record Database (F : Type 0) : Type 0 where
  pub committed : Store F
  pub phase : ℕ → Phase F
  pub holder : Option ℕ

module _ {F : Type 0} where
  abbrev pub set_phase : (ℕ → Phase F) → ℕ → Phase F → ℕ → Phase F
  set_phase ph id p j = if id == j then p else ph j

  -- No transaction is under way.
  abbrev pub at_rest : Store F → Database F
  at_rest s = record { committed = s; phase = λ _. idle; holder = none }

  -- What the transaction of a shard sees: the committed tables with its own write.
  abbrev pub view : Store F → ℕ → Finish F → Store F
  view s id fin = record s {
    shards = update_where (shard_where id (guard_of fin)) (set_of fin) s.shards;
  }

module _ {F : Type 0} ⦃f : Float F⦄ where
  -- The statements of the transactions that finish shards of the run k, and of those that write it.
  pub data Step (k : ℕ) : Database F → Database F → Type 0 where
    -- The UPDATE of the shard, which is in the state that the statement asks for.
    write :
        (d : Database F) (id : ℕ) (fin : Finish F) (sh : Shard F)
        → d.phase id ≡ idle
        → find? (shard_where id (guard_of fin)) d.committed.shards ≡ some sh
        → sh.run_id ≡ k
        → Step k d (record d { phase = set_phase d.phase id (wrote fin) })
    -- SELECT ... FOR UPDATE returns, since no one holds the row.
    lock_run :
        (d : Database F) (id : ℕ) (fin : Finish F)
        → d.phase id ≡ wrote fin
        → d.holder ≡ none
        → Step k d (record d { phase = set_phase d.phase id (locked fin); holder = some id })
    -- The count and, if it is 0, the aggregation.
    decide :
        (d : Database F) (id : ℕ) (fin : Finish F) (s : Store F)
        → d.phase id ≡ locked fin
        → barrier no_faults (time_of fin) (view d.committed id fin) k ≡ ok s
        → Step k d (record d { phase = set_phase d.phase id (decided fin s) })
    -- COMMIT makes the writes seen and gives the lock back.
    commit_tx :
        (d : Database F) (id : ℕ) (fin : Finish F) (s : Store F)
        → d.phase id ≡ decided fin s
        → Step k d (record { committed = s; phase = set_phase d.phase id idle; holder = none })
    -- The UPDATE of another method, a transaction by itself, waits for the row of the run.
    write_run :
        (d : Database F) (c : RunCall F)
        → d.holder ≡ none
        → Step k d (record d { committed = run_call c k d.committed })
    -- A transaction that has no lock, or the one that has it, is rolled back.
    roll_back :
        (d : Database F) (id : ℕ) (fin : Finish F)
        → d.phase id ≡ wrote fin
        → Step k d (record d { phase = set_phase d.phase id idle })
    roll_back_locked :
        (d : Database F) (id : ℕ)
        → d.holder ≡ some id
        → Step k d (record d { phase = set_phase d.phase id idle; holder = none })

  pub data Run (k : ℕ) : Database F → Database F → Type 0 where
    done : (d : Database F) → Run k d d
    next : (d e g : Database F) → Step k d e → Run k e g → Run k d g
