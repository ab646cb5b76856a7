-- ===== src/System/Finish.antt =====
-- From every state that the platform can reach, an open shard with a message can still be finished.
use distributed_load_testing.Common.{ℕ, ◌≡◌, Bool, true, some, List}
use distributed_load_testing.Common.Table.{find?}
use distributed_load_testing.Float.{Float}
use distributed_load_testing.Models.{Status, TestRun}
use distributed_load_testing.Queue.{Message}
use distributed_load_testing.Store.{Shard, Store, has_shard_id}
use distributed_load_testing.Store.Shards.{assignment, to_partial, shard_to_running}
use distributed_load_testing.Store.Commit.{FitsInt64}
use distributed_load_testing.Store.Rows.{claimed_store}
use distributed_load_testing.Runner.Run.{Round}
use distributed_load_testing.Worker.Jobs.{execute_shard}
use distributed_load_testing.Worker.Replies.{IsFinal}
use distributed_load_testing.Worker.Delivery.{reported_shards}
use distributed_load_testing.System.{System}

module _ {F : Type 0} ⦃f : Float F⦄ where
  -- The shard is reported with the figures of a load, and its message is acknowledged.
  abbrev pub IsFinished :
      ℕ → ℕ → (ℕ → List (Round F)) → Message → ℕ → Shard F → TestRun F → System F → Type 0
  IsFinished now now' schedule m n sh r s =
      (s.acked m.id ≡ true)
      × (st : Status) × IsFinal st
      × (find? (has_shard_id n) s.world.store.shards
          ≡ some (
              to_partial now' st (execute_shard (assignment sh r) schedule)
                (shard_to_running now sh)))

  -- The sums of the run with the new row fit an int64.
  abbrev pub Fits : ℕ → ℕ → (ℕ → List (Round F)) → Bool → ℕ → Shard F → TestRun F → Store F → Type 0
  Fits now now' schedule reclaimed n sh r s =
      (st : Status)
      → FitsInt64 (
          reported_shards now' st (execute_shard (assignment sh r) schedule) n sh.run_id
            (claimed_store now reclaimed n sh.run_id s))
