-- ===== src/Examples/Interleavings.antt =====
-- Two finishes of a run's last shards, interleaved.
use distributed_load_testing.Common.{ℕ, ◌≡◌, ◌<◌, refl, none, some, List, ok, arith}
use distributed_load_testing.Common.Int.{to_int64, signed64}
use distributed_load_testing.Common.Table.{find?, count_where, update_where, select_where}
use distributed_load_testing.Float.{Cents, cents_float}
use distributed_load_testing.Models.{TestRun, cancelled, running, is_open}
use distributed_load_testing.Store.{Store, no_faults, has_run_id, shard_where}
use distributed_load_testing.Store.Columns.{run_percentiles, sum_column, scan_int64}
use distributed_load_testing.Store.Aggregate.{
  sum_totals, aggregate_run, run_outcome, current_status,
}
use distributed_load_testing.Store.Shards.{
  is_outstanding, shard_to_failed, barrier, finish_tx, finish_shard,
}
use distributed_load_testing.Store.Concurrent.{
  Finish, fails, Phase, Database, at_rest, view, set_phase, idle, wrote, run_call, cancels,
  write_run, write, lock_run, decide, commit_tx, Run, done, next,
}
use distributed_load_testing.Store.Concurrent.Serial.{Act, IsSerial, Run-IsSerial}
use distributed_load_testing.Store.Runs.{cancel_run}
use distributed_load_testing.Store.Concurrent.Cancelled.{IsStopped, Run-cancelled}
use distributed_load_testing.Store.Concurrent.Ends.{IsOver, Run-ends}
use distributed_load_testing.Examples.{run_in, shard_in, store_b, store_b-IsKeyed}

abbrev fin : Finish Cents
fin = fails 9 "lost"

-- The tables after the first commit, and after the second.
abbrev half_way : Store Cents
half_way = view store_b 1 fin

abbrev ended : Store Cents
ended = (finish_shard no_faults 9 half_way 2 is_open (shard_to_failed 9 "lost") (ok tt)).0

found_both :
    (find? (shard_where 1 is_open) store_b.shards ≡ some (shard_in 1 1 running none))
    × (find? (shard_where 2 is_open) store_b.shards ≡ some (shard_in 2 1 running none))
    × (find? (has_run_id 1) store_b.runs ≡ some (run_in 1 running))
unfolding find?
found_both = (refl, refl, refl)

first_waits : barrier no_faults 9 half_way 1 ≡ ok half_way
unfolding barrier count_where update_where
first_waits = refl

last_fires : barrier no_faults 9 (view half_way 2 fin) 1 ≡ ok ended
unfolding barrier count_where update_where aggregate_run run_outcome sum_totals sum_column
    scan_int64 to_int64 signed64 select_where run_percentiles current_status find? finish_shard
    finish_tx
last_fires = refl

some_left : 0 < count_where (is_outstanding 1) store_b.shards
unfolding count_where
some_left = omega arith

none_left : count_where (is_outstanding 1) ended.shards ≡ 0
unfolding barrier count_where update_where aggregate_run run_outcome sum_totals sum_column
    scan_int64 to_int64 signed64 select_where run_percentiles current_status find? finish_shard
    finish_tx
none_left = refl

abbrev at_end : (ℕ → Phase Cents) → Database Cents
at_end phase = record { committed = ended; phase = phase; holder = none }

-- Both shards are written before either transaction asks for the lock.
interleaved : (phase : ℕ → Phase Cents) × Run 1 (at_rest store_b) (at_end phase)
interleaved = (
  _,
  next _ _ _ (write _ 1 fin (shard_in 1 1 running none) refl found_both.0 refl) (
      next _ _ _ (write _ 2 fin (shard_in 2 1 running none) refl found_both.1 refl) (
        next _ _ _ (lock_run _ 1 fin refl refl) (
          next _ _ _ (decide _ 1 fin half_way refl first_waits) (
            next _ _ _ (commit_tx _ 1 fin half_way refl) (
              next _ _ _ (lock_run _ 2 fin refl refl) (
                next _ _ _ (decide _ 2 fin ended refl last_fires)
                  (next _ _ _ (commit_tx _ 2 fin ended refl) (done _)))))))),
)

Run-IsSerial_example : (calls : List (Act Cents)) × IsSerial 1 store_b calls ended
Run-IsSerial_example = Run-IsSerial 1 store_b (at_end interleaved.0) interleaved.1

Run-ends_example : IsOver 1 ended
Run-ends_example =
    Run-ends 1 store_b (run_in 1 running) (at_end interleaved.0) store_b-IsKeyed found_both.2 refl
      some_left interleaved.1 none_left

-- The tables after a cancel between the writes and the locks, and after the commits that follow.
abbrev stopped : Store Cents
stopped = run_call cancels 1 store_b

abbrev stopped_half : Store Cents
stopped_half = view stopped 1 fin

abbrev stopped_end : Store Cents
stopped_end = (finish_shard no_faults 9 stopped_half 2 is_open (shard_to_failed 9 "lost") (ok tt)).0

stopped_waits : barrier no_faults 9 stopped_half 1 ≡ ok stopped_half
unfolding barrier count_where update_where run_call cancel_run
stopped_waits = refl

stopped_fires : barrier no_faults 9 (view stopped_half 2 fin) 1 ≡ ok stopped_end
unfolding barrier count_where update_where aggregate_run run_outcome sum_totals sum_column
    scan_int64 to_int64 signed64 select_where run_percentiles current_status find? finish_shard
    finish_tx run_call cancel_run
stopped_fires = refl

stopped_none_left : count_where (is_outstanding 1) stopped_end.shards ≡ 0
unfolding barrier count_where update_where aggregate_run run_outcome sum_totals sum_column
    scan_int64 to_int64 signed64 select_where run_percentiles current_status find? finish_shard
    finish_tx run_call cancel_run
stopped_none_left = refl

abbrev both_wrote : ℕ → Phase Cents
both_wrote = set_phase (set_phase (λ _. idle) 1 (wrote fin)) 2 (wrote fin)

abbrev at_cancel : Database Cents
at_cancel = record { committed = stopped; phase = both_wrote; holder = none }

up_to_cancel : Run 1 (at_rest store_b) at_cancel
up_to_cancel = next _ _ _ (write _ 1 fin (shard_in 1 1 running none) refl found_both.0 refl) (
    next _ _ _ (write _ 2 fin (shard_in 2 1 running none) refl found_both.1 refl)
      (next _ _ _ (write_run _ cancels refl) (done _)))

abbrev at_last : (ℕ → Phase Cents) → Database Cents
at_last phase = record { committed = stopped_end; phase = phase; holder = none }

from_cancel : (phase : ℕ → Phase Cents) × Run 1 at_cancel (at_last phase)
from_cancel = (
  _,
  next _ _ _ (lock_run _ 1 fin refl refl) (
      next _ _ _ (decide _ 1 fin stopped_half refl stopped_waits) (
        next _ _ _ (commit_tx _ 1 fin stopped_half refl) (
          next _ _ _ (lock_run _ 2 fin refl refl) (
            next _ _ _ (decide _ 2 fin stopped_end refl stopped_fires)
              (next _ _ _ (commit_tx _ 2 fin stopped_end refl) (done _)))))),
)

stopped-IsStopped : IsStopped 1 stopped
unfolding run_call cancel_run find? update_where
stopped-IsStopped = (_, refl, refl)

Run-cancelled_example :
    (r : TestRun Cents) × (find? (has_run_id 1) stopped_end.runs ≡ some r) × (r.status ≡ cancelled)
Run-cancelled_example =
    Run-cancelled 1 store_b (run_in 1 running) at_cancel (at_last from_cancel.0) store_b-IsKeyed
      found_both.2 refl some_left up_to_cancel stopped-IsStopped from_cancel.1 stopped_none_left
