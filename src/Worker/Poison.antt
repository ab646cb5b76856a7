-- ===== src/Worker/Poison.antt =====
-- deadLetter of worker/cmd/worker/main.go: what becomes of the shard of a message that is given up.
use distributed_load_testing.Store.{no_faults, has_run_id, has_shard_id}
use distributed_load_testing.Store.Rows.{fail_shard-row}
use distributed_load_testing.Store.Commit.{FitsInt64}
use distributed_load_testing.Store.Columns.{of_run}
use distributed_load_testing.Models.{TestRun}
use distributed_load_testing.Handlers.Fanout.{quiet}
use distributed_load_testing.Handlers.Internal.{or_default}
use distributed_load_testing.Common.Table.{select_where, update_where}
use distributed_load_testing.Common.{
  ◌≢◌, Bool, ℕ, suc, ◌≡◌, refl, ◌⊎◌, inl, inr, true, some, [], ◌∷◌, String, ok, arith,
}
use distributed_load_testing.Common.Int.{pos, ltb_ℤ}
use distributed_load_testing.Common.Table.{find?}
use distributed_load_testing.Float.{Float}
use distributed_load_testing.Models.{is_open}
use distributed_load_testing.Store.{Shard, Store, Faults, begin, shard_where}
use distributed_load_testing.Store.Shards.{fail_shard, finish_shard, finish_tx, shard_to_failed}
use distributed_load_testing.Store.Lifecycle.{IsKeyed}
use distributed_load_testing.Handlers.{Handler, World, Surroundings}
use distributed_load_testing.Handlers.Internal.{fail_shard_handler}
use distributed_load_testing.Api as Api
use distributed_load_testing.Api.{serve}
use distributed_load_testing.Worker.{
  Link, lost, reply_lost, garbled, delivered, Trip, send, send_over,
}
use distributed_load_testing.Worker.Client.{report, fail_shard_by_id}
use distributed_load_testing.Worker.Jobs.{xack, xadd_dead, dead_letter}

abbrev pub poison_reason : String
poison_reason = "dead-lettered after too many delivery attempts"

module _ {F : Type 0} ⦃f : Float F⦄ where
  serve-fails :
      (h : Handler) (now : ℕ) (locked : ℕ → Bool) (w : World F) (n : ℕ) (reason : String)
      → (serve h (quiet now locked) w (Api.fail_shard (some (pos (suc n))) (ok reason))).0.store
        ≡ (fail_shard no_faults now w.store (suc n) (or_default reason "shard failed")).0
  unfolding serve fail_shard_handler
  serve-fails h now locked w n reason = refl

  over-fails :
      (link : Link) (h : Handler) (now : ℕ) (locked : ℕ → Bool) (w : World F) (n : ℕ)
      (reason : String)
      → link ≢ lost
      → (send_over link h
          (quiet now locked)
          w
          (Api.fail_shard (some (pos (suc n))) (ok reason))).0.store
        ≡ (fail_shard no_faults now w.store (suc n) (or_default reason "shard failed")).0
  unfolding send_over
  over-fails lost h now locked w n reason arrives = absurd (arrives refl)
  over-fails reply_lost h now locked w n reason arrives = serve-fails h now locked w n reason
  over-fails garbled h now locked w n reason arrives = serve-fails h now locked w n reason
  over-fails delivered h now locked w n reason arrives = serve-fails h now locked w n reason

  -- If the request reaches the backend and its database refuses nothing, the open shard of a message
  -- that is dead-lettered is failed, with the reason for it in its row, and the message is copied and
  -- acknowledged. Ids are distinct, the shard's run is in the table, and the run's sums fit an int64.
  pub dead_letter-fails :
      (h : Handler) (link : Link) (now : ℕ) (locked : ℕ → Bool) (w : World F)
      (msg_id deliveries n : ℕ) (sh : Shard F) (r : TestRun F)
      → link ≢ lost
      → IsKeyed w.store
      → find? (shard_where (suc n) is_open) w.store.shards ≡ some sh
      → find? (has_run_id sh.run_id) w.store.runs ≡ some r
      → let failed_row = shard_to_failed {F = F} now poison_reason in
        FitsInt64 (
          select_where
            (of_run sh.run_id)
            (update_where (shard_where (suc n) is_open) failed_row w.store.shards))
        → let t : Trip = record { surroundings = quiet now locked; link = link } in
          let (w', commands) = dead_letter h t w msg_id deliveries (pos (suc n)) in
          (commands ≡ xadd_dead (pos (suc n)) msg_id deliveries ∷ xack msg_id ∷ [])
          × (find? (has_shard_id (suc n)) w'.store.shards ≡ some (failed_row sh))
  unfolding dead_letter fail_shard_by_id report send
  dead_letter-fails h link now locked w msg_id deliveries n sh r arrives keyed found run_found
        fits =
      let positive : ltb_ℤ (pos 0) (pos (suc n)) ≡ true = ground arith in
      let row =
        fail_shard-row now w.store (suc n) poison_reason sh r keyed.shard_ids found run_found
          fits in
      rw positive (refl, rw (over-fails link h now locked w n poison_reason arrives) row)

  fail_shard-refused :
      (db : Faults) (now : ℕ) (s : Store F) (n : ℕ) (reason : String)
      → db begin ≡ true
      → (fail_shard db now s n reason).0 ≡ s
  unfolding fail_shard finish_shard finish_tx
  fail_shard-refused db now s n reason down = rw (down, finish_shard, finish_tx) refl

  refused-store :
      (link : Link) (h : Handler) (e : Surroundings) (w : World F) (n : ℕ) (reason : String)
      → (link ≡ lost) ⊎ (e.db begin ≡ true)
      → (send_over link h e w (Api.fail_shard (some (pos (suc n))) (ok reason))).0.store ≡ w.store
  unfolding send_over serve fail_shard_handler
  refused-store lost h e w n reason down = refl
  refused-store reply_lost h e w n reason (inl off) = absurd (cc)
  refused-store reply_lost h e w n reason (inr down) =
      fail_shard-refused e.db e.now w.store (suc n) _ down
  refused-store garbled h e w n reason (inl off) = absurd (cc)
  refused-store garbled h e w n reason (inr down) =
      fail_shard-refused e.db e.now w.store (suc n) _ down
  refused-store delivered h e w n reason (inl off) = absurd (cc)
  refused-store delivered h e w n reason (inr down) =
      fail_shard-refused e.db e.now w.store (suc n) _ down

  -- If the request does not reach the backend, or its database refuses to begin, an open shard of a
  -- dead-lettered message stays open, although the message is acknowledged for good.
  pub dead_letter-strands :
      (h : Handler) (t : Trip) (w : World F) (msg_id deliveries n : ℕ) (sh : Shard F)
      → (t.link ≡ lost) ⊎ (t.surroundings.db begin ≡ true)
      → find? (shard_where (suc n) is_open) w.store.shards ≡ some sh
      → let (w', commands) = dead_letter h t w msg_id deliveries (pos (suc n)) in
        (commands ≡ xadd_dead (pos (suc n)) msg_id deliveries ∷ xack msg_id ∷ [])
        × (find? (shard_where (suc n) is_open) w'.store.shards ≡ some sh)
  unfolding dead_letter fail_shard_by_id report send
  dead_letter-strands h t w msg_id deliveries n sh down found =
      let positive : ltb_ℤ (pos 0) (pos (suc n)) ≡ true = ground arith in
      rw positive (refl, rw (refused-store t.link h t.surroundings w n _ down) found)
