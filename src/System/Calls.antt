-- ===== src/System/Calls.antt =====
-- The requests of a worker about one shard: start, takeover, complete and fail.
use distributed_load_testing.Common.{
  ℕ, zero, suc, ◌≡◌, refl, ap, inl, inr, Bool, true, false, some, String, Result, ok, arith,
  Bool-cases, Option-cases, not, ◌&&◌,
}
use text.Mathlib.Text.{◌==◌ as str_eq}
use distributed_load_testing.Common.Int.{pos}
use distributed_load_testing.Common.Table.{update_where}
use distributed_load_testing.Float.{Float}
use distributed_load_testing.Models.{
  Status, is_open, is_running, CompleteShardRequest, parse_status, status_completed, status_failed,
}
use distributed_load_testing.Store.{StoreError, Shard, Store, Faults, shard_where}
use distributed_load_testing.Store.Shards.{
  start_guard, shard_to_running, claim_shard, finish_shard, start_shard, take_over_shard,
  to_partial, shard_to_failed, complete_shard_as, complete_shard, fail_shard, is_written,
  shard_status,
}
use distributed_load_testing.Store.Lifecycle.Barrier.{
  aggregate_run-ok, barrier-ok, finish_shard-cases,
}
use distributed_load_testing.Store.Lifecycle.Shards.{claim_shard-cases}
use distributed_load_testing.Store.Closing.{barrier-shards}
use distributed_load_testing.Handlers.{Handler, World, Surroundings}
use distributed_load_testing.Handlers.Internal.{
  start_shard_handler, takeover_shard, complete_shard_handler, complete_shard_valid,
  fail_shard_handler,
}
use distributed_load_testing.Api as Api
use distributed_load_testing.Api.{Call, serve}
use distributed_load_testing.Worker.{Link, lost, reply_lost, garbled, delivered, send_over}
use distributed_load_testing.Worker.Replies.{claim_call}
use distributed_load_testing.System.Shards.{IsWrite, Writes}

start_guard-is_open : (allow : Bool) (st : Status) → start_guard allow st ≡ true → is_open st ≡ true
start_guard-is_open true st h = h
start_guard-is_open false st h = ground arith

module _ {F : Type 0} where
  -- The shards with the number n are written, and the stream stays.
  abbrev pub Touches : ℕ → World F → World F → Type 0
  Touches n w w' = Writes n w.store w'.store × (w'.stream ≡ w.stream)

  claim_shard-Writes :
      (db : Faults) (now : ℕ) (s : Store F) (id : ℕ) (allow : Bool) (miss : StoreError)
      → Writes id s (claim_shard db now s id allow miss).0
  claim_shard-Writes db now s id allow miss =
      let w : IsWrite id (start_guard allow) (shard_to_running {F = F} now) = record {
        opens = start_guard-is_open allow;
        same_id = λ _. refl;
        same_run = λ _. refl;
      } in
      elim (claim_shard-cases db now s id allow miss) [
        | inl e ↦ rw e (refl, inl refl)
        | inr (inl e) ↦ rw e (refl, inr (start_guard allow, shard_to_running now, w, refl))
        | inr (inr (k, e)) ↦ rw e (refl, inr (start_guard allow, shard_to_running now, w, refl))
      ]

module _ {F : Type 0} ⦃f : Float F⦄ where
  finish_shard-Writes :
      (db : Faults) (now : ℕ) (s : Store F) (id : ℕ) (guard : Status → Bool)
      (set : Shard F → Shard F) (miss : Result StoreError (Unit {0}))
      → IsWrite id guard set
      → Writes id s (finish_shard db now s id guard set miss).0
  finish_shard-Writes db now s id guard set miss w =
      let written = record s { shards = update_where (shard_where id guard) set s.shards } in
      elim (finish_shard-cases db now s id guard set miss) [
        | inl (_, _, e) ↦ rw e (refl, inl refl)
        | inr (_, inl (_, e)) ↦ rw e (refl, inl refl)
        | inr (_, inr (sh, _, e)) ↦ (
          elim (barrier-ok db now written sh.run_id _ e) [
            | inl (_, same) ↦ ap (λ (u : Store F). u.next_shard) same
            | inr (_, fired) ↦
                let (_, _, _, _, _, is_s) = aggregate_run-ok db now written sh.run_id _ fired in
                ap (λ (u : Store F). u.next_shard) is_s
          ],
          inr (guard, set, w, barrier-shards db now written sh.run_id _ e),
        )
      ]

  complete_shard-Writes :
      (db : Faults) (now : ℕ) (s : Store F) (id : ℕ) (req : CompleteShardRequest F)
      → Writes id s (complete_shard db now s id req).0
  unfolding complete_shard complete_shard_as
  complete_shard-Writes db now s id req =
      elim (Option-cases (shard_status (parse_status req.status))) [
        | inr (st, e) ↦ rw e (
            finish_shard-Writes db now s id is_running (to_partial now st req) _
              (record { opens = λ st h. ground arith; same_id = λ _. refl; same_run = λ _. refl }))
        | inl e ↦ rw e (elim (Bool-cases (is_written id s.shards)) [
          | inl b ↦ rw b (refl, inl refl)
          | inr b ↦ rw b (
              finish_shard-Writes db now s id is_running (λ sh. sh) _
                (record {
                  opens = λ st h. ground arith;
                  same_id = λ _. refl;
                  same_run = λ _. refl;
                }))
        ])
      ]

  fail_shard-Writes :
      (db : Faults) (now : ℕ) (s : Store F) (id : ℕ) (reason : String)
      → Writes id s (fail_shard db now s id reason).0
  unfolding fail_shard
  fail_shard-Writes db now s id reason =
      finish_shard-Writes db now s id is_open (shard_to_failed now reason) _
        (record { opens = λ st h. h; same_id = λ _. refl; same_run = λ _. refl })

  claim-Touches :
      (h : Handler) (e : Surroundings) (w : World F) (reclaimed : Bool) (n : ℕ)
      → Touches n w (serve h e w (claim_call reclaimed n)).0
  unfolding serve start_shard_handler takeover_shard start_shard take_over_shard
  claim-Touches h e w true zero = ((refl, inl refl), refl)
  claim-Touches h e w false zero = ((refl, inl refl), refl)
  claim-Touches h e w true (suc n) = (claim_shard-Writes e.db e.now w.store (suc n) true _, refl)
  claim-Touches h e w false (suc n) = (claim_shard-Writes e.db e.now w.store (suc n) false _, refl)

  complete-Touches :
      (h : Handler) (e : Surroundings) (w : World F) (n : ℕ) (req : CompleteShardRequest F)
      → Touches n w (serve h e w (Api.complete_shard (some (pos n)) (ok req))).0
  unfolding serve complete_shard_handler complete_shard_valid
  complete-Touches h e w zero req = ((refl, inl refl), refl)
  complete-Touches h e w (suc n) req =
      elim (Bool-cases
        (not (str_eq req.status status_completed) && not (str_eq req.status status_failed))) [
          | inl t ↦ rw (t, complete_shard_handler) ((refl, inl refl), refl)
          | inr t ↦
              rw (t, complete_shard_handler)
                (complete_shard-Writes e.db e.now w.store (suc n) req, refl)
        ]

  fail-Touches :
      (h : Handler) (e : Surroundings) (w : World F) (n : ℕ) (reason : String)
      → Touches n w (serve h e w (Api.fail_shard (some (pos n)) (ok reason))).0
  unfolding serve fail_shard_handler
  fail-Touches h e w zero reason = ((refl, inl refl), refl)
  fail-Touches h e w (suc n) reason = (fail_shard-Writes e.db e.now w.store (suc n) _, refl)

  send_over-Touches :
      (link : Link) (h : Handler) (e : Surroundings) (w : World F) (n : ℕ) (call : Call F)
      → Touches n w (serve h e w call).0
      → Touches n w (send_over link h e w call).0
  unfolding send_over
  send_over-Touches lost h e w n call t = ((refl, inl refl), refl)
  send_over-Touches reply_lost h e w n call t = t
  send_over-Touches garbled h e w n call t = t
  send_over-Touches delivered h e w n call t = t

  pub send_claim-Touches :
      (link : Link) (h : Handler) (e : Surroundings) (w : World F) (reclaimed : Bool) (n : ℕ)
      → Touches n w (send_over link h e w (claim_call reclaimed n)).0
  send_claim-Touches link h e w reclaimed n =
      send_over-Touches link h e w n _ (claim-Touches h e w reclaimed n)

  pub send_complete-Touches :
      (link : Link) (h : Handler) (e : Surroundings) (w : World F) (n : ℕ)
      (req : CompleteShardRequest F)
      → Touches n w (send_over link h e w (Api.complete_shard (some (pos n)) (ok req))).0
  send_complete-Touches link h e w n req =
      send_over-Touches link h e w n _ (complete-Touches h e w n req)

  pub send_fail-Touches :
      (link : Link) (h : Handler) (e : Surroundings) (w : World F) (n : ℕ) (reason : String)
      → Touches n w (send_over link h e w (Api.fail_shard (some (pos n)) (ok reason))).0
  send_fail-Touches link h e w n reason =
      send_over-Touches link h e w n _ (fail-Touches h e w n reason)
