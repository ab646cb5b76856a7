-- ===== src/Worker/Replies.antt =====
-- What the answers to a worker say about the tables: a refused claim, a claimed shard, a taken report.
use text.Mathlib.Text.{◌==◌ as str_eq}
use mathlib.Core.Path.{subst}
use distributed_load_testing.Common.{
  ℕ, zero, suc, ◌≡◌, ◌≢◌, ==_iff, refl, sym, inl, inr, Bool, true, false, not, ◌&&◌, none, some,
  List, Result, ok, err, arith, Bool-cases, Result-cases, if◌then◌else◌,
}
use distributed_load_testing.Common.Int.{pos}
use distributed_load_testing.Common.Table.{find?}
use distributed_load_testing.Float.{Float}
use distributed_load_testing.Models.{
  Status, completed, failed, is_open, is_running, parse_status, status_completed, status_failed,
  ShardAssignment, CompleteShardRequest,
}
use distributed_load_testing.Store.{StoreError, database, not_running, Store, Faults, shard_where}
use distributed_load_testing.Store.Shards.{
  start_guard, shard_status, finish_shard, to_partial, complete_shard, complete_shard_as,
  start_shard, take_over_shard,
}
use distributed_load_testing.Store.Lifecycle.{IsKeyed}
use distributed_load_testing.Store.Closing.{
  HasRuns, claim_shard-refused, claim_shard-claimed, finish_shard-closes,
}
use distributed_load_testing.Handlers.{Handler, World, Surroundings, Response}
use distributed_load_testing.Handlers.Internal.{
  start_shard_handler, takeover_shard, complete_shard_handler, complete_shard_valid,
}
use distributed_load_testing.Api as Api
use distributed_load_testing.Api.{Call, serve, serve_all}
use distributed_load_testing.Api.Lifecycle.{parse_completed, parse_failed}
use distributed_load_testing.Runner.Run.{Round, run}
use distributed_load_testing.Worker.{
  Received, Link, lost, reply_lost, garbled, delivered, send_over,
}
use distributed_load_testing.Worker.Client.{
  claimed, unclaimable, decode_assignment, read_claim, read_report, conflict_or_missing,
}
use distributed_load_testing.Worker.Jobs.{execute_shard, to_config}

-- What the worker reports is in the final states of a shard.
abbrev pub IsFinal : Status → Type 0
IsFinal st = is_open st ≡ false

module _ {F : Type 0} where
  pub read_unclaimable :
      (r : Response F)
      → read_claim conflict_or_missing decode_assignment (Received.answer r) ≡ unclaimable
      → conflict_or_missing r.code ≡ true
  unfolding read_claim
  read_unclaimable r c = ground arith

  pub read_unclaimable_bare :
      (r : Response F)
      → read_claim conflict_or_missing decode_assignment (Received.no_body r) ≡ unclaimable
      → conflict_or_missing r.code ≡ true
  unfolding read_claim
  read_unclaimable_bare r c = ground arith

  pub read_claimed :
      (r : Response F) (a : ShardAssignment)
      → read_claim conflict_or_missing decode_assignment (Received.answer r) ≡ claimed a
      → decode_assignment r.payload ≡ some a
  unfolding read_claim
  read_claimed r a c = ground arith

  pub no_claim_bare :
      (r : Response F) (a : ShardAssignment)
      → read_claim conflict_or_missing decode_assignment (Received.no_body r) ≡ claimed a
      → ⊥
  unfolding read_claim
  no_claim_bare r a c = ground arith

module _ {F : Type 0} ⦃f : Float F⦄ where
  pub execute_shard-IsFinal :
      (a : ShardAssignment) (schedule : ℕ → List (Round F))
      → (st : Status) × (shard_status (parse_status (execute_shard a schedule).status) ≡ some st)
        × IsFinal st
  unfolding execute_shard
  execute_shard-IsFinal a schedule = elim (Result-cases (run (to_config a) schedule)) [
    | inl (res, e) ↦
        rw (e, execute_shard) (completed, rw (parse_completed status_completed refl) refl, refl)
    | inr (m, e) ↦ rw (e, execute_shard) (failed, rw (parse_failed status_failed refl) refl, refl)
  ]

  complete_shard-closes :
      (db : Faults) (now : ℕ) (s : Store F) (k : ℕ) (req : CompleteShardRequest F) (st : Status)
      → shard_status (parse_status req.status) ≡ some st
      → IsFinal st
      → IsKeyed s
      → (complete_shard db now s k req).1 ≡ ok tt
      → find? (shard_where k is_open) (complete_shard db now s k req).0.shards ≡ none
  complete_shard-closes db now s k req st e final keyed done =
      let same : complete_shard db now s k req
          ≡ finish_shard db now s k is_running (to_partial now st req) (err not_running) =
        unfold complete_shard complete_shard_as in rw e refl in
      subst
        (λ (out : Store F × Result StoreError (Unit {0})).
          out.1 ≡ ok tt → find? (shard_where k is_open) out.0.shards ≡ none)
        (sym same)
        (finish_shard-closes db now s k is_running is_open (to_partial now st req) not_running
          (λ _. final) keyed.shard_ids)
        done

  complete_shard_valid-ok :
      (e : Surroundings) (s : Store F) (k : ℕ) (req : CompleteShardRequest F)
      → (complete_shard_valid e s k req).1.code ≡ 200
      → (complete_shard e.db e.now s k req).1 ≡ ok tt
  unfolding complete_shard_valid
  complete_shard_valid-ok e s k req done = ground arith

  complete_taken :
      (e : Surroundings) (s : Store F) (n : ℕ) (req : CompleteShardRequest F) (st : Status)
      → shard_status (parse_status req.status) ≡ some st
      → IsFinal st
      → IsKeyed s
      → (complete_shard_handler e s (some (pos n)) (ok req)).1.code ≡ 200
      → find? (shard_where n is_open) (complete_shard_handler e s (some (pos n)) (ok req)).0.shards
        ≡ none
  unfolding complete_shard_handler complete_shard_valid
  complete_taken e s zero req st p final keyed done = absurd (ground arith)
  complete_taken e s (suc n) req st p final keyed done =
      elim (Bool-cases
        (not (str_eq req.status status_completed) && not (str_eq req.status status_failed))) [
          | inl t ↦ absurd (ground (arith, rw t at done))
          | inr t ↦ rw t (
              complete_shard-closes e.db e.now s (suc n) req st p final keyed
                (complete_shard_valid-ok e s (suc n) req (rw (t, complete_shard_handler) at done)))
        ]

  -- What comes back from the report of a shard.
  pub report_taken :
      (link : Link) (h : Handler) (e : Surroundings) (w : World F) (n : ℕ)
      (req : CompleteShardRequest F) (st : Status)
      → shard_status (parse_status req.status) ≡ some st
      → IsFinal st
      → IsKeyed w.store
      → let (w', r) = send_over link h e w (Api.complete_shard (some (pos n)) (ok req)) in
        read_report r ≡ true → find? (shard_where n is_open) w'.store.shards ≡ none
  unfolding send_over read_report serve
  report_taken lost h e w n req st p final keyed taken = absurd (cc)
  report_taken reply_lost h e w n req st p final keyed taken = absurd (cc)
  report_taken garbled h e w n req st p final keyed taken =
      complete_taken e w.store n req st p final keyed ((==_iff _ _).0 taken)
  report_taken delivered h e w n req st p final keyed taken =
      complete_taken e w.store n req st p final keyed ((==_iff _ _).0 taken)

  start_code :
      (e : Surroundings) (s : Store F) (n : ℕ)
      → conflict_or_missing (start_shard_handler e s (some (pos (suc n)))).1.code ≡ true
      → (x : StoreError) × ((start_shard e.db e.now s (suc n)).1 ≡ err x) × (x ≢ database)
  unfolding start_shard_handler
  start_code e s n c = elim (Result-cases (start_shard e.db e.now s (suc n)).1) [
    | inl (a, r) ↦ absurd (ground arith)
    | inr (x, r) ↦ (x, r, λ d. ground arith)
  ]

  takeover_code :
      (e : Surroundings) (s : Store F) (n : ℕ)
      → conflict_or_missing (takeover_shard e s (some (pos (suc n)))).1.code ≡ true
      → (x : StoreError) × ((take_over_shard e.db e.now s (suc n)).1 ≡ err x) × (x ≢ database)
  unfolding takeover_shard
  takeover_code e s n c = elim (Result-cases (take_over_shard e.db e.now s (suc n)).1) [
    | inl (a, r) ↦ absurd (ground arith)
    | inr (x, r) ↦ (x, r, λ d. ground arith)
  ]

  abbrev pub claim_call : Bool → ℕ → Call F
  claim_call reclaimed n =
      if reclaimed then Api.takeover_shard_call (some (pos n)) else Api.start_shard (some (pos n))

  pub serve_refused :
      (h : Handler) (e : Surroundings) (w : World F) (reclaimed : Bool) (n : ℕ)
      → HasRuns w.store
      → conflict_or_missing (serve h e w (claim_call reclaimed n)).1.code ≡ true
      → (find? (shard_where n (start_guard reclaimed)) w.store.shards ≡ none)
        × ((serve h e w (claim_call reclaimed n)).0.store ≡ w.store)
  unfolding serve start_shard_handler takeover_shard start_shard take_over_shard
  serve_refused h e w true zero runs c = absurd (ground arith)
  serve_refused h e w false zero runs c = absurd (ground arith)
  serve_refused h e w true (suc n) runs c =
      let (x, refused, other) = takeover_code e w.store n c in
      claim_shard-refused e.db e.now w.store (suc n) true _ x runs other refused
  serve_refused h e w false (suc n) runs c =
      let (x, refused, other) = start_code e w.store n c in
      claim_shard-refused e.db e.now w.store (suc n) false _ x runs other refused

  start_decoded :
      (e : Surroundings) (s : Store F) (n : ℕ) (a : ShardAssignment)
      → decode_assignment (start_shard_handler e s (some (pos (suc n)))).1.payload ≡ some a
      → (start_shard e.db e.now s (suc n)).1 ≡ ok a
  unfolding start_shard_handler
  start_decoded e s n a d = elim (Result-cases (start_shard e.db e.now s (suc n)).1) [
    | inl (b, r) ↦ ground arith
    | inr (x, r) ↦ absurd (ground arith)
  ]

  takeover_decoded :
      (e : Surroundings) (s : Store F) (n : ℕ) (a : ShardAssignment)
      → decode_assignment (takeover_shard e s (some (pos (suc n)))).1.payload ≡ some a
      → (take_over_shard e.db e.now s (suc n)).1 ≡ ok a
  unfolding takeover_shard
  takeover_decoded e s n a d = elim (Result-cases (take_over_shard e.db e.now s (suc n)).1) [
    | inl (b, r) ↦ ground arith
    | inr (x, r) ↦ absurd (ground arith)
  ]

  pub serve_claimed :
      (h : Handler) (e : Surroundings) (w : World F) (reclaimed : Bool) (n : ℕ)
      (a : ShardAssignment)
      → HasRuns w.store
      → decode_assignment (serve h e w (claim_call reclaimed n)).1.payload ≡ some a
      → a.shard_id ≡ n
  unfolding serve start_shard_handler takeover_shard start_shard take_over_shard
  serve_claimed h e w true zero a runs d = absurd (ground arith)
  serve_claimed h e w false zero a runs d = absurd (ground arith)
  serve_claimed h e w true (suc n) a runs d =
      claim_shard-claimed e.db e.now w.store (suc n) true _ a runs
        (takeover_decoded e w.store n a d)
  serve_claimed h e w false (suc n) a runs d =
      claim_shard-claimed e.db e.now w.store (suc n) false _ a runs (start_decoded e w.store n a d)
