-- ===== src/System/Messages.antt =====
-- What a worker does with a message keeps what is always true of the platform.
use distributed_load_testing.Common.{
  ℕ, suc, zero, ◌≡◌, refl, sym, ap, ◌∙◌, ◌⊎◌, inl, inr, Bool, true, false, none, some, List, arith,
  Bool-cases, ok, if◌then◌else◌, String,
}
use distributed_load_testing.Common.Int.{ℤ, pos, ltb_ℤ}
use distributed_load_testing.Float.{Float}
use distributed_load_testing.Models.{is_open, is_running, ShardAssignment}
use distributed_load_testing.Queue.{Message}
use distributed_load_testing.Handlers.{Handler}
use distributed_load_testing.Api as Api
use distributed_load_testing.Runner.Run.{Round}
use distributed_load_testing.Worker.{Trip, send, send_over}
use distributed_load_testing.Worker.Client.{
  Claim, claimed, unclaimable, claim_error, claim_shard_by_id, complete_shard_by_id,
  fail_shard_by_id, report, read_claim, read_report, conflict_or_missing, decode_assignment,
}
use distributed_load_testing.Worker.Jobs.{execute_shard, dead_letter}
use distributed_load_testing.Worker.Replies.{claim_call, report_taken, execute_shard-IsFinal}
use distributed_load_testing.Worker.Acks.{over_refused, over_claimed}
use distributed_load_testing.System.{
  System, IsIn, mark, assign, answered, begin_message, finish_message, give_up,
}
use distributed_load_testing.System.Shards.{HasNone, refused-closed}
use distributed_load_testing.System.Calls.{
  send_claim-Touches, send_complete-Touches, send_fail-Touches,
}
use distributed_load_testing.System.Kept.{Kept, acked-Kept, given_up-Kept, assign-Kept}
use distributed_load_testing.System.Requests.{touch-Kept, send_over-Sound}

module _ {F : Type 0} where
  answered-Kept :
      (s : System F) (k : ℕ) (m : Message) (n : ℕ) (reply : Claim ShardAssignment)
      → Kept s
      → IsIn m s.world.stream.entries
      → m.shard_id ≡ some (pos n)
      → s.read m.id ≡ true
      → (reply ≡ unclaimable → HasNone is_open n s.world.store)
      → ((a : ShardAssignment) → reply ≡ claimed a → a.shard_id ≡ n)
      → Kept (answered s k m reply)
  answered-Kept s k m n claim_error kept i is_n r refused same = kept
  answered-Kept s k m n unclaimable kept i is_n r refused same =
      acked-Kept s m n kept i is_n r (refused refl)
  answered-Kept s k m n (claimed a) kept i is_n r refused same =
      assign-Kept s k (some (m, a)) kept (λ m' a' e.
        let is_m : m ≡ m' = cc in
        let is_a : a ≡ a' = cc in
        rw (← is_m, ← is_a) (i, r, is_n ∙ ap (λ k. some (pos k)) (sym (same a refl))))

module _ {F : Type 0} ⦃f : Float F⦄ where
  pub begin-Kept :
      (h : Handler) (t : Trip) (reclaimed : Bool) (s : System F) (k : ℕ) (m : Message)
      → Kept s
      → IsIn m s.world.stream.entries
      → s.read m.id ≡ true
      → ((n : ℕ)
          → m.shard_id ≡ some (pos n)
          → reclaimed ≡ false
          → HasNone is_running n s.world.store)
      → Kept (begin_message h t reclaimed s k m)
  unfolding begin_message claim_shard_by_id send
  begin-Kept h t reclaimed s k m kept i r idle =
      let (n, is_n, _, _) = kept.stream.numbered m i in
      let (w', r') = send_over t.link h t.surroundings s.world (claim_call reclaimed n) in
      let touches = send_claim-Touches t.link h t.surroundings s.world reclaimed n in
      let sound =
        send_over-Sound t.link h t.surroundings s.world (claim_call reclaimed n) kept.keyed in
      rw (is_n, begin_message)
        (answered-Kept (record s { world = w' }) k m n
          (read_claim conflict_or_missing decode_assignment r')
          (touch-Kept s w' m n kept i is_n r touches sound) (rw (touches.1) i) is_n r
          (λ c.
            let (missed, same) =
              over_refused t.link h t.surroundings s.world reclaimed n kept.runs c in
            rw same (refused-closed reclaimed n s.world.store missed (idle n is_n)))
          (λ a. over_claimed t.link h t.surroundings s.world reclaimed n a kept.runs))

  reported-Kept :
      (s : System F) (k : ℕ) (m : Message) (n : ℕ) (reported : Bool)
      → Kept s
      → IsIn m s.world.stream.entries
      → m.shard_id ≡ some (pos n)
      → s.read m.id ≡ true
      → (reported ≡ true → HasNone is_open n s.world.store)
      → Kept (record s {
        acked = if reported then mark s.acked m.id else s.acked;
        worker = assign s.worker k none;
      })
  reported-Kept s k m n reported kept i is_n r closed = elim (Bool-cases reported) [
    | inl e ↦ rw e (
        assign-Kept (record s { acked = mark s.acked m.id }) k none
          (acked-Kept s m n kept i is_n r (closed e)) (λ _ _ q. absurd (cc)))
    | inr e ↦ rw e (assign-Kept s k none kept (λ _ _ q. absurd (cc)))
  ]

  pub finish-Kept :
      (h : Handler) (t : Trip) (schedule : ℕ → List (Round F)) (s : System F) (k : ℕ) (m : Message)
      (a : ShardAssignment)
      → Kept s
      → s.worker k ≡ some (m, a)
      → Kept (finish_message h t schedule s k m a)
  unfolding finish_message complete_shard_by_id report send
  finish-Kept h t schedule s k m a kept at_it =
      let (i, r, is_n) = kept.busy k m a at_it in
      let body = execute_shard a schedule in
      let (st, parsed, final) = execute_shard-IsFinal a schedule in
      let call = Api.complete_shard (some (pos a.shard_id)) (ok body) in
      let (w', r') = send_over t.link h t.surroundings s.world call in
      let touches = send_complete-Touches t.link h t.surroundings s.world a.shard_id body in
      let sound = send_over-Sound t.link h t.surroundings s.world call kept.keyed in
      reported-Kept (record s { world = w' }) k m a.shard_id (read_report r')
        (touch-Kept s w' m a.shard_id kept i is_n r touches sound) (rw (touches.1) i) is_n r
        (report_taken t.link h t.surroundings s.world a.shard_id body st parsed final kept.keyed)

  -- The report of a dead-lettered message.
  dead_letter-Kept :
      (h : Handler) (t : Trip) (s : System F) (m : Message) (deliveries n : ℕ)
      → Kept s
      → IsIn m s.world.stream.entries
      → m.shard_id ≡ some (pos n)
      → s.read m.id ≡ true
      → Kept (record s { world = (dead_letter h t s.world m.id deliveries (pos n)).0 })
  unfolding dead_letter fail_shard_by_id report send
  dead_letter-Kept h t s m deliveries zero kept i is_n r = kept
  dead_letter-Kept h t s m deliveries (suc n) kept i is_n r =
      let reason : String = "dead-lettered after too many delivery attempts" in
      let positive : ltb_ℤ (pos 0) (pos (suc n)) ≡ true = ground arith in
      rw (positive, dead_letter)
        (touch-Kept s _ m (suc n) kept i is_n r
          (send_fail-Touches t.link h t.surroundings s.world (suc n) reason)
          (send_over-Sound t.link h t.surroundings s.world
            (Api.fail_shard (some (pos (suc n))) (ok reason)) kept.keyed))

  pub give_up-Kept :
      (h : Handler) (t : Trip) (s : System F) (m : Message) (deliveries : ℕ) (shard_id : ℤ)
      → Kept s
      → IsIn m s.world.stream.entries
      → s.read m.id ≡ true
      → (shard_id ≡ pos 0) ⊎ (m.shard_id ≡ some shard_id)
      → Kept (give_up h t deliveries shard_id s m)
  unfolding give_up dead_letter
  give_up-Kept h t s m deliveries shard_id kept i r (inl e) = rw e (given_up-Kept s m kept r)
  give_up-Kept h t s m deliveries shard_id kept i r (inr e) =
      let (n, is_n, _, _) = kept.stream.numbered m i in
      let is_id : shard_id ≡ pos n = cc in
      rw is_id (given_up-Kept _ m (dead_letter-Kept h t s m deliveries n kept i is_n r) r)
