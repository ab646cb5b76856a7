-- ===== src/Worker/Calls.antt =====
-- The worker changes the tables and the stream through the backend's API only.
use distributed_load_testing.Common.{
  ℕ, Bool, ◌≡◌, refl, sym, ◌∙◌, inl, inr, List, [], ◌∷◌, ◌++◌, Bool-cases, Option-cases, true,
  false,
}
use distributed_load_testing.Common.Int.{ℤ, pos, ltb_ℤ}
use distributed_load_testing.Float.{Float}
use distributed_load_testing.Models.{ShardAssignment, CompleteShardRequest}
use distributed_load_testing.Queue.{Message}
use distributed_load_testing.Handlers.{Handler, World, Surroundings}
use distributed_load_testing.Api.{Call, serve, serve_all}
use distributed_load_testing.Worker.{
  Link, lost, reply_lost, garbled, delivered, Trip, send_over, send,
}
use distributed_load_testing.Worker.Client.{
  Claim, claimed, unclaimable, claim_error, claim_shard_by_id, report, complete_shard_by_id,
  fail_shard_by_id,
}
use distributed_load_testing.Worker.Jobs.{
  Job, Pending, Turn, or_nothing, run_claimed, after_claim, handle_shard, handle_message,
  dead_letter, handle_all, reclaim_one, reclaim_all, reclaim_stuck, consume,
}

module _ {F : Type 0} ⦃f : Float F⦄ where
  -- The second world is the first after some requests.
  abbrev pub IsServed : Handler → World F → World F → Type 0
  IsServed h w w' = (calls : List (Surroundings × Call F)) × (w' ≡ serve_all h w calls)

  pub serve_all-append :
      (h : Handler) (w : World F) (xs ys : List (Surroundings × Call F))
      → serve_all h w (xs ++ ys) ≡ serve_all h (serve_all h w xs) ys
  unfolding serve_all
  serve_all-append h w [] ys = refl
  serve_all-append h w ((e, call) ∷ xs) ys = serve_all-append h (serve h e w call).0 xs ys

  pub IsServed-refl : (h : Handler) (w : World F) → IsServed h w w
  unfolding serve_all
  IsServed-refl h w = ([], refl)

  pub IsServed-trans :
      (h : Handler) (u v w : World F) → IsServed h u v → IsServed h v w → IsServed h u w
  IsServed-trans h u v w (xs, p) (ys, q) = (xs ++ ys, q ∙ rw p (sym (serve_all-append h u xs ys)))

  pub send_over-IsServed :
      (link : Link) (h : Handler) (e : Surroundings) (w : World F) (call : Call F)
      → IsServed h w (send_over link h e w call).0
  unfolding send_over serve_all
  send_over-IsServed lost h e w call = ([], refl)
  send_over-IsServed reply_lost h e w call = ((e, call) ∷ [], refl)
  send_over-IsServed garbled h e w call = ((e, call) ∷ [], refl)
  send_over-IsServed delivered h e w call = ((e, call) ∷ [], refl)

  send-IsServed :
      (h : Handler) (t : Trip) (w : World F) (call : Call F) → IsServed h w (send h t w call).0
  unfolding send
  send-IsServed h t w call = send_over-IsServed t.link h t.surroundings w call

  pub claim_shard-IsServed :
      (h : Handler) (t : Trip) (w : World F) (takeover : Bool) (id : ℤ)
      → IsServed h w (claim_shard_by_id h t w takeover id).0
  unfolding claim_shard_by_id
  claim_shard-IsServed h t w takeover id = send-IsServed h t w _

  complete_shard-IsServed :
      (h : Handler) (t : Trip) (w : World F) (id : ℤ) (body : CompleteShardRequest F)
      → IsServed h w (complete_shard_by_id h t w id body).0
  unfolding complete_shard_by_id report
  complete_shard-IsServed h t w id body = send-IsServed h t w _

  run_claimed-IsServed :
      (h : Handler) (job : Job F) (w : World F) (msg_id : ℕ) (a : ShardAssignment)
      → IsServed h w (run_claimed h job w msg_id a).0
  unfolding run_claimed
  run_claimed-IsServed h job w msg_id a =
      IsServed-trans h w (serve_all h w job.meanwhile) _ (job.meanwhile, refl)
        (complete_shard-IsServed h job.reporting (serve_all h w job.meanwhile) (pos a.shard_id) _)

  pub after_claim-IsServed :
      (h : Handler) (job : Job F) (msg_id : ℕ) (w : World F) (reply : Claim ShardAssignment)
      → IsServed h w (after_claim h job msg_id w reply).0
  unfolding after_claim
  after_claim-IsServed h job msg_id w claim_error = IsServed-refl h w
  after_claim-IsServed h job msg_id w unclaimable = IsServed-refl h w
  after_claim-IsServed h job msg_id w (claimed a) = run_claimed-IsServed h job w msg_id a

  pub handle_shard-IsServed :
      (h : Handler) (job : Job F) (reclaimed : Bool) (w : World F) (msg_id : ℕ) (id : ℤ)
      → IsServed h w (handle_shard h job reclaimed w msg_id id).0
  unfolding handle_shard
  handle_shard-IsServed h job reclaimed w msg_id id =
      let (w', reply) = claim_shard_by_id h job.claiming w reclaimed id in
      IsServed-trans h w w' _ (claim_shard-IsServed h job.claiming w reclaimed id)
        (after_claim-IsServed h job msg_id w' reply)

  handle_message-IsServed :
      (h : Handler) (job : Job F) (reclaimed : Bool) (w : World F) (m : Message)
      → IsServed h w (handle_message h job reclaimed w m).0
  unfolding handle_message
  handle_message-IsServed h job reclaimed w m = elim (Option-cases m.shard_id) [
    | inl e ↦ rw (e, handle_message) (IsServed-refl h w)
    | inr (id, e) ↦ rw (e, handle_message) (handle_shard-IsServed h job reclaimed w m.id id)
  ]

  dead_letter-IsServed :
      (h : Handler) (t : Trip) (w : World F) (msg_id deliveries : ℕ) (shard_id : ℤ)
      → IsServed h w (dead_letter h t w msg_id deliveries shard_id).0
  unfolding dead_letter fail_shard_by_id report
  dead_letter-IsServed h t w msg_id deliveries shard_id =
      elim (Bool-cases (ltb_ℤ (pos 0) shard_id)) [
        | inl e ↦ rw (e, dead_letter) (send-IsServed h t w _)
        | inr e ↦ rw (e, dead_letter) (IsServed-refl h w)
      ]

  handle_all-IsServed :
      (h : Handler) (reclaimed : Bool) (w : World F) (ms : List (Message × Job F))
      → IsServed h w (handle_all h reclaimed w ms).0
  unfolding handle_all
  handle_all-IsServed h reclaimed w [] = IsServed-refl h w
  handle_all-IsServed h reclaimed w ((m, job) ∷ rest) =
      IsServed-trans h w _ _ (handle_message-IsServed h job reclaimed w m)
        (handle_all-IsServed h reclaimed (handle_message h job reclaimed w m).0 rest)

  reclaim_one-IsServed :
      (h : Handler) (max_deliveries : ℤ) (w : World F) (p : Pending F)
      → IsServed h w (reclaim_one h max_deliveries w p).0
  unfolding reclaim_one
  reclaim_one-IsServed h max_deliveries w p =
      elim (Bool-cases (ltb_ℤ max_deliveries (pos p.retry_count))) [
        | inl e ↦
            rw (e, reclaim_one) (dead_letter-IsServed h p.failing w p.id p.retry_count p.shard_id)
        | inr e ↦ rw (e, reclaim_one) (handle_all-IsServed h true w (or_nothing p.xclaim))
      ]

  reclaim_all-IsServed :
      (h : Handler) (max_deliveries : ℤ) (w : World F) (ps : List (Pending F))
      → IsServed h w (reclaim_all h max_deliveries w ps).0
  unfolding reclaim_all
  reclaim_all-IsServed h max_deliveries w [] = IsServed-refl h w
  reclaim_all-IsServed h max_deliveries w (p ∷ ps) =
      IsServed-trans h w _ _ (reclaim_one-IsServed h max_deliveries w p)
        (reclaim_all-IsServed h max_deliveries (reclaim_one h max_deliveries w p).0 ps)

  -- Whatever a worker does with the stream, however its requests fare, it leaves the tables as some
  -- sequence of API requests does.
  pub consume-IsServed :
      (h : Handler) (max_deliveries : ℤ) (w : World F) (turns : List (Turn F))
      → IsServed h w (consume h max_deliveries w turns).0
  unfolding consume reclaim_stuck
  consume-IsServed h max_deliveries w [] = IsServed-refl h w
  consume-IsServed h max_deliveries w (turn ∷ turns) =
      let w1 = (reclaim_all h max_deliveries w (or_nothing turn.pending)).0 in
      let w2 = (handle_all h false w1 (or_nothing turn.delivered)).0 in
      IsServed-trans h w w1 _ (reclaim_all-IsServed h max_deliveries w (or_nothing turn.pending)) (
        IsServed-trans h w1 w2 _ (handle_all-IsServed h false w1 (or_nothing turn.delivered))
          (consume-IsServed h max_deliveries w2 turns))
