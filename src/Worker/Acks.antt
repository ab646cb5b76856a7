-- ===== src/Worker/Acks.antt =====
-- When a worker acknowledges a message, no shard is left that still needs it.
use distributed_load_testing.Common.{
  ℕ, ◌≡◌, refl, inl, inr, Bool, true, false, none, some, List, [], ◌∷◌, ok, arith, Bool-cases,
}
use distributed_load_testing.Common.Int.{pos}
use distributed_load_testing.Common.Table.{find?}
use distributed_load_testing.Float.{Float}
use distributed_load_testing.Models.{Status, is_open, is_queued, ShardAssignment}
use distributed_load_testing.Store.{Shard, Store, shard_where}
use distributed_load_testing.Store.Shards.{start_guard}
use distributed_load_testing.Store.Lifecycle.{IsKeyed}
use distributed_load_testing.Store.Closing.{HasRuns}
use distributed_load_testing.Handlers.{Handler, World, Surroundings}
use distributed_load_testing.Api as Api
use distributed_load_testing.Api.{serve_all}
use distributed_load_testing.Api.Traces.{serve_all-Settled}
use distributed_load_testing.Queue.{Message}
use distributed_load_testing.Worker.{Link, lost, reply_lost, garbled, delivered, send, send_over}
use distributed_load_testing.Worker.Client.{
  Claim, claimed, unclaimable, claim_error, claim_shard_by_id, decode_assignment, read_claim,
  conflict_or_missing, report, read_report, complete_shard_by_id,
}
use distributed_load_testing.Worker.Jobs.{
  Job, xack, execute_shard, run_claimed, after_claim, handle_shard, handle_message,
}
use distributed_load_testing.Worker.Calls.{IsServed, send_over-IsServed}
use distributed_load_testing.Worker.Replies.{
  claim_call, serve_refused, serve_claimed, read_unclaimable, read_unclaimable_bare, read_claimed,
  no_claim_bare, report_taken, execute_shard-IsFinal,
}

queued_open : (st : Status) → is_queued st ≡ true → is_open st ≡ true
queued_open st h = ground arith

module _ {F : Type 0} where
  -- No shard with the number n is in a state in which a worker would claim it: queued, or for a
  -- reclaimed message queued or running.
  abbrev pub IsUnclaimable : Bool → ℕ → Store F → Type 0
  IsUnclaimable reclaimed n s = find? (shard_where n (start_guard reclaimed)) s.shards ≡ none

  closed-IsUnclaimable :
      (reclaimed : Bool) (n : ℕ) (shs : List (Shard F))
      → find? (shard_where n is_open) shs ≡ none
      → find? (shard_where n (start_guard reclaimed)) shs ≡ none
  unfolding find?
  closed-IsUnclaimable reclaimed n [] e = refl
  closed-IsUnclaimable true n (sh ∷ shs) e = e
  closed-IsUnclaimable false n (sh ∷ shs) e =
      ground (arith, queued_open sh.status, closed-IsUnclaimable false n shs)

module _ {F : Type 0} ⦃f : Float F⦄ where
  pub over_refused :
      (link : Link) (h : Handler) (e : Surroundings) (w : World F) (reclaimed : Bool) (n : ℕ)
      → HasRuns w.store
      → let (w', r) = send_over link h e w (claim_call reclaimed n) in
        read_claim conflict_or_missing decode_assignment r ≡ unclaimable
        → IsUnclaimable reclaimed n w.store × (w'.store ≡ w.store)
  unfolding send_over read_claim
  over_refused lost h e w reclaimed n runs c = absurd (cc)
  over_refused reply_lost h e w reclaimed n runs c = absurd (cc)
  over_refused garbled h e w reclaimed n runs c =
      serve_refused h e w reclaimed n runs
        (read_unclaimable_bare (Api.serve h e w (claim_call reclaimed n)).1 c)
  over_refused delivered h e w reclaimed n runs c =
      serve_refused h e w reclaimed n runs
        (read_unclaimable (Api.serve h e w (claim_call reclaimed n)).1 c)

  pub over_claimed :
      (link : Link) (h : Handler) (e : Surroundings) (w : World F) (reclaimed : Bool) (n : ℕ)
      (a : ShardAssignment)
      → HasRuns w.store
      → read_claim conflict_or_missing decode_assignment
          (send_over link h e w (claim_call reclaimed n)).1
        ≡ claimed a
      → a.shard_id ≡ n
  unfolding send_over read_claim
  over_claimed lost h e w reclaimed n a runs c = absurd (cc)
  over_claimed reply_lost h e w reclaimed n a runs c = absurd (cc)
  over_claimed garbled h e w reclaimed n a runs c =
      absurd (no_claim_bare (Api.serve h e w (claim_call reclaimed n)).1 a c)
  over_claimed delivered h e w reclaimed n a runs c =
      serve_claimed h e w reclaimed n a runs
        (read_claimed (Api.serve h e w (claim_call reclaimed n)).1 a c)

  pub served-IsKeyed :
      (h : Handler) (w w' : World F) → IsKeyed w.store → IsServed h w w' → IsKeyed w'.store
  served-IsKeyed h w w' keyed (calls, same) = rw same (serve_all-Settled h w calls keyed).1

  run_claimed-acked :
      (h : Handler) (job : Job F) (w : World F) (msg_id n : ℕ) (reclaimed : Bool)
      (a : ShardAssignment)
      → a.shard_id ≡ n
      → IsKeyed w.store
      → (run_claimed h job w msg_id a).1 ≡ xack msg_id ∷ []
      → IsUnclaimable reclaimed n (run_claimed h job w msg_id a).0.store
  unfolding run_claimed complete_shard_by_id report send
  run_claimed-acked h job w msg_id n reclaimed a is_n keyed acked =
      let body = execute_shard a job.schedule in
      let (st, parsed, final) = execute_shard-IsFinal a job.schedule in
      let w' = serve_all h w job.meanwhile in
      let keyed' = (serve_all-Settled h w job.meanwhile keyed).1 in
      let t = job.reporting in
      let out =
        send_over t.link h t.surroundings w'
          (Api.complete_shard (some (pos a.shard_id)) (ok body)) in
      elim (Bool-cases (read_report out.1)) [
        | inr untaken ↦ absurd (ground (arith, acked))
        | inl taken ↦ closed-IsUnclaimable reclaimed n out.0.store.shards (
            rw (← is_n) (
              report_taken t.link h t.surroundings w' a.shard_id body st parsed final keyed' taken))
      ]

  after_claim-acked :
      (h : Handler) (job : Job F) (msg_id n : ℕ) (reclaimed : Bool) (w : World F)
      (reply : Claim ShardAssignment)
      → (reply ≡ unclaimable → IsUnclaimable reclaimed n w.store)
      → ((a : ShardAssignment) → reply ≡ claimed a → a.shard_id ≡ n)
      → IsKeyed w.store
      → (after_claim h job msg_id w reply).1 ≡ xack msg_id ∷ []
      → IsUnclaimable reclaimed n (after_claim h job msg_id w reply).0.store
  unfolding after_claim
  after_claim-acked h job msg_id n reclaimed w claim_error refused same keyed acked = absurd (cc)
  after_claim-acked h job msg_id n reclaimed w unclaimable refused same keyed acked = refused refl
  after_claim-acked h job msg_id n reclaimed w (claimed a) refused same keyed acked =
      run_claimed-acked h job w msg_id n reclaimed a (same a refl) keyed acked

  handle_shard-acked :
      (h : Handler) (job : Job F) (reclaimed : Bool) (w : World F) (msg_id n : ℕ)
      → IsKeyed w.store
      → HasRuns w.store
      → (handle_shard h job reclaimed w msg_id (pos n)).1 ≡ xack msg_id ∷ []
      → IsUnclaimable reclaimed n (handle_shard h job reclaimed w msg_id (pos n)).0.store
  unfolding handle_shard claim_shard_by_id send
  handle_shard-acked h job reclaimed w msg_id n keyed runs acked =
      let t = job.claiming in
      let (w', r) = send_over t.link h t.surroundings w (claim_call reclaimed n) in
      after_claim-acked h job msg_id n reclaimed w'
        (read_claim conflict_or_missing decode_assignment r)
        (λ c.
          let (none_left, same) = over_refused t.link h t.surroundings w reclaimed n runs c in
          rw same none_left)
        (λ a. over_claimed t.link h t.surroundings w reclaimed n a runs)
        (served-IsKeyed h w w' keyed (send_over-IsServed t.link h t.surroundings w _)) acked

  -- If a worker acknowledges the message of a shard, however its requests fared and whatever others
  -- did meanwhile, no shard with that number is left queued, and after a reclaimed message none is
  -- left running either. Ids are distinct and each shard's run is in the table.
  pub handle_message-acked :
      (h : Handler) (job : Job F) (reclaimed : Bool) (w : World F) (m : Message) (n : ℕ)
      → IsKeyed w.store
      → HasRuns w.store
      → m.shard_id ≡ some (pos n)
      → (handle_message h job reclaimed w m).1 ≡ xack m.id ∷ []
      → IsUnclaimable reclaimed n (handle_message h job reclaimed w m).0.store
  unfolding handle_message
  handle_message-acked h job reclaimed w m n keyed runs is_n acked =
      rw (is_n, handle_message)
        (handle_shard-acked h job reclaimed w m.id n keyed runs
          (rw (is_n, handle_message) at acked))
