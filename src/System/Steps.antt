-- ===== src/System/Steps.antt =====
-- handleMessage of worker/cmd/worker/main.go is a worker's two steps, one after the other.
use distributed_load_testing.Common.{
  ℕ, ◌≡◌, refl, ◌==◌, ==_iff, inl, inr, Bool, true, false, Option, none, some, List, [], ◌∷◌,
  Option-cases, if◌then◌else◌,
}
use distributed_load_testing.Float.{Float}
use distributed_load_testing.Models.{ShardAssignment}
use distributed_load_testing.Queue.{Message}
use distributed_load_testing.Handlers.{Handler, World}
use distributed_load_testing.Api.{serve_all}
use distributed_load_testing.Worker.Client.{
  Claim, claimed, unclaimable, claim_error, claim_shard_by_id,
}
use distributed_load_testing.Worker.Jobs.{
  Command, xack, xadd_dead, Job, run_claimed, after_claim, handle_shard, handle_message,
}
use distributed_load_testing.System.{System, mark, assign, answered, begin_message, finish_message}

-- The messages acknowledged once some commands have reached Redis.
abbrev pub acked_by : List Command → (ℕ → Bool) → ℕ → Bool
acked_by [] set = set
acked_by (xack id ∷ commands) set = acked_by commands (mark set id)
acked_by (xadd_dead _ _ _ ∷ commands) set = acked_by commands set

reported-acked :
    (reported : Bool) (id : ℕ) (set : ℕ → Bool)
    → (if reported then mark set id else set) ≡ acked_by (if reported then xack id ∷ [] else []) set
reported-acked true id set = refl
reported-acked false id set = refl

pub at_itself :
    (worker : ℕ → Option (Message × ShardAssignment)) (k : ℕ)
    (job : Option (Message × ShardAssignment))
    → assign worker k job k ≡ job
at_itself worker k job = let same : (k == k) ≡ true = (==_iff k k).1 refl in rw same refl

module _ {F : Type 0} ⦃f : Float F⦄ where
  -- The load and the report of what the worker k is at, if anything.
  abbrev pub settle : Handler → Job F → System F → ℕ → System F
  settle h job s k = elim (s.worker k) [
    | none ↦ s
    | some (m, a) ↦
        finish_message h job.reporting job.schedule
          (record s { world = serve_all h s.world job.meanwhile }) k m a
  ]

  abbrev pub both_steps : Handler → Job F → Bool → System F → ℕ → Message → System F
  both_steps h job reclaimed s k m = settle h job (begin_message h job.claiming reclaimed s k m) k

  -- A system that stands as handleMessage leaves tables, stream and acknowledgements.
  abbrev pub IsAsHandled : System F → System F → ℕ → World F → List Command → Type 0
  IsAsHandled s s' k w commands =
      (s'.world ≡ w) × (s'.acked ≡ acked_by commands s.acked) × (s'.worker k ≡ none)

  settle-IsAsHandled :
      (h : Handler) (job : Job F) (s : System F) (k : ℕ) (m : Message)
      (reply : Claim ShardAssignment)
      → s.worker k ≡ none
      → let (w, commands) = after_claim h job m.id s.world reply in
        IsAsHandled s (settle h job (answered s k m reply) k) k w commands
  unfolding after_claim run_claimed finish_message
  settle-IsAsHandled h job s k m claim_error idle = rw (idle, settle) (refl, refl, idle)
  settle-IsAsHandled h job s k m unclaimable idle = rw (idle, settle) (refl, refl, idle)
  settle-IsAsHandled h job s k m (claimed a) idle =
      rw (at_itself s.worker k (some (m, a)), settle)
        (refl, reported-acked _ m.id s.acked, at_itself (answered s k m (claimed a)).worker k none)

  -- The claim of a worker that is at nothing, the requests of others that are served while its load
  -- runs, and its report, if it got the shard, are handleMessage of worker/cmd/worker/main.go: they
  -- leave the same tables and the same stream and acknowledge what its commands acknowledge, and
  -- the worker is at nothing again.
  pub both_steps-handle_message :
      (h : Handler) (job : Job F) (reclaimed : Bool) (s : System F) (k : ℕ) (m : Message)
      → s.worker k ≡ none
      → let (w, commands) = handle_message h job reclaimed s.world m in
        IsAsHandled s (both_steps h job reclaimed s k m) k w commands
  unfolding begin_message handle_message handle_shard
  both_steps-handle_message h job reclaimed s k m idle = elim (Option-cases m.shard_id) [
    | inl e ↦ rw (e, begin_message, handle_message) (rw (idle, settle) (refl, refl, idle))
    | inr (id, e) ↦
        let (w', reply) = claim_shard_by_id h job.claiming s.world reclaimed id in
        rw (e, begin_message, handle_message)
          (settle-IsAsHandled h job (record s { world = w' }) k m reply idle)
  ]
