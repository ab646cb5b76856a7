-- ===== src/System/Safe.antt =====
-- Whatever users, workers and the network do, in whatever order: no published job is lost.
use mathlib.Core.Path.{subst}
use distributed_load_testing.Common.{
  ◌+◌, ℕ, ◌≡◌, refl, ◌⊎◌, inl, inr, true, false, none, some, [], arith, Bool-cases,
}
use distributed_load_testing.Common.Int.{pos}
use distributed_load_testing.Common.Table.{find?}
use distributed_load_testing.Float.{Float}
use distributed_load_testing.Models.{is_open}
use distributed_load_testing.Queue.{Message}
use distributed_load_testing.Store.{Shard, shard_where}
use distributed_load_testing.Store.Lifecycle.{IsKeyed}
use distributed_load_testing.Store.Closing.{HasRuns}
use distributed_load_testing.Handlers.{Handler, World}
use distributed_load_testing.System.{
  System, Limits, IsIn, mark, put, deliver, redeliver, fresh_system, Event, request, tick, join,
  renewal, delivery, redelivery, finish, crash, dead, Reach, start, more,
}
use distributed_load_testing.System.Kept.{Kept, mark_same, read-Kept, group-Kept, assign-Kept}
use distributed_load_testing.System.Messages.{begin-Kept, finish-Kept, give_up-Kept}
use distributed_load_testing.System.Requests.{request-Kept}

module _ {F : Type 0} ⦃f : Float F⦄ where
  Event-Kept :
      (h : Handler) (limits : Limits) (s s' : System F) → Event h limits s s' → Kept s → Kept s'
  Event-Kept h limits _ _ (request s e call p) kept = request-Kept h e s call p kept
  Event-Kept h limits _ _ (delivery s t k m first idle exists here i unread) kept =
      let given =
        group-Kept (record s { read = mark s.read m.id }) s.clock s.group (deliver s m.id).since
          (deliver s m.id).deliveries (read-Kept s m kept i) in
      begin-Kept h t false (deliver s m.id) k m given i (mark_same s.read m.id)
        (λ n is_n _. kept.waiting m n i is_n unread)
  Event-Kept h limits _ _ (redelivery s t k m retry_count idle i r pending past within old) kept =
      let given =
        group-Kept s s.clock s.group (redeliver s m.id).since (redeliver s m.id).deliveries kept in
      begin-Kept h t true (redeliver s m.id) k m given i r (λ n is_n e. absurd (cc))
  Event-Kept h limits _ _ (tick s n) kept =
      group-Kept s (s.clock + n) s.group s.since s.deliveries kept
  Event-Kept h limits _ _ (join s fresh) kept =
      group-Kept s s.clock (some s.world.stream.next_id) s.since s.deliveries kept
  Event-Kept h limits _ _ (renewal s k m a at_it) kept =
      group-Kept s s.clock s.group (put s.since m.id s.clock) s.deliveries kept
  Event-Kept h limits _ _ (finish s t schedule k m a at_it) kept =
      finish-Kept h t schedule s k m a kept at_it
  Event-Kept h limits _ _ (crash s k) kept = assign-Kept s k none kept (λ _ _ q. absurd (cc))
  Event-Kept h limits _ _ (dead s t m retry_count shard_id i r past over known) kept =
      give_up-Kept h t s m retry_count shard_id kept i r known

  pub fresh-Kept :
      (w : World F)
      → IsKeyed w.store
      → HasRuns w.store
      → w.stream.entries ≡ []
      → Kept (fresh_system w)
  fresh-Kept w keyed runs no_jobs =
      let nothing = λ (m : Message) (i : IsIn m w.stream.entries). subst (IsIn m) no_jobs i in
      record {
        keyed = keyed;
        runs = runs;
        stream = record {
          numbered = λ m i. absurd (nothing m i);
          apart = λ m m' i _ _. absurd (nothing m i);
          same_job = λ m m' i _ _. absurd (nothing m i);
        };
        unread = λ _ _. refl;
        acked_read = λ _ e. absurd (cc);
        waiting = λ m n i _ _. absurd (nothing m i);
        settled = λ m n i _ _ _. absurd (nothing m i);
        busy = λ _ _ _ e. absurd (cc);
      }

  pub Reach-Kept :
      (h : Handler) (limits : Limits) (s s' : System F) → Reach h limits s s' → Kept s → Kept s'
  Reach-Kept h limits s s' start kept = kept
  Reach-Kept h limits s s' (more u v reached step) kept =
      Event-Kept h limits u s' step (Reach-Kept h limits s u reached kept)

  -- Users' requests, deliveries and reclaims to any number of workers, heartbeats, reports, crashes
  -- and dead letters may follow one another in any order, with any loss of requests and answers,
  -- and any refusal of Postgres and, of jobs, by Redis: as long as the shard of a published message
  -- is queued or running, that message is not acknowledged, or it is dead-lettered. At the start
  -- ids are distinct, each shard's run is in the table, the stream is empty, and there is no
  -- consumer group.
  pub open_shard-kept :
      (h : Handler) (limits : Limits) (w : World F) (s : System F) (m : Message) (n : ℕ)
      (sh : Shard F)
      → IsKeyed w.store
      → HasRuns w.store
      → w.stream.entries ≡ []
      → Reach h limits (fresh_system w) s
      → IsIn m s.world.stream.entries
      → m.shard_id ≡ some (pos n)
      → find? (shard_where n is_open) s.world.store.shards ≡ some sh
      → (s.acked m.id ≡ false) ⊎ (s.given_up m.id ≡ true)
  open_shard-kept h limits w s m n sh keyed runs no_jobs reached i is_n found =
      let kept = Reach-Kept h limits (fresh_system w) s reached (fresh-Kept w keyed runs no_jobs) in
      elim (Bool-cases (s.acked m.id)) [
        | inr pending ↦ inl pending
        | inl acked ↦ elim (Bool-cases (s.given_up m.id)) [
          | inl gone ↦ inr gone
          | inr held ↦ absurd (ground (arith, found, kept.settled m n i is_n acked held))
        ]
      ]
