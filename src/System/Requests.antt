-- ===== src/System/Requests.antt =====
-- A request, a user's or a worker's, keeps what is always true of the platform.
use distributed_load_testing.Common.{
  ℕ, ◌≡◌, refl, sym, ap, ◌∙◌, inl, inr, true, some, Option, arith, Bool-cases, Option-cases,
}
use distributed_load_testing.Common.Int.{ℤ, pos}
use distributed_load_testing.Common.Table.{find?}
use distributed_load_testing.Float.{Float}
use distributed_load_testing.Models.{is_open, is_running}
use distributed_load_testing.Queue.{Message}
use distributed_load_testing.Store.{Store, Faults, update, run_where}
use distributed_load_testing.Store.Runs.{cancel_run, update_run, to_cancelling}
use distributed_load_testing.Store.Lifecycle.{IsKeyed}
use distributed_load_testing.Store.Lifecycle.Runs.{answer-fst}
use distributed_load_testing.Handlers.{Handler, World, Surroundings, positive_id}
use distributed_load_testing.Handlers.Public.{cancel_test_run}
use distributed_load_testing.Api.{
  Call, post_run, get_runs, get_run, cancel_run as cancel_call, serve,
}
use distributed_load_testing.Api.Lifecycle.{Sound}
use distributed_load_testing.Api.Traces.{serve-Sound}
use distributed_load_testing.Worker.{Link, lost, reply_lost, garbled, delivered, send_over}
use distributed_load_testing.Store.Lifecycle.{Evolves-refl}
use distributed_load_testing.System.{System, IsIn, IsPublic}
use distributed_load_testing.System.Shards.{
  unused_number, Writes, Writes-other, Writes-closed, Writes-HasRuns,
}
use distributed_load_testing.System.Calls.{Touches}
use distributed_load_testing.System.Jobs.{IsStream, Grown-refl}
use distributed_load_testing.System.Created.{create-cases, created-Kept}
use distributed_load_testing.System.Kept.{Kept, world-Kept}

module _ {F : Type 0} where
  same_stream-IsStream :
      (s : System F) (w : World F)
      → w.store.next_shard ≡ s.world.store.next_shard
      → w.stream ≡ s.world.stream
      → IsStream s.world.store.next_shard s.world.stream
      → IsStream w.store.next_shard w.stream
  same_stream-IsStream s w e q k = rw (e, q) k

  -- A request about the shard of a message that has been read.
  pub touch-Kept :
      (s : System F) (w : World F) (m : Message) (n : ℕ)
      → Kept s
      → IsIn m s.world.stream.entries
      → m.shard_id ≡ some (pos n)
      → s.read m.id ≡ true
      → Touches n s.world w
      → Sound s.world.store w.store
      → Kept (record s { world = w })
  touch-Kept s w m n kept i is_n r (writes, same) (ev, keyed) =
      world-Kept s w kept keyed (Writes-HasRuns n s.world.store w.store ev writes kept.runs)
        (same_stream-IsStream s w writes.0 same kept.stream)
        (rw same (Grown-refl s.world.store.next_shard s.world.stream))
        (λ k above. unused_number k is_running w.store keyed (omega (arith, writes.0, above)))
        (λ m' k i' is_k unread. Writes-other n k is_running s.world.store w.store writes (λ e.
          let is_n' : m'.shard_id ≡ some (pos n) = is_k ∙ ap (λ k. some (pos k)) e in
          let same_id = kept.stream.apart m m' i i' (is_n ∙ sym is_n') in
          ground (arith, same_id, r, unread)))
        (λ k _. Writes-closed n k s.world.store w.store writes)

  -- A request that leaves shards and stream alone.
  no_shards-Kept :
      (s : System F) (st : Store F)
      → Kept s
      → Sound s.world.store st
      → st.next_shard ≡ s.world.store.next_shard
      → st.shards ≡ s.world.store.shards
      → Kept (record s { world = record s.world { store = st } })
  no_shards-Kept s st kept (ev, keyed) next same =
      let writes : Writes 0 s.world.store st = (next, inl same) in
      world-Kept s _ kept keyed (Writes-HasRuns 0 s.world.store st ev writes kept.runs)
        (rw next kept.stream) (Grown-refl s.world.store.next_shard s.world.stream)
        (λ k above. unused_number k is_running st keyed (omega (arith, next, above)))
        (λ m' k i' is_k unread e. rw same e) (λ k _. Writes-closed 0 k s.world.store st writes)

  cancel_run-shards :
      (db : Faults) (s : Store F) (id : ℕ)
      → let s' = (cancel_run db s id).0 in (s'.next_shard ≡ s.next_shard) × (s'.shards ≡ s.shards)
  unfolding cancel_run update_run
  cancel_run-shards db s id =
      rw (answer-fst (update_run db s _ to_cancelling) _) (elim (Bool-cases (db update)) [
        | inl e ↦ rw e (refl, refl)
        | inr e ↦ rw e (elim (Option-cases (find? (run_where id is_open) s.runs)) [
          | inl m ↦ rw m (refl, refl)
          | inr (r, m) ↦ rw m (refl, refl)
        ])
      ])

  cancel-shards :
      (e : Surroundings) (s : Store F) (id : Option ℤ)
      → let s' = (cancel_test_run e s id).0 in
        (s'.next_shard ≡ s.next_shard) × (s'.shards ≡ s.shards)
  unfolding cancel_test_run
  cancel-shards e s id = elim (Option-cases (positive_id id)) [
    | inl m ↦ rw (m, cancel_test_run) (refl, refl)
    | inr (k, m) ↦ rw (m, cancel_test_run) (cancel_run-shards e.db s k)
  ]

module _ {F : Type 0} ⦃f : Float F⦄ where
  pub send_over-Sound :
      (link : Link) (h : Handler) (e : Surroundings) (w : World F) (call : Call F)
      → IsKeyed w.store
      → Sound w.store (send_over link h e w call).0.store
  unfolding send_over
  send_over-Sound lost h e w call k = (Evolves-refl w.store, k)
  send_over-Sound reply_lost h e w call k = serve-Sound h e w call k
  send_over-Sound garbled h e w call k = serve-Sound h e w call k
  send_over-Sound delivered h e w call k = serve-Sound h e w call k

  -- Any request of a user.
  pub request-Kept :
      (h : Handler) (e : Surroundings) (s : System F) (call : Call F)
      → IsPublic call
      → Kept s
      → Kept (record s { world = (serve h e s.world call).0 })
  unfolding serve
  request-Kept h e s (post_run body) p kept =
      let sound = serve-Sound h e s.world (post_run body) kept.keyed in
      elim (create-cases h e s.world body) [
        | inl same ↦ rw same kept
        | inr made ↦ created-Kept s e _ kept sound made
      ]
  request-Kept h e s (get_runs limit) p kept = kept
  request-Kept h e s (get_run id) p kept = kept
  request-Kept h e s (cancel_call id) p kept =
      let (next, same) = cancel-shards e s.world.store id in
      no_shards-Kept s _ kept (serve-Sound h e s.world (cancel_call id) kept.keyed) next same
  request-Kept h e s _ p kept = absurd p
