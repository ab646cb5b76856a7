-- ===== src/Api/Once.antt =====
-- A shard is handed out once: POST /internal/shards/{id}/start accepts only the first request.
use distributed_load_testing.Common.{
  ℕ, zero, suc, ◌≡◌, ◌≢◌, refl, inl, inr, Bool, true, false, ◌||◌, none, some, List, [], ◌∷◌, ok,
  arith, Bool-cases, Option-cases, Result-cases, err-ne-ok,
}
use distributed_load_testing.Common.Int.{pos}
use distributed_load_testing.Common.Table.{find?, Grows-find?, update_where}
use distributed_load_testing.Float.{Float}
use distributed_load_testing.Models.{Status, is_queued, ShardAssignment}
use distributed_load_testing.Store.{
  StoreError, not_queued, Shard, Store, Faults, update, decode, flip, has_run_id, has_shard_id,
  shard_where,
}
use distributed_load_testing.Store.Shards.{start_guard, shard_to_running, claim_shard, start_shard}
use distributed_load_testing.Store.Lifecycle.{may_move_shard, ShardStep, IsNewShard, IsKeyed}
use distributed_load_testing.Store.Closing.{claim_shard-unfound, shard_miss-errs}
use distributed_load_testing.Store.Rows.{find?-has_shard_id, find?-guard, update-row}
use distributed_load_testing.Handlers.{Handler, World, Surroundings}
use distributed_load_testing.Handlers.Internal.{start_shard_handler}
use distributed_load_testing.Api
use distributed_load_testing.Api.{Call, serve, serve_all}
use distributed_load_testing.Api.Traces.{serve-Sound}

-- No move leads back into the queue.
unqueued : (a b : Status) → may_move_shard a b ≡ true → is_queued b ≡ false
unqueued a b m = ground arith

module _ {F : Type 0} where
  -- The shard is in the table, and no longer queued.
  abbrev IsStarted : ℕ → Store F → Type 0
  IsStarted n s =
      (sh : Shard F) × (find? (has_shard_id n) s.shards ≡ some sh) × (is_queued sh.status ≡ false)

  ShardStep-stays :
      (sh sh' : Shard F)
      → ShardStep sh sh'
      → is_queued sh.status ≡ false
      → is_queued sh'.status ≡ false
  ShardStep-stays sh sh' st q = elim st.moved [
    | inl same ↦ rw same q
    | inr m ↦ unqueued sh.status sh'.status m
  ]

  claim_shard-wrote :
      (db : Faults) (now : ℕ) (s : Store F) (id : ℕ) (allow : Bool) (miss : StoreError)
      (a : ShardAssignment)
      → (claim_shard db now s id allow miss).1 ≡ ok a
      → let guard = shard_where id (start_guard allow) in
        (sh : Shard F) × (find? guard s.shards ≡ some sh)
        × ((claim_shard db now s id allow miss).0.shards
            ≡ update_where guard (shard_to_running now) s.shards)
  unfolding claim_shard
  claim_shard-wrote db now s id allow miss a got = elim (Bool-cases (db update)) [
    | inl e ↦ absurd (err-ne-ok (rw e at got))
    | inr e ↦ elim (Option-cases (find? (shard_where id (start_guard allow)) s.shards)) [
      | inl m ↦ absurd (shard_miss-errs ShardAssignment db s id miss a (rw (e, m) at got))
      | inr (sh, m) ↦ elim (Option-cases (find? (has_run_id sh.run_id) s.runs)) [
        | inl lost ↦
            absurd (shard_miss-errs ShardAssignment db s id miss a (rw (e, m, lost) at got))
        | inr (r, found) ↦ elim (Bool-cases (db decode || db flip)) [
          | inl d ↦ absurd (err-ne-ok (rw (e, m, found, d) at got))
          | inr d ↦ rw (e, m, found, d) (sh, refl, refl)
        ]
      ]
    ]
  ]

  start_shard-IsStarted :
      (db : Faults) (now : ℕ) (s : Store F) (n : ℕ) (a : ShardAssignment)
      → IsKeyed s
      → (start_shard db now s n).1 ≡ ok a
      → IsStarted n (start_shard db now s n).0
  unfolding start_shard
  start_shard-IsStarted db now s n a keyed got =
      let (sh, found, wrote) = claim_shard-wrote db now s n false not_queued a got in
      (
        shard_to_running now sh,
        rw wrote (
            update-row n is_queued (shard_to_running now) sh s.shards (λ _. refl) keyed.shard_ids
              found),
        refl,
      )

  started-unfound :
      (n : ℕ) (s : Store F)
      → IsKeyed s
      → IsStarted n s
      → find? (shard_where n is_queued) s.shards ≡ none
  started-unfound n s keyed (sh, found, q) =
      elim (Option-cases (find? (shard_where n is_queued) s.shards)) [
        | inl m ↦ m
        | inr (x, m) ↦
            let same : x ≡ sh =
              ground (arith, find?-has_shard_id n is_queued x s.shards keyed.shard_ids m, found) in
            let hit = find?-guard n is_queued x s.shards m in absurd (ground (arith, same, hit, q))
      ]

  start_code :
      (e : Surroundings) (s : Store F) (n : ℕ)
      → (start_shard_handler e s (some (pos n))).1.code ≡ 200
      → (a : ShardAssignment) × ((start_shard e.db e.now s n).1 ≡ ok a)
  unfolding start_shard_handler
  start_code e s zero done = absurd (ground arith)
  start_code e s (suc n) done = elim (Result-cases ((start_shard e.db e.now s (suc n)).1)) [
    | inl (a, m) ↦ (a, m)
    | inr (x, m) ↦ absurd (ground (arith, rw (m, start_shard_handler) at done))
  ]

module _ {F : Type 0} ⦃f : Float F⦄ where
  serve_all-IsStarted :
      (h : Handler) (w : World F) (calls : List (Surroundings × Call F)) (n : ℕ)
      → IsKeyed w.store
      → IsStarted n w.store
      → IsKeyed (serve_all h w calls).store × IsStarted n (serve_all h w calls).store
  unfolding serve_all
  serve_all-IsStarted h w [] n keyed started = (keyed, started)
  serve_all-IsStarted h w ((e, call) ∷ calls) n keyed (sh, found, q) =
      let (steps, keyed') = serve-Sound h e w call keyed in
      let (sh', found', st) =
        Grows-find? (λ (sh : Shard F). sh.id) ShardStep IsNewShard (λ _ _ st. st.same_id) n _ _ sh
          steps.shards found in
      serve_all-IsStarted h (serve h e w call).0 calls n keyed'
        (sh', found', ShardStep-stays sh sh' st q)

  -- The shard's id as the router reads it, where the handler accepts the request.
  handler-IsStarted :
      (e : Surroundings) (s : Store F) (n : ℕ)
      → IsKeyed s
      → (start_shard_handler e s (some (pos n))).1.code ≡ 200
      → IsStarted n (start_shard_handler e s (some (pos n))).0
  unfolding start_shard_handler
  handler-IsStarted e s zero keyed done = absurd (ground arith)
  handler-IsStarted e s (suc n) keyed done =
      let (a, got) = start_code e s (suc n) done in
      start_shard-IsStarted e.db e.now s (suc n) a keyed got

  started_refused :
      (e : Surroundings) (s : Store F) (n : ℕ)
      → IsKeyed s
      → IsStarted n s
      → (start_shard_handler e s (some (pos n))).1.code ≡ 200
      → ⊥
  started_refused e s n keyed started done =
      let (a, got) = start_code e s n done in
      claim_shard-unfound e.db e.now s n false not_queued a (started-unfound n s keyed started)
        (unfold start_shard in got)

  -- A shard that a worker was given by /start is never given by /start again, whatever requests come
  -- in between, whatever the database refuses and however often a message is delivered twice; ids are
  -- distinct before.
  pub start_shard_once :
      (h : Handler) (e e' : Surroundings) (w : World F) (n : ℕ)
      (calls : List (Surroundings × Call F))
      → IsKeyed w.store
      → (serve h e w (Api.start_shard (some (pos n)))).1.code ≡ 200
      → let w' = serve_all h (serve h e w (Api.start_shard (some (pos n)))).0 calls in
        (serve h e' w' (Api.start_shard (some (pos n)))).1.code ≢ 200
  unfolding serve
  start_shard_once h e e' w n calls keyed first again =
      let w1 = (serve h e w (Api.start_shard (some (pos n)))).0 in
      let keyed1 = (serve-Sound h e w (Api.start_shard (some (pos n))) keyed).1 in
      let started = handler-IsStarted e w.store n keyed first in
      let (keyed2, still) = serve_all-IsStarted h w1 calls n keyed1 started in
      started_refused e' (serve_all h w1 calls).store n keyed2 still again
