-- ===== src/System/Created.antt =====
-- A created run, with its shards and their messages, keeps what is always true of the platform.
use distributed_load_testing.Common.{
  ℕ, ◌+◌, ◌≡◌, refl, ap, ◌⊎◌, inl, inr, false, some, List, [], ◌∷◌, ◌++◌, String, Result, ok, err,
  All, All-append, All-imp, ◌≤◌, ◌<◌, ◌==◌, ==_iff, Bool, none, length, arith, Bool-cases,
  Option-cases, Result-cases,
}
use distributed_load_testing.Common.Int.{pos_part}
use distributed_load_testing.Common.Table.{find?}
use distributed_load_testing.Models.{Status, is_open, is_running, TestRun, CreateTestRunRequest}
use distributed_load_testing.Store.{Shard, Store, has_run_id, shard_where}
use distributed_load_testing.Store.Create.{new_run, create_tx, shard_ids}
use distributed_load_testing.Store.Lifecycle.Runs.{create_tx-ok}
use distributed_load_testing.Store.Lifecycle.Keys.{insert_shards-AreNumbered}
use distributed_load_testing.Store.Closing.{HasRuns, no_shard}
use distributed_load_testing.Handlers.{Handler, World, Surroundings}
use distributed_load_testing.Handlers.Validate.{validate_create, split_vus}
use distributed_load_testing.Handlers.Public.{
  publish_all, target_allowed, admission, insert_run, create_valid, create_test_run,
}
use distributed_load_testing.Handlers.Create.{insert_shards-ok, refused_pair, insert_run_created}
use distributed_load_testing.Api.Lifecycle.{Sound}
use distributed_load_testing.Store.Lifecycle.{Evolves}
use distributed_load_testing.System.{System}
use distributed_load_testing.System.Shards.{HasNone, unused_number, keep_runs}
use distributed_load_testing.System.Jobs.{publish_all-IsStream, AreNumbered-above}
use distributed_load_testing.System.Kept.{Kept, world-Kept}

module _ {F : Type 0} where
  added_run :
      (rs : List (TestRun F)) (r : TestRun F)
      → (x : TestRun F) × (find? (has_run_id r.id) (rs ++ (r ∷ [])) ≡ some x)
  unfolding find?
  added_run [] r = (r, ground (arith, ==_iff r.id r.id))
  added_run (x ∷ rs) r = elim (Bool-cases (x.id == r.id)) [
    | inl e ↦ (x, rw e refl)
    | inr e ↦ let (y, found) = added_run rs r in (y, rw e found)
  ]

  -- A new run and its shards.
  created-HasRuns :
      (s s' : Store F) (r : TestRun F) (new : List (Shard F))
      → Evolves s s'
      → s'.runs ≡ s.runs ++ (r ∷ [])
      → s'.shards ≡ s.shards ++ new
      → All (λ sh. sh.run_id ≡ r.id) new
      → HasRuns s
      → HasRuns s'
  created-HasRuns s s' r new ev is_runs is_shards theirs runs = rw is_shards (
      All-append _ s.shards new (keep_runs s s' ev s.shards runs)
        (All-imp _ _ (λ sh e. rw (e, is_runs) (added_run s.runs r)) new theirs))

  none_append :
      (n : ℕ) (guard : Status → Bool) (xs ys : List (Shard F))
      → find? (shard_where n guard) xs ≡ none
      → find? (shard_where n guard) ys ≡ none
      → find? (shard_where n guard) (xs ++ ys) ≡ none
  unfolding find?
  none_append n guard [] ys e h = h
  none_append n guard (x ∷ xs) ys e h = ground (arith, none_append n guard xs ys)

  none_in :
      (n : ℕ) (guard : Status → Bool) (xs : List (Shard F))
      → All (λ sh. guard sh.status ≡ false) xs
      → find? (shard_where n guard) xs ≡ none
  unfolding find?
  none_in n guard [] h = refl
  none_in n guard (x ∷ xs) h = ground (arith, h.0, none_in n guard xs h.1)

  -- New shards are queued.
  created-not_running :
      (n : ℕ) (s s' : Store F) (new : List (Shard F))
      → s'.shards ≡ s.shards ++ new
      → All (λ sh. is_running sh.status ≡ false) new
      → HasNone is_running n s
      → HasNone is_running n s'
  created-not_running n s s' new same fresh e =
      rw same (none_append n is_running s.shards new e (none_in n is_running new fresh))

  -- Numbers of new shards are new.
  created-closed :
      (n : ℕ) (s s' : Store F) (new : List (Shard F))
      → s'.shards ≡ s.shards ++ new
      → All (λ sh. s.next_shard ≤ sh.id) new
      → n < s.next_shard
      → HasNone is_open n s
      → HasNone is_open n s'
  created-closed n s s' new same fresh below e = rw same (
      none_append n is_open s.shards new e
        (no_shard n is_open new (All-imp _ _ (λ sh h q. omega arith) new fresh)))

  -- The world after a creation.
  abbrev Creation : Surroundings → World F → World F → Type 0
  Creation e w w' =
      (req : CreateTestRunRequest) × (vus : List ℕ) × (s' : Store F) × (tr : TestRun F)
      × (new : List (Shard F)) × (create_tx e.db e.now w.store req vus ≡ ok (s', tr, new))
      × (w' ≡ record { store = s'; stream = publish_all e.redis 0 w.stream (shard_ids new) })

  insert_run-cases :
      (e : Surroundings) (w : World F) (req : CreateTestRunRequest)
      → ((insert_run e w req).0 ≡ w) ⊎ Creation e w (insert_run e w req).0
  unfolding insert_run
  insert_run-cases e w req =
      let vus = split_vus (pos_part req.virtual_users) (pos_part req.shards) in
      elim (Result-cases (create_tx e.db e.now w.store req vus)) [
        | inr (x, c) ↦
            let pair = refused_pair e.db e.now w.store req _ x c in
            rw (pair, insert_run) (inl (rw pair refl))
        | inl ((s', tr, new), c) ↦
            inr (req, vus, s', tr, new, c, ap (λ p. p.0) (insert_run_created e w s' req tr new c))
      ]

  pub create-cases :
      (h : Handler) (e : Surroundings) (w : World F) (body : Result String CreateTestRunRequest)
      → ((create_test_run h e w body).0 ≡ w) ⊎ Creation e w (create_test_run h e w body).0
  unfolding create_test_run create_valid
  create-cases h e w (err text) = inl refl
  create-cases h e w (ok raw) = elim (Result-cases (validate_create h.strings raw)) [
    | inr (message, v) ↦ rw (v, create_test_run) (inl refl)
    | inl (req, v) ↦
        rw (v, create_test_run)
          (elim (Bool-cases (target_allowed h req.target_url)) [
            | inr t ↦ rw (t, create_valid) (inl refl)
            | inl t ↦ elim (Option-cases (admission {F = F} h e w.store)) [
              | inr (refusal, a) ↦ rw (t, a, create_valid) (inl refl)
              | inl a ↦ rw (t, a, create_valid) (insert_run-cases e w req)
            ]
          ])
  ]

  pub created-Kept :
      (s : System F) (e : Surroundings) (w : World F)
      → Kept s
      → Sound s.world.store w.store
      → Creation e s.world w
      → Kept (record s { world = w })
  created-Kept s e w kept (ev, keyed) (req, vus, s', tr, new, c, is_w) =
      let old = s.world.store in
      let (_, inserted, is_tr, is_s) = create_tx-ok e.db e.now old req vus s' tr new c in
      let numbered =
        insert_shards-AreNumbered e.db e.now old.next_run old.next_shard 0 vus new inserted in
      let (_, fresh) = insert_shards-ok e.db e.now old.next_run old.next_shard 0 vus new inserted in
      let store : w.store ≡ s' = ap (λ (w : World F). w.store) is_w in
      let stream : w.stream ≡ publish_all e.redis 0 s.world.stream (shard_ids new) =
        ap (λ (w : World F). w.stream) is_w in
      let runs : w.store.runs ≡ old.runs ++ (tr ∷ []) = rw (store, is_s) refl in
      let shards : w.store.shards ≡ old.shards ++ new = rw (store, is_s) refl in
      let next : w.store.next_shard ≡ old.next_shard + length vus = rw (store, is_s) refl in
      let is_run : tr.id ≡ old.next_run = unfold new_run in rw is_tr refl in
      let (jobs, grown) =
        publish_all-IsStream e.redis 0 old.next_shard (old.next_shard + length vus) s.world.stream
          new numbered kept.stream in
      let not_running =
        All-imp _ (λ (sh : Shard F). is_running sh.status ≡ false) (λ sh h. rw h.1 refl) new
          fresh in
      world-Kept s w kept keyed
        (created-HasRuns old w.store tr new ev runs shards
          (All-imp _ (λ (sh : Shard F). sh.run_id ≡ tr.id) (λ sh h. rw (h.0, is_run) refl) new
            fresh)
          kept.runs)
        (rw (next, stream) jobs) (rw stream grown)
        (λ n above.
          created-not_running n old w.store new shards not_running
            (unused_number n is_running old kept.keyed above))
        (λ m n i is_n unread. created-not_running n old w.store new shards not_running)
        (λ n.
          created-closed n old w.store new shards
            (AreNumbered-above old.next_shard (old.next_shard + length vus) new numbered))
