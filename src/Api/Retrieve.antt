-- ===== src/Api/Retrieve.antt =====
-- A run that POST /test-runs has created is the one that GET /test-runs/{id} answers with.
use distributed_load_testing.Common.{
  Option, ℕ, suc, zero, ◌<◌, ◌≡◌, refl, ap, ◌∙◌, inl, inr, true, false, ◌==◌, some, List, [], ◌∷◌,
  ◌++◌, String, Result, ok, err, arith, All, Bool-cases, Option-cases, Result-cases,
}
use distributed_load_testing.Common.Int.{ℤ, pos, pos_part}
use distributed_load_testing.Common.Table.{
  find?, Grows-find?, Grows, Grows-refl, Grows-trans, Grows-imp,
}
use distributed_load_testing.Float.{Float}
use distributed_load_testing.Models.{Headers, TestRun, CreateTestRunRequest}
use distributed_load_testing.Store.{Shard, Store, select, has_run_id}
use distributed_load_testing.Store.Create.{create_tx, new_run}
use distributed_load_testing.Store.Runs.{get_by_id}
use distributed_load_testing.Store.Lifecycle.{RunStep, IsNewRun, IsKeyed}
use distributed_load_testing.Store.Lifecycle.Runs.{create_tx-ok}
use distributed_load_testing.Handlers.{Handler, World, Surroundings, Response, run, write_json}
use distributed_load_testing.Handlers.Validate.{validate_create, split_vus}
use distributed_load_testing.Handlers.Public.{
  target_allowed, admission, insert_run, create_valid, create_test_run, get_test_run, answer_run,
}
use distributed_load_testing.Handlers.Create.{insert_run_created, refused_pair, admission-some}
use distributed_load_testing.Api.{Call, post_run, get_run, serve, serve_all}
use distributed_load_testing.Api.Traces.{AnyRow, serve-Sound}

module _ {F : Type 0} where
  -- What a run was created with.
  abbrev pub config_of :
      TestRun F → ℕ × String × String × String × ℤ × ℤ × ℕ × ℕ × Option Headers × Option String × ℤ
  config_of r = (
    r.id, r.name, r.target_url, r.method, r.virtual_users, r.duration_seconds, r.shard_count,
    r.created_at, r.headers, r.body, r.think_time_ms,
  )

  abbrev pub SameConfig : TestRun F → TestRun F → Type 0
  SameConfig r r' = config_of r' ≡ config_of r

  RunStep-SameConfig : (r r' : TestRun F) → RunStep r r' → SameConfig r r'
  RunStep-SameConfig r r' st =
      rw
        (
          st.same_id, st.same_name, st.same_target, st.same_method, st.same_users, st.same_duration,
          st.same_shard_count, st.same_created, st.same_headers, st.same_body, st.same_think_time,
        )
        refl

  find?-last :
      (rs : List (TestRun F)) (r : TestRun F)
      → All (λ x. x.id < r.id) rs
      → find? (has_run_id r.id) (rs ++ (r ∷ [])) ≡ some r
  unfolding find?
  find?-last [] r below = let same : (r.id == r.id) ≡ true = ground arith in rw same refl
  find?-last (x ∷ rs) r (b, below) =
      let other : (x.id == r.id) ≡ false = ground arith in rw other (find?-last rs r below)

  pub get_found :
      (e : Surroundings) (s : Store F) (k : ℕ) (r : TestRun F)
      → 0 < k
      → e.db select ≡ false
      → find? (has_run_id k) s.runs ≡ some r
      → get_test_run e s (some (pos k)) ≡ write_json 200 (run r)
  unfolding get_test_run get_by_id answer_run
  get_found e s zero r p up found = absurd (omega arith)
  get_found e s (suc k) r p up found = rw (up, found) refl

  -- A run that was inserted: its transaction has committed, and the answer is the inserted row.
  abbrev Inserted : Surroundings → World F → World F × Response F → Type 0
  Inserted e w (w', resp) =
      (req : CreateTestRunRequest) × (tr : TestRun F) × (shards : List (Shard F)) × (create_tx e.db
          e.now w.store req (split_vus (pos_part req.virtual_users) (pos_part req.shards))
        ≡ ok (w'.store, tr, shards))
      × (resp ≡ write_json 201 (run tr))

  insert_run-Inserted :
      (e : Surroundings) (w : World F) (req : CreateTestRunRequest)
      → (insert_run e w req).1.code ≡ 201
      → Inserted e w (insert_run e w req)
  unfolding insert_run
  insert_run-Inserted e w req made =
      let vus = split_vus (pos_part req.virtual_users) (pos_part req.shards) in
      elim (Result-cases (create_tx e.db e.now w.store req vus)) [
        | inr (x, c) ↦
            absurd
              (ground (arith, rw (refused_pair e.db e.now w.store req vus x c, insert_run) at made))
        | inl ((s', tr, shards), c) ↦
            rw (insert_run_created e w s' req tr shards c) (req, tr, shards, c, refl)
      ]

  create_valid-Inserted :
      (h : Handler) (e : Surroundings) (w : World F) (req : CreateTestRunRequest)
      → (create_valid h e w req).1.code ≡ 201
      → Inserted e w (create_valid h e w req)
  unfolding create_valid
  create_valid-Inserted h e w req made = elim (Bool-cases (target_allowed h req.target_url)) [
    | inr t ↦ absurd (ground (arith, rw (t, create_valid) at made))
    | inl t ↦ elim (Option-cases (admission {F = F} h e w.store)) [
      | inr (refusal, a) ↦
          absurd
            (ground (arith, rw (t, a, create_valid) at made, admission-some h e w.store refusal a))
      | inl a ↦
          rw (t, a, create_valid) (insert_run-Inserted e w req (rw (t, a, create_valid) at made))
    ]
  ]

  create_test_run-Inserted :
      (h : Handler) (e : Surroundings) (w : World F) (body : Result String CreateTestRunRequest)
      → (create_test_run h e w body).1.code ≡ 201
      → Inserted e w (create_test_run h e w body)
  unfolding create_test_run
  create_test_run-Inserted h e w (err text) made = absurd (ground arith)
  create_test_run-Inserted h e w (ok raw) made =
      elim (Result-cases (validate_create h.strings raw)) [
        | inr (message, v) ↦ absurd (ground (arith, rw (v, create_test_run) at made))
        | inl (req, v) ↦
            rw (v, create_test_run)
              (create_valid-Inserted h e w req (rw (v, create_test_run) at made))
      ]

  created-found :
      (e : Surroundings) (w : World F) (out : World F × Response F)
      → IsKeyed w.store
      → 0 < w.store.next_run
      → Inserted e w out
      → (tr : TestRun F) × (out.1 ≡ write_json 201 (run tr))
        × (0 < tr.id)
        × (find? (has_run_id tr.id) out.0.store.runs ≡ some tr)
  unfolding new_run
  created-found e w (w', resp) keyed p (req, tr, shards, c, answered) =
      let (_, _, is_run, is_s) = create_tx-ok e.db e.now w.store req _ w'.store tr shards c in
      let is_next : tr.id ≡ w.store.next_run = ap (λ (r : TestRun F). r.id) is_run in
      let below : All (λ (x : TestRun F). x.id < tr.id) w.store.runs =
        rw is_next keyed.run_ids_used in
      (tr, answered, rw is_next p, rw is_s (find?-last w.store.runs tr below))

module _ {F : Type 0} ⦃f : Float F⦄ where
  -- A run that POST /test-runs has created is answered, whole, by GET /test-runs/{id} with its id:
  -- ids are distinct and positive, and the database answers the query.
  pub create-get :
      (h : Handler) (e e' : Surroundings) (w : World F) (body : Result String CreateTestRunRequest)
      → IsKeyed w.store
      → 0 < w.store.next_run
      → e'.db select ≡ false
      → (serve h e w (post_run body)).1.code ≡ 201
      → let (w', resp) = serve h e w (post_run body) in
        (tr : TestRun F) × (resp ≡ write_json 201 (run tr))
        × ((serve h e' w' (get_run (some (pos tr.id)))).1 ≡ write_json 200 (run tr))
  unfolding serve
  create-get h e e' w body keyed p up made =
      let (tr, answered, q, found) =
        created-found e w (create_test_run h e w body) keyed p
          (create_test_run-Inserted h e w body made) in
      (tr, answered, get_found e' _ tr.id tr q up found)

  -- A request keeps the configuration of each run.
  serve-SameConfig :
      (h : Handler) (e : Surroundings) (w : World F) (call : Call F)
      → IsKeyed w.store
      → Grows SameConfig AnyRow w.store.runs (serve h e w call).0.store.runs
  serve-SameConfig h e w call keyed =
      Grows-imp RunStep SameConfig IsNewRun AnyRow RunStep-SameConfig (λ _ _. tt) _ _
        (serve-Sound h e w call keyed).0.runs

  serve_all-SameConfig :
      (h : Handler) (w : World F) (calls : List (Surroundings × Call F))
      → IsKeyed w.store
      → Grows SameConfig AnyRow w.store.runs (serve_all h w calls).store.runs
  unfolding serve_all
  serve_all-SameConfig h w [] keyed = Grows-refl SameConfig AnyRow (λ _. refl) w.store.runs
  serve_all-SameConfig h w ((e, call) ∷ calls) keyed =
      let w' = (serve h e w call).0 in
      Grows-trans SameConfig AnyRow (λ _ _ _ p q. q ∙ p) (λ _ _ _ _. tt) _ _ _
        (serve-SameConfig h e w call keyed)
        (serve_all-SameConfig h w' calls (serve-Sound h e w call keyed).1)

  -- Whatever requests are served after a run was created, GET with its id answers with a run of the
  -- same id, configuration, number of shards and time of creation; ids are distinct and positive
  -- before, and the database answers the query.
  pub create-serve_all-get :
      (h : Handler) (e e' : Surroundings) (w : World F) (body : Result String CreateTestRunRequest)
      (calls : List (Surroundings × Call F))
      → IsKeyed w.store
      → 0 < w.store.next_run
      → e'.db select ≡ false
      → (serve h e w (post_run body)).1.code ≡ 201
      → let (w', resp) = serve h e w (post_run body) in
        (tr tr' : TestRun F) × (resp ≡ write_json 201 (run tr))
        × ((serve h e' (serve_all h w' calls) (get_run (some (pos tr.id)))).1
            ≡ write_json 200 (run tr'))
        × SameConfig tr tr'
  unfolding serve
  create-serve_all-get h e e' w body calls keyed p up made =
      let (w', resp) = serve h e w (post_run body) in
      let (tr, answered, q, found) =
        created-found e w (create_test_run h e w body) keyed p
          (create_test_run-Inserted h e w body made) in
      let grows = serve_all-SameConfig h w' calls (serve-Sound h e w (post_run body) keyed).1 in
      let (tr', found', same) =
        Grows-find? (λ (r : TestRun F). r.id) SameConfig AnyRow (λ _ _ same. ap (λ c. c.0) same)
          tr.id _ _ tr grows found in
      (tr, tr', answered, get_found e' _ tr.id tr' q up found', same)
