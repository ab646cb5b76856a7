-- ===== src/Handlers/Create.antt =====
-- CreateTestRun of backend/internal/handlers/test_runs.go: what a created run leaves in the tables.
use mathlib.Core.Path.{subst}
use distributed_load_testing.Common.{
  ℕ, suc, ◌+◌, ◌≤◌, ◌<◌, ◌≡◌, refl, sym, ap, ◌∙◌, ◌⊎◌, inl, inr, true, ◌||◌, ◌==◌, none, some, List,
  [], ◌∷◌, ◌++◌, map, String, Result, ok, err, arith, length, sum, All, Bool-cases, Option-cases,
  Result-cases, ok-injective, err-ne-ok,
}
use distributed_load_testing.Common.Int.{ℤ, pos, pos_part, ◌≤ℤ◌}
use distributed_load_testing.Common.Table.{count_where}
use distributed_load_testing.Models.{queued, TestRun, CreateTestRunRequest}
use distributed_load_testing.Store.{StoreError, Shard, Store, Faults, insert_shard}
use distributed_load_testing.Store.Create.{
  new_shard, insert_shards, create_tx, create_with_shards, created_run, shard_ids,
}
use distributed_load_testing.Store.Runs.{has_active, count_active_runs}
use distributed_load_testing.Store.Lifecycle.Runs.{create_tx-ok}
use distributed_load_testing.Handlers.{Handler, World, Surroundings, Response, run, write_json}
use distributed_load_testing.Handlers.Validate.{validate_create, split_vus}
use distributed_load_testing.Handlers.Validate.Split.{split_vus_lem}
use distributed_load_testing.Handlers.Validate.Requests.{IsAdmissible, validate_create_iff}
use distributed_load_testing.Handlers.Public.{
  publish_all, target_allowed, admission, insert_run, create_valid, create_test_run,
}

pub valid-IsAdmissible :
    (h : Handler) (raw req : CreateTestRunRequest)
    → validate_create h.strings raw ≡ ok req
    → IsAdmissible req
valid-IsAdmissible h raw req v =
    let (same, a) = (validate_create_iff h.strings raw req).0 v in subst IsAdmissible (sym same) a

module _ {F : Type 0} where
  abbrev pub users_of : List (Shard F) → List ℕ
  users_of = map (λ sh. sh.virtual_users)

  -- A shard as it is inserted for a run.
  abbrev pub IsFresh : ℕ → Shard F → Type 0
  IsFresh run_id sh = (sh.run_id ≡ run_id) × (sh.status ≡ queued) × (0 < sh.virtual_users)

  pub insert_shards-ok :
      (db : Faults) (now run_id id i : ℕ) (vus : List ℕ) (shards : List (Shard F))
      → insert_shards db now run_id id i vus ≡ ok shards
      → (users_of shards ≡ vus) × All (IsFresh run_id) shards
  unfolding insert_shards
  insert_shards-ok db now run_id id i [] shards e =
      subst (λ shards. (users_of shards ≡ []) × All (IsFresh run_id) shards) (ok-injective e)
        (refl, tt)
  insert_shards-ok db now run_id id i (v ∷ vus) shards e =
      elim (Bool-cases (db (insert_shard i) || v == 0)) [
        | inl b ↦ absurd (err-ne-ok (rw b at e))
        | inr b ↦ elim (Result-cases (insert_shards {F = F} db now run_id (suc id) (suc i) vus)) [
          | inl (rest, m) ↦
              let (users, fresh) = insert_shards-ok db now run_id (suc id) (suc i) vus rest m in
              subst (λ shards. (users_of shards ≡ v ∷ vus) × All (IsFresh run_id) shards)
                (ok-injective (rw (b, m) at e))
                (unfold new_shard in (ap (λ us. v ∷ us) users, ((refl, refl, ground arith), fresh)))
          | inr (_, m) ↦ absurd (err-ne-ok (rw (b, m) at e))
        ]
      ]

  -- The admission check lets a run in only if what it counted is below the cap, if there is one.
  admission-none :
      (h : Handler) (e : Surroundings) (s : Store F)
      → admission h e s ≡ none
      → (h.max_concurrent_runs ≤ℤ pos 0)
        ⊎ (e.counted (count_where has_active s.runs) < pos_part h.max_concurrent_runs)
  unfolding admission count_active_runs
  admission-none h e s a = ground arith

  pub admission-some :
      (h : Handler) (e : Surroundings) (s : Store F) (refusal : Response F)
      → admission h e s ≡ some refusal
      → 400 ≤ refusal.code
  unfolding admission count_active_runs
  admission-some h e s refusal a = ground arith

  -- No cap, or what was counted is below it, and the active runs exceed it by no more than what has
  -- become active since the count.
  abbrev pub IsRoom : ℤ → Surroundings → Store F → Store F → Type 0
  IsRoom cap e s s' =
      let before = count_where has_active s.runs in
      (cap ≤ℤ pos 0)
      ⊎ ((e.counted before < pos_part cap)
          × (count_where has_active s'.runs + e.counted before ≤ pos_part cap + before))

  -- A created run: its request passed every check; the tables have one queued run more, and its
  -- shards, which share out its virtual users.
  pub record Created (h : Handler) (e : Surroundings) (s s' : Store F)
      (raw req : CreateTestRunRequest) (shards : List (Shard F)) : Type 0 where
    pub valid : validate_create h.strings raw ≡ ok req
    pub admissible : IsAdmissible req
    pub allowed : target_allowed h req.target_url ≡ true
    pub room : IsRoom h.max_concurrent_runs e s s'
    pub added_run : s'.runs ≡ s.runs ++ (created_run e.now s req (users_of shards) ∷ [])
    pub added_shards : s'.shards ≡ s.shards ++ shards
    pub fresh : All (IsFresh s.next_run) shards
    pub shard_count : length shards ≡ pos_part req.shards
    pub users : sum (users_of shards) ≡ pos_part req.virtual_users

  count_active-append :
      (rs : List (TestRun F)) (r : TestRun F)
      → count_where has_active (rs ++ (r ∷ [])) ≤ suc (count_where has_active rs)
  unfolding count_where
  count_active-append [] r = ground arith
  count_active-append (x ∷ rs) r = ground (arith, count_active-append rs r)

  length-users_of : (shards : List (Shard F)) → length (users_of shards) ≡ length shards
  length-users_of [] = refl
  length-users_of (sh ∷ shards) = ap suc (length-users_of shards)

  pub create_tx-Created :
      (h : Handler) (e : Surroundings) (s s' : Store F) (raw req : CreateTestRunRequest)
      (tr : TestRun F) (shards : List (Shard F))
      → validate_create h.strings raw ≡ ok req
      → target_allowed h req.target_url ≡ true
      → admission h e s ≡ none
      → create_tx e.db e.now s req (split_vus (pos_part req.virtual_users) (pos_part req.shards))
        ≡ ok (s', tr, shards)
      → Created h e s s' raw req shards
  create_tx-Created h e s s' raw req tr shards v t a c =
      let vus = split_vus (pos_part req.virtual_users) (pos_part req.shards) in
      let adm = valid-IsAdmissible h raw req v in
      let (_, inserted, is_run, is_s) = create_tx-ok e.db e.now s req vus s' tr shards c in
      let (users, fresh) =
        insert_shards-ok e.db e.now s.next_run s.next_shard 0 vus shards inserted in
      let (many, total, _) =
        split_vus_lem (pos_part req.virtual_users) (pos_part req.shards)
          (grind (arith, adm.shards_min)) (grind (arith, adm.shards_users)) in
      let runs : s'.runs ≡ s.runs ++ (tr ∷ []) = rw is_s refl in
      record {
        valid = v;
        admissible = adm;
        allowed = t;
        room = elim (admission-none h e s a) [
          | inl free ↦ inl free
          | inr below ↦ inr (below, rw runs (omega (arith, below, count_active-append s.runs tr)))
        ];
        added_run = rw (users, ← is_run) runs;
        added_shards = rw is_s refl;
        fresh = fresh;
        shard_count = sym (length-users_of shards) ∙ ap length users ∙ many;
        users = ap sum users ∙ total;
      }

  created_pair :
      (db : Faults) (now : ℕ) (s s' : Store F) (req : CreateTestRunRequest) (vus : List ℕ)
      (tr : TestRun F) (shards : List (Shard F))
      → create_tx db now s req vus ≡ ok (s', tr, shards)
      → create_with_shards db now s req vus ≡ (s', ok (tr, shard_ids shards))
  unfolding create_with_shards
  created_pair db now s s' req vus tr shards c = rw (c, create_with_shards) refl

  pub refused_pair :
      (db : Faults) (now : ℕ) (s : Store F) (req : CreateTestRunRequest) (vus : List ℕ)
      (x : StoreError)
      → create_tx db now s req vus ≡ err x
      → create_with_shards db now s req vus ≡ (s, err x)
  unfolding create_with_shards
  refused_pair db now s req vus x c = rw (c, create_with_shards) refl

  pub insert_run_created :
      (e : Surroundings) (w : World F) (s' : Store F) (req : CreateTestRunRequest) (tr : TestRun F)
      (shards : List (Shard F))
      → create_tx e.db e.now w.store req
          (split_vus (pos_part req.virtual_users) (pos_part req.shards))
        ≡ ok (s', tr, shards)
      → insert_run e w req ≡ (
        record { store = s'; stream = publish_all e.redis 0 w.stream (shard_ids shards) },
        write_json 201 (run tr),
      )
  unfolding insert_run
  insert_run_created e w s' req tr shards c =
      let pair = created_pair e.db e.now w.store s' req _ tr shards c in
      rw (pair, insert_run) (rw pair refl)

  -- How a request is answered: nothing has changed, or a run was created.
  abbrev pub Answered :
      Handler
      → Surroundings
      → World F
      → Result String CreateTestRunRequest
      → World F × Response F
      → Type 0
  Answered h e w body (w', resp) =
      ((w' ≡ w) × (400 ≤ resp.code))
      ⊎ ((resp.code ≡ 201)
          × (raw req : CreateTestRunRequest) × (shards : List (Shard F)) × (body ≡ ok raw)
          × Created h e w.store w'.store raw req shards)

  insert_run-Answered :
      (h : Handler) (e : Surroundings) (w : World F) (raw req : CreateTestRunRequest)
      → validate_create h.strings raw ≡ ok req
      → target_allowed h req.target_url ≡ true
      → admission h e w.store ≡ none
      → Answered h e w (ok raw) (insert_run e w req)
  unfolding insert_run
  insert_run-Answered h e w raw req v t a =
      elim (Result-cases (
        create_tx e.db e.now w.store req
          (split_vus (pos_part req.virtual_users) (pos_part req.shards)))) [
            | inr (x, c) ↦
                let pair = refused_pair e.db e.now w.store req _ x c in
                rw (pair, insert_run) (inl (rw pair refl, omega arith))
            | inl ((s', tr, shards), c) ↦
                subst (Answered h e w (ok raw)) (sym (insert_run_created e w s' req tr shards c)) (
                  inr (
                    refl,
                    raw,
                    req,
                    shards,
                    refl,
                    create_tx-Created h e w.store s' raw req tr shards v t a c,
                  ))
          ]

  -- POST /test-runs, whatever the body and whatever the database refuses: an error answer, and
  -- nothing has changed; or 201, for a valid request to an allowed host, and the tables have one
  -- queued run more, with the shards asked for, whose users add up. If there is a cap on active runs,
  -- what CountActiveRuns read was below it, and they exceed it by no more than became active between
  -- that count and the insert.
  pub create_test_run-Answered :
      (h : Handler) (e : Surroundings) (w : World F) (body : Result String CreateTestRunRequest)
      → Answered h e w body (create_test_run h e w body)
  unfolding create_test_run create_valid
  create_test_run-Answered h e w (err text) = inl (refl, omega arith)
  create_test_run-Answered h e w (ok raw) = elim (Result-cases (validate_create h.strings raw)) [
    | inr (message, v) ↦ rw (v, create_test_run) (inl (refl, omega arith))
    | inl (req, v) ↦
        rw (v, create_test_run)
          (elim (Bool-cases (target_allowed h req.target_url)) [
            | inr t ↦ rw (t, create_valid) (inl (refl, omega arith))
            | inl t ↦ elim (Option-cases (admission {F = F} h e w.store)) [
              | inr (refusal, a) ↦
                  rw (t, a, create_valid) (inl (refl, admission-some h e w.store refusal a))
              | inl a ↦ rw (t, a, create_valid) (insert_run-Answered h e w raw req v t a)
            ]
          ])
  ]
