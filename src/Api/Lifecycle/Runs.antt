-- ===== src/Api/Lifecycle/Runs.antt =====
-- The handlers on runs.
use text.Mathlib.Text.{◌==◌ as str_eq}
use distributed_load_testing.Common.{
  ℕ, ◌≡◌, refl, ◌⊎◌, inl, inr, Option, some, List, String, Result, ok, err, arith, Bool-cases,
  Option-cases, Result-cases, err-ne-ok,
}
use distributed_load_testing.Common.Int.{ℤ, pos_part}
use distributed_load_testing.Models.{
  completed, failed, status_completed, status_failed, parse_status, CreateTestRunRequest,
  CompleteTestRunRequest,
}
use distributed_load_testing.Store.{Store}
use distributed_load_testing.Store.Create.{create_with_shards}
use distributed_load_testing.Store.Runs.{
  start_by_id, take_over, fail, complete, complete_as, cancel_run,
}
use distributed_load_testing.Store.Lifecycle.{Evolves-refl, IsKeyed}
use distributed_load_testing.Store.Lifecycle.Runs.{
  start_by_id-Evolves, take_over-Evolves, fail-Evolves, cancel_run-Evolves, complete-Evolves,
  claim_next-Evolves, create_with_shards-Evolves,
}
use distributed_load_testing.Store.Lifecycle.Keys.{
  update_run-IsKeyed, claim_next-IsKeyed, create_with_shards-IsKeyed,
}
use distributed_load_testing.Handlers.{Handler, World, Surroundings, positive_id}
use distributed_load_testing.Handlers.Validate.{validate_create, validate_complete, split_vus}
use distributed_load_testing.Handlers.Public.{
  create_test_run, create_valid, insert_run, admission, target_allowed, cancel_test_run,
}
use distributed_load_testing.Handlers.Internal.{
  claim_next_run, start_test_run, takeover_test_run, fail_test_run, complete_test_run,
  complete_valid,
}
use distributed_load_testing.Api.Lifecycle.{Sound, parse_completed, parse_failed}

module _ {F : Type 0} where
  create_with_shards-Sound :
      (e : Surroundings) (s : Store F) (req : CreateTestRunRequest) (vus : List ℕ)
      → IsKeyed s
      → Sound s (create_with_shards e.db e.now s req vus).0
  create_with_shards-Sound e s req vus k = (
    create_with_shards-Evolves e.db e.now s req vus,
    create_with_shards-IsKeyed e.db e.now s req vus k,
  )

  -- Whether or not the run is created, the tables are what the store leaves.
  insert_run-store :
      (e : Surroundings) (w : World F) (req : CreateTestRunRequest)
      → (insert_run e w req).0.store
        ≡ (create_with_shards e.db e.now w.store req
            (split_vus (pos_part req.virtual_users) (pos_part req.shards))).0
  unfolding insert_run
  insert_run-store e w req = ground arith

  pub create_test_run-Sound :
      (h : Handler) (e : Surroundings) (w : World F) (body : Result String CreateTestRunRequest)
      → IsKeyed w.store
      → Sound w.store (create_test_run h e w body).0.store
  unfolding create_test_run create_valid
  create_test_run-Sound h e w (err text) k = (Evolves-refl w.store, k)
  create_test_run-Sound h e w (ok req) k = elim (Result-cases (validate_create h.strings req)) [
    | inr (message, v) ↦ rw (v, create_test_run) (Evolves-refl w.store, k)
    | inl (valid, v) ↦
        rw (v, create_test_run)
          (elim (Bool-cases (target_allowed h valid.target_url)) [
            | inr t ↦ rw (t, create_valid) (Evolves-refl w.store, k)
            | inl t ↦
                rw (t, create_valid)
                  (elim (Option-cases (admission {F = F} h e w.store)) [
                    | inr (refusal, a) ↦ rw (a, create_valid) (Evolves-refl w.store, k)
                    | inl a ↦
                        rw (a, create_valid, insert_run-store e w valid)
                          (create_with_shards-Sound e w.store valid _ k)
                  ])
          ])
  ]

  pub cancel_test_run-Sound :
      (e : Surroundings) (s : Store F) (id : Option ℤ)
      → IsKeyed s
      → Sound s (cancel_test_run e s id).0
  unfolding cancel_test_run cancel_run
  cancel_test_run-Sound e s id k = elim (Option-cases (positive_id id)) [
    | inl m ↦ rw (m, cancel_test_run) (Evolves-refl s, k)
    | inr (n, m) ↦
        rw (m, cancel_test_run)
          (cancel_run-Evolves e.db s n, update_run-IsKeyed e.db s _ _ _ (λ _. refl) k)
  ]

  pub claim_next_run-Sound :
      (e : Surroundings) (s : Store F) → IsKeyed s → Sound s (claim_next_run e s).0
  unfolding claim_next_run
  claim_next_run-Sound e s k = (
    claim_next-Evolves e.db e.now e.locked s k.run_ids,
    claim_next-IsKeyed e.db e.now e.locked s k,
  )

  pub start_test_run-Sound :
      (e : Surroundings) (s : Store F) (id : Option ℤ)
      → IsKeyed s
      → Sound s (start_test_run e s id).0
  unfolding start_test_run start_by_id
  start_test_run-Sound e s id k = elim (Option-cases (positive_id id)) [
    | inl m ↦ rw (m, start_test_run) (Evolves-refl s, k)
    | inr (n, m) ↦
        rw (m, start_test_run)
          (start_by_id-Evolves e.db e.now s n, update_run-IsKeyed e.db s _ _ _ (λ _. refl) k)
  ]

  pub takeover_test_run-Sound :
      (e : Surroundings) (s : Store F) (id : Option ℤ)
      → IsKeyed s
      → Sound s (takeover_test_run e s id).0
  unfolding takeover_test_run take_over
  takeover_test_run-Sound e s id k = elim (Option-cases (positive_id id)) [
    | inl m ↦ rw (m, takeover_test_run) (Evolves-refl s, k)
    | inr (n, m) ↦
        rw (m, takeover_test_run)
          (take_over-Evolves e.db e.now s n, update_run-IsKeyed e.db s _ _ _ (λ _. refl) k)
  ]

  pub fail_test_run-Sound :
      (e : Surroundings) (s : Store F) (id : Option ℤ) (body : Result String String)
      → IsKeyed s
      → Sound s (fail_test_run e s id body).0
  unfolding fail_test_run fail
  fail_test_run-Sound e s id body k = elim (Option-cases (positive_id id)) [
    | inl m ↦ rw (m, fail_test_run) (Evolves-refl s, k)
    | inr (n, m) ↦
        rw (m, fail_test_run)
          (elim (Result-cases body) [
            | inr (text, b) ↦ rw (b, fail_test_run) (Evolves-refl s, k)
            | inl (reason, b) ↦
                rw (b, fail_test_run)
                  (fail-Evolves e.db e.now s n _, update_run-IsKeyed e.db s _ _ _ (λ _. refl) k)
          ])
  ]

  validate_complete-ok :
      (req : CompleteTestRunRequest F)
      → validate_complete req ≡ ok tt
      → (parse_status req.status ≡ some completed) ⊎ (parse_status req.status ≡ some failed)
  unfolding validate_complete
  validate_complete-ok req v = elim (Bool-cases (str_eq req.status status_completed)) [
    | inl c ↦ inl (parse_completed req.status c)
    | inr c ↦ elim (Bool-cases (str_eq req.status status_failed)) [
      | inl d ↦ inr (parse_failed req.status d)
      | inr d ↦ absurd (err-ne-ok (rw (c, d) at v))
    ]
  ]

  complete_valid-Sound :
      (e : Surroundings) (s : Store F) (n : ℕ) (req : CompleteTestRunRequest F)
      → (parse_status req.status ≡ some completed) ⊎ (parse_status req.status ≡ some failed)
      → IsKeyed s
      → Sound s (complete_valid e s n req).0
  unfolding complete_valid complete complete_as
  complete_valid-Sound e s n req st k = (
    complete-Evolves e.db e.now s n req st,
    elim st [
      | inl p ↦ rw p (update_run-IsKeyed e.db s _ _ _ (λ _. refl) k)
      | inr p ↦ rw p (update_run-IsKeyed e.db s _ _ _ (λ _. refl) k)
    ],
  )

  pub complete_test_run-Sound :
      (e : Surroundings) (s : Store F) (id : Option ℤ)
      (body : Result String (CompleteTestRunRequest F))
      → IsKeyed s
      → Sound s (complete_test_run e s id body).0
  unfolding complete_test_run
  complete_test_run-Sound e s id body k = elim (Option-cases (positive_id id)) [
    | inl m ↦ rw (m, complete_test_run) (Evolves-refl s, k)
    | inr (n, m) ↦
        rw (m, complete_test_run)
          (elim (Result-cases body) [
            | inr (text, b) ↦ rw (b, complete_test_run) (Evolves-refl s, k)
            | inl (req, b) ↦
                rw (b, complete_test_run)
                  (elim (Result-cases (validate_complete req)) [
                    | inr (message, v) ↦ rw (v, complete_test_run) (Evolves-refl s, k)
                    | inl (_, v) ↦
                        rw (v, complete_test_run)
                          (complete_valid-Sound e s n req (validate_complete-ok req v) k)
                  ])
          ])
  ]
