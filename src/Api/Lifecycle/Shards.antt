-- ===== src/Api/Lifecycle/Shards.antt =====
-- The handlers on shards.
use text.Mathlib.Text.{◌==◌ as str_eq}
use distributed_load_testing.Common.{
  ℕ, ◌≡◌, refl, ◌⊎◌, inl, inr, Option, some, String, Result, Bool-cases, Option-cases, Result-cases,
}
use distributed_load_testing.Common.Int.{ℤ}
use distributed_load_testing.Float.{Float}
use distributed_load_testing.Models.{
  completed, failed, status_completed, status_failed, parse_status, CompleteShardRequest,
}
use distributed_load_testing.Store.{Store}
use distributed_load_testing.Store.Shards.{
  start_shard, take_over_shard, complete_shard, complete_shard_as, fail_shard,
}
use distributed_load_testing.Store.Lifecycle.{Evolves-refl, IsKeyed}
use distributed_load_testing.Store.Lifecycle.Shards.{
  start_shard-Evolves, take_over_shard-Evolves, complete_shard-Evolves, fail_shard-Evolves,
}
use distributed_load_testing.Store.Lifecycle.Keys.{claim_shard-IsKeyed, finish_shard-IsKeyed}
use distributed_load_testing.Handlers.{Surroundings, positive_id}
use distributed_load_testing.Handlers.Internal.{
  start_shard_handler, takeover_shard, complete_shard_handler, complete_shard_valid,
  fail_shard_handler,
}
use distributed_load_testing.Api.Lifecycle.{Sound, parse_completed, parse_failed}

module _ {F : Type 0} where
  pub start_shard_handler-Sound :
      (e : Surroundings) (s : Store F) (id : Option ℤ)
      → IsKeyed s
      → Sound s (start_shard_handler e s id).0
  unfolding start_shard_handler start_shard
  start_shard_handler-Sound e s id k = elim (Option-cases (positive_id id)) [
    | inl m ↦ rw (m, start_shard_handler) (Evolves-refl s, k)
    | inr (n, m) ↦
        rw (m, start_shard_handler)
          (start_shard-Evolves e.db e.now s n, claim_shard-IsKeyed e.db e.now s n _ _ k)
  ]

  pub takeover_shard-Sound :
      (e : Surroundings) (s : Store F) (id : Option ℤ)
      → IsKeyed s
      → Sound s (takeover_shard e s id).0
  unfolding takeover_shard take_over_shard
  takeover_shard-Sound e s id k = elim (Option-cases (positive_id id)) [
    | inl m ↦ rw (m, takeover_shard) (Evolves-refl s, k)
    | inr (n, m) ↦
        rw (m, takeover_shard)
          (take_over_shard-Evolves e.db e.now s n, claim_shard-IsKeyed e.db e.now s n _ _ k)
  ]

module _ {F : Type 0} ⦃f : Float F⦄ where
  complete_shard_valid-Sound :
      (e : Surroundings) (s : Store F) (n : ℕ) (req : CompleteShardRequest F)
      → (parse_status req.status ≡ some completed) ⊎ (parse_status req.status ≡ some failed)
      → IsKeyed s
      → Sound s (complete_shard_valid e s n req).0
  unfolding complete_shard_valid complete_shard complete_shard_as
  complete_shard_valid-Sound e s n req st k = (
    complete_shard-Evolves e.db e.now s n req k.run_ids st,
    elim st [
      | inl p ↦ rw p (finish_shard-IsKeyed e.db e.now s n _ _ _ (λ _. refl) k)
      | inr p ↦ rw p (finish_shard-IsKeyed e.db e.now s n _ _ _ (λ _. refl) k)
    ],
  )

  pub complete_shard_handler-Sound :
      (e : Surroundings) (s : Store F) (id : Option ℤ)
      (body : Result String (CompleteShardRequest F))
      → IsKeyed s
      → Sound s (complete_shard_handler e s id body).0
  unfolding complete_shard_handler
  complete_shard_handler-Sound e s id body k = elim (Option-cases (positive_id id)) [
    | inl m ↦ rw (m, complete_shard_handler) (Evolves-refl s, k)
    | inr (n, m) ↦
        rw (m, complete_shard_handler)
          (elim (Result-cases body) [
            | inr (text, b) ↦ rw (b, complete_shard_handler) (Evolves-refl s, k)
            | inl (req, b) ↦
                rw (b, complete_shard_handler)
                  (elim (Bool-cases (str_eq req.status status_completed)) [
                    | inl c ↦
                        rw (c, complete_shard_handler)
                          (complete_shard_valid-Sound e s n req (inl (parse_completed req.status c))
                            k)
                    | inr c ↦ elim (Bool-cases (str_eq req.status status_failed)) [
                      | inl d ↦
                          rw (c, d, complete_shard_handler)
                            (complete_shard_valid-Sound e s n req (inr (parse_failed req.status d))
                              k)
                      | inr d ↦ rw (c, d, complete_shard_handler) (Evolves-refl s, k)
                    ]
                  ])
          ])
  ]

  pub fail_shard_handler-Sound :
      (e : Surroundings) (s : Store F) (id : Option ℤ) (body : Result String String)
      → IsKeyed s
      → Sound s (fail_shard_handler e s id body).0
  unfolding fail_shard_handler fail_shard
  fail_shard_handler-Sound e s id body k = elim (Option-cases (positive_id id)) [
    | inl m ↦ rw (m, fail_shard_handler) (Evolves-refl s, k)
    | inr (n, m) ↦
        rw (m, fail_shard_handler)
          (elim (Result-cases body) [
            | inr (text, b) ↦ rw (b, fail_shard_handler) (Evolves-refl s, k)
            | inl (reason, b) ↦
                rw (b, fail_shard_handler)
                  (
                    fail_shard-Evolves e.db e.now s n _ k.run_ids,
                    finish_shard-IsKeyed e.db e.now s n _ _ _ (λ _. refl) k,
                  )
          ])
  ]
