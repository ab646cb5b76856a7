-- ===== src/Api/Traces.antt =====
-- Any sequence of requests to the backend, whatever the database refuses on the way.
use mathlib.Core.Path.{subst}
use distributed_load_testing.Common.{
  ◌≡◌, ◌⊎◌, ◌∙◌, inl, inr, true, false, List, [], ◌∷◌, arith, Bool-cases,
}
use distributed_load_testing.Common.Table.{Grows, Grows-trans, Grows-imp}
use distributed_load_testing.Float.{Float}
use distributed_load_testing.Models.{Status, is_active, is_open, TestRun}
use distributed_load_testing.Store.{Shard, Store}
use distributed_load_testing.Store.Lifecycle.{
  may_move, may_move_shard, RunStep, ShardStep, IsNewRun, IsNewShard, Evolves, Evolves-refl,
  IsKeyed,
}
use distributed_load_testing.Handlers.{Handler, World, Surroundings}
use distributed_load_testing.Api.{
  Call, post_run, get_runs, get_run, cancel_run, claim, start_run, takeover_run, fail_run,
  complete_run, start_shard, takeover_shard_call, complete_shard, fail_shard, serve, serve_all,
}
use distributed_load_testing.Api.Lifecycle.{Sound}
use distributed_load_testing.Api.Lifecycle.Runs.{
  create_test_run-Sound, cancel_test_run-Sound, claim_next_run-Sound, start_test_run-Sound,
  takeover_test_run-Sound, fail_test_run-Sound, complete_test_run-Sound,
}
use distributed_load_testing.Api.Lifecycle.Shards.{
  start_shard_handler-Sound, takeover_shard-Sound, complete_shard_handler-Sound,
  fail_shard_handler-Sound,
}

abbrev pub AnyRow {ℓ} : {A : Type ℓ} → A → Type 0
AnyRow _ = Unit

no_move : (a b : Status) → is_active a ≡ false → may_move a b ≡ true → ⊥
no_move a b h m = ground arith

no_move_shard : (a b : Status) → is_open a ≡ false → may_move_shard a b ≡ true → ⊥
no_move_shard a b h m = ground arith

module _ {F : Type 0} where
  -- A finished row stays as it is.
  abbrev pub SettledRun : TestRun F → TestRun F → Type 0
  SettledRun r r' = (is_active r.status ≡ true) ⊎ (r' ≡ r)

  abbrev pub SettledShard : Shard F → Shard F → Type 0
  SettledShard sh sh' = (is_open sh.status ≡ true) ⊎ (sh' ≡ sh)

  RunStep-SettledRun : (r r' : TestRun F) → RunStep r r' → SettledRun r r'
  RunStep-SettledRun r r' st = elim (Bool-cases (is_active r.status)) [
    | inl a ↦ inl a
    | inr over ↦ elim st.moved [
      | inl e ↦ inr e
      | inr m ↦ absurd (no_move r.status r'.status over m)
    ]
  ]

  ShardStep-SettledShard : (sh sh' : Shard F) → ShardStep sh sh' → SettledShard sh sh'
  ShardStep-SettledShard sh sh' st = elim (Bool-cases (is_open sh.status)) [
    | inl a ↦ inl a
    | inr over ↦ elim st.moved [
      | inl e ↦ inr e
      | inr m ↦ absurd (no_move_shard sh.status sh'.status over m)
    ]
  ]

  SettledRun-trans : (x y z : TestRun F) → SettledRun x y → SettledRun y z → SettledRun x z
  SettledRun-trans x y z (inl a) q = inl a
  SettledRun-trans x y z (inr p) (inl a) =
      inl (subst (λ (r : TestRun F). is_active r.status ≡ true) p a)
  SettledRun-trans x y z (inr p) (inr q) = inr (q ∙ p)

  SettledShard-trans : (x y z : Shard F) → SettledShard x y → SettledShard y z → SettledShard x z
  SettledShard-trans x y z (inl a) q = inl a
  SettledShard-trans x y z (inr p) (inl a) =
      inl (subst (λ (sh : Shard F). is_open sh.status ≡ true) p a)
  SettledShard-trans x y z (inr p) (inr q) = inr (q ∙ p)

  -- The finished runs and shards of the first tables stand unchanged in the second.
  pub record Settled (s s' : Store F) : Type 0 where
    pub runs : Grows SettledRun AnyRow s.runs s'.runs
    pub shards : Grows SettledShard AnyRow s.shards s'.shards

  Evolves-Settled : (s s' : Store F) → Evolves s s' → Settled s s'
  Evolves-Settled s s' ev = record {
    runs =
        Grows-imp RunStep SettledRun IsNewRun AnyRow RunStep-SettledRun (λ _ _. tt) s.runs s'.runs
          ev.runs;
    shards =
        Grows-imp ShardStep SettledShard IsNewShard AnyRow ShardStep-SettledShard (λ _ _. tt)
          s.shards s'.shards ev.shards;
  }

  Settled-trans : (s t u : Store F) → Settled s t → Settled t u → Settled s u
  Settled-trans s t u a b = record {
    runs =
        Grows-trans SettledRun AnyRow SettledRun-trans (λ _ _ _ _. tt) s.runs t.runs u.runs a.runs
          b.runs;
    shards =
        Grows-trans SettledShard AnyRow SettledShard-trans (λ _ _ _ _. tt) s.shards t.shards
          u.shards a.shards b.shards;
  }

module _ {F : Type 0} ⦃f : Float F⦄ where
  -- Every request, whatever it holds and whatever the database refuses, moves each run and each
  -- shard only along the arrows of its state machine, adds only queued rows, keeps the configuration
  -- of every row, and keeps ids distinct; it is assumed that ids are distinct before.
  pub serve-Sound :
      (h : Handler) (e : Surroundings) (w : World F) (call : Call F)
      → IsKeyed w.store
      → Sound w.store (serve h e w call).0.store
  unfolding serve
  serve-Sound h e w (post_run body) k = create_test_run-Sound h e w body k
  serve-Sound h e w (get_runs limit) k = (Evolves-refl w.store, k)
  serve-Sound h e w (get_run id) k = (Evolves-refl w.store, k)
  serve-Sound h e w (cancel_run id) k = cancel_test_run-Sound e w.store id k
  serve-Sound h e w claim k = claim_next_run-Sound e w.store k
  serve-Sound h e w (start_run id) k = start_test_run-Sound e w.store id k
  serve-Sound h e w (takeover_run id) k = takeover_test_run-Sound e w.store id k
  serve-Sound h e w (fail_run id body) k = fail_test_run-Sound e w.store id body k
  serve-Sound h e w (complete_run id body) k = complete_test_run-Sound e w.store id body k
  serve-Sound h e w (start_shard id) k = start_shard_handler-Sound e w.store id k
  serve-Sound h e w (takeover_shard_call id) k = takeover_shard-Sound e w.store id k
  serve-Sound h e w (complete_shard id body) k = complete_shard_handler-Sound e w.store id body k
  serve-Sound h e w (fail_shard id body) k = fail_shard_handler-Sound e w.store id body k

  -- Over any sequence of requests, a run that is completed, failed or cancelled, and a shard that is
  -- completed or failed, keeps its whole row, its results included; ids stay distinct, as
  -- they are assumed to be at the start.
  pub serve_all-Settled :
      (h : Handler) (w : World F) (calls : List (Surroundings × Call F))
      → IsKeyed w.store
      → Settled w.store (serve_all h w calls).store × IsKeyed (serve_all h w calls).store
  unfolding serve_all
  serve_all-Settled h w [] k = (Evolves-Settled w.store w.store (Evolves-refl w.store), k)
  serve_all-Settled h w ((e, call) ∷ calls) k =
      let (step, k1) = serve-Sound h e w call k in
      let (rest, k2) = serve_all-Settled h (serve h e w call).0 calls k1 in
      (Settled-trans _ _ _ (Evolves-Settled _ _ step) rest, k2)
