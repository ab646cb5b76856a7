-- ===== src/Api.antt =====
-- The routes of backend/internal/handlers/health.go: one function for the whole API, over the
-- database and the stream. GET /health and /metrics change nothing and are left to Api.Http.
pub mod Lifecycle
pub mod Traces
pub mod Retrieve
pub mod Once
pub mod Routes
pub mod Http
use distributed_load_testing.Common.{ℕ, Option, List, [], ◌∷◌, String, Result}
use distributed_load_testing.Common.Int.{ℤ}
use distributed_load_testing.Float.{Float}
use distributed_load_testing.Models.{
  CreateTestRunRequest, CompleteTestRunRequest, CompleteShardRequest,
}
use distributed_load_testing.Store.{Store}
use distributed_load_testing.Handlers.{Handler, World, Surroundings, Response}
use distributed_load_testing.Handlers.Public.{
  create_test_run, list_test_runs, get_test_run, cancel_test_run,
}
use distributed_load_testing.Handlers.Internal.{
  claim_next_run, start_test_run, takeover_test_run, fail_test_run, complete_test_run,
  start_shard_handler, takeover_shard, complete_shard_handler, fail_shard_handler,
}

-- A request by its route. An id is the path value as ParseInt reads it, a body what the decoder
-- makes of it.
pub data Call (F : Type 0) : Type 0 where
  post_run : Result String CreateTestRunRequest → Call F
  get_runs get_run cancel_run : Option ℤ → Call F
  claim : Call F
  start_run takeover_run : Option ℤ → Call F
  fail_run : Option ℤ → Result String String → Call F
  complete_run : Option ℤ → Result String (CompleteTestRunRequest F) → Call F
  start_shard takeover_shard_call : Option ℤ → Call F
  complete_shard : Option ℤ → Result String (CompleteShardRequest F) → Call F
  fail_shard : Option ℤ → Result String String → Call F

module _ {F : Type 0} where
  abbrev pub with_store : World F → Store F × Response F → World F × Response F
  with_store w (s, r) = (record w { store = s }, r)

module _ {F : Type 0} ⦃f : Float F⦄ where
  unfoldable pub serve : Handler → Surroundings → World F → Call F → World F × Response F
  serve h e w (post_run body) = create_test_run h e w body
  serve h e w (get_runs limit) = (w, list_test_runs e w.store limit)
  serve h e w (get_run id) = (w, get_test_run e w.store id)
  serve h e w (cancel_run id) = with_store w (cancel_test_run e w.store id)
  serve h e w claim = with_store w (claim_next_run e w.store)
  serve h e w (start_run id) = with_store w (start_test_run e w.store id)
  serve h e w (takeover_run id) = with_store w (takeover_test_run e w.store id)
  serve h e w (fail_run id body) = with_store w (fail_test_run e w.store id body)
  serve h e w (complete_run id body) = with_store w (complete_test_run e w.store id body)
  serve h e w (start_shard id) = with_store w (start_shard_handler e w.store id)
  serve h e w (takeover_shard_call id) = with_store w (takeover_shard e w.store id)
  serve h e w (complete_shard id body) = with_store w (complete_shard_handler e w.store id body)
  serve h e w (fail_shard id body) = with_store w (fail_shard_handler e w.store id body)

  -- Requests one after another, each with its own surroundings.
  unfoldable pub serve_all : Handler → World F → List (Surroundings × Call F) → World F
  serve_all h w [] = w
  serve_all h w ((e, call) ∷ calls) = serve_all h (serve h e w call).0 calls
