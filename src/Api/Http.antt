-- ===== src/Api/Http.antt =====
-- backend/internal/handlers/health.go: what the backend answers to a request, from its method, its path
-- and its body: the CORS middleware, the routes, the handlers, and /health. The headers of an answer are
-- not modelled.
use distributed_load_testing.Common.{
  ℕ, ◌≡◌, Bool, true, false, Option, some, none, List, String, Result, ok, if◌then◌else◌, ◌==◌,
}
use distributed_load_testing.Common.Int.{ℤ}
use distributed_load_testing.Float.{Float}
use distributed_load_testing.Models.{
  CreateTestRunRequest, CompleteTestRunRequest, CompleteShardRequest,
}
use distributed_load_testing.Handlers.{Handler, World, Surroundings, Response}
use distributed_load_testing.Api.{Call, serve}
use distributed_load_testing.Api.Routes.{Method, options, Endpoint, route}

-- encoding/json: a text is read as each of the types of the API, with the decoder's error if it cannot
-- be. What the worker's client encodes is read back; a number that is not finite has no encoding.
pub record Json (B F : Type 0) : Type 0 where
  pub read_create : B → Result String CreateTestRunRequest
  pub read_reason : B → Result String String
  pub read_complete : B → Result String (CompleteTestRunRequest F)
  pub read_partial : B → Result String (CompleteShardRequest F)
  pub no_body : B
  pub write_reason : String → B
  pub write_complete : CompleteTestRunRequest F → Option B
  pub write_partial : CompleteShardRequest F → Option B
  pub reads_reason : (reason : String) → read_reason (write_reason reason) ≡ ok reason
  pub reads_complete :
      (req : CompleteTestRunRequest F) (b : B)
      → write_complete req ≡ some b
      → read_complete b ≡ ok req
  pub reads_partial :
      (req : CompleteShardRequest F) (b : B) → write_partial req ≡ some b → read_partial b ≡ ok req

-- The query is `limit`, as `strconv.Atoi` reads it.
pub record Request (B : Type 0) : Type 0 where
  pub method : Method
  pub path : List String
  pub limit : Option ℤ
  pub body : B

pub record HealthReport : Type 0 where
  pub service : String
  pub status : String
  pub database : String

-- An answer: that of a handler of the API; that of Health with its code; the metrics; nothing but a
-- code, 204 for a preflight request and the mux's own for a request that no pattern takes.
pub data Answer (F : Type 0) : Type 0 where
  handled : Response F → Answer F
  healthy : ℕ → HealthReport → Answer F
  metrics_text : Answer F
  only_code : ℕ → Answer F
  no_route : Answer F

abbrev pub is_options : Method → Bool
is_options options = true
is_options _ = false

-- `Health`, whether the database answers the ping or not.
unfoldable pub health_report : Bool → ℕ × HealthReport
health_report pings =
    let code = if pings then 200 else 503 in
    (
      code,
      record {
        service = "backend";
        status = if code == 200 then "ok" else "degraded";
        database = if pings then "ok" else "unreachable";
      },
    )

module _ {F : Type 0} where
  abbrev plain_answer : Bool → Endpoint → Answer F
  plain_answer pings Endpoint.health =
      let (code, report) = health_report pings in healthy code report
  plain_answer pings _ = metrics_text

module _ {B F : Type 0} where
  -- The call of a pattern, if it is one of the API.
  unfoldable pub call_of : Json B F → Request B → Endpoint → Option (Call F)
  call_of json req Endpoint.health = none
  call_of json req Endpoint.metrics = none
  call_of json req Endpoint.post_runs = some (Call.post_run (json.read_create req.body))
  call_of json req Endpoint.list_runs = some (Call.get_runs req.limit)
  call_of json req Endpoint.claim_next = some Call.claim
  call_of json req (Endpoint.get_run id) = some (Call.get_run id)
  call_of json req (Endpoint.cancel_run id) = some (Call.cancel_run id)
  call_of json req (Endpoint.start_run id) = some (Call.start_run id)
  call_of json req (Endpoint.takeover_run id) = some (Call.takeover_run id)
  call_of json req (Endpoint.fail_run id) = some (Call.fail_run id (json.read_reason req.body))
  call_of json req (Endpoint.complete_run id) =
      some (Call.complete_run id (json.read_complete req.body))
  call_of json req (Endpoint.start_shard id) = some (Call.start_shard id)
  call_of json req (Endpoint.takeover_shard id) = some (Call.takeover_shard_call id)
  call_of json req (Endpoint.complete_shard id) =
      some (Call.complete_shard id (json.read_partial req.body))
  call_of json req (Endpoint.fail_shard id) = some (Call.fail_shard id (json.read_reason req.body))

module _ {F : Type 0} ⦃f : Float F⦄ where
  abbrev serve_call : Handler → Surroundings → World F → Call F → World F × Answer F
  serve_call h e w call = let (w', resp) = serve h e w call in (w', handled resp)

module _ {B F : Type 0} ⦃f : Float F⦄ where
  unfoldable pub dispatch :
      Json B F → Bool → Handler → Surroundings → World F → Request B → Endpoint → World F × Answer F
  dispatch json pings h e w req endpoint = elim (call_of json req endpoint) [
    | none ↦ (w, plain_answer pings endpoint)
    | some call ↦ serve_call h e w call
  ]

  abbrev routed_to :
      Json B F
      → Bool
      → Handler
      → Surroundings
      → World F
      → Request B
      → Option Endpoint
      → World F × Answer F
  routed_to json pings h e w req none = (w, no_route)
  routed_to json pings h e w req (some endpoint) = dispatch json pings h e w req endpoint

  -- The mux inside `corsMiddleware`.
  unfoldable pub respond :
      Json B F → Bool → Handler → Surroundings → World F → Request B → World F × Answer F
  respond json pings h e w req =
      if is_options req.method
      then (w, only_code 204)
      else routed_to json pings h e w req (route req.method req.path)
