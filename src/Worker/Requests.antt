-- ===== src/Worker/Requests.antt =====
-- worker/internal/client/client.go and backend/internal/handlers/health.go together: what the backend
-- does for a request of the client is the call that the client means.
use mathlib.Core.Option.{some-injective}
use distributed_load_testing.Common.{
  ◌≡◌, ◌∙◌, ap, refl, sym, Bool, false, none, some, Option, ok, err, String, List,
}
use distributed_load_testing.Float.{Float}
use distributed_load_testing.Handlers.{Handler, World, Surroundings}
use distributed_load_testing.Api.{Call, serve}
use distributed_load_testing.Api.Routes.{
  Method, get, head, post, options, other_method, Endpoint, route, endpoint_of,
}
use distributed_load_testing.Api.Http.{
  Json, Request, handled, is_options, call_of, dispatch, respond,
}
use distributed_load_testing.Worker.Paths.{path_of, routed, IsClientCall, routed-path_of}

module _ {B : Type 0} where
  abbrev pub request_with : B → Method × List String → Request B
  request_with b (method, path) = record { method = method; path = path; limit = none; body = b }

module _ {B F : Type 0} where
  -- What the client sends as the body, if it can be encoded.
  unfoldable pub body_of : Json B F → Call F → Option B
  body_of json (Call.fail_run id (ok reason)) = some (json.write_reason reason)
  body_of json (Call.fail_run id (err text)) = none
  body_of json (Call.complete_run id (ok req)) = json.write_complete req
  body_of json (Call.complete_run id (err text)) = none
  body_of json (Call.complete_shard id (ok req)) = json.write_partial req
  body_of json (Call.complete_shard id (err text)) = none
  body_of json (Call.fail_shard id (ok reason)) = some (json.write_reason reason)
  body_of json (Call.fail_shard id (err text)) = none
  body_of json _ = some json.no_body

  -- What the backend reads in a request of the client is the call.
  call_of-request_with :
      (json : Json B F) (call : Call F) (b : B) (mp : Method × List String)
      → IsClientCall call
      → body_of json call ≡ some b
      → call_of json (request_with b mp) (endpoint_of call) ≡ some call
  unfolding call_of endpoint_of body_of
  call_of-request_with json Call.claim b mp c e = refl
  call_of-request_with json (Call.start_run id) b mp c e = refl
  call_of-request_with json (Call.takeover_run id) b mp c e = refl
  call_of-request_with json (Call.start_shard id) b mp c e = refl
  call_of-request_with json (Call.takeover_shard_call id) b mp c e = refl
  call_of-request_with json (Call.get_run id) b mp c e = refl
  call_of-request_with json (Call.fail_run id (ok reason)) b mp c e =
      ap (λ x. some (Call.fail_run id (json.read_reason x))) (sym (some-injective _ _ e))
      ∙ ap (λ r. some (Call.fail_run id r)) (json.reads_reason reason)
  call_of-request_with json (Call.fail_shard id (ok reason)) b mp c e =
      ap (λ x. some (Call.fail_shard id (json.read_reason x))) (sym (some-injective _ _ e))
      ∙ ap (λ r. some (Call.fail_shard id r)) (json.reads_reason reason)
  call_of-request_with json (Call.complete_run id (ok req)) b mp c e =
      ap (λ r. some (Call.complete_run id r)) (json.reads_complete req b e)
  call_of-request_with json (Call.complete_shard id (ok req)) b mp c e =
      ap (λ r. some (Call.complete_shard id r)) (json.reads_partial req b e)
  call_of-request_with json (Call.fail_run id (err text)) b mp c e = absurd (cc)
  call_of-request_with json (Call.complete_run id (err text)) b mp c e = absurd (cc)
  call_of-request_with json (Call.complete_shard id (err text)) b mp c e = absurd (cc)
  call_of-request_with json (Call.fail_shard id (err text)) b mp c e = absurd (cc)
  call_of-request_with json (Call.post_run body) b mp c e = absurd c
  call_of-request_with json (Call.get_runs limit) b mp c e = absurd c
  call_of-request_with json (Call.cancel_run id) b mp c e = absurd c

-- What has a route is not a preflight request.
routed_not_preflight :
    (method : Method) (path : List String) (endpoint : Endpoint)
    → route method path ≡ some endpoint
    → is_options method ≡ false
unfolding route
routed_not_preflight get path endpoint e = refl
routed_not_preflight head path endpoint e = refl
routed_not_preflight post path endpoint e = refl
routed_not_preflight options path endpoint e = absurd (cc)
routed_not_preflight other_method path endpoint e = absurd (cc)

module _ {B F : Type 0} ⦃f : Float F⦄ where
  -- A request of the worker's client, with the method, the path and the body that the client gives it,
  -- has at the backend the effect of the call that the client means, and is answered as that call is.
  -- Ids are below 2^63 and not negative, and the body can be encoded.
  pub respond-request_with :
      (json : Json B F) (pings : Bool) (h : Handler) (e : Surroundings) (w : World F)
      (call : Call F) (mp : Method × List String) (b : B)
      → IsClientCall call
      → path_of call ≡ some mp
      → body_of json call ≡ some b
      → respond json pings h e w (request_with b mp)
        ≡ ((serve h e w call).0, handled (serve h e w call).1)
  unfolding respond dispatch
  respond-request_with json pings h e w call (method, path) b is_client sent encoded =
      let found : route method path ≡ some (endpoint_of call) =
        ap routed (sym sent) ∙ routed-path_of call is_client in
      let meant = call_of-request_with json call b (method, path) is_client encoded in
      rw (routed_not_preflight method path (endpoint_of call) found, found, meant, dispatch) refl
