-- ===== src/Worker/Paths.antt =====
-- worker/internal/client/client.go: the methods and paths of the worker's requests, and that the
-- backend's routes read them as they are meant.
use distributed_load_testing.Common.{
  ◌<◌, ◌≡◌, ◌∙◌, ap, refl, Option, none, some, List, [], ◌∷◌, String,
}
use distributed_load_testing.Common.Int.{ℤ, pos, negsuc, int64_half}
use distributed_load_testing.Common.Decimal.{format_int, parse_int, parse_int-format_int}
use distributed_load_testing.Api.{Call}
use distributed_load_testing.Api.Routes.{
  Method, Endpoint, get, post, route, route_get, route_post, route_run, route_shard, endpoint_of,
}

abbrev run_path : String → String → Method × List String
run_path action id = (post, "internal" ∷ "test-runs" ∷ id ∷ action ∷ [])

abbrev shard_path : String → String → Method × List String
shard_path action id = (post, "internal" ∷ "shards" ∷ id ∷ action ∷ [])

abbrev status_path : String → Method × List String
status_path id = (get, "test-runs" ∷ id ∷ [])

abbrev with_id : Option ℤ → (String → Method × List String) → Option (Method × List String)
with_id none path = none
with_id (some id) path = some (path (format_int id))

-- The method and the path of a call that the client makes; `none` for those of users.
unfoldable pub path_of : {F : Type 0} → Call F → Option (Method × List String)
path_of Call.claim = some (post, "internal" ∷ "workers" ∷ "claim" ∷ [])
path_of (Call.start_run id) = with_id id (run_path "start")
path_of (Call.takeover_run id) = with_id id (run_path "takeover")
path_of (Call.fail_run id body) = with_id id (run_path "fail")
path_of (Call.complete_run id body) = with_id id (run_path "complete")
path_of (Call.start_shard id) = with_id id (shard_path "start")
path_of (Call.takeover_shard_call id) = with_id id (shard_path "takeover")
path_of (Call.complete_shard id body) = with_id id (shard_path "complete")
path_of (Call.fail_shard id body) = with_id id (shard_path "fail")
path_of (Call.get_run id) = with_id id status_path
path_of (Call.post_run body) = none
path_of (Call.get_runs limit) = none
path_of (Call.cancel_run id) = none

abbrev pub routed : Option (Method × List String) → Option Endpoint
routed none = none
routed (some (method, path)) = route method path

abbrev IsId : Option ℤ → Type 0
IsId (some (pos n)) = n < int64_half
IsId _ = ⊥

-- A call of the client, its id an int64 that is not negative.
abbrev pub IsClientCall : {F : Type 0} → Call F → Type 0
IsClientCall Call.claim = Unit
IsClientCall (Call.start_run id) = IsId id
IsClientCall (Call.takeover_run id) = IsId id
IsClientCall (Call.fail_run id body) = IsId id
IsClientCall (Call.complete_run id body) = IsId id
IsClientCall (Call.start_shard id) = IsId id
IsClientCall (Call.takeover_shard_call id) = IsId id
IsClientCall (Call.complete_shard id body) = IsId id
IsClientCall (Call.fail_shard id body) = IsId id
IsClientCall (Call.get_run id) = IsId id
IsClientCall _ = ⊥

routed-with_id :
    (path : String → Method × List String) (endpoint : Option ℤ → Endpoint) (id : Option ℤ)
    → ((t : String) → routed (some (path t)) ≡ some (endpoint (parse_int t)))
    → IsId id
    → routed (with_id id path) ≡ some (endpoint id)
routed-with_id path endpoint none reads h = absurd h
routed-with_id path endpoint (some (negsuc n)) reads h = absurd h
routed-with_id path endpoint (some (pos n)) reads h =
    reads (format_int (pos n)) ∙ ap (λ id. some (endpoint id)) (parse_int-format_int n h)

-- Every request of the worker's client reaches the route it is meant for, and its id is read back as
-- it was printed; ids are below 2^63 and not negative.
pub routed-path_of :
    {F : Type 0} (call : Call F)
    → IsClientCall call
    → routed (path_of call) ≡ some (endpoint_of call)
unfolding path_of endpoint_of route route_get route_post route_run route_shard
routed-path_of Call.claim h = refl
routed-path_of (Call.start_run id) h =
    routed-with_id (run_path "start") Endpoint.start_run id (λ _. refl) h
routed-path_of (Call.takeover_run id) h =
    routed-with_id (run_path "takeover") Endpoint.takeover_run id (λ _. refl) h
routed-path_of (Call.fail_run id body) h =
    routed-with_id (run_path "fail") Endpoint.fail_run id (λ _. refl) h
routed-path_of (Call.complete_run id body) h =
    routed-with_id (run_path "complete") Endpoint.complete_run id (λ _. refl) h
routed-path_of (Call.start_shard id) h =
    routed-with_id (shard_path "start") Endpoint.start_shard id (λ _. refl) h
routed-path_of (Call.takeover_shard_call id) h =
    routed-with_id (shard_path "takeover") Endpoint.takeover_shard id (λ _. refl) h
routed-path_of (Call.complete_shard id body) h =
    routed-with_id (shard_path "complete") Endpoint.complete_shard id (λ _. refl) h
routed-path_of (Call.fail_shard id body) h =
    routed-with_id (shard_path "fail") Endpoint.fail_shard id (λ _. refl) h
routed-path_of (Call.get_run id) h = routed-with_id status_path Endpoint.get_run id (λ _. refl) h
routed-path_of (Call.post_run body) h = absurd h
routed-path_of (Call.get_runs limit) h = absurd h
routed-path_of (Call.cancel_run id) h = absurd h
