-- ===== src/Api/Routes.antt =====
-- backend/internal/handlers/health.go: the patterns of Routes, over the segments of a path between its
-- slashes, none of them empty. OPTIONS requests are answered before the routes are looked at.
use text.Mathlib.Text.{◌==◌ as str_eq}
use distributed_load_testing.Common.{◌&&◌, Option, none, some, List, [], ◌∷◌, String, if◌then◌else◌}
use distributed_load_testing.Common.Int.{ℤ}
use distributed_load_testing.Common.Decimal.{parse_int}
use distributed_load_testing.Api.{Call}

pub data Method : Type 0 where
  get head post options other_method : Method

-- The patterns, with what ParseInt makes of the path value.
pub data Endpoint : Type 0 where
  health metrics post_runs list_runs claim_next : Endpoint
  get_run cancel_run start_run takeover_run fail_run complete_run : Option ℤ → Endpoint
  start_shard takeover_shard complete_shard fail_shard : Option ℤ → Endpoint

unfoldable pub route_get : List String → Option Endpoint
route_get (a ∷ []) =
    if str_eq a "health"
    then some health
    else if str_eq a "metrics"
    then some metrics
    else if str_eq a "test-runs"
    then some list_runs
    else none
route_get (a ∷ id ∷ []) = if str_eq a "test-runs" then some (get_run (parse_int id)) else none
route_get _ = none

unfoldable pub route_run : String → Option ℤ → Option Endpoint
route_run action id =
    if str_eq action "start"
    then some (start_run id)
    else if str_eq action "takeover"
    then some (takeover_run id)
    else if str_eq action "fail"
    then some (fail_run id)
    else if str_eq action "complete"
    then some (complete_run id)
    else none

unfoldable pub route_shard : String → Option ℤ → Option Endpoint
route_shard action id =
    if str_eq action "start"
    then some (start_shard id)
    else if str_eq action "takeover"
    then some (takeover_shard id)
    else if str_eq action "complete"
    then some (complete_shard id)
    else if str_eq action "fail"
    then some (fail_shard id)
    else none

unfoldable pub route_post : List String → Option Endpoint
unfolding route_run route_shard
route_post (a ∷ []) = if str_eq a "test-runs" then some post_runs else none
route_post (a ∷ b ∷ c ∷ []) =
    if str_eq a "internal" && str_eq b "workers" && str_eq c "claim"
    then some claim_next
    else if str_eq a "test-runs" && str_eq c "cancel"
    then some (cancel_run (parse_int b))
    else none
route_post (a ∷ b ∷ id ∷ action ∷ []) =
    if str_eq a "internal" && str_eq b "test-runs"
    then route_run action (parse_int id)
    else if str_eq a "internal" && str_eq b "shards"
    then route_shard action (parse_int id)
    else none
route_post _ = none

-- A pattern for GET matches HEAD too; `none` is an answer of 404 or 405.
unfoldable pub route : Method → List String → Option Endpoint
unfolding route_get route_post
route get path = route_get path
route head path = route_get path
route post path = route_post path
route _ path = none

-- The pattern that a call of the model stands for.
unfoldable pub endpoint_of : {F : Type 0} → Call F → Endpoint
endpoint_of (Call.post_run body) = post_runs
endpoint_of (Call.get_runs limit) = list_runs
endpoint_of (Call.get_run id) = get_run id
endpoint_of (Call.cancel_run id) = cancel_run id
endpoint_of Call.claim = claim_next
endpoint_of (Call.start_run id) = start_run id
endpoint_of (Call.takeover_run id) = takeover_run id
endpoint_of (Call.fail_run id body) = fail_run id
endpoint_of (Call.complete_run id body) = complete_run id
endpoint_of (Call.start_shard id) = start_shard id
endpoint_of (Call.takeover_shard_call id) = takeover_shard id
endpoint_of (Call.complete_shard id body) = complete_shard id
endpoint_of (Call.fail_shard id body) = fail_shard id
