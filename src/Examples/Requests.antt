-- ===== src/Examples/Requests.antt =====
-- Requests to the API, one after another.
use distributed_load_testing.Handlers.Create.{IsRoom}
use distributed_load_testing.Common.{
  ◌≡◌, ◌≢◌, ◌⊎◌, ◌<◌, ◌++◌, String, refl, inr, true, false, none, some, List, [], ◌∷◌, ok, arith,
}
use distributed_load_testing.Common.Int.{pos, pos_part, ◌≤ℤ◌}
use distributed_load_testing.Common.Table.{count_where}
use distributed_load_testing.Store.Runs.{has_active}
use distributed_load_testing.Common.Table.{find?, update_where}
use distributed_load_testing.Store.Shards.{start_shard, claim_shard}
use distributed_load_testing.Handlers.Internal.{start_shard_handler}
use distributed_load_testing.Api.Once.{start_shard_once}
use distributed_load_testing.Api.Routes.{endpoint_of}
use distributed_load_testing.Worker.Paths.{path_of, routed, routed-path_of}
use distributed_load_testing.Startup.{
  Environment, getenv, getint, split_commas, add_hosts, parse_host_set, new_handler,
}
use distributed_load_testing.Startup.Hosts.{IsListed, allowed_hosts, new_handler-create}
use distributed_load_testing.Float.{Cents, cents_float}
use distributed_load_testing.Models.{TestRun}
use distributed_load_testing.Handlers.{Surroundings, write_json, run}
use distributed_load_testing.Handlers.Public.{create_test_run, target_allowed}
use distributed_load_testing.Handlers.Fanout.{create_test_run-publishes}
use distributed_load_testing.Api.{Call, post_run, get_run, cancel_run, serve, serve_all}
use distributed_load_testing.Api.Retrieve.{SameConfig, create-serve_all-get}
use distributed_load_testing.Examples.{
  strings_a, store_a, request_a, handler_a, world_a, calm, store_a-IsKeyed, admission_a,
}

posted_a : (serve handler_a calm world_a (post_run (ok request_a))).1.code ≡ 201
unfolding serve
posted_a =
    (create_test_run-publishes handler_a 9 (λ _. false) world_a request_a request_a admission_a.0
      admission_a.1 (inr admission_a.2)).0

abbrev calls_a : List (Surroundings × Call Cents)
calls_a = (calm, cancel_run (some (pos 3))) ∷ (calm, cancel_run (some (pos 2))) ∷ []

create-serve_all-get_example :
    let (w, resp) = serve handler_a calm world_a (post_run (ok request_a)) in
    (tr tr' : TestRun Cents) × (resp ≡ write_json 201 (run tr))
    × ((serve handler_a calm (serve_all handler_a w calls_a) (get_run (some (pos tr.id)))).1
        ≡ write_json 200 (run tr'))
    × SameConfig tr tr'
create-serve_all-get_example =
    create-serve_all-get handler_a calm calm world_a (ok request_a) calls_a store_a-IsKeyed
      (omega arith) refl posted_a

abbrev env_a : Environment
env_a _ = ""

allowed_a : target_allowed (new_handler strings_a (λ _. none) env_a) request_a.target_url ≡ true
unfolding target_allowed new_handler parse_host_set add_hosts split_commas getenv
allowed_a = refl

capped_a : count_where has_active store_a.runs < 10
unfolding count_where
capped_a = omega arith

room_a :
    ((new_handler strings_a (λ _. none) env_a).max_concurrent_runs ≤ℤ pos 0)
    ⊎ (count_where has_active store_a.runs
        < pos_part (new_handler strings_a (λ _. none) env_a).max_concurrent_runs)
unfolding new_handler getint
room_a = inr capped_a

created_a :
    (create_test_run (new_handler strings_a (λ _. none) env_a) calm world_a (ok request_a)).1.code
    ≡ 201
unfolding new_handler
created_a =
    (create_test_run-publishes (new_handler strings_a (λ _. none) env_a) 9 (λ _. false) world_a
      request_a request_a admission_a.0 allowed_a room_a).0

new_handler-create_example :
    let s' =
      (create_test_run
        (new_handler strings_a (λ _. none) env_a)
        calm
        world_a
        (ok request_a)).0.store in
    let cap = getint env_a (λ _. none) "MAX_CONCURRENT_RUNS" (pos 10) in
    (r : TestRun Cents) × (host : String) × (s'.runs ≡ store_a.runs ++ (r ∷ []))
    × (strings_a.hostname r.target_url ≡ some host)
    × (strings_a.to_lower host ≢ "")
    × IsListed strings_a (strings_a.to_lower host) (split_commas (allowed_hosts env_a))
    × IsRoom cap calm store_a s'
new_handler-create_example =
    new_handler-create strings_a (λ _. none) env_a calm world_a (ok request_a) created_a

given_a : (serve handler_a calm world_a (Call.start_shard (some (pos 3)))).1.code ≡ 200
unfolding serve start_shard_handler start_shard claim_shard find? update_where
given_a = refl

abbrev retries_a : List (Surroundings × Call Cents)
retries_a = (calm, Call.takeover_shard_call (some (pos 3))) ∷ []

start_shard_once_example :
    let w' =
      serve_all handler_a
        (serve handler_a calm world_a (Call.start_shard (some (pos 3)))).0
        retries_a in
    (serve handler_a calm w' (Call.start_shard (some (pos 3)))).1.code ≢ 200
start_shard_once_example =
    start_shard_once handler_a calm calm world_a 3 retries_a store_a-IsKeyed given_a

abbrev retry_a : Call Cents
retry_a = Call.takeover_shard_call (some (pos 42))

routed-path_of_example : routed (path_of retry_a) ≡ some (endpoint_of retry_a)
routed-path_of_example = routed-path_of retry_a (omega arith)
