-- ===== src/Examples/Http.antt =====
-- Requests with a method, a path and a body. A body is what it encodes.
use distributed_load_testing.Common.{
  ◌≡◌, arith, refl, ap, sym, true, Result, ok, err, some, String, List, [], ◌∷◌,
}
use distributed_load_testing.Common.Int.{pos}
use distributed_load_testing.Float.{Cents, cents_float}
use distributed_load_testing.Models.{
  CreateTestRunRequest, CompleteTestRunRequest, CompleteShardRequest,
}
use distributed_load_testing.Api.{Call, serve}
use distributed_load_testing.Api.Routes.{Method, post}
use distributed_load_testing.Common.Decimal.{format_int}
use mathlib.Core.Option.{some-injective}
use distributed_load_testing.Api.Http.{Json, handled, respond}
use distributed_load_testing.Worker.Paths.{path_of}
use distributed_load_testing.Worker.Requests.{body_of, request_with, respond-request_with}
use distributed_load_testing.Examples.{handler_a, world_a, calm}

data Encoded : Type 0 where
  empty : Encoded
  create_body : CreateTestRunRequest → Encoded
  reason_body : String → Encoded
  complete_body : CompleteTestRunRequest Cents → Encoded
  partial_body : CompleteShardRequest Cents → Encoded

abbrev read_create : Encoded → Result String CreateTestRunRequest
read_create (create_body req) = ok req
read_create _ = err "EOF"

abbrev read_reason : Encoded → Result String String
read_reason (reason_body text) = ok text
read_reason _ = err "EOF"

abbrev read_complete : Encoded → Result String (CompleteTestRunRequest Cents)
read_complete (complete_body req) = ok req
read_complete _ = err "EOF"

abbrev read_partial : Encoded → Result String (CompleteShardRequest Cents)
read_partial (partial_body req) = ok req
read_partial _ = err "EOF"

complete_back :
    (req : CompleteTestRunRequest Cents) (b : Encoded)
    → some (complete_body req) ≡ some b
    → read_complete b ≡ ok req
complete_back req b e = ap read_complete (sym (some-injective _ _ e))

partial_back :
    (req : CompleteShardRequest Cents) (b : Encoded)
    → some (partial_body req) ≡ some b
    → read_partial b ≡ ok req
partial_back req b e = ap read_partial (sym (some-injective _ _ e))

abbrev json_a : Json Encoded Cents
json_a = record {
  read_create = read_create;
  read_reason = read_reason;
  read_complete = read_complete;
  read_partial = read_partial;
  no_body = empty;
  write_reason = reason_body;
  write_complete = λ req. some (complete_body req);
  write_partial = λ req. some (partial_body req);
  reads_reason = λ text. refl;
  reads_complete = complete_back;
  reads_partial = partial_back;
}

abbrev failed_a : Call Cents
failed_a = Call.fail_shard (some (pos 3)) (ok "connection refused")

abbrev path_a : Method × List String
path_a = (post, "internal" ∷ "shards" ∷ "3" ∷ "fail" ∷ [])

sent_a : path_of failed_a ≡ some path_a
unfolding path_of format_int
sent_a = refl

encoded_a : body_of json_a failed_a ≡ some (reason_body "connection refused")
unfolding body_of
encoded_a = refl

respond-request_with_example :
    respond json_a true handler_a calm world_a
      (request_with (reason_body "connection refused") path_a)
    ≡ ((serve handler_a calm world_a failed_a).0, handled (serve handler_a calm world_a failed_a).1)
respond-request_with_example =
    respond-request_with json_a true handler_a calm world_a failed_a path_a
      (reason_body "connection refused") (omega arith) sent_a encoded_a
