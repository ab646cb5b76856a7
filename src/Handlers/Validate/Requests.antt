-- ===== src/Handlers/Validate/Requests.antt =====
-- `validateCreate` of backend/internal/handlers/test_runs.go accepts exactly the admissible requests.
use Prim.Native.String.{len}
use text.Mathlib.Text.{◌==◌ as str_eq, starts_with}
use distributed_load_testing.Common.{
  ok-injective, >>=-eq-ok, fail_if-ok, ◌^◌, ◌≤◌, ◌≡◌, sym, ◌↔◌, true, false, not, ◌||◌, ok, arith,
  length, String,
}
use distributed_load_testing.Common.Int.{ℤ, pos, ◌≤ℤ◌}
use distributed_load_testing.Models.{Headers, CreateTestRunRequest}
use distributed_load_testing.Handlers.{Strings}
use distributed_load_testing.Handlers.Validate.{
  trimmed, with_method, with_shards, allowed_method, check_basics, check_shards, check_shape,
  normalized, validate_create,
}

-- What the limits at the top of the file ask of a request.
pub record HasBasics (name target_url : String) (users duration : ℤ) : Type 0 where
  pub named : str_eq name "" ≡ false
  pub targeted : str_eq target_url "" ≡ false
  pub http : (starts_with target_url "http://" || starts_with target_url "https://") ≡ true
  pub users_min : pos 1 ≤ℤ users
  pub users_max : users ≤ℤ pos 1000
  pub duration_min : pos 1 ≤ℤ duration
  pub duration_max : duration ≤ℤ pos 3600

pub record HasShape (headers : Headers) (body : String) (think : ℤ) : Type 0 where
  pub few_headers : length headers ≤ 50
  pub short_body : len body ≤ 2 ^ 20
  pub think_min : pos 0 ≤ℤ think
  pub think_max : think ≤ℤ pos 60_000

pub record IsAdmissible (req : CreateTestRunRequest) : Type 0 where
  pub basics : HasBasics req.name req.target_url req.virtual_users req.duration_seconds
  pub method : allowed_method req.method ≡ true
  pub shards_min : pos 1 ≤ℤ req.shards
  pub shards_max : req.shards ≤ℤ pos 64
  pub shards_users : req.shards ≤ℤ req.virtual_users
  pub shape : HasShape req.headers req.body req.think_time_ms

check_basics_iff :
    (req : CreateTestRunRequest)
    → (check_basics req ≡ ok tt)
      ↔ HasBasics req.name req.target_url req.virtual_users req.duration_seconds
unfolding check_basics
check_basics_iff req = ground arith

check_shape_iff :
    (req : CreateTestRunRequest)
    → (check_shape req ≡ ok tt) ↔ HasShape req.headers req.body req.think_time_ms
unfolding check_shape
check_shape_iff req = ground arith

check_shards_iff :
    (shards users : ℤ)
    → (check_shards shards users ≡ ok tt)
      ↔ ((pos 1 ≤ℤ shards) × (shards ≤ℤ pos 64) × (shards ≤ℤ users))
unfolding check_shards
check_shards_iff shards users = ground arith

module _ (strings : Strings) where
  -- A request is accepted exactly when its normal form is admissible, and then the normal form is
  -- what goes on: names and URLs trimmed, the method in capitals with GET for none, one shard for 0.
  pub validate_create_iff :
      (req r : CreateTestRunRequest)
      → (validate_create strings req ≡ ok r)
        ↔ ((r ≡ normalized strings req) × IsAdmissible (normalized strings req))
  unfolding validate_create
  validate_create_iff req r = (
    λ e.
        let (u, basics, e1) = >>=-eq-ok (check_basics (trimmed strings req)) _ e in
        let (method, e2) =
          fail_if-ok (not (allowed_method (with_method strings req).method)) _ _ e1 in
        let (v, shards, e3) =
          >>=-eq-ok (check_shards (with_shards strings req).shards req.virtual_users) _ e2 in
        let (w, shape, e4) = >>=-eq-ok (check_shape req) _ e3 in
        let has_basics = (check_basics_iff (trimmed strings req)).0 basics in
        let (few, many, users) = (check_shards_iff _ _).0 shards in
        let has_shape = (check_shape_iff req).0 shape in
        (
          sym (ok-injective e4),
          record {
            basics = has_basics;
            method = ground arith;
            shards_min = few;
            shards_max = many;
            shards_users = users;
            shape = has_shape;
          },
        ),
    λ h.
        let (is_r, a) = h in
        rw (
          (check_basics_iff (trimmed strings req)).1 a.basics,
          a.method,
          (check_shards_iff _ _).1 (a.shards_min, a.shards_max, a.shards_users),
          (check_shape_iff req).1 a.shape,
          is_r,
        ),
  )
