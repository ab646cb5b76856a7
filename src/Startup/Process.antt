-- ===== src/Startup/Process.antt =====
-- The start and the end of the backend: backend/cmd/api/main.go, with Connect of backend/internal/db/db.go
-- and of backend/internal/queue/publisher.go. A process is the parts that it opens and closes, and its
-- exit code; `log.Fatalf` ends it with code 1 and runs no deferred call.
use Prim.Native.String.{◌++◌ as str_append}
use distributed_load_testing.Common.{
  ℕ, ◌≡◌, ◌⊎◌, refl, inl, inr, Bool, true, false, Option, none, some, List, [], ◌∷◌, ◌++◌, String,
  Result, ok, err, if◌then◌else◌,
}

pub data Part : Type 0 where
  pool redis api_server metrics_server : Part

pub data Effect : Type 0 where
  opens closes : Part → Effect

abbrev is_part : Part → Part → Bool
is_part pool pool = true
is_part redis redis = true
is_part api_server api_server = true
is_part metrics_server metrics_server = true
is_part _ _ = false

abbrev without_top : Part → List Part → Option (List Part)
without_top p [] = none
without_top p (q ∷ parts) = if is_part p q then some parts else none

-- What is open after some effects, the last opened first; `none` if they close anything else than that.
unfoldable pub left_open : List Part → List Effect → Option (List Part)
left_open parts [] = some parts
left_open parts (opens p ∷ es) = left_open (p ∷ parts) es
left_open parts (closes p ∷ es) = elim (without_top p parts) [
  | none ↦ none
  | some parts' ↦ left_open parts' es
]

-- `db.Connect`: how `sql.Open` and the ping end.
unfoldable pub db_connect :
    Result String (Unit {0}) → Result String (Unit {0}) → List Effect × Result String (Unit {0})
db_connect (err e) ping = ([], err (str_append "open database: " e))
db_connect (ok _) (err e) = (opens pool ∷ closes pool ∷ [], err (str_append "ping database: " e))
db_connect (ok _) (ok _) = (opens pool ∷ [], ok tt)

-- `queue.Connect`: the client opens nothing that can fail before its ping.
unfoldable pub redis_connect :
    String → Result String (Unit {0}) → List Effect × Result String (Unit {0})
redis_connect addr (err e) = (
  opens redis ∷ closes redis ∷ [],
  err (str_append (str_append (str_append "ping redis at " addr) ": ") e),
)
redis_connect addr (ok _) = (opens redis ∷ [], ok tt)

-- How the wait of main ends: the server dies, or a signal comes, after which Shutdown ends in time or
-- not.
pub data Ending : Type 0 where
  server_error : String → Ending
  signalled : Bool → Ending

-- What main meets.
pub record Circumstances : Type 0 where
  pub redis_addr : String
  pub sql_open : Result String (Unit {0})
  pub db_ping : Result String (Unit {0})
  pub redis_ping : Result String (Unit {0})
  pub ending : Ending

-- The server, and the deferred calls of main after a signal.
abbrev serve_until : Ending → List Effect × ℕ
serve_until (server_error e) = (opens api_server ∷ [], 1)
serve_until (signalled in_time) =
    (opens api_server ∷ closes api_server ∷ closes redis ∷ closes pool ∷ [], 0)

abbrev and_then : List Effect → List Effect × ℕ → List Effect × ℕ
and_then before (after, code) = (before ++ after, code)

unfoldable pub backend_main : Circumstances → List Effect × ℕ
backend_main c =
    let (opening, connected) = db_connect c.sql_open c.db_ping in
    elim connected [
      | err e ↦ (opening, 1)
      | ok _ ↦
          let (opening', connected') = redis_connect c.redis_addr c.redis_ping in
          and_then opening (elim connected' [
            | err e ↦ (opening', 1)
            | ok _ ↦ and_then opening' (serve_until c.ending)
          ])
    ]

-- A signal comes to a backend that serves.
abbrev IsStopped : Circumstances → Type 0
IsStopped c =
    (c.sql_open ≡ ok tt)
    × (c.db_ping ≡ ok tt)
    × (c.redis_ping ≡ ok tt)
    × ((in_time : Bool) × (c.ending ≡ signalled in_time))

abbrev pub IsEnd : Circumstances → List Effect × ℕ → Type 0
IsEnd c (es, code) =
    (stack : List Part) × (left_open [] es ≡ some stack)
    × ((IsStopped c × (code ≡ 0) × (stack ≡ []))
        ⊎ ((code ≡ 1)
            × ((stack ≡ []) ⊎ (stack ≡ pool ∷ []) ⊎ (stack ≡ api_server ∷ redis ∷ pool ∷ []))))

ends :
    (addr : String) (sql_open db_ping redis_ping : Result String (Unit {0})) (ending : Ending)
    → let c : Circumstances = record {
      redis_addr = addr;
      sql_open = sql_open;
      db_ping = db_ping;
      redis_ping = redis_ping;
      ending = ending;
    } in
      IsEnd c (backend_main c)
unfolding backend_main db_connect redis_connect left_open
ends addr (err e) db_ping redis_ping ending = ([], refl, inr (refl, inl refl))
ends addr (ok _) (err e) redis_ping ending = ([], refl, inr (refl, inl refl))
ends addr (ok _) (ok _) (err e) ending = (pool ∷ [], refl, inr (refl, inr (inl refl)))
ends addr (ok _) (ok _) (ok _) (server_error e) =
    (api_server ∷ redis ∷ pool ∷ [], refl, inr (refl, inr (inr refl)))
ends addr (ok _) (ok _) (ok _) (signalled in_time) =
    ([], refl, inl ((refl, refl, refl, (in_time, refl)), refl, refl))

-- The backend closes only what it has opened last. It ends with code 0, and then with nothing left
-- open, after a signal to a backend that has its two connections and serves; otherwise with code 1, and
-- then it leaves open nothing, the database, or all of its parts.
pub backend_main-IsEnd : (c : Circumstances) → IsEnd c (backend_main c)
unfolding backend_main db_connect redis_connect left_open
backend_main-IsEnd c = ends c.redis_addr c.sql_open c.db_ping c.redis_ping c.ending
