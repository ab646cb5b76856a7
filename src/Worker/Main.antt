-- ===== src/Worker/Main.antt =====
-- main of worker/cmd/worker/main.go: the settings, the start, the loop of Jobs, and the end.
use text.Mathlib.Text.{◌==◌ as str_eq}
use distributed_load_testing.Api.Traces.{Settled}
use distributed_load_testing.Common.{
  ℕ, ◌≡◌, ◌⊎◌, Option, none, some, List, [], ◌∷◌, String, Result, ok, err, if◌then◌else◌,
}
use distributed_load_testing.Common.Int.{ℤ, pos}
use distributed_load_testing.Float.{Float}
use distributed_load_testing.Handlers.{Handler, World}
use distributed_load_testing.Startup.{Environment, getint}
use distributed_load_testing.Startup.Process.{
  Part, redis, metrics_server, Effect, opens, closes, left_open,
}
use distributed_load_testing.Worker.Jobs.{Command, Turn, consume}

-- Durations are nanoseconds.
pub record Settings : Type 0 where
  pub reclaim_min_idle : ℤ
  pub max_deliveries : ℤ
  pub heartbeat_interval : ℤ

-- `parse` is `time.ParseDuration`, with `none` for its error.
unfoldable pub getdur : Environment → (String → Option ℤ) → String → ℤ → ℤ
getdur env parse key fallback =
    if str_eq (env key) ""
    then fallback
    else elim (parse (env key)) [ none ↦ fallback | some d ↦ d ]

unfoldable pub settings : Environment → (String → Option ℤ) → (String → Option ℤ) → Settings
settings env atoi parse = record {
  reclaim_min_idle = getdur env parse "RECLAIM_MIN_IDLE" (pos 15000000000);
  max_deliveries = getint env atoi "MAX_DELIVERIES" (pos 5);
  heartbeat_interval = getdur env parse "HEARTBEAT_INTERVAL" (pos 2000000000);
}

-- How XGROUP CREATE ends; an error that contains BUSYGROUP means that the group is there.
pub data GroupReply : Type 0 where
  created busy_group : GroupReply
  refused : String → GroupReply

-- What main meets: the answers of Redis, and the rounds until a signal comes.
pub record Start (F : Type 0) : Type 0 where
  pub redis_ping : Result String (Unit {0})
  pub group : GroupReply
  pub turns : List (Turn F)

-- What a worker leaves behind: the tables, its commands, what it opened and closed, its exit code.
pub record Left (F : Type 0) : Type 0 where
  pub world : World F
  pub commands : List Command
  pub effects : List Effect
  pub code : ℕ

module _ {F : Type 0} ⦃f : Float F⦄ where
  -- `log.Fatalf` runs no deferred call.
  abbrev fatal : World F → Left F
  fatal w = record {
    world = w;
    commands = [];
    effects = opens metrics_server ∷ opens redis ∷ [];
    code = 1;
  }

  -- The loop, and the deferred calls after it.
  abbrev loop : Handler → Settings → World F → List (Turn F) → Left F
  loop h s w turns =
      let (w', sent) = consume h s.max_deliveries w turns in
      record {
        world = w';
        commands = sent;
        effects = opens metrics_server ∷ opens redis ∷ closes redis ∷ closes metrics_server ∷ [];
        code = 0;
      }

  abbrev joined : Handler → Settings → World F → List (Turn F) → GroupReply → Left F
  joined h s w turns created = loop h s w turns
  joined h s w turns busy_group = loop h s w turns
  joined h s w turns (refused e) = fatal w

  unfoldable pub worker_main : Handler → Settings → World F → Start F → Left F
  worker_main h s w start = elim start.redis_ping [
    | err e ↦ fatal w
    | ok _ ↦ joined h s w start.turns start.group
  ]

  -- The start went well; or it did not.
  abbrev pub HasJoined : Start F → Type 0
  HasJoined start =
      (start.redis_ping ≡ ok tt) × ((start.group ≡ created) ⊎ (start.group ≡ busy_group))

  abbrev pub IsRefused : Start F → Type 0
  IsRefused start = (e : String) × ((start.redis_ping ≡ err e) ⊎ (start.group ≡ refused e))

  abbrev pub IsEnd : Handler → Settings → World F → Start F → Left F → Type 0
  IsEnd h s w start left =
      Settled w.store left.world.store
      × (stack : List Part) × (left_open [] left.effects ≡ some stack)
      × (((left.code ≡ 0)
            × HasJoined start
            × (stack ≡ [])
            × ((left.world, left.commands) ≡ consume h s.max_deliveries w start.turns))
          ⊎ ((left.code ≡ 1) × IsRefused start × (left.world ≡ w) × (left.commands ≡ [])))
