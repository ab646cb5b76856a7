-- ===== src/Worker/Group.antt =====
-- What a worker relies on of a Redis consumer group: how the commands of worker/cmd/worker/main.go
-- change the pending messages. Times are milliseconds.
use distributed_load_testing.Common.{
  ℕ, suc, ◌+◌, ◌-◌, ◌≤◌, ◌<◌, ◌≡◌, ◌≢◌, Bool, true, false, Option, some, none,
}

pub record Group : Type 1 where
  pub State : Type 0
  -- How long a message has been idle at a time; `none` for one that is not pending.
  pub idle : State → ℕ → ℕ → Option ℕ
  -- The delivery counter of a message.
  pub deliveries : State → ℕ → ℕ
  -- XCLAIM JUSTID with MINIDLE 0, at a time, of a message.
  pub touch : State → ℕ → ℕ → State
  -- XCLAIM at a time, with a MINIDLE, of a message; whether it is given.
  pub xclaim : State → ℕ → ℕ → ℕ → State × Bool
  pub xack : State → ℕ → State
  -- Whether XPENDING at a time, with an IDLE, lists a message, and with which count.
  pub xpending : State → ℕ → ℕ → ℕ → Option ℕ
  -- Idle time grows with the clock.
  pub idle_later :
      (g : State) (t t' m n : ℕ) → t ≤ t' → idle g t m ≡ some n → idle g t' m ≡ some (n + (t' - t))
  -- JUSTID resets the idle time of its message, and leaves the counter.
  pub idle-touch : (g : State) (t m n : ℕ) → idle g t m ≡ some n → idle (touch g t m) t m ≡ some 0
  pub deliveries-touch : (g : State) (t m j : ℕ) → deliveries (touch g t m) j ≡ deliveries g j
  -- A message that is not pending stays so.
  pub touch_gone :
      (g : State) (t m : ℕ)
      → ((t' : ℕ) → idle g t' m ≡ none)
      → (t' : ℕ) → idle (touch g t m) t' m ≡ none
  -- A claim gives what has been idle for long enough, which resets its idle time and counts as a
  -- delivery; otherwise it does nothing.
  pub xclaim_old :
      (g : State) (t min m n : ℕ)
      → idle g t m ≡ some n
      → min ≤ n
      → let (g', given) = xclaim g t min m in
        (given ≡ true) × (idle g' t m ≡ some 0) × (deliveries g' m ≡ suc (deliveries g m))
  pub xclaim_young :
      (g : State) (t min m n : ℕ) → idle g t m ≡ some n → n < min → xclaim g t min m ≡ (g, false)
  -- Commands for one message leave the others alone.
  pub xclaim_other :
      (g : State) (t t' min m j : ℕ) → m ≢ j → idle (xclaim g t min m).0 t' j ≡ idle g t' j
  pub xack_other : (g : State) (t' m j : ℕ) → m ≢ j → idle (xack g m) t' j ≡ idle g t' j
  pub xack_gone : (g : State) (t m : ℕ) → idle (xack g m) t m ≡ none
  -- Only messages that are pending and idle for long enough are listed, with their counters.
  pub xpending_listed :
      (g : State) (t min m c : ℕ)
      → xpending g t min m ≡ some c
      → (n : ℕ) × (idle g t m ≡ some n) × (min ≤ n) × (c ≡ deliveries g m)
