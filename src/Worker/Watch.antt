-- ===== src/Worker/Watch.antt =====
-- worker/cmd/worker/main.go: watchCancel, which stops the load of a run that is cancelled.
use mathlib.Core.Bool.{true≢false}
use distributed_load_testing.Common.{
  ℕ, zero, suc, ◌<◌, ◌≡◌, refl, sym, ◌⊎◌, inl, inr, Bool, true, false, some, List, [], ◌∷◌, ◌++◌,
  arith, Bool-cases, Option-cases, if◌then◌else◌,
}
use distributed_load_testing.Common.Int.{ℤ, pos}
use distributed_load_testing.Common.Table.{find?, Grows-find?}
use distributed_load_testing.Float.{Float}
use distributed_load_testing.Models.{Status, TestRun}
use distributed_load_testing.Store.{Store, select, has_run_id}
use distributed_load_testing.Store.Runs.{get_by_id}
use distributed_load_testing.Store.Lifecycle.{may_move, RunStep, IsNewRun, IsKeyed}
use distributed_load_testing.Handlers.{Handler, World, Surroundings, Response}
use distributed_load_testing.Handlers.Public.{get_test_run, answer_run}
use distributed_load_testing.Api.{Call, get_run, serve, serve_all}
use distributed_load_testing.Api.Traces.{serve-Sound, serve_all-Settled}
use distributed_load_testing.Worker.Calls.{serve_all-append}
use distributed_load_testing.Api.Retrieve.{get_found}
use distributed_load_testing.Worker.{
  Trip, Link, lost, reply_lost, garbled, delivered, Received, answer, send, send_over,
}
use distributed_load_testing.Worker.Client.{claimed, read_claim, decode_status, run_status}
use distributed_load_testing.Worker.Jobs.{stops_load}

-- What is met up to one tick: the requests of others, and the trip of the poll.
pub record Tick (F : Type 0) : Type 0 where
  pub meanwhile : List (Surroundings × Call F)
  pub polling : Trip

module _ {F : Type 0} ⦃f : Float F⦄ where
  -- The ticks until the job is over, and whether one of them stopped the load.
  unfoldable pub watch_cancel : Handler → ℤ → World F → List (Tick F) → Bool
  watch_cancel h run_id w [] = false
  watch_cancel h run_id w (t ∷ ticks) =
      let (w', status) = run_status h t.polling (serve_all h w t.meanwhile) run_id in
      let rest = watch_cancel h run_id w' ticks in if stops_load status then true else rest

-- Whether a poll is answered, and the answer comes back.
abbrev pub IsHeard : Trip → Type 0
IsHeard t = (t.link ≡ delivered) × (t.surroundings.db select ≡ false)

-- One of the polls is heard.
abbrev pub SomeHeard : {F : Type 0} → List (Tick F) → Type 0
SomeHeard [] = ⊥
SomeHeard (t ∷ ticks) = IsHeard t.polling ⊎ SomeHeard ticks

-- The requests of others, in their order.
abbrev pub calls_of : {F : Type 0} → List (Tick F) → List (Surroundings × Call F)
calls_of [] = []
calls_of (t ∷ ticks) = t.meanwhile ++ calls_of ticks

stays_cancelled :
    (a b : Status)
    → may_move a b ≡ true
    → stops_load (claimed a) ≡ true
    → stops_load (claimed b) ≡ true
stays_cancelled a b m c = ground arith

module _ {F : Type 0} where
  -- The run is cancelling or cancelled.
  abbrev pub IsCancelled : ℕ → Store F → Type 0
  IsCancelled k s =
      (r : TestRun F) × (find? (has_run_id k) s.runs ≡ some r)
      × (stops_load (claimed r.status) ≡ true)

  RunStep-stays :
      (r r' : TestRun F)
      → RunStep r r'
      → stops_load (claimed r.status) ≡ true
      → stops_load (claimed r'.status) ≡ true
  RunStep-stays r r' st c = elim st.moved [
    | inl same ↦ rw same c
    | inr m ↦ stays_cancelled r.status r'.status m c
  ]

  unheard :
      (r : Response F)
      → stops_load (read_claim (λ _. false) decode_status (Received.no_body r)) ≡ true
      → ⊥
  unfolding read_claim
  unheard r c = ground arith

  -- What a poll tells is so.
  status_told :
      (e : Surroundings) (s : Store F) (k : ℕ)
      → stops_load
          (read_claim (λ _. false) decode_status (answer (get_test_run e s (some (pos k)))))
        ≡ true
      → IsCancelled k s
  unfolding get_test_run get_by_id answer_run read_claim
  status_told e s zero c = absurd (ground arith)
  status_told e s (suc k) c = elim (Bool-cases (e.db select)) [
    | inl down ↦ absurd (true≢false (sym (rw (down, get_test_run) at c)))
    | inr up ↦ elim (Option-cases (find? (has_run_id (suc k)) s.runs)) [
      | inl m ↦ absurd (true≢false (sym (rw (up, m, get_test_run) at c)))
      | inr (r, m) ↦ (r, m, rw (up, m, get_test_run) at c)
    ]
  ]

module _ {F : Type 0} ⦃f : Float F⦄ where
  serve-IsCancelled :
      (h : Handler) (e : Surroundings) (w : World F) (call : Call F) (k : ℕ)
      → IsKeyed w.store
      → IsCancelled k w.store
      → IsCancelled k (serve h e w call).0.store
  serve-IsCancelled h e w call k keyed (r, found, c) =
      let (r', found', st) =
        Grows-find? (λ (r : TestRun F). r.id) RunStep IsNewRun (λ _ _ st. st.same_id) k _ _ r
          (serve-Sound h e w call keyed).0.runs found in
      (r', found', RunStep-stays r r' st c)

  serve_all-IsCancelled :
      (h : Handler) (w : World F) (calls : List (Surroundings × Call F)) (k : ℕ)
      → IsKeyed w.store
      → IsCancelled k w.store
      → IsKeyed (serve_all h w calls).store × IsCancelled k (serve_all h w calls).store
  unfolding serve_all
  serve_all-IsCancelled h w [] k keyed c = (keyed, c)
  serve_all-IsCancelled h w ((e, call) ∷ calls) k keyed c =
      serve_all-IsCancelled h (serve h e w call).0 calls k (serve-Sound h e w call keyed).1
        (serve-IsCancelled h e w call k keyed c)

  link_keeps :
      (link : Link) (h : Handler) (e : Surroundings) (w : World F) (id : ℤ)
      → (send_over link h e w (get_run (some id))).0 ≡ w
  unfolding send_over serve
  link_keeps lost h e w id = refl
  link_keeps reply_lost h e w id = refl
  link_keeps garbled h e w id = refl
  link_keeps delivered h e w id = refl

  link_told :
      (link : Link) (h : Handler) (e : Surroundings) (w : World F) (k : ℕ)
      → stops_load
          (read_claim (λ _. false) decode_status (send_over link h e w (get_run (some (pos k)))).1)
        ≡ true
      → IsCancelled k w.store
  unfolding send_over serve read_claim
  link_told lost h e w k c = absurd (true≢false (sym c))
  link_told reply_lost h e w k c = absurd (true≢false (sym c))
  link_told garbled h e w k c = absurd (unheard (serve h e w (get_run (some (pos k)))).1 c)
  link_told delivered h e w k c = status_told e w.store k c

  run_status-keeps : (h : Handler) (t : Trip) (w : World F) (id : ℤ) → (run_status h t w id).0 ≡ w
  unfolding run_status send
  run_status-keeps h t w id = link_keeps t.link h t.surroundings w id

  -- A poll stops the load only of a cancelled run.
  run_status-told :
      (h : Handler) (t : Trip) (w : World F) (k : ℕ)
      → stops_load (run_status h t w (pos k)).1 ≡ true
      → IsCancelled k w.store
  unfolding run_status send
  run_status-told h t w k c = link_told t.link h t.surroundings w k c

  run_status-sees :
      (h : Handler) (t : Trip) (w : World F) (k : ℕ)
      → 0 < k
      → IsHeard t
      → IsCancelled k w.store
      → stops_load (run_status h t w (pos k)).1 ≡ true
  unfolding run_status send send_over serve read_claim
  run_status-sees h t w k p (arrives, up) (r, found, c) =
      rw (arrives, get_found t.surroundings w.store k r p up found) c

  serve_all-IsKeyed :
      (h : Handler) (w : World F) (calls : List (Surroundings × Call F))
      → IsKeyed w.store
      → IsKeyed (serve_all h w calls).store
  serve_all-IsKeyed h w calls keyed = (serve_all-Settled h w calls keyed).1

  -- watchCancel stops the load only if, once the requests up to the last tick are served, the run is
  -- cancelling or cancelled; ids are distinct before.
  pub watch_cancel-IsCancelled :
      (h : Handler) (k : ℕ) (w : World F) (ticks : List (Tick F))
      → IsKeyed w.store
      → watch_cancel h (pos k) w ticks ≡ true
      → IsCancelled k (serve_all h w (calls_of ticks)).store
  unfolding watch_cancel
  watch_cancel-IsCancelled h k w [] keyed stopped = absurd (true≢false (sym stopped))
  watch_cancel-IsCancelled h k w (t ∷ ticks) keyed stopped =
      let w1 = serve_all h w t.meanwhile in
      let keyed1 = serve_all-IsKeyed h w t.meanwhile keyed in
      let kept = run_status-keeps h t.polling w1 (pos k) in
      rw (serve_all-append h w t.meanwhile (calls_of ticks))
        (elim (Bool-cases (stops_load (run_status h t.polling w1 (pos k)).1)) [
          | inl c ↦
              (serve_all-IsCancelled h w1 (calls_of ticks) k keyed1
                (run_status-told h t.polling w1 k c)).1
          | inr c ↦ watch_cancel-IsCancelled h k w1 ticks keyed1 (rw (c, kept) at stopped)
        ])

  -- Once a run is cancelling or cancelled, watchCancel stops its load, whatever is requested in
  -- between: ids are distinct, the id is positive, and one poll before the job is over is answered by
  -- the database and its answer comes back.
  pub watch_cancel-stops :
      (h : Handler) (k : ℕ) (w : World F) (ticks : List (Tick F))
      → 0 < k
      → IsKeyed w.store
      → IsCancelled k w.store
      → SomeHeard ticks
      → watch_cancel h (pos k) w ticks ≡ true
  unfolding watch_cancel
  watch_cancel-stops h k w [] p keyed c heard = absurd heard
  watch_cancel-stops h k w (t ∷ ticks) p keyed c heard =
      let w1 = serve_all h w t.meanwhile in
      let (keyed1, c1) = serve_all-IsCancelled h w t.meanwhile k keyed c in
      let kept = run_status-keeps h t.polling w1 (pos k) in
      elim heard [
        | inl now ↦ rw (run_status-sees h t.polling w1 k p now c1) refl
        | inr later ↦
            let rest = watch_cancel-stops h k w1 ticks p keyed1 c1 later in
            elim (Bool-cases (stops_load (run_status h t.polling w1 (pos k)).1)) [
              | inl told ↦ rw told refl
              | inr quiet ↦ rw (quiet, kept) rest
            ]
      ]
