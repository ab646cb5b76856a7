-- ===== src/System/Shards.antt =====
-- What a request of a worker changes: the row of the shard that it names, and the row of a run.
use distributed_load_testing.Common.{
  ℕ, ◌≡◌, ◌≢◌, ◌⊎◌, refl, inl, inr, Bool, true, false, ◌==◌, ==_iff, none, some, List, [], ◌∷◌, All,
  All-imp, arith, ◌≤◌, Bool-cases,
}
use distributed_load_testing.Common.Table.{find?, update_where, update_where-id, Grows-find?}
use distributed_load_testing.Models.{Status, TestRun, is_open, is_running, is_queued}
use distributed_load_testing.Store.{Shard, Store, has_run_id, shard_where}
use distributed_load_testing.Store.Shards.{start_guard}
use distributed_load_testing.Store.Lifecycle.{RunStep, IsNewRun, Evolves, IsKeyed}
use distributed_load_testing.Store.Closing.{HasRuns, no_shard}

neither : (st : Status) → is_queued st ≡ false → is_running st ≡ false → is_open st ≡ false
neither st q r = ground arith

module _ {F : Type 0} where
  -- No shard with the number n is in such a state.
  abbrev pub HasNone : (Status → Bool) → ℕ → Store F → Type 0
  HasNone guard n s = find? (shard_where n guard) s.shards ≡ none

  -- A statement that writes open shards with the number n.
  pub record IsWrite (n : ℕ) (guard : Status → Bool) (set : Shard F → Shard F) : Type 0 where
    pub opens : (st : Status) → guard st ≡ true → is_open st ≡ true
    pub same_id : (sh : Shard F) → (set sh).id ≡ sh.id
    pub same_run : (sh : Shard F) → (set sh).run_id ≡ sh.run_id

  -- The shards are the same, or those with the number n are written; no number is taken.
  abbrev pub Writes : ℕ → Store F → Store F → Type 0
  Writes n s s' =
      (s'.next_shard ≡ s.next_shard)
      × ((s'.shards ≡ s.shards)
          ⊎ ((guard : Status → Bool) × (set : Shard F → Shard F) × IsWrite n guard set
              × (s'.shards ≡ update_where (shard_where n guard) set s.shards)))

  weaker_guard :
      (guard wider : Status → Bool) (n : ℕ) (shs : List (Shard F))
      → ((st : Status) → guard st ≡ true → wider st ≡ true)
      → find? (shard_where n wider) shs ≡ none
      → find? (shard_where n guard) shs ≡ none
  unfolding find?
  weaker_guard guard wider n [] h e = refl
  weaker_guard guard wider n (sh ∷ shs) h e =
      ground (arith, h sh.status, weaker_guard guard wider n shs h)

  update-other :
      (n j : ℕ) (guard wanted : Status → Bool) (set : Shard F → Shard F) (shs : List (Shard F))
      → j ≢ n
      → ((sh : Shard F) → (set sh).id ≡ sh.id)
      → find? (shard_where j wanted) shs ≡ none
      → find? (shard_where j wanted) (update_where (shard_where n guard) set shs) ≡ none
  unfolding find? update_where
  update-other n j guard wanted set [] apart same e = refl
  update-other n j guard wanted set (sh ∷ shs) apart same e =
      let rest = update-other n j guard wanted set shs apart same in
      ground (arith, rest, same sh, apart)

  pub Writes-other :
      (n j : ℕ) (wanted : Status → Bool) (s s' : Store F)
      → Writes n s s'
      → j ≢ n
      → HasNone wanted j s
      → HasNone wanted j s'
  Writes-other n j wanted s s' (_, inl same) apart e = rw same e
  Writes-other n j wanted s s' (_, inr (guard, set, w, same)) apart e =
      rw same (update-other n j guard wanted set s.shards apart w.same_id e)

  -- Closed shards stay closed.
  pub Writes-closed :
      (n j : ℕ) (s s' : Store F) → Writes n s s' → HasNone is_open j s → HasNone is_open j s'
  Writes-closed n j s s' (_, inl same) e = rw same e
  Writes-closed n j s s' (next, inr (guard, set, w, same)) e = elim (Bool-cases (j == n)) [
    | inr other ↦
        Writes-other n j is_open s s' (next, inr (guard, set, w, same)) (λ q. ground arith) e
    | inl this ↦
        let is_n : j ≡ n = (==_iff j n).0 this in
        let closed : find? (shard_where n is_open) s.shards ≡ none = rw is_n at e in
        rw
          (
            is_n,
            same,
            update_where-id (shard_where n guard) set s.shards
                (weaker_guard guard is_open n s.shards w.opens closed),
          )
          closed
  ]

  -- The runs stay in the table.
  pub keep_runs :
      (s s' : Store F)
      → Evolves s s'
      → (shs : List (Shard F))
      → All (λ sh. (r : TestRun F) × (find? (has_run_id sh.run_id) s.runs ≡ some r)) shs
      → All (λ sh. (r : TestRun F) × (find? (has_run_id sh.run_id) s'.runs ≡ some r)) shs
  keep_runs s s' ev shs =
      All-imp _ _
        (λ sh (r, found).
          let (r', found', _) =
            Grows-find? (λ (r : TestRun F). r.id) RunStep IsNewRun (λ _ _ st. st.same_id) sh.run_id
              s.runs s'.runs r ev.runs found in
          (r', found'))
        shs

  write_runs :
      (rs : List (TestRun F)) (p : Shard F → Bool) (set : Shard F → Shard F)
      → ((sh : Shard F) → (set sh).run_id ≡ sh.run_id)
      → (shs : List (Shard F))
      → All (λ sh. (r : TestRun F) × (find? (has_run_id sh.run_id) rs ≡ some r)) shs
      → All
          (λ sh. (r : TestRun F) × (find? (has_run_id sh.run_id) rs ≡ some r))
          (update_where p set shs)
  unfolding update_where
  write_runs rs p set same [] h = tt
  write_runs rs p set same (sh ∷ shs) h = (
    elim (Bool-cases (p sh)) [ inl e ↦ rw (e, same sh) h.0 | inr e ↦ rw e h.0 ],
    write_runs rs p set same shs h.1,
  )

  pub Writes-HasRuns :
      (n : ℕ) (s s' : Store F) → Evolves s s' → Writes n s s' → HasRuns s → HasRuns s'
  Writes-HasRuns n s s' ev (_, inl same) runs = rw same (keep_runs s s' ev s.shards runs)
  Writes-HasRuns n s s' ev (_, inr (guard, set, w, same)) runs = rw same (
      write_runs s'.runs (shard_where n guard) set w.same_run s.shards
        (keep_runs s s' ev s.shards runs))

  pub unused_number :
      (n : ℕ) (guard : Status → Bool) (s : Store F)
      → IsKeyed s
      → s.next_shard ≤ n
      → HasNone guard n s
  unused_number n guard s keyed above =
      no_shard n guard s.shards (All-imp _ _ (λ sh h q. omega arith) s.shards keyed.shard_ids_used)

  -- Neither queued nor running.
  both_closed :
      (n : ℕ) (shs : List (Shard F))
      → find? (shard_where n is_queued) shs ≡ none
      → find? (shard_where n is_running) shs ≡ none
      → find? (shard_where n is_open) shs ≡ none
  unfolding find?
  both_closed n [] q r = refl
  both_closed n (sh ∷ shs) q r = ground (arith, neither sh.status, both_closed n shs)

  pub refused-closed :
      (reclaimed : Bool) (n : ℕ) (s : Store F)
      → find? (shard_where n (start_guard reclaimed)) s.shards ≡ none
      → (reclaimed ≡ false → HasNone is_running n s)
      → HasNone is_open n s
  refused-closed true n s e h = e
  refused-closed false n s e h = both_closed n s.shards e (h refl)
