-- ===== src/Store/Closing.antt =====
-- After startShard refuses a shard, or finishShard has written it, no shard with its id is left in the
-- state that was asked for.
use mathlib.Core.Path.{subst}
use distributed_load_testing.Common.{
  ℕ, ◌≡◌, ◌≢◌, refl, sym, ap, ◌∙◌, ◌⊎◌, inl, inr, Bool, true, false, ◌==◌, ◌||◌, none, some, List,
  [], ◌∷◌, Result, ok, err, arith, All, Bool-cases, Option-cases, Result-cases, ==_iff,
  ok-injective, err-ne-ok, fail_if-ok, >>=-eq-ok,
}
use distributed_load_testing.Common.Table.{
  find?, find?-true, update_where, update_where-no_key, Distinct,
}
use distributed_load_testing.Float.{Float}
use distributed_load_testing.Models.{Status, TestRun, ShardAssignment}
use distributed_load_testing.Store.{
  StoreError, database, Shard, Store, Faults, begin, update, decode, flip, has_run_id, shard_where,
}
use distributed_load_testing.Store.Shards.{
  start_guard, shard_miss, claim_shard, finish_tx, finish_shard, barrier,
}
use distributed_load_testing.Store.Lifecycle.Barrier.{
  aggregate_run-ok, barrier-ok, finish_shard-cases,
}

module _ {F : Type 0} where
  -- Every shard's run is in the table, as its foreign key demands.
  abbrev pub HasRuns : Store F → Type 0
  HasRuns s = All (λ sh. (r : TestRun F) × (find? (has_run_id sh.run_id) s.runs ≡ some r)) s.shards

  pub All-find? :
      (P : Shard F → Type 0) (p : Shard F → Bool) (shs : List (Shard F)) (sh : Shard F)
      → All P shs
      → find? p shs ≡ some sh
      → P sh
  unfolding find?
  All-find? P p [] sh h e = absurd (cc)
  All-find? P p (x ∷ shs) sh h e = elim (Bool-cases (p x)) [
    | inl hit ↦ subst P (ground arith) h.0
    | inr miss ↦ All-find? P p shs sh h.1 (ground arith)
  ]

  -- With its run in the table, a shard in the right state is claimed, unless the database refuses.
  pub claim_shard-found :
      (db : Faults) (now : ℕ) (s : Store F) (id : ℕ) (allow : Bool) (miss : StoreError)
      (sh : Shard F)
      → HasRuns s
      → find? (shard_where id (start_guard allow)) s.shards ≡ some sh
      → ((claim_shard db now s id allow miss).1 ≡ err database)
        ⊎ ((a : ShardAssignment) × ((claim_shard db now s id allow miss).1 ≡ ok a)
            × (a.shard_id ≡ id))
  unfolding claim_shard
  claim_shard-found db now s id allow miss sh runs found =
      let (r, run_found) = All-find? _ _ s.shards sh runs found in
      let is_id : (sh.id == id) ≡ true = ground (arith, find?-true _ s.shards sh found) in
      elim (Bool-cases (db update)) [
        | inl e ↦ rw e (inl refl)
        | inr e ↦
            rw (e, found, run_found)
              (elim (Bool-cases (db decode || db flip)) [
                | inl d ↦ rw d (inl refl)
                | inr d ↦ rw d (inr (_, refl, (==_iff _ _).0 is_id))
              ])
      ]

  pub shard_miss-errs :
      (A : Type 0) (db : Faults) (s : Store F) (id : ℕ) (x : StoreError) (a : A)
      → shard_miss {A = A} db s id (err x) ≡ ok a
      → ⊥
  unfolding shard_miss
  shard_miss-errs A db s id x a e = ground arith

  pub claim_shard-unfound :
      (db : Faults) (now : ℕ) (s : Store F) (id : ℕ) (allow : Bool) (miss : StoreError)
      (a : ShardAssignment)
      → find? (shard_where id (start_guard allow)) s.shards ≡ none
      → (claim_shard db now s id allow miss).1 ≡ ok a
      → ⊥
  unfolding claim_shard
  claim_shard-unfound db now s id allow miss a m got = elim (Bool-cases (db update)) [
    | inl e ↦ err-ne-ok (rw e at got)
    | inr e ↦ shard_miss-errs ShardAssignment db s id miss a (rw (e, m) at got)
  ]

  claim_shard-missed :
      (db : Faults) (now : ℕ) (s : Store F) (id : ℕ) (allow : Bool) (miss : StoreError)
      → find? (shard_where id (start_guard allow)) s.shards ≡ none
      → (claim_shard db now s id allow miss).0 ≡ s
  unfolding claim_shard
  claim_shard-missed db now s id allow miss m = elim (Bool-cases (db update)) [
    | inl e ↦ rw e refl
    | inr e ↦ rw (e, m) refl
  ]

  -- A shard is refused only if none with its id is in the right state, and nothing is written.
  pub claim_shard-refused :
      (db : Faults) (now : ℕ) (s : Store F) (id : ℕ) (allow : Bool) (miss x : StoreError)
      → HasRuns s
      → x ≢ database
      → (claim_shard db now s id allow miss).1 ≡ err x
      → (find? (shard_where id (start_guard allow)) s.shards ≡ none)
        × ((claim_shard db now s id allow miss).0 ≡ s)
  claim_shard-refused db now s id allow miss x runs other refused =
      elim (Option-cases (find? (shard_where id (start_guard allow)) s.shards)) [
        | inl m ↦ (m, claim_shard-missed db now s id allow miss m)
        | inr (sh, m) ↦ elim (claim_shard-found db now s id allow miss sh runs m) [
          | inl e ↦ absurd (other (cc))
          | inr (_, e, _) ↦ absurd (err-ne-ok (sym refused ∙ e))
        ]
      ]

  -- A claimed shard is the one asked for.
  pub claim_shard-claimed :
      (db : Faults) (now : ℕ) (s : Store F) (id : ℕ) (allow : Bool) (miss : StoreError)
      (a : ShardAssignment)
      → HasRuns s
      → (claim_shard db now s id allow miss).1 ≡ ok a
      → a.shard_id ≡ id
  claim_shard-claimed db now s id allow miss a runs got =
      elim (Option-cases (find? (shard_where id (start_guard allow)) s.shards)) [
        | inl m ↦ absurd (claim_shard-unfound db now s id allow miss a m got)
        | inr (sh, m) ↦ elim (claim_shard-found db now s id allow miss sh runs m) [
          | inl e ↦ absurd (err-ne-ok (sym e ∙ got))
          | inr (b, e, is_id) ↦
              ap (λ (a : ShardAssignment). a.shard_id) (ok-injective (sym got ∙ e)) ∙ is_id
        ]
      ]

  pub no_shard :
      (id : ℕ) (guard : Status → Bool) (shs : List (Shard F))
      → All (λ sh. sh.id ≢ id) shs
      → find? (shard_where id guard) shs ≡ none
  unfolding find?
  no_shard id guard [] h = refl
  no_shard id guard (x ∷ shs) h = ground (arith, h.0, no_shard id guard shs h.1)

  -- Writing the one shard with an id leaves none with that id in a state that the write excludes.
  pub update-closes :
      (id : ℕ) (guard open_after : Status → Bool) (set : Shard F → Shard F) (sh : Shard F)
      → ((x : Shard F) → open_after (set x).status ≡ false)
      → (shs : List (Shard F)) → Distinct (λ (sh : Shard F). sh.id) shs
      → find? (shard_where id guard) shs ≡ some sh
      → find? (shard_where id open_after) (update_where (shard_where id guard) set shs) ≡ none
  unfolding find? update_where
  update-closes id guard open_after set sh closes [] d e = absurd (cc)
  update-closes id guard open_after set sh closes (x ∷ shs) d e = elim (Bool-cases (x.id == id)) [
    | inl this ↦
        let others : All (λ (y : Shard F). y.id ≢ id) shs =
          subst (λ n. All (λ (y : Shard F). y.id ≢ n) shs) ((==_iff _ _).0 this) d.0 in
        let unwritten =
          update_where-no_key (λ (y : Shard F). y.id) (shard_where id guard) set id
            (λ y h. ground (arith, ==_iff y.id id)) shs others in
        let none_open = no_shard id open_after shs others in
        let none_found = no_shard id guard shs others in
        elim (Bool-cases (guard x.status)) [
          | inl g ↦ ground (arith, closes x, unwritten, none_open)
          | inr g ↦ absurd (ground arith)
        ]
    | inr other ↦
        let rest = update-closes id guard open_after set sh closes shs d.1 (ground arith) in
        ground (arith, rest)
  ]

module _ {F : Type 0} ⦃f : Float F⦄ where
  -- The barrier writes no shard.
  pub barrier-shards :
      (db : Faults) (now : ℕ) (s : Store F) (k : ℕ) (s' : Store F)
      → barrier db now s k ≡ ok s'
      → s'.shards ≡ s.shards
  barrier-shards db now s k s' e = elim (barrier-ok db now s k s' e) [
    | inl (_, same) ↦ ap (λ (t : Store F). t.shards) same
    | inr (_, fired) ↦
        let (_, _, _, _, _, is_s) = aggregate_run-ok db now s k s' fired in
        ap (λ (t : Store F). t.shards) is_s
  ]

  -- A finish that writes nothing ends as the look-up of the shard does.
  finish_tx-missed :
      (db : Faults) (now : ℕ) (s : Store F) (id : ℕ) (guard : Status → Bool)
      (set : Shard F → Shard F) (miss : Result StoreError (Unit {0})) (s' : Store F)
      → find? (shard_where id guard) s.shards ≡ none
      → finish_tx db now s id guard set miss ≡ ok s'
      → shard_miss db s id miss ≡ ok tt
  unfolding finish_tx
  finish_tx-missed db now s id guard set miss s' m e =
      let e1 = (fail_if-ok (db begin) _ _ e).1 in
      let e2 = (fail_if-ok (db update) _ _ e1).1 in
      let (_, e3, _) = >>=-eq-ok (shard_miss db s id miss) _ (rw m at e2) in e3

  finish_shard-missed :
      (db : Faults) (now : ℕ) (s : Store F) (id : ℕ) (guard : Status → Bool)
      (set : Shard F → Shard F) (x : StoreError)
      → find? (shard_where id guard) s.shards ≡ none
      → (finish_shard db now s id guard set (err x)).1 ≡ ok tt
      → ⊥
  unfolding finish_shard
  finish_shard-missed db now s id guard set x m done =
      elim (Result-cases (finish_tx db now s id guard set (err x))) [
        | inl (s', e) ↦
            shard_miss-errs (Unit {0}) db s id x tt
              (finish_tx-missed db now s id guard set (err x) s' m e)
        | inr (y, e) ↦ err-ne-ok (rw (e, finish_shard) at done)
      ]

  -- A finish without error, where a missing shard and one in another state are errors, has written the
  -- shard: none with its id is left in a state that the write excludes.
  pub finish_shard-closes :
      (db : Faults) (now : ℕ) (s : Store F) (id : ℕ) (guard open_after : Status → Bool)
      (set : Shard F → Shard F) (x : StoreError)
      → ((sh : Shard F) → open_after (set sh).status ≡ false)
      → Distinct (λ (sh : Shard F). sh.id) s.shards
      → (finish_shard db now s id guard set (err x)).1 ≡ ok tt
      → find? (shard_where id open_after) (finish_shard db now s id guard set (err x)).0.shards
        ≡ none
  finish_shard-closes db now s id guard open_after set x closes d done =
      elim (finish_shard-cases db now s id guard set (err x)) [
        | inl (_, e, _) ↦ absurd (err-ne-ok (sym e ∙ done))
        | inr (_, inl (m, _)) ↦ absurd (finish_shard-missed db now s id guard set x m done)
        | inr (_, inr (sh, e, passed)) ↦
            rw (barrier-shards db now _ sh.run_id _ passed)
              (update-closes id guard open_after set sh closes s.shards d e)
      ]
