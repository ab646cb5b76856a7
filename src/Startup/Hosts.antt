-- ===== src/Startup/Hosts.antt =====
-- The hosts that the backend lets its runs target.
use mathlib.Core.Bool.{true≢false}
use text.Mathlib.TextEquality.{eq_iff}
use text.Mathlib.Text.{◌==◌ as str_eq}
use distributed_load_testing.Common.{
  ◌≡◌, ◌≢◌, refl, sym, ◌∙◌, ◌⊎◌, ◌↔◌, inl, inr, Bool, true, false, some, List, [], ◌∷◌, ◌++◌,
  String, arith, Bool-cases, Option, Result, Option-cases, if◌then◌else◌,
}
use distributed_load_testing.Handlers.{Strings, Handler, World, Surroundings}
use distributed_load_testing.Common.Int.{ℤ, pos}
use distributed_load_testing.Models.{TestRun, CreateTestRunRequest}
use distributed_load_testing.Store.Create.{new_run}
use distributed_load_testing.Handlers.Public.{target_allowed, create_test_run}
use distributed_load_testing.Handlers.Create.{IsRoom, create_test_run-Answered}
use distributed_load_testing.Startup.{
  Environment, getenv, getint, split_commas, add_host, add_hosts, parse_host_set, new_handler,
}

-- A host is one of some texts, once they are trimmed and in lower case.
abbrev pub IsListed : Strings → String → List String → Type 0
IsListed st k [] = ⊥
IsListed st k (x ∷ xs) = (k ≡ st.to_lower (st.trim_space x)) ⊎ IsListed st k xs

-- One pass of the loop adds its host, unless that is empty.
added_iff :
    (set : String → Bool) (k h : String)
    → ((if str_eq h "" then set else add_host h set) k ≡ true)
      ↔ ((set k ≡ true) ⊎ ((k ≢ "") × (k ≡ h)))
added_iff set k h = elim (Bool-cases (str_eq h "")) [
  | inl left ↦
      let is_empty : h ≡ "" = (eq_iff h "").0 left in
      rw left (inl, elim [ inl e ↦ e | inr (full, same) ↦ absurd (full (same ∙ is_empty)) ])
  | inr full ↦
      let is_full : h ≢ "" = λ e. true≢false (sym ((eq_iff h "").1 e) ∙ full) in
      elim (Bool-cases (str_eq k h)) [
        | inl hit ↦
            let same : k ≡ h = (eq_iff k h).0 hit in
            rw (full, hit) (λ _. inr (λ e. is_full (sym same ∙ e), same), λ _. refl)
        | inr miss ↦
            rw (full, miss)
              (
                inl,
                elim [
                  | inl e ↦ e
                  | inr (_, same) ↦ absurd (true≢false (sym ((eq_iff k h).1 same) ∙ miss))
                ],
              )
      ]
]

add_hosts_iff :
    (st : Strings) (set : String → Bool) (k : String) (xs : List String)
    → (add_hosts st set xs k ≡ true) ↔ ((set k ≡ true) ⊎ ((k ≢ "") × IsListed st k xs))
unfolding add_hosts
add_hosts_iff st set k [] = (inl, elim [ inl e ↦ e | inr (_, listed) ↦ absurd listed ])
add_hosts_iff st set k (x ∷ xs) =
    let h = st.to_lower (st.trim_space x) in
    let set' = if str_eq h "" then set else add_host h set in
    let rest = add_hosts_iff st set' k xs in
    let one = added_iff set k h in
    (
      λ e. elim (rest.0 e) [
        | inr (full, listed) ↦ inr (full, inr listed)
        | inl added ↦ elim (one.0 added) [ inl e ↦ inl e | inr (full, same) ↦ inr (full, inl same) ]
      ],
      elim [
        | inl e ↦ rest.1 (inl (one.1 (inl e)))
        | inr (full, inl same) ↦ rest.1 (inl (one.1 (inr (full, same))))
        | inr (full, inr listed) ↦ rest.1 (inr (full, listed))
      ],
    )

-- A host may be targeted exactly if it is not empty and is one of the texts between the commas, once
-- that is trimmed and in lower case.
pub parse_host_set_iff :
    (st : Strings) (csv host : String)
    → (parse_host_set st csv host ≡ true) ↔ ((host ≢ "") × IsListed st host (split_commas csv))
unfolding parse_host_set
parse_host_set_iff st csv host =
    let loop = add_hosts_iff st (λ _. false) host (split_commas csv) in
    (
      λ e. elim (loop.0 e) [
        | inl nothing ↦ absurd (true≢false (sym nothing))
        | inr listed ↦ listed
      ],
      λ listed. loop.1 (inr listed),
    )

pub target_allowed-host :
    (h : Handler) (url : String)
    → target_allowed h url ≡ true
    → (host : String) × (h.strings.hostname url ≡ some host)
      × (h.allowed_target_hosts (h.strings.to_lower host) ≡ true)
unfolding target_allowed
target_allowed-host h url t = elim (Option-cases (h.strings.hostname url)) [
  | inl e ↦ absurd (true≢false (sym (rw (e, target_allowed) at t)))
  | inr (host, e) ↦ (host, e, rw (e, target_allowed) at t)
]

-- The variable ALLOWED_TARGET_HOSTS, or its default.
abbrev pub allowed_hosts : Environment → String
allowed_hosts env = getenv env "ALLOWED_TARGET_HOSTS" "target,localhost,127.0.0.1"

module _ {F : Type 0} where
  -- The backend that main starts creates a run only for a host that its environment lists, and, if
  -- the environment sets a cap above 0, only if fewer runs were active at the count; the active runs
  -- then exceed the cap by no more than became active between that count and the insert.
  pub new_handler-create :
      (st : Strings) (atoi : String → Option ℤ) (env : Environment) (e : Surroundings) (w : World F)
      (body : Result String CreateTestRunRequest)
      → (create_test_run (new_handler st atoi env) e w body).1.code ≡ 201
      → let s' = (create_test_run (new_handler st atoi env) e w body).0.store in
        let cap = getint env atoi "MAX_CONCURRENT_RUNS" (pos 10) in
        (r : TestRun F) × (host : String) × (s'.runs ≡ w.store.runs ++ (r ∷ []))
        × (st.hostname r.target_url ≡ some host)
        × (st.to_lower host ≢ "")
        × IsListed st (st.to_lower host) (split_commas (allowed_hosts env))
        × IsRoom cap e w.store s'
  unfolding new_handler new_run
  new_handler-create st atoi env e w body made =
      let h = new_handler st atoi env in
      elim (create_test_run-Answered h e w body) [
        | inl (_, refused) ↦ absurd (omega arith)
        | inr (_, raw, req, shards, _, c) ↦
            let (host, named, allowed) = target_allowed-host h req.target_url c.allowed in
            let (full, listed) =
              (parse_host_set_iff st (allowed_hosts env) (st.to_lower host)).0 allowed in
            (_, host, c.added_run, named, full, listed, c.room)
      ]
