-- ===== src/Startup.antt =====
-- backend/cmd/api/main.go: the settings that the backend reads from its environment, and the handler
-- that it makes of them. A variable that is unset reads as the empty text.
pub mod Hosts
pub mod Process
use Prim.Native.Char.{Char, code}
use text.Mathlib.Text.{◌==◌ as str_eq}
use distributed_load_testing.Common.{
  ℕ, Bool, true, false, ◌==◌, Option, none, some, List, [], ◌∷◌, String, if◌then◌else◌,
}
use distributed_load_testing.Common.Int.{ℤ, pos}
use distributed_load_testing.Handlers.{Strings, Handler}

-- `os.Getenv`.
abbrev pub Environment : Type 0
Environment = String → String

unfoldable pub getenv : Environment → String → String → String
getenv env key fallback = if str_eq (env key) "" then fallback else env key

-- `atoi` is `strconv.Atoi`, with `none` for its error.
unfoldable pub getint : Environment → (String → Option ℤ) → String → ℤ → ℤ
getint env atoi key fallback =
    if str_eq (env key) "" then fallback else elim (atoi (env key)) [ none ↦ fallback | some n ↦ n ]

abbrev add_char : Char → List String → List String
add_char c [] = String.◌∷◌ c "" ∷ []
add_char c (x ∷ xs) = String.◌∷◌ c x ∷ xs

-- `strings.Split(csv, ",")`.
unfoldable pub split_commas : String → List String
split_commas String.[] = "" ∷ []
split_commas (String.◌∷◌ c s) =
    let rest = split_commas s in if code c == 44 then "" ∷ rest else add_char c rest

-- A `map[string]bool`, as what a look-up gives.
abbrev add_host : String → (String → Bool) → String → Bool
add_host h set k = if str_eq k h then true else set k

-- The loop of parseHostSet.
unfoldable pub add_hosts : Strings → (String → Bool) → List String → String → Bool
add_hosts st set [] = set
add_hosts st set (x ∷ xs) =
    let h = st.to_lower (st.trim_space x) in
    add_hosts st (if str_eq h "" then set else add_host h set) xs

unfoldable pub parse_host_set : Strings → String → String → Bool
parse_host_set st csv = add_hosts st (λ _. false) (split_commas csv)

-- The handler that main serves.
unfoldable pub new_handler : Strings → (String → Option ℤ) → Environment → Handler
new_handler st atoi env = record {
  strings = st;
  allowed_target_hosts =
      parse_host_set st (getenv env "ALLOWED_TARGET_HOSTS" "target,localhost,127.0.0.1");
  max_concurrent_runs = getint env atoi "MAX_CONCURRENT_RUNS" (pos 10);
}
