-- ===== src/Eval/Launcher/Redact.antt =====
-- agent_eval/cli.py: the arguments without the secrets in them.
pub mod Secrets
use Prim.Native.Char.{Char, code}
use Prim.Native.String.{String}
use deepswe_eval_lab.Base.{
  ◌<>◌, Bool, true, false, Option, none, some, List, [], ◌∷◌, ◌==◌, if◌then◌else◌, eqb, mem,
}
use deepswe_eval_lab.Base.Text.{remove_prefix}

-- `value.partition("=")`: what stands before and after the first `=`, if there is one.
unfoldable pub partition : String → Option (String × String)
partition String.[] = none
partition (String.◌∷◌ c s) =
    let rest = partition s in
    if eqb (code c) 61
    then some ("", s)
    else elim rest [ none ↦ none | some (key, value) ↦ some (String.◌∷◌ c key, value) ]

unfoldable pub redact_assignment : String → String
redact_assignment value = elim (partition value) [
  | none ↦ "<redacted>"
  | some (key, _) ↦ key <> "=<redacted>"
]

abbrev pub secret_env_flags : List String
secret_env_flags = "--ae" ∷ "--agent-env" ∷ "--ve" ∷ "--verifier-env" ∷ []

-- `value.startswith(f"{flag}=")`
unfoldable pub has_flag : String → String → Bool
has_flag flag value = elim (remove_prefix (flag <> "=") value) [ none ↦ false | some rest ↦ true ]

-- The flag that a value begins with; no two of them can match.
unfoldable pub matched_flag : List String → String → Option String
matched_flag [] value = none
matched_flag (flag ∷ flags) value =
    if has_flag flag value then some flag else matched_flag flags value

-- `value.split("=", 1)[1]`
abbrev pub after_equals : String → String
after_equals value = elim (partition value) [ none ↦ "" | some (_, rest) ↦ rest ]

-- A value that is neither a flag nor follows one.
unfoldable pub redact_value : String → String
redact_value value = elim (matched_flag secret_env_flags value) [
  | none ↦ value
  | some flag ↦ flag <> "=" <> redact_assignment (after_equals value)
]

-- The loop, with `redact_next`.
unfoldable pub redact_loop : Bool → List String → List String
redact_loop redact_next [] = []
redact_loop true (value ∷ values) = redact_assignment value ∷ redact_loop false values
redact_loop false (value ∷ values) =
    let after_flag = redact_loop true values in
    let rest = redact_loop false values in
    if mem value secret_env_flags then value ∷ after_flag else redact_value value ∷ rest

unfoldable pub redact_args : List String → List String
redact_args values = redact_loop false values
