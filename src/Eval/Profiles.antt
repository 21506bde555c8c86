-- ===== src/Eval/Profiles.antt =====
-- agent_eval/profiles.py: reading agent profiles and resolving a profile with its overrides.
pub mod Valid
use Prim.Native.Nat.{Ordering}
use Prim.Native.String.{compare}
use deepswe_eval_lab.Base.{
  ℕ, zero, suc, String, ◌<>◌, Bool, true, false, ◌&&◌, ◌||◌, not, Option, none, some, List, [], ◌∷◌,
  ◌==◌, if◌then◌else◌, mem, distinct, all, Result, ok, err, ◌>>=◌, ◌>>◌, map, reject,
}
use deepswe_eval_lab.Base.Dict
use deepswe_eval_lab.Base.Dict.{Dict}
use deepswe_eval_lab.Base.Int.{ℤ, pos, negsuc, leb_ℤ}
use deepswe_eval_lab.Base.Rat
use deepswe_eval_lab.Base.Text.{strip}
use deepswe_eval_lab.Base.Json
use deepswe_eval_lab.Base.Json.{
  Json, Fields, null, bool, int, float, nonfinite, str, arr, obj, end, field, nil, cons, to_list,
}
use deepswe_eval_lab.Eval.Models.{AgentProfile, KimiModelConfig, with_overrides}

-- A `ProfileError` by the check that raises it, with the path that its message names. `key_error` is
-- the KeyError of an adapter that has no efforts.
pub data ProfileError : Type 0 where
  file_not_found invalid_json schema_version no_profiles : ProfileError
  unknown_profile unverified empty_model_override empty_effort_override kimi_model_override :
      String → ProfileError
  invalid_entry not_a_string status_unsupported adapter_unsupported permissions_unsupported :
      String → ProfileError
  effort_not_string benchmark_not_bool effort_unsupported kimi_permissions : String → ProfileError
  model_config_unsupported model_config_not_object provider_fixed provider_type_fixed :
      String → ProfileError
  base_url_fixed context_size_not_positive not_unique_strings capabilities_fixed :
      String → ProfileError
  efforts_fixed default_effort_unsupported key_error : String → ProfileError

abbrev pub Checked {ℓ} : Type ℓ → Type ℓ
Checked A = Result ProfileError A

abbrev pub supported_adapters : List String
supported_adapters = "claude" ∷ "codex" ∷ "gemini" ∷ "kimi" ∷ "opencode" ∷ []

abbrev pub supported_statuses : List String
supported_statuses = "verified" ∷ "unverified" ∷ []

abbrev pub supported_permission_modes : List String
supported_permission_modes = "auto" ∷ "bypass" ∷ []

abbrev common_efforts : List String
common_efforts = "minimal" ∷ "low" ∷ "medium" ∷ "high" ∷ "xhigh" ∷ "max" ∷ []

-- `SUPPORTED_EFFORTS.get(adapter)`
unfoldable pub supported_efforts : String → Option (List String)
supported_efforts adapter =
    if adapter == "claude"
    then some ("ultracode" ∷ common_efforts)
    else if adapter == "codex"
    then some ("ultra" ∷ common_efforts)
    else if adapter == "gemini"
    then some common_efforts
    else if adapter == "kimi"
    then some ("off" ∷ "on" ∷ [])
    else if adapter == "opencode"
    then some common_efforts
    else none

abbrev pub kimi_k3_capabilities : List String
kimi_k3_capabilities = "thinking" ∷ "always_thinking" ∷ "image_in" ∷ "video_in" ∷ "tool_use" ∷ []

abbrev pub kimi_k3_support_efforts : List String
kimi_k3_support_efforts = "low" ∷ "high" ∷ "max" ∷ []

-- `a == b` on tuples of texts.
abbrev pub same_texts : List String → List String → Bool
same_texts [] [] = true
same_texts (a ∷ as_) (b ∷ bs) = a == b && same_texts as_ bs
same_texts _ _ = false

unfoldable pub validate_effort : String → Option String → String → Checked (Unit {0})
validate_effort adapter none profile = ok tt
validate_effort adapter (some effort) profile = elim (supported_efforts adapter) [
  | none ↦ err (key_error adapter)
  | some allowed ↦ reject (not (mem effort allowed)) (effort_unsupported profile)
]

unfoldable pub required_string : Fields → String → String → Checked String
unfolding Json.get strip
required_string raw key profile = elim (Json.get key raw) [
  | str s ↦ if strip s == "" then err (not_a_string (profile <> "." <> key)) else ok (strip s)
  | _ ↦ err (not_a_string (profile <> "." <> key))
]

-- The texts of a list whose items are all texts that are not empty.
unfoldable pub nonempty_texts : List Json → Option (List String)
nonempty_texts [] = some []
nonempty_texts (str s ∷ xs) =
    let rest = nonempty_texts xs in
    if s == "" then none else elim rest [ none ↦ none | some ss ↦ some (s ∷ ss) ]
nonempty_texts (_ ∷ xs) = none

abbrev unique_texts : Option (List String) → String → Checked (List String)
unique_texts none path = err (not_unique_strings path)
unique_texts (some ss) path = if distinct ss then ok ss else err (not_unique_strings path)

unfoldable pub string_tuple : Json → String → Checked (List String)
unfolding nonempty_texts to_list
string_tuple (arr (cons x xs)) path = unique_texts (nonempty_texts (x ∷ to_list xs)) path
string_tuple _ path = err (not_unique_strings path)

-- A positive integer; a Python bool is refused.
unfoldable pub positive_int : Json → String → Checked ℤ
positive_int (int n) profile =
    if leb_ℤ n (pos 0) then err (context_size_not_positive profile) else ok n
positive_int _ profile = err (context_size_not_positive profile)

abbrev in_config : String → String
in_config profile = profile <> ".model_config"

unfoldable pub kimi_config : String → Fields → Checked KimiModelConfig
kimi_config profile value = do
  provider ← required_string value "provider" (in_config profile)
  reject (not (provider == "managed:kimi-code")) (provider_fixed profile)
  provider_type ← required_string value "provider_type" (in_config profile)
  reject (not (provider_type == "kimi")) (provider_type_fixed profile)
  base_url ← required_string value "base_url" (in_config profile)
  reject (not (base_url == "https://api.kimi.com/coding/v1")) (base_url_fixed profile)
  upstream_model ← required_string value "upstream_model" (in_config profile)
  max_context_size ← positive_int (Json.get "max_context_size" value) profile
  capabilities ← string_tuple (Json.get "capabilities" value) (in_config profile <> ".capabilities")
  reject (not (same_texts capabilities kimi_k3_capabilities)) (capabilities_fixed profile)
  support_efforts ←
      string_tuple (Json.get "support_efforts" value) (in_config profile <> ".support_efforts")
  reject (not (same_texts support_efforts kimi_k3_support_efforts)) (efforts_fixed profile)
  default_effort ← required_string value "default_effort" (in_config profile)
  reject (not (mem default_effort support_efforts)) (default_effort_unsupported profile)
  ok (record {
    provider = provider;
    provider_type = provider_type;
    base_url = base_url;
    upstream_model = upstream_model;
    max_context_size = max_context_size;
    capabilities = capabilities;
    support_efforts = support_efforts;
    default_effort = default_effort;
  })

abbrev absent_config : String → Json → Checked (Option KimiModelConfig)
absent_config profile null = ok none
absent_config profile _ = err (model_config_unsupported profile)

abbrev object_config : String → Json → Checked (Option KimiModelConfig)
object_config profile (obj value) = do c ← kimi_config profile value; ok (some c)
object_config profile _ = err (model_config_not_object profile)

unfoldable pub parse_model_config : String → String → Json → Checked (Option KimiModelConfig)
parse_model_config profile adapter value =
    if adapter == "kimi" then object_config profile value else absent_config profile value

-- `None`, or the stripped text.
abbrev effort_value : String → Json → Checked (Option String)
effort_value name null = ok none
effort_value name (str s) =
    if strip s == "" then err (effort_not_string name) else ok (some (strip s))
effort_value name _ = err (effort_not_string name)

abbrev benchmark_value : String → Option Json → Checked Bool
benchmark_value name none = ok true
benchmark_value name (some (bool b)) = ok b
benchmark_value name (some _) = err (benchmark_not_bool name)

unfoldable pub profile_of : String → Fields → Checked AgentProfile
profile_of name value = do
  status ← required_string value "status" name
  adapter ← required_string value "adapter" name
  permissions ← required_string value "permissions" name
  reject (not (mem status supported_statuses)) (status_unsupported name)
  reject (not (mem adapter supported_adapters)) (adapter_unsupported name)
  reject (not (mem permissions supported_permission_modes)) (permissions_unsupported name)
  effort ← effort_value name (Json.get "effort" value)
  benchmark_mode ← benchmark_value name (Json.find "benchmark_mode" value)
  model_config ← parse_model_config name adapter (Json.get "model_config" value)
  model ← required_string value "model" name
  auth ← required_string value "auth" name
  validate_effort adapter effort name
  reject (adapter == "kimi" && not (permissions == "auto")) (kimi_permissions name)
  ok (record {
    name = name;
    status = status;
    adapter = adapter;
    model = model;
    effort = effort;
    auth = auth;
    permissions = permissions;
    model_config = model_config;
    benchmark_mode = benchmark_mode;
  })

unfoldable pub parse_profile : String → Json → Checked AgentProfile
parse_profile name (obj value) =
    if name == "" then err (invalid_entry name) else profile_of name value
parse_profile name _ = err (invalid_entry name)

-- `sorted(entries.items())`, by name.
insert_entry : String → Json → Dict Json → Dict Json
insert_entry k v [] = (k, v) ∷ []
insert_entry k v ((j, w) ∷ rest) = elim (compare k j) [
  | Ordering.gt ↦ (j, w) ∷ insert_entry k v rest
  | _ ↦ (k, v) ∷ (j, w) ∷ rest
]

unfoldable pub sorted_entries : Fields → Dict Json
unfolding insert_entry
sorted_entries end = []
sorted_entries (field k v fs) = insert_entry k v (sorted_entries fs)

unfoldable pub parse_entries : Dict Json → Checked (Dict AgentProfile)
parse_entries [] = ok []
parse_entries ((name, value) ∷ rest) = do
  profile ← parse_profile name value
  profiles ← parse_entries rest
  ok ((name, profile) ∷ profiles)

-- What reading the profile file gives.
pub data Source : Type 0 where
  missing malformed : Source
  loaded : Json → Source

-- `x == 1`, which Python says of `True` and of 1.0 too.
unfoldable pub is_one : Json → Bool
is_one (int (pos (suc zero))) = true
is_one (bool b) = b
is_one (float x) = Rat.eq x (Rat.of_nat 1)
is_one _ = false

unfoldable pub registry_entries : Json → Checked (Dict AgentProfile)
registry_entries (obj (field k v fs)) = parse_entries (sorted_entries (field k v fs))
registry_entries _ = err no_profiles

unfoldable pub registry_of : Json → Checked (Dict AgentProfile)
registry_of (obj raw) =
    if is_one (Json.get "schema_version" raw)
    then registry_entries (Json.get "profiles" raw)
    else err schema_version
registry_of _ = err schema_version

-- `ProfileRegistry.load`: the profiles by name.
unfoldable pub load : Source → Checked (Dict AgentProfile)
load missing = err file_not_found
load malformed = err invalid_json
load (loaded raw) = registry_of raw

-- `value is not None and not value.strip()`
abbrev pub blank : Option String → Bool
blank none = false
blank (some s) = strip s == ""

abbrev pub differs : Option String → String → Bool
differs none t = false
differs (some s) t = not (s == t)

-- The checks of `resolve` on a profile that was found.
unfoldable pub resolve_profile :
    AgentProfile → String → Bool → Option String → Option String → Checked AgentProfile
resolve_profile profile name allow_unverified model effort = do
  reject (profile.status == "unverified" && not allow_unverified) (unverified name)
  reject (blank model) (empty_model_override name)
  reject (blank effort) (empty_effort_override name)
  reject (profile.adapter == "kimi" && differs model profile.model) (kimi_model_override name)
  let resolved = with_overrides profile model effort
  validate_effort resolved.adapter resolved.effort name
  ok resolved

unfoldable pub resolve :
    Dict AgentProfile → String → Bool → Option String → Option String → Checked AgentProfile
resolve registry name allow_unverified model effort = elim (Dict.get name registry) [
  | none ↦ err (unknown_profile name)
  | some profile ↦ resolve_profile profile name allow_unverified model effort
]
