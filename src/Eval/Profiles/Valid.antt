-- ===== src/Eval/Profiles/Valid.antt =====
-- What a registry that was read holds: profiles that are supported throughout.
use deepswe_eval_lab.Base.{
  String, ◌≡◌, refl, subst, Bool, true, false, ◌&&◌, not, Option, none, some, [], ◌∷◌, ◌==◌, arith,
  mem, ok, ◌>>◌, reject, after_bind, after_check, Bool-cases, not-eq-false, Option-cases, inl, inr,
}
use deepswe_eval_lab.Base.Dict
use deepswe_eval_lab.Base.Dict.{Dict}
use deepswe_eval_lab.Base.Json
use deepswe_eval_lab.Base.Json.{
  Json, Fields, end, field, obj, null, bool, int, float, nonfinite, str, arr,
}
use deepswe_eval_lab.Eval.Models.{AgentProfile, KimiModelConfig, with_overrides, given_option}
use deepswe_eval_lab.Eval.Profiles.{
  status_unsupported, adapter_unsupported, permissions_unsupported, kimi_permissions, unverified,
  empty_model_override, empty_effort_override, kimi_model_override, blank, differs,
  supported_adapters, supported_statuses, supported_permission_modes, supported_efforts,
  validate_effort, required_string, parse_model_config, profile_of, parse_profile, effort_value,
  benchmark_value, parse_entries, sorted_entries, Source, missing, malformed, loaded, registry_of,
  registry_entries, is_one, load, resolve_profile, resolve,
}

-- The effort, if there is one, is among those of the adapter.
abbrev pub effort_allowed : String → Option String → Bool
effort_allowed adapter none = true
effort_allowed adapter (some effort) = elim (supported_efforts adapter) [
  | none ↦ false
  | some allowed ↦ mem effort allowed
]

abbrev pub has_config : Option KimiModelConfig → Bool
has_config none = false
has_config (some c) = true

pub record IsValid (p : AgentProfile) : Type 0 where
  pub status : mem p.status supported_statuses ≡ true
  pub adapter : mem p.adapter supported_adapters ≡ true
  pub permissions : mem p.permissions supported_permission_modes ≡ true
  pub effort : effort_allowed p.adapter p.effort ≡ true
  pub kimi_auto : (p.adapter == "kimi" && not (p.permissions == "auto")) ≡ false
  pub config : has_config p.model_config ≡ (p.adapter == "kimi")

pub validate_effort-allowed :
    (adapter : String) (effort : Option String) (name : String)
    → validate_effort adapter effort name ≡ ok tt
    → effort_allowed adapter effort ≡ true
unfolding validate_effort
validate_effort-allowed adapter none name h = refl
validate_effort-allowed adapter (some e) name h = ground arith

parse_model_config-has :
    (name adapter : String) (value : Json) (c : Option KimiModelConfig)
    → parse_model_config name adapter value ≡ ok c
    → has_config c ≡ (adapter == "kimi")
unfolding parse_model_config
parse_model_config-has name adapter (obj value) c h = ground arith
parse_model_config-has name adapter _ c h = ground arith

-- The end of `profile_of`, once the fields are read.
checked-IsValid :
    (p : AgentProfile) (out : AgentProfile)
    → mem p.status supported_statuses ≡ true
    → mem p.adapter supported_adapters ≡ true
    → mem p.permissions supported_permission_modes ≡ true
    → has_config p.model_config ≡ (p.adapter == "kimi")
    → (validate_effort p.adapter p.effort p.name
        >> (reject (p.adapter == "kimi" && not (p.permissions == "auto")) (kimi_permissions p.name)
            >> ok p))
      ≡ ok out
    → IsValid out
checked-IsValid p out s a q c h = after_bind (validate_effort p.adapter p.effort p.name) h λ _ e h₁.
    after_check (p.adapter == "kimi" && not (p.permissions == "auto")) (kimi_permissions p.name) h₁
      λ k h₂.
        subst (λ o. IsValid o) {x = p} (cc h₂)
          (record {
            status = s;
            adapter = a;
            permissions = q;
            effort = validate_effort-allowed p.adapter p.effort p.name e;
            kimi_auto = k;
            config = c;
          })

profile_of-IsValid :
    (name : String) (value : Fields) (p : AgentProfile) → profile_of name value ≡ ok p → IsValid p
unfolding profile_of
profile_of-IsValid name value p h =
    after_bind (required_string value "status" name) h λ status _ h₁.
      after_bind (required_string value "adapter" name) h₁ λ adapter _ h₂.
        after_bind (required_string value "permissions" name) h₂ λ permissions _ h₃.
          after_check (not (mem status supported_statuses)) (status_unsupported name) h₃ λ c₁ h₄.
            after_check (not (mem adapter supported_adapters)) (adapter_unsupported name) h₄
              λ c₂ h₅.
                after_check (not (mem permissions supported_permission_modes))
                  (permissions_unsupported name) h₅
                  λ c₃ h₆.
                    after_bind (effort_value name (Json.get "effort" value)) h₆ λ effort _ h₇.
                      after_bind (benchmark_value name (Json.find "benchmark_mode" value)) h₇
                        λ benchmark_mode _ h₈.
                          after_bind
                            (parse_model_config name adapter (Json.get "model_config" value)) h₈
                            λ model_config c₄ h₉.
                              after_bind (required_string value "model" name) h₉ λ model _ h₁₀.
                                after_bind (required_string value "auth" name) h₁₀ λ auth _ h₁₁.
                                  checked-IsValid _ p (not-eq-false c₁) (not-eq-false c₂)
                                    (not-eq-false c₃)
                                    (parse_model_config-has name adapter
                                      (Json.get "model_config" value) model_config c₄)
                                    h₁₁

pub parse_profile-IsValid :
    (name : String) (value : Json) (p : AgentProfile) → parse_profile name value ≡ ok p → IsValid p
unfolding parse_profile
parse_profile-IsValid name (obj value) p h = elim (Bool-cases (name == "")) [
  | inl e ↦ ground arith
  | inr e ↦ profile_of-IsValid name value p (cc (e, h))
]
parse_profile-IsValid name _ p h = cc

pub AllValid : Dict AgentProfile → Type 0
AllValid d = (name : String) (p : AgentProfile) → Dict.get name d ≡ some p → IsValid p

-- The entry that `get` finds is the first or in the rest.
cons-AllValid :
    (name : String) (p : AgentProfile) (d : Dict AgentProfile)
    → IsValid p
    → AllValid d
    → AllValid ((name, p) ∷ d)
unfolding Dict.get AllValid
cons-AllValid name p d v vs k q h = elim (Bool-cases (name == k)) [
  | inl e ↦ subst (λ o. IsValid o) (ground arith) v
  | inr e ↦ vs k q (cc (e, h))
]

nil-AllValid : AllValid []
unfolding Dict.get AllValid
nil-AllValid name p h = cc

pub parse_entries-AllValid :
    (entries : Dict Json) (d : Dict AgentProfile) → parse_entries entries ≡ ok d → AllValid d
unfolding parse_entries
parse_entries-AllValid [] d h = subst AllValid (cc h) nil-AllValid
parse_entries-AllValid ((name, value) ∷ rest) d h =
    after_bind (parse_profile name value) h λ p e h₁. after_bind (parse_entries rest) h₁ λ ps f h₂.
      subst AllValid (cc h₂) (
        cons-AllValid name p ps (parse_profile-IsValid name value p e)
          (parse_entries-AllValid rest ps f))

registry_entries-AllValid :
    (raw : Json) (registry : Dict AgentProfile)
    → registry_entries raw ≡ ok registry
    → AllValid registry
unfolding registry_entries
registry_entries-AllValid (obj (field k v fs)) registry h =
    parse_entries-AllValid (sorted_entries (field k v fs)) registry h
registry_entries-AllValid (obj end) registry h = cc
registry_entries-AllValid _ registry h = cc

registry_of-AllValid :
    (raw : Json) (registry : Dict AgentProfile) → registry_of raw ≡ ok registry → AllValid registry
unfolding registry_of
registry_of-AllValid (obj raw) registry h =
    elim (Bool-cases (is_one (Json.get "schema_version" raw))) [
      | inl e ↦ registry_entries-AllValid (Json.get "profiles" raw) registry (cc (e, h))
      | inr e ↦ ground arith
    ]
registry_of-AllValid _ registry h = cc

pub load-AllValid :
    (source : Source) (registry : Dict AgentProfile) → load source ≡ ok registry → AllValid registry
unfolding load
load-AllValid missing registry h = cc
load-AllValid malformed registry h = cc
load-AllValid (loaded raw) registry h = registry_of-AllValid raw registry h

-- The overrides keep what makes a profile valid, since their effort is checked again.
resolve_profile-IsValid :
    (p : AgentProfile) (name : String) (allow : Bool) (model effort : Option String)
    (out : AgentProfile)
    → IsValid p
    → resolve_profile p name allow model effort ≡ ok out
    → IsValid out × ((out.status == "unverified" && not allow) ≡ false)
unfolding resolve_profile with_overrides
resolve_profile-IsValid p name allow model effort out v h =
    after_check (p.status == "unverified" && not allow) (unverified name) h λ c₁ h₁.
      after_check (blank model) (empty_model_override name) h₁ λ c₂ h₂.
        after_check (blank effort) (empty_effort_override name) h₂ λ c₃ h₃.
          after_check (p.adapter == "kimi" && differs model p.model) (kimi_model_override name) h₃
            λ c₄ h₄.
              after_bind (validate_effort p.adapter (given_option effort p.effort) name) h₄
                λ _ e h₅.
                  subst (λ o. IsValid o × ((o.status == "unverified" && not allow) ≡ false))
                    {x = with_overrides p model effort} (cc h₅)
                    (
                      record {
                        status = v.status;
                        adapter = v.adapter;
                        permissions = v.permissions;
                        effort =
                            validate_effort-allowed p.adapter (given_option effort p.effort) name e;
                        kimi_auto = v.kimi_auto;
                        config = v.config;
                      },
                      c₁,
                    )

pub resolve-IsValid :
    (registry : Dict AgentProfile) (name : String) (allow : Bool) (model effort : Option String)
    (out : AgentProfile)
    → AllValid registry
    → resolve registry name allow model effort ≡ ok out
    → IsValid out × ((out.status == "unverified" && not allow) ≡ false)
unfolding resolve AllValid
resolve-IsValid registry name allow model effort out vs h =
    elim (Option-cases (Dict.get name registry)) [
      | inl e ↦ cc
      | inr (p, e) ↦ resolve_profile-IsValid p name allow model effort out (vs name p e) (cc (e, h))
    ]
