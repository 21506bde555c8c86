-- ===== src/Eval/Launcher/Network.antt =====
-- agent_eval/cli.py: the hosts that a manifest records for a plan's agents.
pub mod Hosts
use Prim.Native.Char.{code}
use Prim.Native.Nat.{Ordering}
use Prim.Native.String.{compare}
use Prim.Native.String
use deepswe_eval_lab.Base.{
  String, Bool, true, false, Option, none, some, List, [], ◌∷◌, ◌++◌, ◌==◌, if◌then◌else◌, any, mem,
  eqb,
}
use deepswe_eval_lab.Base.Dict.{Dict}
use deepswe_eval_lab.Base.Dict
use deepswe_eval_lab.Eval.Models.{AgentProfile, ExecutionPlan, profiles}

-- `model.split("/", 1)[0]`
unfoldable pub before_slash : String → String
before_slash String.[] = ""
before_slash (String.◌∷◌ c s) =
    let rest = before_slash s in if eqb (code c) 47 then "" else String.◌∷◌ c rest

-- `domains.add(host)` and `domains.update(hosts)`.
unfoldable pub add_host : String → List String → List String
add_host host domains = if mem host domains then domains else domains ++ host ∷ []

unfoldable pub add_hosts : List String → List String → List String
add_hosts [] domains = domains
add_hosts (host ∷ hosts) domains = add_hosts hosts (add_host host domains)

-- `name in adapters`
unfoldable pub uses_adapter : String → List AgentProfile → Bool
uses_adapter name roles = any (λ (p : AgentProfile). p.adapter == name) roles

-- `if name in adapters: domains.update(hosts)`
unfoldable pub add_when : String → List String → List AgentProfile → List String → List String
add_when name hosts roles domains =
    if uses_adapter name roles then add_hosts hosts domains else domains

unfoldable pub provider_domains : Dict String
provider_domains =
    ("anthropic", "api.anthropic.com")
    ∷ ("deepseek", "api.deepseek.com")
    ∷ ("google", "generativelanguage.googleapis.com")
    ∷ ("openai", "api.openai.com")
    ∷ ("opencode", "opencode.ai")
    ∷ ("openrouter", "openrouter.ai")
    ∷ ("xai", "api.x.ai")
    ∷ []

abbrev pub add_found : Option String → List String → List String
add_found none domains = domains
add_found (some host) domains = add_host host domains

unfoldable pub provider_domain : AgentProfile → Option String
provider_domain p = Dict.get (before_slash p.model) provider_domains

unfoldable pub opencode_loop : List AgentProfile → List String → List String
opencode_loop [] domains = domains
opencode_loop (p ∷ roles) domains =
    opencode_loop roles
      (if p.adapter == "opencode" then add_found (provider_domain p) domains else domains)

unfoldable pub opencode_hosts : List AgentProfile → List String → List String
opencode_hosts roles domains =
    if uses_adapter "opencode" roles then opencode_loop roles domains else domains

-- `sorted(domains)`
unfoldable pub insert_host : String → List String → List String
insert_host host [] = host ∷ []
insert_host host (h ∷ hosts) =
    let rest = insert_host host hosts in
    elim (compare host h) [ Ordering.gt ↦ h ∷ rest | _ ↦ host ∷ h ∷ hosts ]

unfoldable pub sort_hosts : List String → List String
sort_hosts [] = []
sort_hosts (host ∷ hosts) = insert_host host (sort_hosts hosts)

abbrev pub claude_hosts : List String
claude_hosts = "api.anthropic.com" ∷ []

abbrev pub codex_hosts : List String
codex_hosts = "api.openai.com" ∷ "auth.openai.com" ∷ "chatgpt.com" ∷ []

abbrev pub kimi_hosts : List String
kimi_hosts = "api.kimi.com" ∷ "api.moonshot.ai" ∷ []

abbrev pub gemini_hosts : List String
gemini_hosts =
    "accounts.google.com" ∷ "generativelanguage.googleapis.com" ∷ "oauth2.googleapis.com" ∷ []

-- The `domains` of `_network_policy`.
unfoldable pub network_policy : ExecutionPlan → List String
network_policy plan =
    let roles = profiles plan in
    let base =
      add_when "kimi" kimi_hosts roles
        (add_when "codex" codex_hosts roles (add_when "claude" claude_hosts roles [])) in
    sort_hosts (add_when "gemini" gemini_hosts roles (opencode_hosts roles base))
