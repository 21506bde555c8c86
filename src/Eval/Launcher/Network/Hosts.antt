-- ===== src/Eval/Launcher/Network/Hosts.antt =====
-- A domain is recorded for a plan exactly if it is a host of one of its agents.
use deepswe_eval_lab.Base.{
  ◌≡◌, refl, ap, sym, ◌∙◌, String, Bool, false, ◌||◌, ◌&&◌, Option, none, some, List, [], ◌∷◌, ◌==◌,
  eq_iff, if◌then◌else◌, any, mem, mem-append, arith,
}
use deepswe_eval_lab.Base.Dict
use deepswe_eval_lab.Eval.Models.{AgentProfile, ExecutionPlan, profiles}
use deepswe_eval_lab.Eval.Launcher.Network.{
  add_host, add_hosts, uses_adapter, add_when, provider_domain, provider_domains, before_slash,
  add_found, opencode_loop, opencode_hosts, insert_host, sort_hosts, claude_hosts, codex_hosts,
  kimi_hosts, gemini_hosts, network_policy,
}

unfoldable pub is_provider : String → Option String → Bool
is_provider host none = false
is_provider host (some domain) = domain == host

-- The host of a provider of models, as "opencode" names the provider.
unfoldable pub provider_host : String → Option String
provider_host provider =
    if "anthropic" == provider
    then some "api.anthropic.com"
    else if "deepseek" == provider
    then some "api.deepseek.com"
    else if "google" == provider
    then some "generativelanguage.googleapis.com"
    else if "openai" == provider
    then some "api.openai.com"
    else if "opencode" == provider
    then some "opencode.ai"
    else if "openrouter" == provider
    then some "openrouter.ai"
    else if "xai" == provider
    then some "api.x.ai"
    else none

-- Whether a host is one of an agent: of its adapter, or of the provider of its model.
unfoldable pub is_host_of : String → AgentProfile → Bool
is_host_of host p =
    p.adapter == "claude" && mem host ("api.anthropic.com" ∷ [])
    || p.adapter == "codex" && mem host ("api.openai.com" ∷ "auth.openai.com" ∷ "chatgpt.com" ∷ [])
    || p.adapter == "kimi" && mem host ("api.kimi.com" ∷ "api.moonshot.ai" ∷ [])
    || p.adapter == "opencode" && is_provider host (provider_host (before_slash p.model))
    || p.adapter == "gemini"
      && mem host (
          "accounts.google.com" ∷ "generativelanguage.googleapis.com" ∷ "oauth2.googleapis.com"
          ∷ [])

any-or :
    (f g : AgentProfile → Bool) (ps : List AgentProfile)
    → any (λ p. f p || g p) ps ≡ (any f ps || any g ps)
any-or f g [] = refl
any-or f g (p ∷ ps) = ground (arith, any-or f g ps)

any-and :
    (f : AgentProfile → Bool) (c : Bool) (ps : List AgentProfile)
    → any (λ p. f p && c) ps ≡ (any f ps && c)
any-and f c [] = refl
any-and f c (p ∷ ps) = ground (arith, any-and f c ps)

any-sub :
    (f g : AgentProfile → Bool) (ps : List AgentProfile)
    → any f ps ≡ false
    → any (λ p. f p && g p) ps ≡ false
any-sub f g [] h = refl
any-sub f g (p ∷ ps) h = ground (arith, any-sub f g ps)

mem-add_host :
    (h host : String) (ds : List String) → mem h (add_host host ds) ≡ (mem h ds || host == h)
unfolding add_host
mem-add_host h host ds = ground (arith, eq_iff host h, mem-append h ds (host ∷ []))

mem-add_hosts :
    (h : String) (hosts ds : List String) → mem h (add_hosts hosts ds) ≡ (mem h ds || mem h hosts)
unfolding add_hosts
mem-add_hosts h [] ds = ground arith
mem-add_hosts h (host ∷ hosts) ds =
    ground (arith, mem-add_hosts h hosts (add_host host ds), mem-add_host h host ds)

mem-add_when :
    (h name : String) (hosts : List String) (ps : List AgentProfile) (ds : List String)
    → mem h (add_when name hosts ps ds)
      ≡ (mem h ds || any (λ (p : AgentProfile). p.adapter == name && mem h hosts) ps)
unfolding add_when uses_adapter
mem-add_when h name hosts ps ds = ground (
  arith,
  any-and (λ (p : AgentProfile). p.adapter == name) (mem h hosts) ps,
  mem-add_hosts h hosts ds,
)

mem-add_found :
    (h : String) (o : Option String) (ds : List String)
    → mem h (add_found o ds) ≡ (mem h ds || is_provider h o)
unfolding is_provider
mem-add_found h none ds = ground arith
mem-add_found h (some host) ds = mem-add_host h host ds

mem-opencode_loop :
    (h : String) (ps : List AgentProfile) (ds : List String)
    → mem h (opencode_loop ps ds) ≡ (
        mem h ds
        || any
            (λ (p : AgentProfile). p.adapter == "opencode" && is_provider h (provider_domain p))
            ps)
unfolding opencode_loop
mem-opencode_loop h [] ds = ground arith
mem-opencode_loop h (p ∷ ps) ds = ground (
  arith,
  mem-opencode_loop h ps ds,
  mem-opencode_loop h ps (add_found (provider_domain p) ds),
  mem-add_found h (provider_domain p) ds,
)

mem-opencode_hosts :
    (h : String) (ps : List AgentProfile) (ds : List String)
    → mem h (opencode_hosts ps ds) ≡ (
        mem h ds
        || any
            (λ (p : AgentProfile). p.adapter == "opencode" && is_provider h (provider_domain p))
            ps)
unfolding opencode_hosts uses_adapter
mem-opencode_hosts h ps ds = ground (
  arith,
  mem-opencode_loop h ps ds,
  any-sub (λ (p : AgentProfile). p.adapter == "opencode") (λ p. is_provider h (provider_domain p))
      ps,
)

mem-insert_host :
    (h host : String) (hs : List String) → mem h (insert_host host hs) ≡ (host == h || mem h hs)
unfolding insert_host
mem-insert_host h host [] = refl
mem-insert_host h host (x ∷ hs) = ground (arith, mem-insert_host h host hs)

mem-sort_hosts : (h : String) (hs : List String) → mem h (sort_hosts hs) ≡ mem h hs
unfolding sort_hosts
mem-sort_hosts h [] = refl
mem-sort_hosts h (x ∷ hs) = ground (arith, mem-insert_host h x (sort_hosts hs), mem-sort_hosts h hs)

any-or_five :
    (f g h i j : AgentProfile → Bool) (ps : List AgentProfile)
    → any (λ p. f p || g p || h p || i p || j p) ps
      ≡ (any f ps || any g ps || any h ps || any i ps || any j ps)
any-or_five f g h i j ps =
    any-or _ j ps
    ∙ ap (λ b. b || any j ps)
        (any-or _ i ps
          ∙ ap (λ b. b || any i ps) (any-or _ h ps ∙ ap (λ b. b || any h ps) (any-or f g ps)))

-- The domains that a manifest records for a plan are exactly the hosts of its agents: those of the
-- adapter of each, and for "opencode" that of the provider of its model.
pub mem-network_policy :
    (host : String) (plan : ExecutionPlan)
    → mem host (network_policy plan) ≡ any (is_host_of host) (profiles plan)
unfolding network_policy is_host_of provider_host provider_domain provider_domains Dict.get
mem-network_policy host plan =
    let ps = profiles plan in
    let needs : String → List String → AgentProfile → Bool =
      λ name hosts p. p.adapter == name && mem host hosts in
    let of_model : AgentProfile → Bool =
      λ p. p.adapter == "opencode" && is_provider host (provider_domain p) in
    let claude = add_when "claude" claude_hosts ps [] in
    let codex = add_when "codex" codex_hosts ps claude in
    let kimi = add_when "kimi" kimi_hosts ps codex in
    let opencode = opencode_hosts ps kimi in
    mem-sort_hosts host (add_when "gemini" gemini_hosts ps opencode)
    ∙ mem-add_when host "gemini" gemini_hosts ps opencode
    ∙ ap (λ b. b || any (needs "gemini" gemini_hosts) ps)
        (mem-opencode_hosts host ps kimi
          ∙ ap (λ b. b || any of_model ps)
              (mem-add_when host "kimi" kimi_hosts ps codex
                ∙ ap (λ b. b || any (needs "kimi" kimi_hosts) ps)
                    (mem-add_when host "codex" codex_hosts ps claude
                      ∙ ap (λ b. b || any (needs "codex" codex_hosts) ps)
                          (mem-add_when host "claude" claude_hosts ps []))))
    ∙ sym (
        any-or_five (needs "claude" claude_hosts) (needs "codex" codex_hosts)
          (needs "kimi" kimi_hosts) of_model (needs "gemini" gemini_hosts) ps)
