-- ===== src/Eval/Planning/Usable.antt =====
-- What the roles of a request satisfy.
use deepswe_eval_lab.Base.{
  String, ◌≡◌, refl, sym, subst, Bool, true, false, ◌&&◌, ◌||◌, not, Option, none, some, ◌==◌,
  arith, ok, after_bind, after_check, Bool-cases, Result-cases, inl, inr,
}
use deepswe_eval_lab.Base.Dict.{Dict}
use deepswe_eval_lab.Base.Int.{ℤ, pos}
use deepswe_eval_lab.Eval.Models.{AgentProfile, Topology, ExecutionPlan}
use deepswe_eval_lab.Eval.Models
use deepswe_eval_lab.Eval.Profiles.{resolve}
use deepswe_eval_lab.Eval.Profiles.Valid.{IsValid, AllValid, resolve-IsValid}
use deepswe_eval_lab.Eval.Planning.{
  PlanRequest, role_overrides_only, no_roles, single_overrides_only, present, is_collab,
  resolve_role, Roles, collab_roles, role_overrides, single_roles, both_roles, roles_of,
}

-- A profile that a plan may name.
pub record IsUsable (allow_unverified : Bool) (p : AgentProfile) : Type 0 where
  pub valid : IsValid p
  pub verified : (p.status == "unverified" && not allow_unverified) ≡ false

unfoldable pub IsUsableOption : Bool → Option AgentProfile → Type 0
IsUsableOption allow none = Unit
IsUsableOption allow (some p) = IsUsable allow p

-- The reviewer and the reviews of each topology.
pub record HasShape (topology : Topology) (reviewer : Option AgentProfile) (max_reviews : ℤ)
    : Type 0 where
  pub reviewer_present : present reviewer ≡ is_collab topology
  pub no_reviews : not (is_collab topology) ≡ true → max_reviews ≡ pos 0

resolve_role-IsUsable :
    (registry : Dict AgentProfile) (name : String) (allow : Bool) (model effort : Option String)
    (p : AgentProfile)
    → AllValid registry
    → resolve_role registry name allow model effort ≡ ok p
    → IsUsable allow p
unfolding resolve_role
resolve_role-IsUsable registry name allow model effort p vs h =
    elim (Result-cases (resolve registry name allow model effort)) [
      | inl (q, e) ↦
          let (v, u) = resolve-IsValid registry name allow model effort p vs (ground arith) in
          record { valid = v; verified = u }
      | inr (q, e) ↦ ground arith
    ]

-- What the branches on `request.agent` bind.
pub record HasRoles (request : PlanRequest) (roles : Roles) : Type 0 where
  pub modifier : IsUsable request.allow_unverified roles.modifier
  pub reviewer : IsUsableOption request.allow_unverified roles.reviewer
  pub shape : HasShape roles.topology roles.reviewer roles.max_reviews
  pub collab : is_collab roles.topology ≡ (request.agent == "collab")

collab_roles-HasRoles :
    (request : PlanRequest) (registry : Dict AgentProfile) (modifier reviewer : String)
    (roles : Roles)
    → AllValid registry
    → (request.agent == "collab") ≡ true
    → collab_roles request registry modifier reviewer ≡ ok roles
    → HasRoles request roles
unfolding collab_roles IsUsableOption
collab_roles-HasRoles request registry modifier reviewer roles vs c h =
    after_check (present request.model || present request.effort) role_overrides_only h λ _ h₁.
      after_bind
        (resolve_role registry modifier request.allow_unverified request.modifier_model
          request.modifier_effort)
        h₁
        λ p e h₂.
          after_bind
            (resolve_role registry reviewer request.allow_unverified request.reviewer_model
              request.reviewer_effort)
            h₂
            λ q f h₃.
              subst (HasRoles request)
                {x = record {
                  topology = Models.Topology.collab;
                  workflow = Models.Workflow.review_loop;
                  modifier = p;
                  reviewer = some q;
                  max_reviews = request.max_reviews;
                }}
                (cc h₃)
                (record {
                  modifier =
                      resolve_role-IsUsable registry modifier request.allow_unverified
                        request.modifier_model request.modifier_effort p vs e;
                  reviewer =
                      resolve_role-IsUsable registry reviewer request.allow_unverified
                        request.reviewer_model request.reviewer_effort q vs f;
                  shape = record { reviewer_present = refl; no_reviews = λ h. cc h };
                  collab = sym c;
                })

single_roles-HasRoles :
    (request : PlanRequest) (registry : Dict AgentProfile) (roles : Roles)
    → AllValid registry
    → (request.agent == "collab") ≡ false
    → single_roles request registry ≡ ok roles
    → HasRoles request roles
unfolding single_roles IsUsableOption
single_roles-HasRoles request registry roles vs c h =
    after_check (present request.modifier || present request.reviewer) no_roles h λ _ h₁.
      after_check (role_overrides request) single_overrides_only h₁ λ _ h₂.
        after_bind
          (resolve_role registry request.agent request.allow_unverified request.model
            request.effort)
          h₂
          λ p e h₃.
            subst (HasRoles request)
              {x = record {
                topology = Models.Topology.single;
                workflow = Models.Workflow.single;
                modifier = p;
                reviewer = none;
                max_reviews = pos 0;
              }}
              (cc h₃)
              (record {
                modifier =
                    resolve_role-IsUsable registry request.agent request.allow_unverified
                      request.model request.effort p vs e;
                reviewer = tt;
                shape = record { reviewer_present = refl; no_reviews = λ h. refl };
                collab = sym c;
              })

both_roles-HasRoles :
    (request : PlanRequest) (registry : Dict AgentProfile) (modifier reviewer : Option String)
    (roles : Roles)
    → AllValid registry
    → (request.agent == "collab") ≡ true
    → both_roles request registry modifier reviewer ≡ ok roles
    → HasRoles request roles
unfolding both_roles
both_roles-HasRoles request registry (some m) (some r) roles vs c h =
    collab_roles-HasRoles request registry m r roles vs c h
both_roles-HasRoles request registry none r roles vs c h = cc
both_roles-HasRoles request registry (some m) none roles vs c h = cc

pub roles_of-HasRoles :
    (request : PlanRequest) (registry : Dict AgentProfile) (roles : Roles)
    → AllValid registry
    → roles_of request registry ≡ ok roles
    → HasRoles request roles
unfolding roles_of
roles_of-HasRoles request registry roles vs h = elim (Bool-cases (request.agent == "collab")) [
  | inl e ↦
      both_roles-HasRoles request registry request.modifier request.reviewer roles vs e (cc (e, h))
  | inr e ↦ single_roles-HasRoles request registry roles vs e (cc (e, h))
]
