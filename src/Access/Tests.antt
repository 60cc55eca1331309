-- ===== src/Access/Tests.antt =====
-- qsmlops/security/permissions: the theorems at some grants.
use sat_sa_with_pqc.Base.{
  String, ◌≡◌, ◌↔◌, refl, inl, inr, true, false, List, [], ◌∷◌, ok, err, All, OneOf,
}
use sat_sa_with_pqc.Access.Vocabulary.{roles, agent_observe}
use sat_sa_with_pqc.Access.Permission.{
  unknown_grant, lacks_permission, grant_permissions, effective, has_permission, require_permission,
}
use sat_sa_with_pqc.Access.Decides.{IsKnown, SomeGives, has_permission_iff}
use sat_sa_with_pqc.Access.Agents.{observing, agents_only_observe}

-- A role, a permission and a wildcard, and an unknown grant.
run_some_checks :
    (has_permission roles ("satsa_analyst" ∷ []) "decision.record" ≡ ok false)
    × (has_permission roles ("model.*" ∷ []) "model.deploy" ≡ ok true)
    × (has_permission roles ("key.manage" ∷ []) "key.manage" ≡ ok true)
    × (has_permission roles ("nobody" ∷ []) "key.manage" ≡ err (unknown_grant "nobody"))
    × (require_permission ("satsa_auditor" ∷ []) "review.create" ""
        ≡ err (lacks_permission "<unknown>" "review.create"))
unfolding has_permission effective grant_permissions require_permission
run_some_checks = (refl, refl, refl, refl, refl)

has_permission_iff_example :
    (has_permission roles ("satsa_viewer" ∷ "model.*" ∷ []) "model.deploy" ≡ ok true) ↔ (
      All (IsKnown roles) ("satsa_viewer" ∷ "model.*" ∷ [])
      × SomeGives roles "model.deploy" ("satsa_viewer" ∷ "model.*" ∷ []))
has_permission_iff_example =
    has_permission_iff roles ("satsa_viewer" ∷ "model.*" ∷ []) "model.deploy"

abbrev mixed : List String
mixed = "satsa_supervisor" ∷ "operator" ∷ []

two_agents_observe :
    has_permission roles ("redteam_agent" ∷ "data_agent" ∷ []) agent_observe ≡ ok true
unfolding has_permission effective grant_permissions
two_agents_observe = refl

agents_only_observe_example : OneOf agent_observe observing
agents_only_observe_example =
    agents_only_observe ("redteam_agent" ∷ "data_agent" ∷ []) agent_observe
      (inr (inr (inr (inr (inr (inl refl))))), (inr (inr (inr (inl refl))), tt)) two_agents_observe
