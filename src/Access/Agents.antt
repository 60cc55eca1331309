-- ===== src/Access/Agents.antt =====
-- The roles of the AI agents: they observe and recommend, and never act.
use Prim.Native.Char.{code}
use sat_sa_with_pqc.Base.{
  same_value, ℕ, String, ◌≡◌, ◌≢◌, inl, inr, refl, subst, true, List, [], ◌∷◌, ok, OneOf, All,
  All-OneOf, arith, Bool-cases,
}
use sat_sa_with_pqc.Access.Vocabulary.{
  roles, all_actions, agent_role_names, agent_observe, agent_recommend, artifact_read, model_read,
  platform_read, audit_read,
}
use sat_sa_with_pqc.Access.Permission.{domain_wildcard, is_code, grant_permissions, has_permission}
use sat_sa_with_pqc.Access.Decides.{Permits, SomeGives, has_permission_iff}

-- The code of the last character, or the one given.
abbrev last_code : ℕ → String → ℕ
last_code n String.[] = n
last_code n (String.◌∷◌ c s) = last_code (code c) s

last_code-domain_wildcard : (n : ℕ) (s : String) → last_code n (domain_wildcard s) ≡ b'*'
last_code-domain_wildcard n String.[] = refl
last_code-domain_wildcard n (String.◌∷◌ c s) = elim (Bool-cases (is_code b'.' c)) [
  | inl dot ↦ rw dot refl
  | inr other ↦ rw other (last_code-domain_wildcard (code c) s)
]

-- What the agents may do: observe, recommend, and read.
abbrev pub observing : List String
observing =
    agent_observe ∷ agent_recommend ∷ artifact_read ∷ model_read ∷ platform_read ∷ audit_read ∷ []

-- The permission is one of the agents', and is no wildcard.
abbrev IsNarrow : String → Type 0
IsNarrow q = OneOf q observing × (last_code 0 q ≢ b'*')

All-IsNarrow : All IsNarrow observing
All-IsNarrow = (
  (inl refl, λ h. omega (arith, h)),
  (
    (inr (inl refl), λ h. omega (arith, h)),
    (
      (inr (inr (inl refl)), λ h. omega (arith, h)),
      (
        (inr (inr (inr (inl refl))), λ h. omega (arith, h)),
        (
          (inr (inr (inr (inr (inl refl)))), λ h. omega (arith, h)),
          ((inr (inr (inr (inr (inr (inl refl))))), λ h. omega (arith, h)), tt),
        ),
      ),
    ),
  ),
)

Permits-narrow :
    (xs : List String) (p : String) → All IsNarrow xs → Permits xs p → OneOf p observing
Permits-narrow xs p h given = elim given [
  | inl everything ↦ elim ((All-OneOf IsNarrow xs all_actions h everything).1 refl) [ ]
  | inr (inl it) ↦ (All-OneOf IsNarrow xs p h it).0
  | inr (inr domain) ↦
      elim ((All-OneOf IsNarrow xs (domain_wildcard p) h domain).1
        (last_code-domain_wildcard 0 p)) [ ]
]

abbrev IsAgent : String → Type 0
IsAgent role = (xs : List String) × (grant_permissions roles role ≡ ok xs) × All IsNarrow xs

agents : All IsAgent agent_role_names
unfolding grant_permissions
agents =
    let (observe, (recommend, (artifacts, (models, (platform, (audit, _)))))) = All-IsNarrow in
    (
      (_, refl, (observe, (recommend, (artifacts, tt)))),
      (
        (_, refl, (observe, (recommend, (models, tt)))),
        (
          (_, refl, (observe, (recommend, (platform, (audit, tt))))),
          (
            (_, refl, (observe, (recommend, (models, tt)))),
            (
              (_, refl, (observe, (recommend, (audit, tt)))),
              ((_, refl, (observe, (artifacts, tt))), tt),
            ),
          ),
        ),
      ),
    )

SomeGives-agents :
    (p : String) (grants : List String)
    → All (λ role. OneOf role agent_role_names) grants
    → SomeGives roles p grants
    → OneOf p observing
SomeGives-agents p [] h g = elim g [ ]
SomeGives-agents p (role ∷ rest) (known, h) g = elim g [
  | inl (ys, found, given) ↦
      let (xs, e, narrow) = All-OneOf IsAgent agent_role_names role agents known in
      Permits-narrow xs p narrow
        (subst (λ zs. Permits zs p) (same_value (grant_permissions roles role) found e) given)
  | inr other ↦ SomeGives-agents p rest h other
]

-- Whatever set of agent roles an actor has, a permission that it gives is `agent.observe`,
-- `agent.recommend`, or the reading of artifacts, models, the platform or the audit log.
pub agents_only_observe :
    (grants : List String) (p : String)
    → All (λ role. OneOf role agent_role_names) grants
    → has_permission roles grants p ≡ ok true
    → OneOf p observing
agents_only_observe grants p h given =
    SomeGives-agents p grants h ((has_permission_iff roles grants p).0 given).1
