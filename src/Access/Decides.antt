-- ===== src/Access/Decides.antt =====
-- What `has_permission` decides, in terms of the single grants.
use sat_sa_with_pqc.Base.{
  String, ◌≡◌, ◌↔◌, ◌⊎◌, inl, inr, refl, sym, subst, true, List, [], ◌∷◌, ◌++◌, ok, >>=-eq-ok,
  same_value, OneOf, contains_iff, OneOf-append, All, arith,
}
use sat_sa_with_pqc.Access.Vocabulary.{Roles, roles, all_actions}
use sat_sa_with_pqc.Access.Permission.{
  domain_wildcard, grant_permissions, effective, permits, has_permission, require_permission,
}

-- The list holds the permission, everything, or everything of the permission's domain.
abbrev pub Permits : List String → String → Type 0
Permits permissions p =
    OneOf all_actions permissions ⊎ OneOf p permissions ⊎ OneOf (domain_wildcard p) permissions

pub permits_iff : (xs : List String) (p : String) → (permits xs p ≡ true) ↔ Permits xs p
permits_iff xs p = (
  λ h.
      ground (
        arith,
        contains_iff all_actions xs,
        contains_iff p xs,
        contains_iff (domain_wildcard p) xs,
      ),
  λ h.
      ground (
        arith,
        contains_iff all_actions xs,
        contains_iff p xs,
        contains_iff (domain_wildcard p) xs,
      ),
)

Permits-append :
    (xs ys : List String) (p : String) → Permits (xs ++ ys) p ↔ (Permits xs p ⊎ Permits ys p)
Permits-append xs ys p = (
  λ h. ground (
    arith,
    OneOf-append all_actions xs ys,
    OneOf-append p xs ys,
    OneOf-append (domain_wildcard p) xs ys,
  ),
  λ h. ground (
    arith,
    OneOf-append all_actions xs ys,
    OneOf-append p xs ys,
    OneOf-append (domain_wildcard p) xs ys,
  ),
)

-- The grant is a role, or a permission that is well formed.
abbrev pub IsKnown : Roles → String → Type 0
IsKnown defs g = (xs : List String) × (grant_permissions defs g ≡ ok xs)

-- The grant alone gives the permission.
abbrev pub Gives : Roles → String → String → Type 0
Gives defs p g = (xs : List String) × (grant_permissions defs g ≡ ok xs) × Permits xs p

abbrev pub SomeGives : Roles → String → List String → Type 0
SomeGives defs p [] = ⊥
SomeGives defs p (g ∷ gs) = Gives defs p g ⊎ SomeGives defs p gs

-- The effective permissions are exactly what the grants give.
effective_sound :
    (defs : Roles) (gs : List String) (p : String) (xs : List String)
    → effective defs gs ≡ ok xs
    → All (IsKnown defs) gs × (Permits xs p ↔ SomeGives defs p gs)
unfolding effective
effective_sound defs [] p xs e = (tt, (λ h. ground arith, λ h. elim h [ ]))
effective_sound defs (g ∷ gs) p xs e =
    let (here, known, e1) = >>=-eq-ok (grant_permissions defs g) _ e in
    let (rest, found, e2) = >>=-eq-ok (effective defs gs) _ e1 in
    let (knowns, ih) = effective_sound defs gs p rest found in
    let both : xs ≡ here ++ rest = cc e2 in
    let join = Permits-append here rest p in
    (
      ((here, known), knowns),
      (
        λ h. elim (join.0 (subst (λ ys. Permits ys p) both h)) [
          | inl one ↦ inl (here, known, one)
          | inr other ↦ inr (ih.0 other)
        ],
        λ h.
            subst (λ ys. Permits ys p) (sym both)
              (join.1 (elim h [
                | inl (ys, e3, one) ↦ inl (
                    subst (λ zs. Permits zs p) (same_value (grant_permissions defs g) e3 known) one)
                | inr other ↦ inr (ih.1 other)
              ])),
      ),
    )

effective_complete :
    (defs : Roles) (gs : List String)
    → All (IsKnown defs) gs
    → (xs : List String) × (effective defs gs ≡ ok xs)
unfolding effective
effective_complete defs [] h = ([], refl)
effective_complete defs (g ∷ gs) ((here, known), h) =
    let (rest, found) = effective_complete defs gs h in (here ++ rest, rw (known, found) refl)

-- `has_permission` answers true exactly when every grant is known and one of them alone gives the
-- permission: its role, or the grant itself, holds it, everything, or everything of its domain.
pub has_permission_iff :
    (defs : Roles) (grants : List String) (p : String)
    → (has_permission defs grants p ≡ ok true)
      ↔ (All (IsKnown defs) grants × SomeGives defs p grants)
unfolding has_permission
has_permission_iff defs grants p = (
  λ h.
      let (xs, found, e) = >>=-eq-ok (effective defs grants) _ h in
      let (knowns, given) = effective_sound defs grants p xs found in
      (knowns, given.0 ((permits_iff xs p).0 (same_value _ refl e))),
  λ h.
      let (xs, found) = effective_complete defs grants h.0 in
      let given = (effective_sound defs grants p xs found).1 in
      rw (found, (permits_iff xs p).1 (given.1 h.1)) refl,
)

-- `require_permission` lets an actor pass exactly when `has_permission` answers true for the
-- built-in roles; whoever else asks gets an error, a known one or an unknown grant.
pub require_permission_iff :
    (grants : List String) (p actor : String)
    → (require_permission grants p actor ≡ ok tt) ↔ (has_permission roles grants p ≡ ok true)
unfolding require_permission
require_permission_iff grants p actor = (λ h. ground arith, λ h. ground arith)
