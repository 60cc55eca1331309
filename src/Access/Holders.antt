-- ===== src/Access/Holders.antt =====
-- Who holds the permissions that matter most, over the built-in roles.
use sat_sa_with_pqc.Base.{
  String, ◌≡◌, ◌⊎◌, Bool, true, false, ◌&&◌, not, List, [], ◌∷◌, ok, err, contains, OneOf, All,
}
use sat_sa_with_pqc.Access.Vocabulary.{Roles, roles}
use sat_sa_with_pqc.Access.Permission.{grant_permissions, permits}

abbrev role_names : Roles → List String
role_names [] = []
role_names ((name, permissions) ∷ rest) = name ∷ role_names rest

-- The names of the built-in roles.
abbrev pub built_in : List String
built_in = role_names roles

abbrev pub SomeOneOf : List String → List String → Type 0
SomeOneOf [] ys = ⊥
SomeOneOf (x ∷ xs) ys = OneOf x ys ⊎ SomeOneOf xs ys

-- The role is built in, and gives the permission exactly if it is among the holders.
abbrev HeldBy : String → List String → String → Type 0
HeldBy p holders role =
    (xs : List String) × (grant_permissions roles role ≡ ok xs)
    × (permits xs p ≡ contains role holders)

abbrev same : Bool → Bool → Bool
same true b = b
same false b = not b

agrees : String → List String → String → Bool
agrees p holders role = elim (grant_permissions roles role) [
  | ok xs ↦ same (permits xs p) (contains role holders)
  | err e ↦ false
]

abbrev all_agree : String → List String → List String → Bool
all_agree p holders [] = true
all_agree p holders (role ∷ rest) = agrees p holders role && all_agree p holders rest

abbrev pub AreBuiltIn : List String → Type 0
AreBuiltIn = All (λ role. OneOf role built_in)
