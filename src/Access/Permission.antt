-- ===== src/Access/Permission.antt =====
-- qsmlops/security/permissions/model.py: the test whether a set of grants gives a permission. A set
-- is a list here; an unknown grant raises, and the first one in the list is named.
use Prim.Native.Char.{Char, code}
use sat_sa_with_pqc.Base.{
  ℕ, String, ◌==◌, Bool, true, false, not, ◌&&◌, ◌||◌, Option, none, some, List, [], ◌∷◌, ◌++◌,
  Result, ok, err, ◌>>=◌, raise_if, contains, eqb, if◌then◌else◌,
}
use sat_sa_with_pqc.Access.Vocabulary.{Roles, roles, all_actions}

pub data PermissionError : Type 0 where
  unknown_grant : String → PermissionError
  lacks_permission : String → String → PermissionError

-- `role_defs.get(grant)`
abbrev pub find_role : Roles → String → Option (List String)
find_role [] grant = none
find_role ((name, permissions) ∷ rest) grant =
    if grant == name then some permissions else find_role rest grant

abbrev pub is_code : ℕ → Char → Bool
is_code n c = eqb (code c) n

abbrev pub has_code : ℕ → String → Bool
has_code n String.[] = false
has_code n (String.◌∷◌ c s) = is_code n c || has_code n s

abbrev pub is_empty : String → Bool
is_empty s = s == ""

-- `candidate.split(".", 1)` of a text with a dot.
abbrev pub before_dot : String → String
before_dot String.[] = ""
before_dot (String.◌∷◌ c s) = if is_code b'.' c then "" else String.◌∷◌ c (before_dot s)

abbrev pub after_dot : String → String
after_dot String.[] = ""
after_dot (String.◌∷◌ c s) = if is_code b'.' c then s else after_dot s

abbrev pub is_valid_permission : String → Bool
is_valid_permission candidate =
    if candidate == all_actions
    then true
    else if not (has_code b'.' candidate)
    then false
    else (not (is_empty (before_dot candidate))
        && not (is_empty (after_dot candidate))
        && not (has_code b' ' candidate))

-- `permission.split(".")[0] + ".*"`
abbrev pub domain_wildcard : String → String
domain_wildcard String.[] = ".*"
domain_wildcard (String.◌∷◌ c s) = if is_code b'.' c then ".*" else String.◌∷◌ c (domain_wildcard s)

-- The permissions of one grant: those of the role of that name, or the grant itself.
unfoldable pub grant_permissions : Roles → String → Result PermissionError (List String)
grant_permissions role_defs grant = elim (find_role role_defs grant) [
  | some permissions ↦ ok permissions
  | none ↦ if is_valid_permission grant then ok (grant ∷ []) else err (unknown_grant grant)
]

unfoldable pub effective : Roles → List String → Result PermissionError (List String)
effective role_defs [] = ok []
effective role_defs (grant ∷ grants) = do
  here ← grant_permissions role_defs grant
  rest ← effective role_defs grants
  ok (here ++ rest)

-- The tests on the effective permissions.
abbrev pub permits : List String → String → Bool
permits permissions permission =
    contains all_actions permissions
    || contains permission permissions
    || contains (domain_wildcard permission) permissions

unfoldable pub has_permission : Roles → List String → String → Result PermissionError Bool
has_permission role_defs grants permission = do
  permissions ← effective role_defs grants
  ok (permits permissions permission)

abbrev actor_or_unknown : String → String
actor_or_unknown actor = if actor == "" then "<unknown>" else actor

unfoldable pub require_permission :
    List String → String → String → Result PermissionError (Unit {0})
require_permission grants permission actor = do
  allowed ← has_permission roles grants permission
  raise_if (not allowed) (lacks_permission (actor_or_unknown actor) permission)
