-- ===== src/Domain/Base.antt =====
-- satsa/domain/base.py: `require` and the schema version. `new_id` draws from `uuid4`; what it
-- returns is an argument of the functions that call it.
use sat_sa_with_pqc.Base.{
  String, Bool, false, not, Option, none, some, List, [], ◌∷◌, ◌++◌, ◌==◌, if◌then◌else◌,
}
use sat_sa_with_pqc.Base.Int.{ℤ, pos}

abbrev pub current_schema_version : ℤ
current_schema_version = pos 1

-- A problem that a `validate` reports: a fixed text, or one that quotes a value.
pub data Message : Type 0 where
  text : String → Message
  -- "<field> <value> must be one of <the field's values>"
  must_be_one_of : String → String → Message
  -- "status=<status> requires <field>"
  status_requires : String → String → Message

-- Append `message` to `errors` iff `condition` is False.
abbrev pub require : Bool → Message → List Message → List Message
require condition message errors = if condition then errors else errors ++ message ∷ []

-- `bool(s)` at a text, and at an optional one.
abbrev pub is_set : String → Bool
is_set s = not (s == "")

abbrev pub opt_is_set : Option String → Bool
opt_is_set none = false
opt_is_set (some s) = is_set s
