-- ===== src/Policy/Condition.antt =====
-- `Condition` of qsmlops/supervisor/policy.py.
use sat_sa_with_pqc.Base.{String, Bool, false, Option, none, some, Result, ok, err, ◌>>=◌, or_raise}
use sat_sa_with_pqc.Json.{
  Json, Dict, end, field, null, str, obj, get_or, item, ReadError, ill_typed, key_error, as_str,
  str_or,
}
use sat_sa_with_pqc.Policy.Values.{operator, apply}

pub data PolicyFault : Type 0 where
  -- `PolicyError`
  missing_action : PolicyFault
  missing_key : String → PolicyFault
  no_conditions : Json → PolicyFault
  unknown_operator : String → PolicyFault
  -- Any other exception of a read.
  bad_value : ReadError → PolicyFault

abbrev pub reading : {A : Type 0} → Result ReadError A → Result PolicyFault A
reading (ok a) = ok a
reading (err e) = err (bad_value e)

pub record Condition : Type 0 where
  pub name : String
  pub op : String
  pub value : Json

-- `d["field"]`, whose KeyError becomes a `PolicyError`.
abbrev pub required : Result ReadError Json → Result PolicyFault Json
required (ok v) = ok v
required (err (key_error k)) = err (missing_key k)
required (err (ill_typed k)) = err (bad_value (ill_typed k))

unfoldable pub from_dict : Dict → Result PolicyFault Condition
from_dict d = do
  v ← required (item "field" d)
  name ← reading (as_str "field" v)
  op ← reading (str_or "op" "eq" d)
  ok (record { name = name; op = op; value = get_or "value" null d })

abbrev pub or_false : Option Bool → Bool
or_false none = false
or_false (some b) = b

-- A TypeError of the operator is no match.
unfoldable pub matches : Dict → Condition → Result PolicyFault Bool
matches facts c = do
  fn ← or_raise (operator c.op) (unknown_operator c.op)
  ok (or_false (apply fn (get_or c.name null facts) c.value))

-- `c.__dict__`
abbrev pub to_json : Condition → Json
to_json c = obj (field "field" (str c.name) (field "op" (str c.op) (field "value" c.value end)))
