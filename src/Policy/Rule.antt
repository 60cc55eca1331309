-- ===== src/Policy/Rule.antt =====
-- `Rule` of qsmlops/supervisor/policy.py. `repr` is Python's function of that name. `int` reads a number or
-- a Boolean: a text of digits, which Python would parse, is ill typed.
use sat_sa_with_pqc.Base.{
  String, ◌==◌, Bool, true, false, not, ◌&&◌, ◌||◌, List, [], ◌∷◌, ◌++◌, Result, ok, err, ◌>>=◌,
  ◌>>◌, raise_if, or_raise, if◌then◌else◌,
}
use sat_sa_with_pqc.Base.Int.{ℤ, pos}
use sat_sa_with_pqc.Json.Equal.{as_number}
use sat_sa_with_pqc.Json.{
  Json, Items, Dict, nil, cons, end, field, null, str, num, bool, arr, obj, get_or, item, truthy,
  ReadError, ill_typed, as_dict, str_at, str_or,
}
use sat_sa_with_pqc.Policy.Values.{joined, upper, lower_case, is_key}
use sat_sa_with_pqc.Policy.Condition as Condition
use sat_sa_with_pqc.Policy.Condition.{
  PolicyFault, missing_action, no_conditions, bad_value, reading, Condition,
}

pub record Rule : Type 0 where
  pub name : String
  pub action : String
  pub priority : ℤ
  pub description : String
  pub all_of : List Condition
  pub any_of : List Condition
  pub none_of : List Condition
  pub enabled : Bool
  pub gate : Bool

-- `d.get("when") or {}`, where a bare list is all-of.
abbrev pub when_of : Json → Result PolicyFault Dict
when_of (arr (cons x xs)) = ok (field "all" (arr (cons x xs)) end)
when_of v = if truthy v then reading (as_dict "when" v) else ok end

abbrev pub read_conditions : Items → Result PolicyFault (List Condition)
read_conditions nil = ok []
read_conditions (cons x xs) = do
  d ← reading (as_dict "when" x)
  c ← Condition.from_dict d
  cs ← read_conditions xs
  ok (c ∷ cs)

-- What a loop over a value reads; the items of a text and the keys of a dictionary are no conditions.
abbrev pub iterated : String → Json → Result ReadError Items
iterated k (arr xs) = ok xs
iterated k (obj end) = ok nil
iterated k (str s) = if s == "" then ok nil else err (ill_typed k)
iterated k _ = err (ill_typed k)

abbrev pub conditions_at : String → Dict → Result PolicyFault (List Condition)
conditions_at k d = reading (iterated k (get_or k (arr nil) d)) >>= read_conditions

abbrev pub is_empty : {A : Type 0} → List A → Bool
is_empty [] = true
is_empty (x ∷ xs) = false

-- The check that a rule has conditions; its message quotes `d['name']`.
abbrev pub check_conditions :
    List Condition → List Condition → List Condition → Dict → Result PolicyFault (Unit {0})
check_conditions all_of any_of none_of d =
    if is_empty all_of && is_empty any_of && is_empty none_of
    then (reading (item "name" d) >>= λ name. err (no_conditions name))
    else ok tt

abbrev pub as_int : String → Json → Result ReadError ℤ
as_int k v = or_raise (as_number v) (ill_typed k)

unfoldable pub from_dict : Dict → Result PolicyFault Rule
from_dict d = do
  raise_if (not (is_key "action" d)) missing_action
  when ← when_of (get_or "when" null d)
  all_of ← conditions_at "all" when
  any_of ← conditions_at "any" when
  none_of ← conditions_at "none" when
  check_conditions all_of any_of none_of d
  action ← reading (str_at "action" d)
  name ← reading (str_or "name" (joined "rule-" (lower_case action)) d)
  priority ← reading (as_int "priority" (get_or "priority" (num (pos 50)) d))
  description ← reading (str_or "description" "" d)
  ok (record {
    name = name;
    action = upper action;
    priority = priority;
    description = description;
    all_of = all_of;
    any_of = any_of;
    none_of = none_of;
    enabled = truthy (get_or "enabled" (bool true) d);
    gate = truthy (get_or "gate" (bool (upper action == "BLOCK_DEPLOYMENT")) d);
  })

-- The loop over `all_of`, `any(...)`, and the loop over `none_of`.
abbrev pub all_match : Dict → List Condition → Result PolicyFault Bool
all_match facts [] = ok true
all_match facts (c ∷ cs) = do
  m ← Condition.matches facts c
  rest ← all_match facts cs
  ok (m && rest)

abbrev pub any_match : Dict → List Condition → Result PolicyFault Bool
any_match facts [] = ok false
any_match facts (c ∷ cs) =
    let rest = any_match facts cs in
    Condition.matches facts c >>= λ m. (if m then ok true else rest)

abbrev pub none_match : Dict → List Condition → Result PolicyFault Bool
none_match facts [] = ok true
none_match facts (c ∷ cs) = do
  m ← Condition.matches facts c
  rest ← none_match facts cs
  ok (not m && rest)

module _ (repr : Json → String) where
  abbrev pub summary : Condition → String
  summary c = joined c.name (joined " " (joined c.op (joined " " (repr c.value))))

  abbrev pub add_summary : Bool → String → List String × List String → List String × List String
  add_summary true s (sat, unsat) = (s ∷ sat, unsat)
  add_summary false s (sat, unsat) = (sat, s ∷ unsat)

  abbrev pub summaries : Dict → List Condition → Result PolicyFault (List String × List String)
  summaries facts [] = ok ([], [])
  summaries facts (c ∷ cs) = do
    m ← Condition.matches facts c
    rest ← summaries facts cs
    ok (add_summary m (summary c) rest)

  unfoldable pub matches : Dict → Rule → Result PolicyFault (Bool × (List String × List String))
  matches facts r = do
    lists ← summaries facts (r.all_of ++ r.any_of ++ r.none_of)
    all_hold ← all_match facts r.all_of
    any_holds ← any_match facts r.any_of
    none_holds ← none_match facts r.none_of
    ok (all_hold && (is_empty r.any_of || any_holds) && none_holds, lists)
