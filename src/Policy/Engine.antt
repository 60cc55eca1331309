-- ===== src/Policy/Engine.antt =====
-- `PolicyEngine` of qsmlops/supervisor/policy.py: the rules in order of priority, and what they decide.
-- `float` and `int` read a number or a Boolean.
use sat_sa_with_pqc.Base.{
  String, ◌==◌, Bool, true, false, ◌&&◌, Option, none, some, List, [], ◌∷◌, ◌++◌, Result, ok, ◌>>=◌,
  if◌then◌else◌,
}
use sat_sa_with_pqc.Base.Int.{ℤ, pos, leb_ℤ}
use sat_sa_with_pqc.Base.Rows.{first}
use sat_sa_with_pqc.Base.Sorting.{sort_by}
use sat_sa_with_pqc.Json.{
  Json, Items, Dict, nil, cons, end, field, null, str, num, bool, arr, obj, get_or, truthy, as_dict,
}
use sat_sa_with_pqc.Policy.Condition as Condition
use sat_sa_with_pqc.Policy.Condition.{PolicyFault, reading, Condition}
use sat_sa_with_pqc.Policy.Rule as Rule
use sat_sa_with_pqc.Policy.Rule.{Rule, is_empty, iterated, as_int}

pub record Decision : Type 0 where
  pub rule_name : String
  pub action : String
  pub priority : ℤ
  pub matched_conditions : List String
  pub unmatched_conditions : List String
  pub description : String
  pub gate : Bool

pub record Thresholds : Type 0 where
  pub quarantine_risk : ℤ
  pub block_risk : ℤ
  pub escalate_risk : ℤ
  pub max_auto_recoveries : ℤ
  pub min_security_score : ℤ

-- An engine that no document gave has no thresholds.
pub record Engine : Type 0 where
  pub rules : List Rule
  pub thresholds : Option Thresholds

-- `sorted(rules, key=lambda r: -r.priority)`
abbrev pub not_after : Rule → Rule → Bool
not_after r s = leb_ℤ s.priority r.priority

abbrev pub sorted : List Rule → List Rule
sorted rules = sort_by not_after rules

abbrev pub new_engine : List Rule → Engine
new_engine rules = record { rules = sorted rules; thresholds = none }

unfoldable pub add_rule : Rule → Engine → Engine
add_rule r e = record e { rules = sorted (e.rules ++ r ∷ []) }

abbrev pub read_rules : Items → Result PolicyFault (List Rule)
read_rules nil = ok []
read_rules (cons x xs) = do
  d ← reading (as_dict "rules" x)
  r ← Rule.from_dict d
  rs ← read_rules xs
  ok (r ∷ rs)

-- `doc.get("thresholds") or {}`
abbrev pub defaults_of : Json → Result PolicyFault Dict
defaults_of v = if truthy v then reading (as_dict "thresholds" v) else ok end

abbrev pub threshold : String → ℤ → Dict → Result PolicyFault ℤ
threshold k default d = reading (as_int k (get_or k (num default) d))

abbrev pub read_thresholds : Dict → Result PolicyFault Thresholds
read_thresholds d = do
  quarantine_risk ← threshold "quarantine_risk" (pos 40) d
  block_risk ← threshold "block_risk" (pos 55) d
  escalate_risk ← threshold "escalate_risk" (pos 70) d
  max_auto_recoveries ← threshold "max_auto_recoveries" (pos 2) d
  min_security_score ← threshold "min_security_score" (pos 90) d
  ok (record {
    quarantine_risk = quarantine_risk;
    block_risk = block_risk;
    escalate_risk = escalate_risk;
    max_auto_recoveries = max_auto_recoveries;
    min_security_score = min_security_score;
  })

unfoldable pub from_document : Dict → Result PolicyFault Engine
from_document doc = do
  raw_rules ← reading (iterated "rules" (get_or "rules" (arr nil) doc))
  rules ← read_rules raw_rules
  defaults ← defaults_of (get_or "thresholds" null doc)
  thresholds ← read_thresholds defaults
  ok (record { rules = sorted rules; thresholds = some thresholds })

abbrev pub conditions_json : List Condition → Items
conditions_json [] = nil
conditions_json (c ∷ cs) = cons (Condition.to_json c) (conditions_json cs)

-- `**({k: [...]} if conditions else {})`
abbrev pub with_conditions : String → List Condition → Dict → Dict
with_conditions k [] d = d
with_conditions k (c ∷ cs) d = field k (arr (conditions_json (c ∷ cs))) d

abbrev pub rule_dict : Rule → Dict
rule_dict r = field "action" (str r.action) (
    field "description" (str r.description) (
      field "enabled" (bool r.enabled) (
        field "gate" (bool r.gate) (
          field "name" (str r.name) (
            field "priority" (num r.priority) (
              field "when"
                (obj (
                  with_conditions "all" r.all_of
                    (with_conditions "any" r.any_of (with_conditions "none" r.none_of end))))
                end))))))

abbrev pub rules_json : List Rule → Items
rules_json [] = nil
rules_json (r ∷ rs) = cons (obj (rule_dict r)) (rules_json rs)

abbrev pub thresholds_dict : Option Thresholds → Dict
thresholds_dict none = end
thresholds_dict (some t) = field "block_risk" (num t.block_risk) (
    field "escalate_risk" (num t.escalate_risk) (
      field "max_auto_recoveries" (num t.max_auto_recoveries) (
        field "min_security_score" (num t.min_security_score)
          (field "quarantine_risk" (num t.quarantine_risk) end))))

unfoldable pub to_dict : Engine → Dict
to_dict e =
    field "rules" (arr (rules_json e.rules))
      (field "thresholds" (obj (thresholds_dict e.thresholds)) end)

module _ (repr : Json → String) where
  abbrev pub decision_of : Rule → List String × List String → Decision
  decision_of r (sat, unsat) = record {
    rule_name = r.name;
    action = r.action;
    priority = r.priority;
    matched_conditions = sat;
    unmatched_conditions = unsat;
    description = r.description;
    gate = r.gate;
  }

  abbrev pub add_decision :
      Rule → Bool × (List String × List String) → List Decision → List Decision
  add_decision r (true, lists) ds = decision_of r lists ∷ ds
  add_decision r (false, lists) ds = ds

  abbrev pub evaluate_rules : Dict → List Rule → Result PolicyFault (List Decision)
  evaluate_rules facts [] = ok []
  evaluate_rules facts (r ∷ rs) =
      let rest = evaluate_rules facts rs in
      if r.enabled
      then (Rule.matches repr facts r >>= λ m. rest >>= λ ds. ok (add_decision r m ds))
      else rest

  unfoldable pub evaluate : Dict → Engine → Result PolicyFault (List Decision)
  evaluate facts e = evaluate_rules facts e.rules

  abbrev pub first_or_none : List Decision → Option Decision
  first_or_none [] = none
  first_or_none (d ∷ ds) = some d

  unfoldable pub first_decision : Dict → Engine → Result PolicyFault (Option Decision)
  first_decision facts e = evaluate facts e >>= λ ds. ok (first_or_none ds)

  abbrev pub blocks : Decision → Bool
  blocks d = d.gate && d.action == "BLOCK_DEPLOYMENT"

  unfoldable pub deployment_blocked : Dict → Engine → Result PolicyFault (Option Decision)
  deployment_blocked facts e = evaluate facts e >>= λ ds. ok (first blocks ds)
