-- ===== src/Domain/Escalation.antt =====
-- `Escalation` of satsa/domain/workflow.py: the record, its validation, and its two translations to a `dict`.
use sat_sa_with_pqc.Base.{String, Option, Result, ok, ◌>>=◌, ◌||◌, List, []}
use sat_sa_with_pqc.Base.Int.{ℤ}
use sat_sa_with_pqc.Json.{
  Dict, end, field, str, num, opt_str, str_at, num_at, str_or, num_or, opt_str_at, str_or_fresh,
  ReadError,
}
use sat_sa_with_pqc.Domain.Base.{Message, text, require, is_set, current_schema_version, opt_is_set}

pub record Escalation : Type 0 where
  pub entity_id : String
  pub assessment_id : String
  pub occurred_at : ℤ
  pub alert_id : Option String
  pub case_id : Option String
  pub destination_role : String
  pub trigger : String
  pub outcome : String
  pub policy_exception_ref : Option String
  pub id : String
  pub schema_version : ℤ

unfoldable pub validate : Escalation → List Message
validate r =
    let errors = require (is_set r.entity_id) (text "entity_id is required") [] in
    let errors = require (is_set r.assessment_id) (text "assessment_id is required") errors in
    require (opt_is_set r.alert_id || opt_is_set r.case_id)
      (text "an escalation must reference at least one of alert_id/case_id") errors

unfoldable pub to_dict : Escalation → Dict
to_dict r = field "alert_id" (opt_str r.alert_id) (
    field "assessment_id" (str r.assessment_id) (
      field "case_id" (opt_str r.case_id) (
        field "destination_role" (str r.destination_role) (
          field "entity_id" (str r.entity_id) (
            field "id" (str r.id) (
              field "occurred_at" (num r.occurred_at) (
                field "outcome" (str r.outcome) (
                  field "policy_exception_ref" (opt_str r.policy_exception_ref) (
                    field "schema_version" (num r.schema_version)
                      (field "trigger" (str r.trigger) (end)))))))))))

-- `fresh` is what `new_id` returns.
unfoldable pub from_dict : String → Dict → Result ReadError Escalation
from_dict fresh d = do
  entity_id ← str_at "entity_id" d
  assessment_id ← str_at "assessment_id" d
  occurred_at ← num_at "occurred_at" d
  alert_id ← opt_str_at "alert_id" d
  case_id ← opt_str_at "case_id" d
  destination_role ← str_or "destination_role" "" d
  trigger ← str_or "trigger" "" d
  outcome ← str_or "outcome" "" d
  policy_exception_ref ← opt_str_at "policy_exception_ref" d
  id ← str_or_fresh "id" fresh d
  schema_version ← num_or "schema_version" current_schema_version d
  ok (record {
    entity_id = entity_id;
    assessment_id = assessment_id;
    occurred_at = occurred_at;
    alert_id = alert_id;
    case_id = case_id;
    destination_role = destination_role;
    trigger = trigger;
    outcome = outcome;
    policy_exception_ref = policy_exception_ref;
    id = id;
    schema_version = schema_version;
  })
