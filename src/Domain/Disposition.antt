-- ===== src/Domain/Disposition.antt =====
-- `Disposition` of satsa/domain/workflow.py: the record, its validation, and its two translations to a `dict`.
use sat_sa_with_pqc.Base.{String, Option, Result, ok, ◌>>=◌, ◌||◌, List, []}
use sat_sa_with_pqc.Base.Int.{ℤ}
use sat_sa_with_pqc.Json.{
  Items, Dict, nil, end, field, str, num, arr, opt_str, str_at, num_at, str_or, num_or, opt_str_at,
  list_or, str_or_fresh, ReadError,
}
use sat_sa_with_pqc.Domain.Base.{Message, text, require, is_set, current_schema_version, opt_is_set}

pub record Disposition : Type 0 where
  pub entity_id : String
  pub assessment_id : String
  pub occurred_at : ℤ
  pub alert_id : Option String
  pub case_id : Option String
  pub mapped_category : String
  pub reason : String
  pub approver_role : String
  pub exception_ref : Option String
  pub supporting_refs : Items
  pub id : String
  pub schema_version : ℤ

unfoldable pub validate : Disposition → List Message
validate r =
    let errors = require (is_set r.entity_id) (text "entity_id is required") [] in
    let errors = require (is_set r.assessment_id) (text "assessment_id is required") errors in
    require (opt_is_set r.alert_id || opt_is_set r.case_id)
      (text "a disposition must reference at least one of alert_id/case_id") errors

unfoldable pub to_dict : Disposition → Dict
to_dict r = field "alert_id" (opt_str r.alert_id) (
    field "approver_role" (str r.approver_role) (
      field "assessment_id" (str r.assessment_id) (
        field "case_id" (opt_str r.case_id) (
          field "entity_id" (str r.entity_id) (
            field "exception_ref" (opt_str r.exception_ref) (
              field "id" (str r.id) (
                field "mapped_category" (str r.mapped_category) (
                  field "occurred_at" (num r.occurred_at) (
                    field "reason" (str r.reason) (
                      field "schema_version" (num r.schema_version)
                        (field "supporting_refs" (arr r.supporting_refs) (end))))))))))))

-- `fresh` is what `new_id` returns.
unfoldable pub from_dict : String → Dict → Result ReadError Disposition
from_dict fresh d = do
  entity_id ← str_at "entity_id" d
  assessment_id ← str_at "assessment_id" d
  occurred_at ← num_at "occurred_at" d
  alert_id ← opt_str_at "alert_id" d
  case_id ← opt_str_at "case_id" d
  mapped_category ← str_or "mapped_category" "unknown" d
  reason ← str_or "reason" "" d
  approver_role ← str_or "approver_role" "" d
  exception_ref ← opt_str_at "exception_ref" d
  supporting_refs ← list_or "supporting_refs" nil d
  id ← str_or_fresh "id" fresh d
  schema_version ← num_or "schema_version" current_schema_version d
  ok (record {
    entity_id = entity_id;
    assessment_id = assessment_id;
    occurred_at = occurred_at;
    alert_id = alert_id;
    case_id = case_id;
    mapped_category = mapped_category;
    reason = reason;
    approver_role = approver_role;
    exception_ref = exception_ref;
    supporting_refs = supporting_refs;
    id = id;
    schema_version = schema_version;
  })
