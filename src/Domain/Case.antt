-- ===== src/Domain/Case.antt =====
-- `Case` of satsa/domain/workflow.py: the record, its validation, and its two translations to a `dict`.
use sat_sa_with_pqc.Base.{String, Option, none, some, Result, ok, ◌>>=◌, List, [], ◌==◌}
use sat_sa_with_pqc.Base.Int.{ℤ, leb_ℤ}
use sat_sa_with_pqc.Json.{
  Items, Dict, nil, end, field, str, num, arr, opt_num, str_at, num_at, str_or, num_or, opt_num_at,
  list_or, str_or_fresh, ReadError,
}
use sat_sa_with_pqc.Domain.Base.{Message, text, require, is_set, current_schema_version}

pub record Case : Type 0 where
  pub entity_id : String
  pub assessment_id : String
  pub native_id : String
  pub opened_at : ℤ
  pub alert_refs : Items
  pub owner_pseudonym : String
  pub status : String
  pub closed_at : Option ℤ
  pub closure_reason : String
  pub investigation_refs : Items
  pub remediation_refs : Items
  pub source_record_ref : String
  pub id : String
  pub schema_version : ℤ

check_closed : ℤ → String → Option ℤ → List Message → List Message
check_closed opened status none errors = errors
check_closed opened status (some closed) errors =
    let errors = require (leb_ℤ opened closed) (text "closed_at cannot precede opened_at") errors in
    require (status == "closed") (text "closed_at set but status is not 'closed'") errors

unfoldable pub validate : Case → List Message
unfolding check_closed
validate r =
    let errors = require (is_set r.entity_id) (text "entity_id is required") [] in
    let errors = require (is_set r.assessment_id) (text "assessment_id is required") errors in
    let errors = require (is_set r.native_id) (text "native_id is required") errors in
    check_closed r.opened_at r.status r.closed_at errors

unfoldable pub to_dict : Case → Dict
to_dict r = field "alert_refs" (arr r.alert_refs) (
    field "assessment_id" (str r.assessment_id) (
      field "closed_at" (opt_num r.closed_at) (
        field "closure_reason" (str r.closure_reason) (
          field "entity_id" (str r.entity_id) (
            field "id" (str r.id) (
              field "investigation_refs" (arr r.investigation_refs) (
                field "native_id" (str r.native_id) (
                  field "opened_at" (num r.opened_at) (
                    field "owner_pseudonym" (str r.owner_pseudonym) (
                      field "remediation_refs" (arr r.remediation_refs) (
                        field "schema_version" (num r.schema_version) (
                          field "source_record_ref" (str r.source_record_ref)
                            (field "status" (str r.status) (end))))))))))))))

-- `fresh` is what `new_id` returns.
unfoldable pub from_dict : String → Dict → Result ReadError Case
from_dict fresh d = do
  entity_id ← str_at "entity_id" d
  assessment_id ← str_at "assessment_id" d
  native_id ← str_at "native_id" d
  opened_at ← num_at "opened_at" d
  alert_refs ← list_or "alert_refs" nil d
  owner_pseudonym ← str_or "owner_pseudonym" "" d
  status ← str_or "status" "open" d
  closed_at ← opt_num_at "closed_at" d
  closure_reason ← str_or "closure_reason" "" d
  investigation_refs ← list_or "investigation_refs" nil d
  remediation_refs ← list_or "remediation_refs" nil d
  source_record_ref ← str_or "source_record_ref" "" d
  id ← str_or_fresh "id" fresh d
  schema_version ← num_or "schema_version" current_schema_version d
  ok (record {
    entity_id = entity_id;
    assessment_id = assessment_id;
    native_id = native_id;
    opened_at = opened_at;
    alert_refs = alert_refs;
    owner_pseudonym = owner_pseudonym;
    status = status;
    closed_at = closed_at;
    closure_reason = closure_reason;
    investigation_refs = investigation_refs;
    remediation_refs = remediation_refs;
    source_record_ref = source_record_ref;
    id = id;
    schema_version = schema_version;
  })
