-- ===== src/Domain/Alert.antt =====
-- `Alert` of satsa/domain/workflow.py: the record, its validation, and its two translations to a `dict`.
use sat_sa_with_pqc.Base.{String, Option, none, some, Result, ok, ◌>>=◌, List, []}
use sat_sa_with_pqc.Base.Int.{ℤ, ◌-ℤ◌, leb_ℤ}
use sat_sa_with_pqc.Json.{
  Items, Dict, nil, end, field, str, num, arr, opt_num, opt_str, str_at, num_at, str_or, num_or,
  opt_num_at, opt_str_at, list_or, str_or_fresh, ReadError,
}
use sat_sa_with_pqc.Domain.Base.{Message, text, require, is_set, current_schema_version}

pub record Alert : Type 0 where
  pub entity_id : String
  pub assessment_id : String
  pub native_id : String
  pub created_at : ℤ
  pub native_severity : String
  pub mapped_severity : String
  pub native_category : String
  pub mapped_category : String
  pub asset_refs : Items
  pub case_refs : Items
  pub detector_refs : Items
  pub acknowledged_at : Option ℤ
  pub closed_at : Option ℤ
  pub disposition_id : Option String
  pub source_record_ref : String
  pub id : String
  pub schema_version : ℤ

-- The check behind `if self.acknowledged_at is not None`.
check_acknowledged : ℤ → Option ℤ → List Message → List Message
check_acknowledged created none errors = errors
check_acknowledged created (some acknowledged) errors =
    require (leb_ℤ created acknowledged) (text "acknowledged_at cannot precede created_at") errors

-- The check behind `if self.closed_at is not None and self.acknowledged_at is not None`.
check_closed : Option ℤ → Option ℤ → List Message → List Message
check_closed none acknowledged errors = errors
check_closed (some closed) none errors = errors
check_closed (some closed) (some acknowledged) errors =
    require (leb_ℤ acknowledged closed) (text "closed_at cannot precede acknowledged_at") errors

unfoldable pub validate : Alert → List Message
unfolding check_acknowledged check_closed
validate r =
    let errors = require (is_set r.entity_id) (text "entity_id is required") [] in
    let errors = require (is_set r.assessment_id) (text "assessment_id is required") errors in
    let errors = require (is_set r.native_id) (text "native_id is required") errors in
    let errors = check_acknowledged r.created_at r.acknowledged_at errors in
    check_closed r.closed_at r.acknowledged_at errors

unfoldable pub time_to_acknowledge : Alert → Option ℤ
time_to_acknowledge r = elim r.acknowledged_at [ none ↦ none | some t ↦ some (t -ℤ r.created_at) ]

unfoldable pub time_to_close : Alert → Option ℤ
time_to_close r = elim r.closed_at [ none ↦ none | some t ↦ some (t -ℤ r.created_at) ]

unfoldable pub to_dict : Alert → Dict
to_dict r = field "acknowledged_at" (opt_num r.acknowledged_at) (
    field "assessment_id" (str r.assessment_id) (
      field "asset_refs" (arr r.asset_refs) (
        field "case_refs" (arr r.case_refs) (
          field "closed_at" (opt_num r.closed_at) (
            field "created_at" (num r.created_at) (
              field "detector_refs" (arr r.detector_refs) (
                field "disposition_id" (opt_str r.disposition_id) (
                  field "entity_id" (str r.entity_id) (
                    field "id" (str r.id) (
                      field "mapped_category" (str r.mapped_category) (
                        field "mapped_severity" (str r.mapped_severity) (
                          field "native_category" (str r.native_category) (
                            field "native_id" (str r.native_id) (
                              field "native_severity" (str r.native_severity) (
                                field "schema_version" (num r.schema_version) (
                                  field "source_record_ref" (str r.source_record_ref)
                                    (end)))))))))))))))))

-- `fresh` is what `new_id` returns.
unfoldable pub from_dict : String → Dict → Result ReadError Alert
from_dict fresh d = do
  entity_id ← str_at "entity_id" d
  assessment_id ← str_at "assessment_id" d
  native_id ← str_at "native_id" d
  created_at ← num_at "created_at" d
  native_severity ← str_or "native_severity" "" d
  mapped_severity ← str_or "mapped_severity" "unknown" d
  native_category ← str_or "native_category" "" d
  mapped_category ← str_or "mapped_category" "unknown" d
  asset_refs ← list_or "asset_refs" nil d
  case_refs ← list_or "case_refs" nil d
  detector_refs ← list_or "detector_refs" nil d
  acknowledged_at ← opt_num_at "acknowledged_at" d
  closed_at ← opt_num_at "closed_at" d
  disposition_id ← opt_str_at "disposition_id" d
  source_record_ref ← str_or "source_record_ref" "" d
  id ← str_or_fresh "id" fresh d
  schema_version ← num_or "schema_version" current_schema_version d
  ok (record {
    entity_id = entity_id;
    assessment_id = assessment_id;
    native_id = native_id;
    created_at = created_at;
    native_severity = native_severity;
    mapped_severity = mapped_severity;
    native_category = native_category;
    mapped_category = mapped_category;
    asset_refs = asset_refs;
    case_refs = case_refs;
    detector_refs = detector_refs;
    acknowledged_at = acknowledged_at;
    closed_at = closed_at;
    disposition_id = disposition_id;
    source_record_ref = source_record_ref;
    id = id;
    schema_version = schema_version;
  })
