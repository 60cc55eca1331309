-- ===== src/Domain/InvestigationStep.antt =====
-- `InvestigationStep` of satsa/domain/workflow.py: the record, its validation, and its two translations to a `dict`.
use sat_sa_with_pqc.Base.{String, Result, ok, ◌>>=◌, List, []}
use sat_sa_with_pqc.Base.Int.{ℤ, pos, leb_ℤ}
use sat_sa_with_pqc.Json.{
  Items, Dict, nil, end, field, str, num, arr, str_at, num_at, str_or, num_or, list_or,
  str_or_fresh, ReadError,
}
use sat_sa_with_pqc.Domain.Base.{Message, text, require, is_set, current_schema_version}

pub record InvestigationStep : Type 0 where
  pub case_id : String
  pub action_type : String
  pub performed_at : ℤ
  pub sequence : ℤ
  pub analyst_pseudonym : String
  pub evidence_refs : Items
  pub result_refs : Items
  pub note_text : String
  pub id : String
  pub schema_version : ℤ

unfoldable pub validate : InvestigationStep → List Message
validate r =
    let errors = require (is_set r.case_id) (text "case_id is required") [] in
    let errors = require (is_set r.action_type) (text "action_type is required") errors in
    require (leb_ℤ (pos 0) r.sequence) (text "sequence must be non-negative") errors

unfoldable pub to_dict : InvestigationStep → Dict
to_dict r = field "action_type" (str r.action_type) (
    field "analyst_pseudonym" (str r.analyst_pseudonym) (
      field "case_id" (str r.case_id) (
        field "evidence_refs" (arr r.evidence_refs) (
          field "id" (str r.id) (
            field "note_text" (str r.note_text) (
              field "performed_at" (num r.performed_at) (
                field "result_refs" (arr r.result_refs) (
                  field "schema_version" (num r.schema_version)
                    (field "sequence" (num r.sequence) (end))))))))))

-- `fresh` is what `new_id` returns.
unfoldable pub from_dict : String → Dict → Result ReadError InvestigationStep
from_dict fresh d = do
  case_id ← str_at "case_id" d
  action_type ← str_at "action_type" d
  performed_at ← num_at "performed_at" d
  sequence ← num_at "sequence" d
  analyst_pseudonym ← str_or "analyst_pseudonym" "" d
  evidence_refs ← list_or "evidence_refs" nil d
  result_refs ← list_or "result_refs" nil d
  note_text ← str_or "note_text" "" d
  id ← str_or_fresh "id" fresh d
  schema_version ← num_or "schema_version" current_schema_version d
  ok (record {
    case_id = case_id;
    action_type = action_type;
    performed_at = performed_at;
    sequence = sequence;
    analyst_pseudonym = analyst_pseudonym;
    evidence_refs = evidence_refs;
    result_refs = result_refs;
    note_text = note_text;
    id = id;
    schema_version = schema_version;
  })
