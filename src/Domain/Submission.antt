-- ===== src/Domain/Submission.antt =====
-- `Submission` of satsa/domain/entities.py: the record, its validation, and its two translations to a `dict`.
use sat_sa_with_pqc.Base.{contains, String, Option, Result, ok, ◌>>=◌, not, List, [], ◌∷◌}
use sat_sa_with_pqc.Base.Int.{ℤ, leb_ℤ}
use sat_sa_with_pqc.Json.{
  Dict, end, field, str, num, obj, opt_num, str_at, num_at, str_or, num_or, opt_num_at, dict_or,
  str_or_fresh, ReadError,
}
use sat_sa_with_pqc.Domain.Base.{
  Message, text, must_be_one_of, require, is_set, current_schema_version,
}

pub record Submission : Type 0 where
  pub assessment_id : String
  pub source_system : String
  pub declared_period_start : ℤ
  pub declared_period_end : ℤ
  pub file_digests : Dict
  pub declared_counts : Dict
  pub schema_name : String
  pub received_at : Option ℤ
  pub signature_status : String
  pub id : String
  pub schema_version : ℤ

abbrev pub signature_statuses : List String
signature_statuses = "unsigned" ∷ "signed" ∷ "verified" ∷ "verification_failed" ∷ []

unfoldable pub validate : Submission → List Message
validate r =
    let errors = require (is_set r.assessment_id) (text "assessment_id is required") [] in
    let errors = require (is_set r.source_system) (text "source_system is required") errors in
    let errors =
      require (not (leb_ℤ r.declared_period_end r.declared_period_start))
        (text "declared_period_end must be after declared_period_start") errors in
    require (contains r.signature_status signature_statuses)
      (must_be_one_of "signature_status" r.signature_status) errors

unfoldable pub to_dict : Submission → Dict
to_dict r = field "assessment_id" (str r.assessment_id) (
    field "declared_counts" (obj r.declared_counts) (
      field "declared_period_end" (num r.declared_period_end) (
        field "declared_period_start" (num r.declared_period_start) (
          field "file_digests" (obj r.file_digests) (
            field "id" (str r.id) (
              field "received_at" (opt_num r.received_at) (
                field "schema_name" (str r.schema_name) (
                  field "schema_version" (num r.schema_version) (
                    field "signature_status" (str r.signature_status)
                      (field "source_system" (str r.source_system) (end)))))))))))

-- `fresh` is what `new_id` returns.
unfoldable pub from_dict : String → Dict → Result ReadError Submission
from_dict fresh d = do
  assessment_id ← str_at "assessment_id" d
  source_system ← str_at "source_system" d
  declared_period_start ← num_at "declared_period_start" d
  declared_period_end ← num_at "declared_period_end" d
  file_digests ← dict_or "file_digests" end d
  declared_counts ← dict_or "declared_counts" end d
  schema_name ← str_or "schema_name" "" d
  received_at ← opt_num_at "received_at" d
  signature_status ← str_or "signature_status" "unsigned" d
  id ← str_or_fresh "id" fresh d
  schema_version ← num_or "schema_version" current_schema_version d
  ok (record {
    assessment_id = assessment_id;
    source_system = source_system;
    declared_period_start = declared_period_start;
    declared_period_end = declared_period_end;
    file_digests = file_digests;
    declared_counts = declared_counts;
    schema_name = schema_name;
    received_at = received_at;
    signature_status = signature_status;
    id = id;
    schema_version = schema_version;
  })
