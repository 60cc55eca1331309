-- ===== src/Domain/SourceRecord.antt =====
-- `SourceRecord` of satsa/domain/evidence.py: the record, its validation, and its two translations to a `dict`.
use sat_sa_with_pqc.Base.{String, Result, ok, ◌>>=◌, List, []}
use sat_sa_with_pqc.Base.Int.{ℤ}
use sat_sa_with_pqc.Json.{Dict, end, field, str, num, str_at, num_or, str_or_fresh, ReadError}
use sat_sa_with_pqc.Domain.Base.{Message, text, require, is_set, current_schema_version}

pub record SourceRecord : Type 0 where
  pub submission_id : String
  pub file_digest : String
  pub format : String
  pub locator : String
  pub original_record_digest : String
  pub id : String
  pub schema_version : ℤ

unfoldable pub validate : SourceRecord → List Message
validate r =
    let errors = require (is_set r.submission_id) (text "submission_id is required") [] in
    let errors = require (is_set r.file_digest) (text "file_digest is required") errors in
    require (is_set r.original_record_digest) (text "original_record_digest is required") errors

unfoldable pub to_dict : SourceRecord → Dict
to_dict r = field "file_digest" (str r.file_digest) (
    field "format" (str r.format) (
      field "id" (str r.id) (
        field "locator" (str r.locator) (
          field "original_record_digest" (str r.original_record_digest) (
            field "schema_version" (num r.schema_version)
              (field "submission_id" (str r.submission_id) (end)))))))

-- `fresh` is what `new_id` returns.
unfoldable pub from_dict : String → Dict → Result ReadError SourceRecord
from_dict fresh d = do
  submission_id ← str_at "submission_id" d
  file_digest ← str_at "file_digest" d
  format ← str_at "format" d
  locator ← str_at "locator" d
  original_record_digest ← str_at "original_record_digest" d
  id ← str_or_fresh "id" fresh d
  schema_version ← num_or "schema_version" current_schema_version d
  ok (record {
    submission_id = submission_id;
    file_digest = file_digest;
    format = format;
    locator = locator;
    original_record_digest = original_record_digest;
    id = id;
    schema_version = schema_version;
  })
