-- ===== src/Domain/ProvenanceRecord.antt =====
-- `ProvenanceRecord` of satsa/domain/evidence.py: the record, its validation, and its two translations to a `dict`.
use sat_sa_with_pqc.Base.{String, Result, ok, ◌>>=◌, List, []}
use sat_sa_with_pqc.Json.{Dict, end, field, str, obj, str_at, dict_or, ReadError}
use sat_sa_with_pqc.Domain.Base.{Message, text, require, is_set}

pub record ProvenanceRecord : Type 0 where
  pub subject_type : String
  pub subject_id : String
  pub predicate : String
  pub object_type : String
  pub object_id : String
  pub metadata : Dict

unfoldable pub validate : ProvenanceRecord → List Message
validate r =
    let errors = require (is_set r.subject_type) (text "subject_type is required") [] in
    let errors = require (is_set r.subject_id) (text "subject_id is required") errors in
    let errors = require (is_set r.predicate) (text "predicate is required") errors in
    let errors = require (is_set r.object_type) (text "object_type is required") errors in
    require (is_set r.object_id) (text "object_id is required") errors

unfoldable pub to_dict : ProvenanceRecord → Dict
to_dict r = field "metadata" (obj r.metadata) (
    field "object_id" (str r.object_id) (
      field "object_type" (str r.object_type) (
        field "predicate" (str r.predicate) (
          field "subject_id" (str r.subject_id)
            (field "subject_type" (str r.subject_type) (end))))))

unfoldable pub from_dict : Dict → Result ReadError ProvenanceRecord
from_dict d = do
  subject_type ← str_at "subject_type" d
  subject_id ← str_at "subject_id" d
  predicate ← str_at "predicate" d
  object_type ← str_at "object_type" d
  object_id ← str_at "object_id" d
  metadata ← dict_or "metadata" end d
  ok (record {
    subject_type = subject_type;
    subject_id = subject_id;
    predicate = predicate;
    object_type = object_type;
    object_id = object_id;
    metadata = metadata;
  })
