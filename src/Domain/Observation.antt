-- ===== src/Domain/Observation.antt =====
-- `Observation` of satsa/domain/evidence.py: the record, its validation, and its two translations to a `dict`.
use sat_sa_with_pqc.Base.{String, Result, ok, ◌>>=◌, List, []}
use sat_sa_with_pqc.Base.Int.{ℤ, pos}
use sat_sa_with_pqc.Json.{
  Dict, end, field, str, num, obj, str_at, str_or, num_or, dict_or, str_or_fresh, ReadError,
}
use sat_sa_with_pqc.Domain.Base.{Message, text, require, is_set, current_schema_version}

pub record Observation : Type 0 where
  pub run_id : String
  pub worker_name : String
  pub detector_version : String
  pub entity_id : String
  pub assessment_id : String
  pub scope : Dict
  pub created_at : ℤ
  pub id : String
  pub schema_version : ℤ

unfoldable pub validate : Observation → List Message
validate r =
    let errors = require (is_set r.run_id) (text "run_id is required") [] in
    let errors = require (is_set r.worker_name) (text "worker_name is required") errors in
    let errors = require (is_set r.entity_id) (text "entity_id is required") errors in
    require (is_set r.assessment_id) (text "assessment_id is required") errors

unfoldable pub to_dict : Observation → Dict
to_dict r = field "assessment_id" (str r.assessment_id) (
    field "created_at" (num r.created_at) (
      field "detector_version" (str r.detector_version) (
        field "entity_id" (str r.entity_id) (
          field "id" (str r.id) (
            field "run_id" (str r.run_id) (
              field "schema_version" (num r.schema_version)
                (field "scope" (obj r.scope) (field "worker_name" (str r.worker_name) (end)))))))))

-- `fresh` is what `new_id` returns.
unfoldable pub from_dict : String → Dict → Result ReadError Observation
from_dict fresh d = do
  run_id ← str_at "run_id" d
  worker_name ← str_at "worker_name" d
  detector_version ← str_or "detector_version" "" d
  entity_id ← str_at "entity_id" d
  assessment_id ← str_at "assessment_id" d
  scope ← dict_or "scope" end d
  created_at ← num_or "created_at" (pos 0) d
  id ← str_or_fresh "id" fresh d
  schema_version ← num_or "schema_version" current_schema_version d
  ok (record {
    run_id = run_id;
    worker_name = worker_name;
    detector_version = detector_version;
    entity_id = entity_id;
    assessment_id = assessment_id;
    scope = scope;
    created_at = created_at;
    id = id;
    schema_version = schema_version;
  })
