-- ===== src/Domain/AnalysisRun.antt =====
-- `AnalysisRun` of satsa/domain/runs.py: the record, its validation, and its two translations to a `dict`.
use sat_sa_with_pqc.Base.{
  contains, String, Option, none, some, Result, ok, ◌>>=◌, Bool, true, false, List, [], ◌∷◌, ◌==◌,
  if◌then◌else◌,
}
use sat_sa_with_pqc.Base.Int.{ℤ}
use sat_sa_with_pqc.Json.{
  Items, Dict, nil, end, field, str, num, arr, obj, opt_num, opt_str, str_at, str_or, num_or,
  opt_num_at, opt_str_at, list_or, dict_or, str_or_fresh, ReadError,
}
use sat_sa_with_pqc.Domain.Base.{
  Message, text, must_be_one_of, status_requires, require, is_set, current_schema_version,
}

pub record AnalysisRun : Type 0 where
  pub entity_id : String
  pub assessment_id : String
  pub snapshot_digest : String
  pub baseline_digests : Dict
  pub code_version : String
  pub analytics_version : String
  pub model_version : Option String
  pub status : String
  pub started_at : Option ℤ
  pub finished_at : Option ℤ
  pub observation_ids : Items
  pub error : String
  pub id : String
  pub schema_version : ℤ

abbrev pub run_statuses : List String
run_statuses = "pending" ∷ "running" ∷ "completed" ∷ "failed" ∷ "partial" ∷ "cancelled" ∷ []

abbrev pub terminal_statuses : List String
terminal_statuses = "completed" ∷ "failed" ∷ "partial" ∷ "cancelled" ∷ []

abbrev pub is_recorded : Option ℤ → Bool
is_recorded none = false
is_recorded (some t) = true

unfoldable pub validate : AnalysisRun → List Message
validate r =
    let errors = require (is_set r.entity_id) (text "entity_id is required") [] in
    let errors = require (is_set r.assessment_id) (text "assessment_id is required") errors in
    let errors = require (is_set r.snapshot_digest) (text "snapshot_digest is required") errors in
    let errors =
      require (contains r.status run_statuses) (must_be_one_of "status" r.status) errors in
    let errors =
      if contains r.status terminal_statuses
      then require (is_recorded r.finished_at) (status_requires r.status "finished_at") errors
      else errors in
    if r.status == "failed"
    then require (is_set r.error) (text "status='failed' requires a non-empty error") errors
    else errors

unfoldable pub to_dict : AnalysisRun → Dict
to_dict r = field "analytics_version" (str r.analytics_version) (
    field "assessment_id" (str r.assessment_id) (
      field "baseline_digests" (obj r.baseline_digests) (
        field "code_version" (str r.code_version) (
          field "entity_id" (str r.entity_id) (
            field "error" (str r.error) (
              field "finished_at" (opt_num r.finished_at) (
                field "id" (str r.id) (
                  field "model_version" (opt_str r.model_version) (
                    field "observation_ids" (arr r.observation_ids) (
                      field "schema_version" (num r.schema_version) (
                        field "snapshot_digest" (str r.snapshot_digest) (
                          field "started_at" (opt_num r.started_at)
                            (field "status" (str r.status) (end))))))))))))))

-- `fresh` is what `new_id` returns.
unfoldable pub from_dict : String → Dict → Result ReadError AnalysisRun
from_dict fresh d = do
  entity_id ← str_at "entity_id" d
  assessment_id ← str_at "assessment_id" d
  snapshot_digest ← str_at "snapshot_digest" d
  baseline_digests ← dict_or "baseline_digests" end d
  code_version ← str_or "code_version" "" d
  analytics_version ← str_or "analytics_version" "" d
  model_version ← opt_str_at "model_version" d
  status ← str_or "status" "pending" d
  started_at ← opt_num_at "started_at" d
  finished_at ← opt_num_at "finished_at" d
  observation_ids ← list_or "observation_ids" nil d
  error ← str_or "error" "" d
  id ← str_or_fresh "id" fresh d
  schema_version ← num_or "schema_version" current_schema_version d
  ok (record {
    entity_id = entity_id;
    assessment_id = assessment_id;
    snapshot_digest = snapshot_digest;
    baseline_digests = baseline_digests;
    code_version = code_version;
    analytics_version = analytics_version;
    model_version = model_version;
    status = status;
    started_at = started_at;
    finished_at = finished_at;
    observation_ids = observation_ids;
    error = error;
    id = id;
    schema_version = schema_version;
  })
