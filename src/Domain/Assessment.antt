-- ===== src/Domain/Assessment.antt =====
-- `Assessment` of satsa/domain/entities.py: the record, its validation, and its two translations to a `dict`.
use sat_sa_with_pqc.Base.{
  contains, String, Option, Result, ok, ◌>>=◌, Bool, ◌&&◌, not, List, [], ◌∷◌,
}
use sat_sa_with_pqc.Base.Int.{ℤ, leb_ℤ}
use sat_sa_with_pqc.Json.{
  Dict, end, field, str, num, opt_num, opt_str, str_at, num_at, str_or, num_or, opt_num_at,
  opt_str_at, str_or_fresh, ReadError,
}
use sat_sa_with_pqc.Domain.Base.{
  Message, text, must_be_one_of, require, is_set, current_schema_version,
}

pub record Assessment : Type 0 where
  pub entity_id : String
  pub period_start : ℤ
  pub period_end : ℤ
  pub timezone : String
  pub submission_cutoff : Option ℤ
  pub policy_version : String
  pub status : String
  pub supersedes_id : Option String
  pub id : String
  pub schema_version : ℤ

abbrev pub assessment_statuses : List String
assessment_statuses = "draft" ∷ "open" ∷ "closed" ∷ "superseded" ∷ []

unfoldable pub validate : Assessment → List Message
validate r =
    let errors = require (is_set r.entity_id) (text "entity_id is required") [] in
    let errors =
      require (not (leb_ℤ r.period_end r.period_start))
        (text "period_end must be after period_start") errors in
    require (contains r.status assessment_statuses) (must_be_one_of "status" r.status) errors

-- `Assessment.contains`: half-open interval membership.
unfoldable pub contains_time : Assessment → ℤ → Bool
contains_time r timestamp = leb_ℤ r.period_start timestamp && not (leb_ℤ r.period_end timestamp)

unfoldable pub to_dict : Assessment → Dict
to_dict r = field "entity_id" (str r.entity_id) (
    field "id" (str r.id) (
      field "period_end" (num r.period_end) (
        field "period_start" (num r.period_start) (
          field "policy_version" (str r.policy_version) (
            field "schema_version" (num r.schema_version) (
              field "status" (str r.status) (
                field "submission_cutoff" (opt_num r.submission_cutoff) (
                  field "supersedes_id" (opt_str r.supersedes_id)
                    (field "timezone" (str r.timezone) (end))))))))))

-- `fresh` is what `new_id` returns.
unfoldable pub from_dict : String → Dict → Result ReadError Assessment
from_dict fresh d = do
  entity_id ← str_at "entity_id" d
  period_start ← num_at "period_start" d
  period_end ← num_at "period_end" d
  timezone ← str_or "timezone" "UTC" d
  submission_cutoff ← opt_num_at "submission_cutoff" d
  policy_version ← str_or "policy_version" "" d
  status ← str_or "status" "draft" d
  supersedes_id ← opt_str_at "supersedes_id" d
  id ← str_or_fresh "id" fresh d
  schema_version ← num_or "schema_version" current_schema_version d
  ok (record {
    entity_id = entity_id;
    period_start = period_start;
    period_end = period_end;
    timezone = timezone;
    submission_cutoff = submission_cutoff;
    policy_version = policy_version;
    status = status;
    supersedes_id = supersedes_id;
    id = id;
    schema_version = schema_version;
  })
