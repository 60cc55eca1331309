-- ===== src/Domain/ReviewDecision.antt =====
-- `ReviewDecision` of satsa/domain/evidence.py: the record, its validation, and its two translations to a `dict`.
use sat_sa_with_pqc.Base.{contains, String, Option, Result, ok, ◌>>=◌, List, [], ◌∷◌}
use sat_sa_with_pqc.Base.Int.{ℤ, pos}
use sat_sa_with_pqc.Json.{
  Dict, end, field, str, num, opt_str, str_at, str_or, num_or, opt_str_at, str_or_fresh, ReadError,
}
use sat_sa_with_pqc.Domain.Base.{
  Message, text, must_be_one_of, require, is_set, current_schema_version,
}

pub record ReviewDecision : Type 0 where
  pub finding_id : String
  pub principal_identity_id : String
  pub action : String
  pub reason : String
  pub occurred_at : ℤ
  pub previous_revision_id : Option String
  pub id : String
  pub schema_version : ℤ

abbrev pub review_actions : List String
review_actions = "confirm" ∷ "dismiss" ∷ "escalate" ∷ "request_review" ∷ "annotate" ∷ []

unfoldable pub validate : ReviewDecision → List Message
validate r =
    let errors = require (is_set r.finding_id) (text "finding_id is required") [] in
    let errors =
      require (is_set r.principal_identity_id) (text "principal_identity_id is required") errors in
    require (contains r.action review_actions) (must_be_one_of "action" r.action) errors

unfoldable pub to_dict : ReviewDecision → Dict
to_dict r = field "action" (str r.action) (
    field "finding_id" (str r.finding_id) (
      field "id" (str r.id) (
        field "occurred_at" (num r.occurred_at) (
          field "previous_revision_id" (opt_str r.previous_revision_id) (
            field "principal_identity_id" (str r.principal_identity_id) (
              field "reason" (str r.reason)
                (field "schema_version" (num r.schema_version) (end))))))))

-- `fresh` is what `new_id` returns.
unfoldable pub from_dict : String → Dict → Result ReadError ReviewDecision
from_dict fresh d = do
  finding_id ← str_at "finding_id" d
  principal_identity_id ← str_at "principal_identity_id" d
  action ← str_at "action" d
  reason ← str_or "reason" "" d
  occurred_at ← num_or "occurred_at" (pos 0) d
  previous_revision_id ← opt_str_at "previous_revision_id" d
  id ← str_or_fresh "id" fresh d
  schema_version ← num_or "schema_version" current_schema_version d
  ok (record {
    finding_id = finding_id;
    principal_identity_id = principal_identity_id;
    action = action;
    reason = reason;
    occurred_at = occurred_at;
    previous_revision_id = previous_revision_id;
    id = id;
    schema_version = schema_version;
  })
