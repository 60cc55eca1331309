-- ===== src/Domain/Finding.antt =====
-- `Finding` of satsa/domain/evidence.py: the record, its validation, and its two translations to a `dict`.
-- `__post_init__`, which makes floating-point numbers of whole ones, is left out: numbers are whole.
use sat_sa_with_pqc.Base.{
  contains, String, Option, none, some, Result, ok, ◌>>=◌, Bool, true, false, List, [], ◌∷◌, ◌==◌,
  if◌then◌else◌,
}
use sat_sa_with_pqc.Base.Int.{ℤ}
use sat_sa_with_pqc.Json.{
  Json, Items, Dict, nil, end, field, null, str, num, arr, obj, opt_num, str_at, str_or, num_or,
  opt_num_at, list_or, str_or_fresh, truthy, get_or, as_dict, ReadError,
}
use sat_sa_with_pqc.Domain.Base.{
  Message, text, must_be_one_of, require, is_set, current_schema_version,
}
use sat_sa_with_pqc.Domain.ConfidenceVector
use sat_sa_with_pqc.Domain.ConfidenceVector.{ConfidenceVector}

pub record Finding : Type 0 where
  pub observation_id : String
  pub rule_or_category : String
  pub state : String
  pub rationale : String
  pub scoped_subjects : Items
  pub statistic : Option ℤ
  pub effect : Option ℤ
  pub threshold : Option ℤ
  pub confidence : Option ConfidenceVector
  pub evidence_refs : Items
  pub limitations : String
  pub id : String
  pub schema_version : ℤ

abbrev pub finding_states : List String
finding_states = "signal" ∷ "no_signal" ∷ "insufficient_data" ∷ "not_applicable" ∷ "error" ∷ []

abbrev pub any_items : Items → Bool
any_items xs = truthy (arr xs)

abbrev pub is_present : Option ConfidenceVector → Bool
is_present none = false
is_present (some c) = true

-- What only a finding in state "signal" is held to.
check_signal : Finding → List Message → List Message
check_signal r errors =
    let errors =
      require (any_items r.evidence_refs)
        (text
          "a 'signal' finding must cite at least one evidence_ref (SIH-EX-02: 'a score without explanation is insufficient')")
        errors in
    require (is_present r.confidence) (text "a 'signal' finding must carry a confidence vector")
      errors

unfoldable pub validate : Finding → List Message
unfolding check_signal
validate r =
    let errors = require (is_set r.observation_id) (text "observation_id is required") [] in
    let errors = require (is_set r.rule_or_category) (text "rule_or_category is required") errors in
    let errors =
      require (contains r.state finding_states) (must_be_one_of "state" r.state) errors in
    if r.state == "signal" then check_signal r errors else errors

unfoldable pub opt_confidence : Option ConfidenceVector → Json
opt_confidence none = null
opt_confidence (some c) = obj (ConfidenceVector.to_dict c)

-- `ConfidenceVector.from_dict(v) if v else None`
unfoldable pub read_confidence : Json → Result ReadError (Option ConfidenceVector)
read_confidence v =
    if truthy v
    then (do d ← as_dict "confidence" v; c ← ConfidenceVector.from_dict d; ok (some c))
    else ok none

unfoldable pub to_dict : Finding → Dict
unfolding opt_confidence
to_dict r = field "confidence" (opt_confidence r.confidence) (
    field "effect" (opt_num r.effect) (
      field "evidence_refs" (arr r.evidence_refs) (
        field "id" (str r.id) (
          field "limitations" (str r.limitations) (
            field "observation_id" (str r.observation_id) (
              field "rationale" (str r.rationale) (
                field "rule_or_category" (str r.rule_or_category) (
                  field "schema_version" (num r.schema_version) (
                    field "scoped_subjects" (arr r.scoped_subjects) (
                      field "state" (str r.state) (
                        field "statistic" (opt_num r.statistic)
                          (field "threshold" (opt_num r.threshold) (end)))))))))))))

-- `fresh` is what `new_id` returns.
unfoldable pub from_dict : String → Dict → Result ReadError Finding
unfolding read_confidence
from_dict fresh d = do
  observation_id ← str_at "observation_id" d
  rule_or_category ← str_at "rule_or_category" d
  state ← str_at "state" d
  rationale ← str_or "rationale" "" d
  scoped_subjects ← list_or "scoped_subjects" nil d
  statistic ← opt_num_at "statistic" d
  effect ← opt_num_at "effect" d
  threshold ← opt_num_at "threshold" d
  confidence ← read_confidence (get_or "confidence" null d)
  evidence_refs ← list_or "evidence_refs" nil d
  limitations ← str_or "limitations" "" d
  id ← str_or_fresh "id" fresh d
  schema_version ← num_or "schema_version" current_schema_version d
  ok (record {
    observation_id = observation_id;
    rule_or_category = rule_or_category;
    state = state;
    rationale = rationale;
    scoped_subjects = scoped_subjects;
    statistic = statistic;
    effect = effect;
    threshold = threshold;
    confidence = confidence;
    evidence_refs = evidence_refs;
    limitations = limitations;
    id = id;
    schema_version = schema_version;
  })
