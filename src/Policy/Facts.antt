-- ===== src/Policy/Facts.antt =====
-- `build_facts` of qsmlops/supervisor/policy.py, with the fields of a finding and of an observation
-- (qsmlops/agents/base.py) that it reads. `rounded` is the risk score to three places.
use sat_sa_with_pqc.Policy.Condition.{PolicyFault, bad_value}
use sat_sa_with_pqc.Evidence.Codec.{text_length}
use sat_sa_with_pqc.Base.{
  Result, ok, err, ◌>>=◌, ℕ, suc, String, ◌==◌, Bool, false, not, ◌&&◌, ◌||◌, List, [], ◌∷◌, ◌++◌,
  contains, length, ltb, if◌then◌else◌,
}
use sat_sa_with_pqc.Base.Int.{ℤ, pos}
use sat_sa_with_pqc.Json.Equal.{size, equal}
use sat_sa_with_pqc.Json.{
  Items, obj, Json, Dict, nil, cons, end, field, null, str, num, bool, arr, get_or, truthy,
  ill_typed,
}
use sat_sa_with_pqc.Evidence.Sensitive.{codes, is_prefix}
use sat_sa_with_pqc.Policy.Values.{joined, lt, orders_codes}

pub record AgentFinding : Type 0 where
  pub name : String
  pub passed : Bool
  pub severity : String

pub record AgentObservation : Type 0 where
  pub recommendation : String
  pub findings : List AgentFinding

-- `facts[k] = v`
abbrev pub set_fact : String → Json → Dict → Dict
set_fact k v end = field k v end
set_fact k v (field j w d) =
    let rest = set_fact k v d in
    if j == k
    then field k v d
    else if orders_codes lt (codes k) (codes j)
    then field k v (field j w d)
    else field j w rest

-- `{**d, **e}`
abbrev pub merged : Dict → Dict → Dict
merged d end = d
merged d (field k v e) = merged (set_fact k v d) e

abbrev pub findings_flat : List AgentObservation → List AgentFinding
findings_flat [] = []
findings_flat (o ∷ os) = o.findings ++ findings_flat os

abbrev pub count_failed : List AgentFinding → ℕ
count_failed [] = 0
count_failed (f ∷ fs) = let rest = count_failed fs in if f.passed then rest else suc rest

-- A signature finding failed.
abbrev pub is_bad_signature : AgentFinding → Bool
is_bad_signature f =
    (f.name == "passport_signature_valid" || f.name == "passport_signed") && not f.passed

abbrev pub any_finding : (AgentFinding → Bool) → List AgentFinding → Bool
any_finding p [] = false
any_finding p (f ∷ fs) = p f || any_finding p fs

-- `SEVERITY_ORDER`, with one added: NONE and what is not listed are 0.
abbrev pub severity_rank : String → ℕ
severity_rank s =
    if s == "LOW"
    then 1
    else if s == "MEDIUM"
    then 2
    else if s == "HIGH"
    then 3
    else if s == "CRITICAL"
    then 4
    else 0

abbrev pub worst_failed : String → List AgentFinding → String
worst_failed worst [] = worst
worst_failed worst (f ∷ fs) =
    worst_failed
      (if not f.passed && ltb (severity_rank worst) (severity_rank f.severity)
        then f.severity
        else worst)
      fs

abbrev pub is_critical : AgentFinding → Bool
is_critical f =
    f.severity == "CRITICAL" && not f.passed && not (is_prefix (codes "drift_") (codes f.name))

abbrev pub recommendations : List AgentObservation → List String
recommendations [] = []
recommendations (o ∷ os) = o.recommendation ∷ recommendations os

abbrev pub count_distinct : List String → ℕ
count_distinct [] = 0
count_distinct (r ∷ rs) = let rest = count_distinct rs in if contains r rs then rest else suc rest

abbrev pub count_json : ℕ → Json
count_json n = num (pos n)

-- `{f"{k}_risk": v for k, v in per_agent_risk.items()}`
abbrev pub risk_facts : Dict → Dict
risk_facts end = end
risk_facts (field k v d) = field (joined k "_risk") v (risk_facts d)

abbrev pub base_facts : List AgentObservation → ℤ → Dict → Dict
base_facts observations rounded version_record =
    let recs = recommendations observations in
    let flat = findings_flat observations in
    field "critical_finding_present" (bool (any_finding is_critical flat)) (
      field "distinct_recommendations" (count_json (count_distinct recs)) (
        field "failed_finding_count" (count_json (count_failed flat)) (
          field "finding_count" (count_json (length flat)) (
            field "max_failed_severity" (str (worst_failed "NONE" flat)) (
              field "model_state_deployed"
                (bool (equal (get_or "state" null version_record) (str "DEPLOYED")))
                (field "recommendation_block_deployment" (bool (contains "BLOCK_DEPLOYMENT" recs)) (
                  field "recommendation_escalate" (bool (contains "ESCALATE" recs)) (
                    field "recommendation_quarantine" (bool (contains "QUARANTINE" recs)) (
                      field "recommendation_retrain" (bool (contains "RETRAIN" recs)) (
                        field "recommendation_rollback" (bool (contains "ROLLBACK" recs)) (
                          field "recommendation_rotate_keys" (bool (contains "ROTATE_KEYS" recs)) (
                            field "risk_score" (num rounded) (
                              field "signature_invalid" (bool (any_finding is_bad_signature flat)) (
                                field "state" (get_or "state" (str "") version_record)
                                  end))))))))))))))

abbrev pub count_items : Items → ℕ
count_items nil = 0
count_items (cons x xs) = suc (count_items xs)

-- `len(v)`, a TypeError for null, a Boolean or a number.
abbrev pub length_of : Json → Result PolicyFault ℕ
length_of (arr xs) = ok (count_items xs)
length_of (str s) = ok (text_length s)
length_of (obj d) = ok (size d)
length_of _ = err (bad_value (ill_typed "blocking_conditions"))

-- `len(trust.get("blocking_conditions", []))`
abbrev pub blocking_count : Dict → Result PolicyFault ℕ
blocking_count trust = length_of (get_or "blocking_conditions" (arr nil) trust)

abbrev pub trust_facts : Dict → ℕ → Dict → Dict
trust_facts trust count facts = set_fact "trust_blocking_conditions" (count_json count) (
    set_fact "trust_promotion_eligible" (bool (truthy (get_or "promotion_eligible" null trust))) (
      set_fact "trust_decision" (get_or "decision" null trust)
        (set_fact "trust_score" (get_or "trust_score" null trust) facts)))

-- `if trust: facts.update(...)`
abbrev pub add_trust : Dict → Dict → Result PolicyFault Dict
add_trust end facts = ok facts
add_trust (field k v d) facts = do
  count ← blocking_count (field k v d)
  ok (trust_facts (field k v d) count facts)

abbrev pub add_drift : Dict → Dict → Dict
add_drift end facts =
    set_fact "drift_count" (count_json 0)
      (set_fact "max_drift_severity" (str "NONE") (set_fact "drift_detected" (bool false) facts))
add_drift (field k v d) facts =
    let drift = field k v d in
    set_fact "drift_count" (get_or "drift_count" (count_json 0) drift) (
      set_fact "max_drift_severity" (get_or "max_severity" (str "NONE") drift)
        (set_fact "drift_detected" (bool (truthy (get_or "drift_count" null drift))) facts))

unfoldable pub build_facts :
    List AgentObservation → ℤ → Dict → Dict → Dict → Dict → Dict → Result PolicyFault Dict
build_facts observations rounded per_agent_risk version_record scores drift trust =
    let facts =
      merged (merged (base_facts observations rounded version_record) (risk_facts per_agent_risk))
        scores in
    add_trust trust facts >>= λ trusted. ok (add_drift drift trusted)
