-- ===== src/Policy/Defaults.antt =====
-- `DEFAULT_POLICY_DOCUMENT` of qsmlops/supervisor/policy.py, with the descriptions of its rules.
use sat_sa_with_pqc.Base.{String, true, Result}
use sat_sa_with_pqc.Base.Int.{pos}
use sat_sa_with_pqc.Json.{Json, Items, Dict, nil, cons, end, field, str, num, bool, arr, obj}
use sat_sa_with_pqc.Policy.Condition.{PolicyFault}
use sat_sa_with_pqc.Policy.Engine.{Engine, from_document}

abbrev condition : String → String → Json → Json
condition name op value =
    obj (field "field" (str name) (field "op" (str op) (field "value" value end)))

abbrev rule : String → String → String → Json → Json → Json
rule name action description priority when = obj (
    field "action" (str action) (
      field "description" (str description)
        (field "name" (str name) (field "priority" priority (field "when" when end)))))

abbrev all_of : Items → Json
all_of conditions = obj (field "all" (arr conditions) end)

abbrev block_broken_trust_chain : Json
block_broken_trust_chain = obj (
    field "action" (str "BLOCK_DEPLOYMENT") (
      field "description"
        (str "Invalid passport signature plus degraded security score blocks deployment.")
        (field "gate" (bool true) (
          field "name" (str "block_broken_trust_chain") (
            field "priority" (num (pos 200)) (
              field "when"
                (all_of (
                  cons (condition "security_score" "lt" (num (pos 90)))
                    (cons (condition "signature_invalid" "eq" (bool true)) nil)))
                end))))))

abbrev default_rules : Items
default_rules = cons block_broken_trust_chain (
    cons
      (rule "quarantine_critical_findings" "QUARANTINE"
        "Any unresolved critical finding quarantines the version." (num (pos 180))
        (all_of (cons (condition "critical_finding_present" "eq" (bool true)) nil)))
      (cons
        (rule "rollback_on_critical_drift" "ROLLBACK"
          "Critical-severity drift on an active deployment triggers rollback." (num (pos 120))
          (all_of (
            cons (condition "max_drift_severity" "eq" (str "CRITICAL"))
              (cons (condition "model_state_deployed" "eq" (bool true)) nil))))
        (cons
          (rule "retrain_on_high_drift" "RETRAIN" "High-severity drift requires retraining."
            (num (pos 80))
            (obj (
              field "any"
                (arr (
                  cons (condition "max_drift_severity" "eq" (str "HIGH"))
                    (cons (condition "recommendation_retrain" "eq" (bool true)) nil)))
                end)))
          (cons
            (rule "rotate_keys_on_crypto_degradation" "ROTATE_KEYS"
              "Crypto posture degradation rotates signing keys." (num (pos 70))
              (all_of (cons (condition "recommendation_rotate_keys" "eq" (bool true)) nil)))
            (cons
              (rule "escalate_on_agent_recommendation" "ESCALATE"
                "An agent explicitly recommending escalation requires human review rather than silent autonomous acceptance."
                (num (pos 90))
                (all_of (cons (condition "recommendation_escalate" "eq" (bool true)) nil)))
              nil)))))

abbrev default_thresholds : Dict
default_thresholds = field "block_risk" (num (pos 55)) (
    field "escalate_risk" (num (pos 70)) (
      field "max_auto_recoveries" (num (pos 2))
        (field "min_security_score" (num (pos 90)) (field "quarantine_risk" (num (pos 40)) end))))

abbrev pub default_policy_document : Dict
default_policy_document =
    field "rules" (arr default_rules) (field "thresholds" (obj default_thresholds) end)

unfoldable pub default_policy_engine : Result PolicyFault Engine
default_policy_engine = from_document default_policy_document
