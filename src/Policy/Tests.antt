-- ===== src/Policy/Tests.antt =====
-- Runs of the operators and of the default policy, and the theorems at them.
use sat_sa_with_pqc.Base.{
  Result, String, ◌≡◌, ◌⊎◌, refl, true, Option, none, some, [], ◌∷◌, ok, err, ◌>>=◌,
}
use sat_sa_with_pqc.Base.Int.{pos}
use sat_sa_with_pqc.Json.Equal.{equal}
use sat_sa_with_pqc.Json.{Json, Dict, nil, cons, end, field, null, str, num, bool, arr, key_error}
use sat_sa_with_pqc.Policy.Values.{ordering, lt, eq, apply, compares, is_in, upper, lower_case}
use sat_sa_with_pqc.Policy.Condition as Condition
use sat_sa_with_pqc.Policy.Condition.{PolicyFault, bad_value, no_conditions, unknown_operator}
use sat_sa_with_pqc.Policy.Rule as Rule
use sat_sa_with_pqc.Policy.Rule.{Rule}
use sat_sa_with_pqc.Policy.Engine.{
  Decision, new_engine, from_document, to_dict, evaluate, first_decision, deployment_blocked,
}
use sat_sa_with_pqc.Policy.Defaults.{default_policy_document, default_policy_engine}
use sat_sa_with_pqc.Policy.Decides.{IsChosen, first_decision_lem}
use sat_sa_with_pqc.Policy.Gate.{
  gate_rule, default_engine, IsDegraded, IsUnsigned, default_policy_blocks,
}
use sat_sa_with_pqc.Base.{false, arith}
use sat_sa_with_pqc.Json.{get, ill_typed}
use sat_sa_with_pqc.Policy.Facts.{AgentObservation, build_facts}
use sat_sa_with_pqc.Policy.Blocked.{failed_signature_blocks}
use sat_sa_with_pqc.Policy.RoundTrip.{policy_round_trip}

abbrev quoted : Json → String
quoted v = "value"

abbrev facts_with : Json → Dict
facts_with score = field "security_score" score (field "signature_invalid" (bool true) end)

true_is_one : equal (bool true) (num (pos 1)) ≡ true
unfolding equal
true_is_one = refl

none_below : compares lt null (num (pos 90)) ≡ none
unfolding compares
none_below = refl

lists_compared :
    compares lt
      (arr (cons (num (pos 1)) (cons (str "a") nil)))
      (arr (cons (num (pos 1)) (cons (str "b") nil)))
    ≡ some true
unfolding compares equal
lists_compared = refl

text_in_text : is_in (str "rif") (str "drift_psi") ≡ some true
unfolding is_in
text_in_text = refl

blocked_low :
    (default_policy_engine >>= λ e. evaluate quoted (facts_with (num (pos 50))) e)
    ≡ ok (
        record {
          rule_name = "block_broken_trust_chain";
          action = "BLOCK_DEPLOYMENT";
          priority = pos 200;
          matched_conditions = "security_score lt value" ∷ "signature_invalid eq value" ∷ [];
          unmatched_conditions = [];
          description =
              "Invalid passport signature plus degraded security score blocks deployment.";
          gate = true;
        }
        ∷ [])
unfolding default_policy_engine from_document Rule.from_dict Condition.from_dict upper lower_case
    evaluate Rule.matches Condition.matches apply compares equal
blocked_low = refl

-- The score is missing.
not_blocked_unknown :
    (default_policy_engine >>= deployment_blocked quoted (facts_with null)) ≡ ok none
unfolding default_policy_engine from_document Rule.from_dict Condition.from_dict upper lower_case
    deployment_blocked evaluate Rule.matches Condition.matches apply compares equal
not_blocked_unknown = refl

-- A rule that has neither a name nor conditions raises a KeyError.
unnamed : Rule.from_dict (field "action" (str "retrain") end) ≡ err (bad_value (key_error "name"))
unfolding Rule.from_dict
unnamed = refl

misspelt :
    Condition.matches end (record { name = "state"; op = "equals"; value = null })
    ≡ err (unknown_operator "equals")
unfolding Condition.matches
misspelt = refl

first_decision_lem_example :
    (o : Option Decision) × (first_decision quoted
        (facts_with (num (pos 50)))
        (new_engine (gate_rule ∷ []))
      ≡ ok o)
    × IsChosen quoted (facts_with (num (pos 50))) (gate_rule ∷ []) o
first_decision_lem_example =
    first_decision_lem quoted (facts_with (num (pos 50))) (gate_rule ∷ [])
      (((((ordering lt, refl), ((eq, refl), tt)), tt, tt)), tt)

default_policy_blocks_example :
    ((IsDegraded (facts_with null) × IsUnsigned (facts_with null))
      × ((d : Decision) × ((default_policy_engine >>= deployment_blocked quoted (facts_with null))
            ≡ ok (some d))
          × (d.rule_name ≡ "block_broken_trust_chain")))
    ⊎ ((¬ (IsDegraded (facts_with null) × IsUnsigned (facts_with null)))
        × ((default_policy_engine >>= deployment_blocked quoted (facts_with null)) ≡ ok none))
default_policy_blocks_example = default_policy_blocks quoted (facts_with null)

default_document : from_document default_policy_document ≡ ok default_engine
unfolding from_document Rule.from_dict Condition.from_dict upper lower_case
default_document = refl

policy_round_trip_example : from_document (to_dict default_engine) ≡ ok default_engine
policy_round_trip_example =
    policy_round_trip default_policy_document default_engine default_document

abbrev unsigned_model : AgentObservation
unsigned_model = record {
  recommendation = "APPROVE";
  findings =
      record { name = "drift_psi"; passed = false; severity = "HIGH" }
      ∷ record { name = "passport_signed"; passed = false; severity = "CRITICAL" }
      ∷ [];
}

abbrev facts_on : Dict → Result PolicyFault Dict
facts_on trust =
    build_facts (unsigned_model ∷ []) (pos 12) (field "drift" (num (pos 3)) end) end
      (field "security_score" (num (pos 70)) end) end trust

abbrev fact : String → Result PolicyFault Dict → Result PolicyFault (Option Json)
fact k r = r >>= λ facts. ok (get k facts)

worst_seen : fact "max_failed_severity" (facts_on end) ≡ ok (some (str "CRITICAL"))
unfolding build_facts equal
worst_seen = refl

risk_seen : fact "drift_risk" (facts_on end) ≡ ok (some (num (pos 3)))
unfolding build_facts equal
risk_seen = refl

-- `len(None)` raises a TypeError.
no_length :
    facts_on (field "blocking_conditions" null end)
    ≡ err (bad_value (ill_typed "blocking_conditions"))
unfolding build_facts
no_length = refl

abbrev low_trust : Dict
low_trust =
    field "blocking_conditions" (arr (cons (str "unsigned") nil))
      (field "decision" (str "REVIEW") end)

failed_signature_blocks_example :
    (facts : Dict) × (facts_on low_trust ≡ ok facts)
    × ((d : Decision) × ((default_policy_engine >>= deployment_blocked quoted facts) ≡ ok (some d))
        × (d.rule_name ≡ "block_broken_trust_chain"))
failed_signature_blocks_example =
    failed_signature_blocks (unsigned_model ∷ []) (pos 12) (field "drift" (num (pos 3)) end) end end
      end low_trust (pos 70) quoted 1 refl (λ h. omega (arith, h)) refl refl refl refl
