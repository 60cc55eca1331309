-- ===== src/Policy/Gate.antt =====
-- When the default policy blocks a deployment.
use mathlib.Core.Option.{some-injective}
use sat_sa_with_pqc.Base.{
  ◌≡◌, ◌∙◌, ◌⊎◌, ◌↔◌, refl, ap, sym, inl, inr, Bool, true, false, not, ◌&&◌, if◌then◌else◌, if_true,
  if_false, ap₂, String, Option, none, some, List, [], ◌∷◌, ok, ◌>>=◌, All, Bool-cases, arith,
}
use sat_sa_with_pqc.Base.Int.{ℤ, pos, ◌≤ℤ◌, leb_ℤ}
use sat_sa_with_pqc.Base.Rows.{first}
use sat_sa_with_pqc.Json.Equal.{as_number, equal}
use sat_sa_with_pqc.Json.{Json, Dict, get_or, null, num, str, bool, arr, obj}
use sat_sa_with_pqc.Policy.Values.{lt, eq, orders_numbers, compares, apply, upper, lower_case}
use sat_sa_with_pqc.Policy.Condition as Condition
use sat_sa_with_pqc.Policy.Condition.{PolicyFault, Condition, or_false}
use sat_sa_with_pqc.Policy.Rule as Rule
use sat_sa_with_pqc.Policy.Rule.{Rule, summary, add_summary}
use sat_sa_with_pqc.Policy.Engine.{
  Decision, Engine, from_document, decision_of, add_decision, evaluate_rules, evaluate, blocks,
  deployment_blocked,
}
use sat_sa_with_pqc.Policy.Defaults.{default_policy_engine}
use sat_sa_with_pqc.Policy.Decides.{IsKnownRule, matches_known_rule, evaluate_rules_on}

abbrev pub is : String → Json → Condition
is name value = record { name = name; op = "eq"; value = value }

abbrev score_low : Condition
score_low = record { name = "security_score"; op = "lt"; value = num (pos 90) }

abbrev pub gate_rule : Rule
gate_rule = record {
  name = "block_broken_trust_chain";
  action = "BLOCK_DEPLOYMENT";
  priority = pos 200;
  description = "Invalid passport signature plus degraded security score blocks deployment.";
  all_of = score_low ∷ is "signature_invalid" (bool true) ∷ [];
  any_of = [];
  none_of = [];
  enabled = true;
  gate = true;
}

abbrev other_rule : String → String → ℤ → String → List Condition → List Condition → Rule
other_rule name action priority description all_of any_of = record {
  name = name;
  action = action;
  priority = priority;
  description = description;
  all_of = all_of;
  any_of = any_of;
  none_of = [];
  enabled = true;
  gate = false;
}

abbrev pub other_rules : List Rule
other_rules =
    other_rule "quarantine_critical_findings" "QUARANTINE" (pos 180)
      "Any unresolved critical finding quarantines the version."
      (is "critical_finding_present" (bool true) ∷ []) []
    ∷ other_rule "rollback_on_critical_drift" "ROLLBACK" (pos 120)
        "Critical-severity drift on an active deployment triggers rollback."
        (is "max_drift_severity" (str "CRITICAL") ∷ is "model_state_deployed" (bool true) ∷ []) []
    ∷ other_rule "escalate_on_agent_recommendation" "ESCALATE" (pos 90)
        "An agent explicitly recommending escalation requires human review rather than silent autonomous acceptance."
        (is "recommendation_escalate" (bool true) ∷ []) []
    ∷ other_rule "retrain_on_high_drift" "RETRAIN" (pos 80)
        "High-severity drift requires retraining." []
        (is "max_drift_severity" (str "HIGH") ∷ is "recommendation_retrain" (bool true) ∷ [])
    ∷ other_rule "rotate_keys_on_crypto_degradation" "ROTATE_KEYS" (pos 70)
        "Crypto posture degradation rotates signing keys."
        (is "recommendation_rotate_keys" (bool true) ∷ []) []
    ∷ []

abbrev pub default_engine : Engine
default_engine = record {
  rules = gate_rule ∷ other_rules;
  thresholds = some (record {
    quarantine_risk = pos 40;
    block_risk = pos 55;
    escalate_risk = pos 70;
    max_auto_recoveries = pos 2;
    min_security_score = pos 90;
  });
}

pub default_engine_lem : default_policy_engine ≡ ok default_engine
unfolding default_policy_engine from_document Rule.from_dict Condition.from_dict upper lower_case
default_engine_lem = refl

-- A rule that cannot block.
abbrev IsNoGate : Rule → Type 0
IsNoGate r = (r.enabled ≡ true) × (r.gate ≡ false) × IsKnownRule r

-- The score is a number below 90.
abbrev pub IsDegraded : Dict → Type 0
IsDegraded facts =
    (score : ℤ) × (as_number (get_or "security_score" null facts) ≡ some score)
    × (¬ (pos 90 ≤ℤ score))

-- The signature is known to be invalid.
abbrev pub IsUnsigned : Dict → Type 0
IsUnsigned facts = equal (get_or "signature_invalid" null facts) (bool true) ≡ true

module _ (repr : Json → String) where
  never_blocks :
      (facts : Dict) (rs : List Rule)
      → All IsNoGate rs
      → (ds : List Decision) × (evaluate_rules repr facts rs ≡ ok ds)
        × (first (blocks repr) ds ≡ none)
  never_blocks facts [] h = ([], refl, refl)
  never_blocks facts (r ∷ rs) ((on, open_gate, known), hs) =
      let ((matched, lists), hit) = matches_known_rule repr facts r known in
      let (ds, e, idle) = never_blocks facts rs hs in
      (
        add_decision repr r (matched, lists) ds,
        evaluate_rules_on repr facts r rs (matched, lists) ds on hit e,
        skips r matched lists ds open_gate idle,
      )
    where
      skips :
          (r : Rule) (matched : Bool) (lists : List String × List String) (ds : List Decision)
          → r.gate ≡ false
          → first (blocks repr) ds ≡ none
          → first (blocks repr) (add_decision repr r (matched, lists) ds) ≡ none
      skips r false lists ds g h = h
      skips r true lists ds g h = rw g h

  known_others : All IsNoGate other_rules
  known_others = (
    (refl, refl, (((eq, refl), tt), tt, tt)),
    (
      (refl, refl, (((eq, refl), ((eq, refl), tt)), tt, tt)),
      (
        (refl, refl, (((eq, refl), tt), tt, tt)),
        (
          (refl, refl, (tt, ((eq, refl), ((eq, refl), tt)), tt)),
          ((refl, refl, (((eq, refl), tt), tt, tt)), tt),
        ),
      ),
    ),
  )

  -- The two conditions of the gate.
  abbrev low : Dict → Bool
  low facts = or_false (compares lt (get_or "security_score" null facts) (num (pos 90)))

  abbrev unsigned : Dict → Bool
  unsigned facts = equal (get_or "signature_invalid" null facts) (bool true)

  abbrev gate_lists : Bool → Bool → List String × List String
  gate_lists a b =
      add_summary repr a (summary repr score_low)
        (add_summary repr b (summary repr (is "signature_invalid" (bool true))) ([], []))

  gate_matches :
      (facts : Dict)
      → Rule.matches repr facts gate_rule
        ≡ ok ((low facts && unsigned facts), gate_lists (low facts) (unsigned facts))
  unfolding Rule.matches Condition.matches apply
  gate_matches facts = elim (Bool-cases (low facts)) [
    | inl a ↦ elim (Bool-cases (unsigned facts)) [ inl b ↦ rw (a, b) refl | inr b ↦ rw (a, b) refl ]
    | inr a ↦ rw a refl
  ]

  low_number :
      (o : Option ℤ)
      → (or_false (orders_numbers lt o (some (pos 90))) ≡ true)
        ↔ ((score : ℤ) × (o ≡ some score) × (¬ (pos 90 ≤ℤ score)))
  low_number none = (λ h. cc, λ (score, e, _). cc e)
  low_number (some n) = (
    λ h.
        let small : not (leb_ℤ (pos 90) n) ≡ true = h in
        (n, refl, λ high. ground (arith, small, high)),
    λ (score, e, small).
        let same : n ≡ score = some-injective n score e in
        let low : ¬ (pos 90 ≤ℤ n) = rw same small in ground (arith, low),
  )

  low_iff :
      (v : Json)
      → (or_false (compares lt v (num (pos 90))) ≡ true)
        ↔ ((score : ℤ) × (as_number v ≡ some score) × (¬ (pos 90 ≤ℤ score)))
  unfolding compares
  low_iff null = low_number none
  low_iff (bool true) = low_number (some (pos 1))
  low_iff (bool false) = low_number (some (pos 0))
  low_iff (num n) = low_number (some n)
  low_iff (str s) = low_number none
  low_iff (arr xs) = low_number none
  low_iff (obj d) = low_number none

  gate_blocks :
      (facts : Dict)
      → (deployment_blocked repr facts default_engine)
        ≡ ok (
            if low facts && unsigned facts
            then some (decision_of repr gate_rule (gate_lists (low facts) (unsigned facts)))
            else none)
  unfolding deployment_blocked evaluate
  gate_blocks facts =
      let (ds, e, idle) = never_blocks facts other_rules known_others in
      let lists = gate_lists (low facts) (unsigned facts) in
      let all_of_them =
        evaluate_rules_on repr facts gate_rule other_rules (low facts && unsigned facts, lists) ds
          refl (gate_matches facts) e in
      rw all_of_them (ap ok (chosen (low facts && unsigned facts) lists ds idle))
    where
      chosen :
          (b : Bool) (lists : List String × List String) (ds : List Decision)
          → first (blocks repr) ds ≡ none
          → first (blocks repr) (add_decision repr gate_rule (b, lists) ds)
            ≡ (if b then some (decision_of repr gate_rule lists) else none)
      chosen true lists ds h = refl
      chosen false lists ds h = h

  -- On any facts the default policy either blocks a deployment, by its rule on the trust chain, and then the
  -- security score is a number below 90 and the signature is known to be invalid; or it blocks nothing,
  -- and then one of the two does not hold.
  pub default_policy_blocks :
      (facts : Dict)
      → ((IsDegraded facts × IsUnsigned facts)
          × ((d : Decision) × ((default_policy_engine >>= deployment_blocked repr facts)
                ≡ ok (some d))
              × (d.rule_name ≡ "block_broken_trust_chain")))
        ⊎ ((¬ (IsDegraded facts × IsUnsigned facts))
            × ((default_policy_engine >>= deployment_blocked repr facts) ≡ ok none))
  default_policy_blocks facts =
      let low_is = low_iff (get_or "security_score" null facts) in
      let found : Option Decision =
        some (decision_of repr gate_rule (gate_lists (low facts) (unsigned facts))) in
      let gate : (default_policy_engine >>= deployment_blocked repr facts)
          ≡ ok (if low facts && unsigned facts then found else none) =
        ap (λ r. r >>= deployment_blocked repr facts) default_engine_lem ∙ gate_blocks facts in
      elim (Bool-cases (low facts && unsigned facts)) [
        | inl both ↦
            let degraded : low facts ≡ true = ground (arith, both) in
            let invalid : unsigned facts ≡ true = ground (arith, both) in
            inl (
              (low_is.0 degraded, invalid),
              (
                decision_of repr gate_rule (gate_lists (low facts) (unsigned facts)),
                gate ∙ ap ok (sym (if_true found none both)),
                refl,
              ),
            )
        | inr not_both ↦ inr (
          (λ (degraded, invalid).
              let is_low : low facts ≡ true = low_is.1 degraded in
              let no : true ≡ false = sym (ap₂ (λ a b. a && b) is_low invalid) ∙ not_both in cc no),
          gate ∙ ap ok (sym (if_false found none not_both)),
        )
      ]
