-- ===== src/Policy/Blocked.antt =====
-- From observations to the gate: a failed signature finding and a low score block a deployment.
use sat_sa_with_pqc.Base.{
  ℕ, String, ◌==◌, eq_iff, eq_refl, ◌≡◌, ◌∙◌, refl, sym, ap, subst, inl, inr, true, false, Option,
  none, some, List, ok, ◌>>=◌, Bool-cases, if_true, if_false, if◌then◌else◌,
}
use sat_sa_with_pqc.Base.Int.{ℤ, pos, ◌≤ℤ◌}
use sat_sa_with_pqc.Json.Equal.{as_number, equal}
use sat_sa_with_pqc.Json.{Json, Dict, end, field, num, bool, get, null}
use sat_sa_with_pqc.Policy.Values.{lt, orders_codes}
use sat_sa_with_pqc.Evidence.Sensitive.{codes}
use sat_sa_with_pqc.Policy.Engine.{Decision, deployment_blocked}
use sat_sa_with_pqc.Policy.Defaults.{default_policy_engine}
use sat_sa_with_pqc.Policy.Gate.{IsDegraded, IsUnsigned, default_policy_blocks}
use sat_sa_with_pqc.Policy.Facts.{
  trust_facts, blocking_count, AgentObservation, set_fact, merged, findings_flat, any_finding,
  is_bad_signature, risk_facts, base_facts, add_trust, add_drift, build_facts,
}

get-set_fact-other :
    (j k : String) (v : Json) (d : Dict) → (j == k) ≡ false → get k (set_fact j v d) ≡ get k d
get-set_fact-other j k v end other = rw other refl
get-set_fact-other j k v (field i w d) other = elim (Bool-cases (i == j)) [
  | inl same ↦
      let i_other : (i == k) ≡ false =
        subst (λ x. (x == k) ≡ false) (sym ((eq_iff i j).0 same)) other in
      rw (same, other, i_other) refl
  | inr differs ↦ elim (Bool-cases (orders_codes lt (codes j) (codes i))) [
    | inl before ↦ rw (differs, before, other) refl
    | inr after ↦
        rw (differs, after)
          (ap (λ o. if i == k then some w else o) (get-set_fact-other j k v d other))
  ]
]

get-set_fact-same : (k : String) (v : Json) (d : Dict) → get k (set_fact k v d) ≡ some v
get-set_fact-same k v end = rw (eq_refl k) refl
get-set_fact-same k v (field i w d) = elim (Bool-cases (i == k)) [
  | inl same ↦ rw (same, eq_refl k) refl
  | inr differs ↦ elim (Bool-cases (orders_codes lt (codes k) (codes i))) [
    | inl before ↦ rw (differs, before, eq_refl k) refl
    | inr after ↦ rw (differs, after, differs) (get-set_fact-same k v d)
  ]
]

get-merged : (k : String) (d e : Dict) → get k e ≡ none → get k (merged d e) ≡ get k d
get-merged k d end h = refl
get-merged k d (field j v e) h = elim (Bool-cases (j == k)) [
  | inl same ↦ let odd : some v ≡ none = if_true (some v) (get k e) same ∙ h in cc odd
  | inr other ↦
      let rest : get k e ≡ none = if_false (some v) (get k e) other ∙ h in
      get-merged k (set_fact j v d) e rest ∙ get-set_fact-other j k v d other
]

-- A fact of another name is not changed by the trust evaluation and the drift summary.
abbrev IsKept : String → Type 0
IsKept k =
    (("trust_score" == k) ≡ false)
    × (("trust_decision" == k) ≡ false)
    × (("trust_promotion_eligible" == k) ≡ false)
    × (("trust_blocking_conditions" == k) ≡ false)
    × (("drift_detected" == k) ≡ false)
    × (("max_drift_severity" == k) ≡ false)
    × (("drift_count" == k) ≡ false)

get-trust_facts :
    (k : String) (trust facts : Dict) (count : ℕ)
    → IsKept k
    → get k (trust_facts trust count facts) ≡ get k facts
get-trust_facts k trust facts count (score, decision, eligible, blocking, _, _, _) =
    get-set_fact-other "trust_blocking_conditions" k _ _ blocking
    ∙ get-set_fact-other "trust_promotion_eligible" k _ _ eligible
    ∙ get-set_fact-other "trust_decision" k _ _ decision
    ∙ get-set_fact-other "trust_score" k _ facts score

-- A trust evaluation whose blocking conditions have a length is added, and keeps the other facts.
trusted :
    (trust facts : Dict) (count : ℕ)
    → blocking_count trust ≡ ok count
    → (after : Dict) × (add_trust trust facts ≡ ok after)
      × ((k : String) → IsKept k → get k after ≡ get k facts)
trusted end facts count h = (facts, refl, λ k kept. refl)
trusted (field j v d) facts count h = (
  trust_facts (field j v d) count facts,
  rw (h, add_trust) refl,
  λ k kept. get-trust_facts k (field j v d) facts count kept,
)

get-add_drift :
    (k : String) (drift facts : Dict) → IsKept k → get k (add_drift drift facts) ≡ get k facts
get-add_drift k end facts (_, _, _, _, detected, severity, count) =
    get-set_fact-other "drift_count" k _ _ count
    ∙ get-set_fact-other "max_drift_severity" k _ _ severity
    ∙ get-set_fact-other "drift_detected" k _ facts detected
get-add_drift k (field j v d) facts (_, _, _, _, detected, severity, count) =
    get-set_fact-other "drift_count" k _ _ count
    ∙ get-set_fact-other "max_drift_severity" k _ _ severity
    ∙ get-set_fact-other "drift_detected" k _ facts detected

module _ (observations : List AgentObservation) (rounded : ℤ)
    (risks version_record others drift trust : Dict) (score : ℤ) where
  abbrev pub scores : Dict
  scores = field "security_score" (num score) others

  abbrev agents : Dict
  agents = merged (base_facts observations rounded version_record) (risk_facts risks)

  -- What is built: the facts of the agents and the scores, and those of the trust evaluation and the drift.
  abbrev IsBuilt : Dict → Type 0
  IsBuilt facts =
      (build_facts observations rounded risks version_record scores drift trust ≡ ok facts)
      × ((k : String) → IsKept k → get k facts ≡ get k (merged agents scores))

  built : (count : ℕ) → blocking_count trust ≡ ok count → (facts : Dict) × IsBuilt facts
  unfolding build_facts
  built count h =
      let (after, e, keeps) = trusted trust (merged agents scores) count h in
      (
        add_drift drift after,
        (rw e refl, λ k kept. get-add_drift k drift after kept ∙ keeps k kept),
      )

  get-score :
      get "security_score" others ≡ none
      → get "security_score" (merged agents scores) ≡ some (num score)
  get-score h =
      get-merged "security_score" (set_fact "security_score" (num score) agents) others h
      ∙ get-set_fact-same "security_score" (num score) agents

  get-signature :
      get "signature_invalid" (risk_facts risks) ≡ none
      → get "signature_invalid" others ≡ none
      → get "signature_invalid" (merged agents scores)
        ≡ some (bool (any_finding is_bad_signature (findings_flat observations)))
  get-signature h k =
      get-merged "signature_invalid" agents scores k
      ∙ get-merged "signature_invalid" (base_facts observations rounded version_record)
          (risk_facts risks) h

  -- If a signature finding of an observation failed, and the security score is a number below 90, then the
  -- facts are built and the default policy blocks the deployment by its rule on the trust chain,
  -- whatever else the agents, the version, the drift and the trust evaluation say; the blocking
  -- conditions of the trust evaluation must have a length, and the risks of the agents and the other
  -- scores must not name these two facts themselves.
  pub failed_signature_blocks :
      (repr : Json → String) (count : ℕ)
      → any_finding is_bad_signature (findings_flat observations) ≡ true
      → ¬ (pos 90 ≤ℤ score)
      → blocking_count trust ≡ ok count
      → get "signature_invalid" (risk_facts risks) ≡ none
      → get "signature_invalid" others ≡ none
      → get "security_score" others ≡ none
      → (facts : Dict) × (build_facts observations rounded risks version_record scores drift trust
          ≡ ok facts)
        × ((d : Decision) × ((default_policy_engine >>= deployment_blocked repr facts)
              ≡ ok (some d))
            × (d.rule_name ≡ "block_broken_trust_chain"))
  unfolding equal
  failed_signature_blocks repr count failed_one low counted risks_silent others_silent no_score =
      let (facts, (e, keeps)) = built count counted in
      let signature =
        keeps "signature_invalid" (refl, refl, refl, refl, refl, refl, refl)
        ∙ get-signature risks_silent others_silent in
      let found =
        keeps "security_score" (refl, refl, refl, refl, refl, refl, refl) ∙ get-score no_score in
      let degraded : IsDegraded facts = (
        score,
        ap (λ (o : Option Json). as_number (elim o [ none ↦ null | some v ↦ v ])) found,
        low,
      ) in
      let unsigned : IsUnsigned facts =
        ap (λ (o : Option Json). equal (elim o [ none ↦ null | some v ↦ v ]) (bool true)) signature
        ∙ ap (λ b. equal (bool b) (bool true)) failed_one in
      (
        facts,
        e,
        elim (default_policy_blocks repr facts) [
          | inl (_, blocked) ↦ blocked
          | inr (not_both, _) ↦ elim (not_both (degraded, unsigned)) [ ]
        ],
      )
