-- ===== src/Domain/Validity.antt =====
-- satsa/domain: what a record without reported problems satisfies.
use sat_sa_with_pqc.Base.{
  OneOf, contains_iff, contains, ◌==◌, if◌then◌else◌, Bool, true, ℕ, ◌+◌, ◌-◌, String, eq_iff, ◌≡◌,
  ◌≢◌, ◌↔◌, Option, none, some, [], arith,
}
use sat_sa_with_pqc.Base.Int.{ℤ, ◌≤ℤ◌, ◌-ℤ◌, negsuc, pos_part, neg_part}
use sat_sa_with_pqc.Json.{nil}
use sat_sa_with_pqc.Domain.Base.{Message, require, is_set}
use sat_sa_with_pqc.Domain.Alert
use sat_sa_with_pqc.Domain.Alert.{Alert}
use sat_sa_with_pqc.Domain.Finding
use sat_sa_with_pqc.Domain.Finding.{Finding, finding_states}
use sat_sa_with_pqc.Domain.AnalysisRun
use sat_sa_with_pqc.Domain.AnalysisRun.{AnalysisRun, is_recorded, run_statuses, terminal_statuses}

-- The text is one of the listed ones.
-- The times of an alert are in order as far as the acknowledgement is recorded.
abbrev pub TimesInOrder : ℤ → Option ℤ → Option ℤ → Type 0
TimesInOrder created none closed = Unit
TimesInOrder created (some acknowledged) none = created ≤ℤ acknowledged
TimesInOrder created (some acknowledged) (some closed) =
    (created ≤ℤ acknowledged) × (acknowledged ≤ℤ closed)

abbrev pub AlertIsValid : Alert → Type 0
AlertIsValid a =
    (a.entity_id ≢ "")
    × (a.assessment_id ≢ "")
    × (a.native_id ≢ "")
    × TimesInOrder a.created_at a.acknowledged_at a.closed_at

-- An alert has no problems exactly when its entity, assessment and native id are set, the
-- acknowledgement does not precede the creation, and a closure does not precede the acknowledgement.
pub alert_valid : (a : Alert) → (Alert.validate a ≡ []) ↔ AlertIsValid a
unfolding Alert.validate
alert_valid a = (
  λ h. ground (arith, eq_iff a.entity_id "", eq_iff a.assessment_id "", eq_iff a.native_id ""),
  λ h. ground (arith, eq_iff a.entity_id "", eq_iff a.assessment_id "", eq_iff a.native_id ""),
)

-- An alert with an entity, an assessment and a native id that nobody acknowledged passes its
-- validation even if it was closed before it was created, and its time to close is then negative.
pub alert_closed_unacknowledged :
    (a : Alert) (closed : ℤ)
    → a.entity_id ≢ ""
    → a.assessment_id ≢ ""
    → a.native_id ≢ ""
    → a.acknowledged_at ≡ none
    → a.closed_at ≡ some closed
    → ¬ (a.created_at ≤ℤ closed)
    → (Alert.validate a ≡ []) × ((n : ℕ) × (Alert.time_to_close a ≡ some (negsuc n)))
unfolding Alert.time_to_close ◌-ℤ◌
alert_closed_unacknowledged a closed he ha hn hk hc early = (
  (alert_valid a).1 (he, ha, hn, ground arith),
  (
    pos_part a.created_at + neg_part closed - (neg_part a.created_at + pos_part closed) - 1,
    ground arith,
  ),
)

abbrev pub FindingIsValid : Finding → Type 0
FindingIsValid f =
    (f.observation_id ≢ "")
    × (f.rule_or_category ≢ "")
    × OneOf f.state finding_states
    × (f.state ≡ "signal" → (f.evidence_refs ≢ nil) × (f.confidence ≢ none))

-- A finding has no problems exactly when its observation and rule are set, its state is one of the
-- five, and, if it is a signal, it cites evidence and carries a confidence vector.
pub finding_valid : (f : Finding) → (Finding.validate f ≡ []) ↔ FindingIsValid f
unfolding Finding.validate
finding_valid f = (
  λ h. ground (
    arith,
    eq_iff f.observation_id "",
    eq_iff f.rule_or_category "",
    eq_iff f.state "signal",
    eq_iff f.state "no_signal",
    eq_iff f.state "insufficient_data",
    eq_iff f.state "not_applicable",
    eq_iff f.state "error",
  ),
  λ h. ground (
    arith,
    eq_iff f.observation_id "",
    eq_iff f.rule_or_category "",
    eq_iff f.state "signal",
    eq_iff f.state "no_signal",
    eq_iff f.state "insufficient_data",
    eq_iff f.state "not_applicable",
    eq_iff f.state "error",
  ),
)

abbrev pub RunIsValid : AnalysisRun → Type 0
RunIsValid r =
    (r.entity_id ≢ "")
    × (r.assessment_id ≢ "")
    × (r.snapshot_digest ≢ "")
    × OneOf r.status run_statuses
    × (OneOf r.status terminal_statuses → r.finished_at ≢ none)
    × (r.status ≡ "failed" → r.error ≢ "")

-- The shape of `AnalysisRun.validate`, over its tests.
run_checks :
    (a b c d over finished failed error : Bool) (ma mb mc md mf me : Message)
    → ((let errors = require a ma [] in
          let errors = require b mb errors in
          let errors = require c mc errors in
          let errors = require d md errors in
          let errors = if over then require finished mf errors else errors in
          if failed then require error me errors else errors)
        ≡ [])
      ↔ ((a ≡ true)
          × (b ≡ true)
          × (c ≡ true)
          × (d ≡ true)
          × (over ≡ true → finished ≡ true)
          × (failed ≡ true → error ≡ true))
run_checks a b c d over finished failed error ma mb mc md mf me =
    (λ h. ground arith, λ h. ground arith)

is_set_iff : (s : String) → (is_set s ≡ true) ↔ (s ≢ "")
is_set_iff s = (λ h. ground (arith, eq_iff s ""), λ h. ground (arith, eq_iff s ""))

is_recorded_iff : (o : Option ℤ) → (is_recorded o ≡ true) ↔ (o ≢ none)
is_recorded_iff o = (λ h. ground arith, λ h. ground arith)

-- An analysis run has no problems exactly when its scope and snapshot are set, its status is one of
-- the six, a status that ends the run has a finishing time, and a failed run has an error.
pub run_valid : (r : AnalysisRun) → (AnalysisRun.validate r ≡ []) ↔ RunIsValid r
unfolding AnalysisRun.validate
run_valid r =
    let checks =
      run_checks (is_set r.entity_id) (is_set r.assessment_id) (is_set r.snapshot_digest)
        (contains r.status run_statuses) (contains r.status terminal_statuses)
        (is_recorded r.finished_at) (r.status == "failed") (is_set r.error) _ _ _ _ _ _ in
    (
      λ h.
          let c = checks.0 h in
          (
            (is_set_iff r.entity_id).0 c.0,
            (is_set_iff r.assessment_id).0 c.1,
            (is_set_iff r.snapshot_digest).0 c.2,
            (contains_iff r.status run_statuses).0 c.3,
            λ over.
                (is_recorded_iff r.finished_at).0
                  (c.4 ((contains_iff r.status terminal_statuses).1 over)),
            λ failed. (is_set_iff r.error).0 (c.5 ((eq_iff r.status "failed").1 failed)),
          ),
      λ v. checks.1 (
        (is_set_iff r.entity_id).1 v.0,
        (is_set_iff r.assessment_id).1 v.1,
        (is_set_iff r.snapshot_digest).1 v.2,
        (contains_iff r.status run_statuses).1 v.3,
        λ over.
            (is_recorded_iff r.finished_at).1
              (v.4 ((contains_iff r.status terminal_statuses).0 over)),
        λ failed. (is_set_iff r.error).1 (v.5 ((eq_iff r.status "failed").0 failed)),
      ),
    )
