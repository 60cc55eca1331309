-- ===== src/Domain/Scope.antt =====
-- satsa/domain: the assessment's half-open period, and the overall confidence.
use sat_sa_with_pqc.Base.{◌≡◌, ◌↔◌, true, false, Option, none, some, [], ◌⊎◌, arith, eq_iff}
use sat_sa_with_pqc.Base.Int.{ℤ, ◌≤ℤ◌}
use sat_sa_with_pqc.Domain.Assessment
use sat_sa_with_pqc.Domain.Assessment.{Assessment}
use sat_sa_with_pqc.Domain.ConfidenceVector
use sat_sa_with_pqc.Domain.ConfidenceVector.{ConfidenceVector}

-- An assessment without reported problems covers a time exactly when it is not before the start and
-- before the end; it covers its start, and not its end.
pub period_half_open :
    (a : Assessment) (t : ℤ)
    → Assessment.validate a ≡ []
    → ((Assessment.contains_time a t ≡ true) ↔ ((a.period_start ≤ℤ t) × ¬ (a.period_end ≤ℤ t)))
      × (Assessment.contains_time a a.period_start ≡ true)
      × (Assessment.contains_time a a.period_end ≡ false)
unfolding Assessment.contains_time Assessment.validate
period_half_open a t h =
    ((λ c. ground arith, λ c. ground arith), ground (arith, eq_iff a.entity_id ""), ground arith)

-- The optional component of a confidence vector is one that holds a bound, or is absent.
abbrev pub PeerAtLeast : ℤ → Option ℤ → Type 0
PeerAtLeast n none = Unit
PeerAtLeast n (some peer) = n ≤ℤ peer

-- The overall confidence is at most every component that applies, and is one of them.
pub overall_lowest :
    (c : ConfidenceVector)
    → (ConfidenceVector.overall c ≤ℤ c.analytical_support)
      × (ConfidenceVector.overall c ≤ℤ c.evidence_completeness)
      × PeerAtLeast (ConfidenceVector.overall c) c.peer_confidence
      × ((ConfidenceVector.overall c ≡ c.analytical_support)
          ⊎ (ConfidenceVector.overall c ≡ c.evidence_completeness)
          ⊎ (some (ConfidenceVector.overall c) ≡ c.peer_confidence))
unfolding ConfidenceVector.overall
overall_lowest c = ground arith
