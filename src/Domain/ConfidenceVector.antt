-- ===== src/Domain/ConfidenceVector.antt =====
-- `ConfidenceVector` of satsa/domain/evidence.py: the record, its validation, and its two translations to a `dict`.
use sat_sa_with_pqc.Base.{Option, none, some, Result, ok, ◌>>=◌}
use sat_sa_with_pqc.Base.Int.{ℤ, min_ℤ}
use sat_sa_with_pqc.Json.{Dict, end, field, num, opt_num, num_at, opt_num_at, ReadError}

pub record ConfidenceVector : Type 0 where
  pub analytical_support : ℤ
  pub evidence_completeness : ℤ
  pub peer_confidence : Option ℤ

-- `min` of the components that apply.
unfoldable pub overall : ConfidenceVector → ℤ
overall r =
    let required = min_ℤ r.analytical_support r.evidence_completeness in
    elim r.peer_confidence [ none ↦ required | some peer ↦ min_ℤ required peer ]

unfoldable pub to_dict : ConfidenceVector → Dict
unfolding overall
to_dict r = field "analytical_support" (num r.analytical_support) (
    field "evidence_completeness" (num r.evidence_completeness) (
      field "overall" (num (overall r))
        (field "peer_confidence" (opt_num r.peer_confidence) (end))))

unfoldable pub from_dict : Dict → Result ReadError ConfidenceVector
from_dict d = do
  analytical_support ← num_at "analytical_support" d
  evidence_completeness ← num_at "evidence_completeness" d
  peer_confidence ← opt_num_at "peer_confidence" d
  ok (record {
    analytical_support = analytical_support;
    evidence_completeness = evidence_completeness;
    peer_confidence = peer_confidence;
  })
