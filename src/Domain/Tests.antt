-- ===== src/Domain/Tests.antt =====
-- satsa/domain: the theorems at the sample records.
use sat_sa_with_pqc.Base.{
  ℕ, ◌==◌, false, ◌⊎◌, ◌↔◌, String, ◌≡◌, ◌≢◌, refl, eq_iff, some, [], ◌∷◌, ok, arith,
}
use sat_sa_with_pqc.Base.Int.{pos, negsuc, ◌≤ℤ◌}
use sat_sa_with_pqc.Json.{nil}
use sat_sa_with_pqc.Domain.Base.{text}
use sat_sa_with_pqc.Domain.Scope.{overall_lowest, PeerAtLeast}
use sat_sa_with_pqc.Domain.Entity
use sat_sa_with_pqc.Domain.Entity.{Entity}
use sat_sa_with_pqc.Domain.Assessment
use sat_sa_with_pqc.Domain.Assessment.{Assessment}
use sat_sa_with_pqc.Domain.Submission
use sat_sa_with_pqc.Domain.Submission.{Submission}
use sat_sa_with_pqc.Domain.Asset
use sat_sa_with_pqc.Domain.Asset.{Asset}
use sat_sa_with_pqc.Domain.Alert
use sat_sa_with_pqc.Domain.Alert.{Alert}
use sat_sa_with_pqc.Domain.Case
use sat_sa_with_pqc.Domain.Case.{Case}
use sat_sa_with_pqc.Domain.InvestigationStep
use sat_sa_with_pqc.Domain.InvestigationStep.{InvestigationStep}
use sat_sa_with_pqc.Domain.Escalation
use sat_sa_with_pqc.Domain.Escalation.{Escalation}
use sat_sa_with_pqc.Domain.Disposition
use sat_sa_with_pqc.Domain.Disposition.{Disposition}
use sat_sa_with_pqc.Domain.SourceRecord
use sat_sa_with_pqc.Domain.SourceRecord.{SourceRecord}
use sat_sa_with_pqc.Domain.ConfidenceVector
use sat_sa_with_pqc.Domain.ConfidenceVector.{ConfidenceVector}
use sat_sa_with_pqc.Domain.Observation
use sat_sa_with_pqc.Domain.Observation.{Observation}
use sat_sa_with_pqc.Domain.Finding
use sat_sa_with_pqc.Domain.Finding.{Finding}
use sat_sa_with_pqc.Domain.ReviewDecision
use sat_sa_with_pqc.Domain.ReviewDecision.{ReviewDecision}
use sat_sa_with_pqc.Domain.ProvenanceRecord
use sat_sa_with_pqc.Domain.ProvenanceRecord.{ProvenanceRecord}
use sat_sa_with_pqc.Domain.AnalysisRun
use sat_sa_with_pqc.Domain.AnalysisRun.{AnalysisRun}
use sat_sa_with_pqc.Domain.RoundTrip.{entities_round_trip, workflow_round_trip, evidence_round_trip}
use sat_sa_with_pqc.Domain.Validity.{
  alert_closed_unacknowledged, alert_valid, AlertIsValid, finding_valid, FindingIsValid, run_valid,
  RunIsValid,
}
use sat_sa_with_pqc.Domain.Samples.{
  sample_entity, sample_assessment, sample_submission, sample_asset, sample_alert, sample_case,
  sample_investigation_step, sample_escalation, sample_disposition, sample_source_record,
  sample_confidence_vector, sample_observation, sample_finding, sample_review_decision,
  sample_provenance_record, sample_analysis_run,
}

set_text : (s : String) → (s == "") ≡ false → s ≢ ""
set_text s h = ground (arith, eq_iff s "")

entities_round_trip_example :
    (Entity.from_dict "id" (Entity.to_dict sample_entity) ≡ ok sample_entity)
    × (Assessment.from_dict "id" (Assessment.to_dict sample_assessment) ≡ ok sample_assessment)
    × (Submission.from_dict "id" (Submission.to_dict sample_submission) ≡ ok sample_submission)
    × (Asset.from_dict "id" (Asset.to_dict sample_asset) ≡ ok sample_asset)
entities_round_trip_example =
    entities_round_trip "id" sample_entity sample_assessment sample_submission sample_asset
      (set_text "entity_1" refl) (set_text "assessment_1" refl) (set_text "submission_1" refl)
      (set_text "asset_1" refl)

workflow_round_trip_example :
    (Alert.from_dict "id" (Alert.to_dict sample_alert) ≡ ok sample_alert)
    × (Case.from_dict "id" (Case.to_dict sample_case) ≡ ok sample_case)
    × (InvestigationStep.from_dict "id" (InvestigationStep.to_dict sample_investigation_step)
        ≡ ok sample_investigation_step)
    × (Escalation.from_dict "id" (Escalation.to_dict sample_escalation) ≡ ok sample_escalation)
    × (Disposition.from_dict "id" (Disposition.to_dict sample_disposition) ≡ ok sample_disposition)
workflow_round_trip_example =
    workflow_round_trip "id" sample_alert sample_case sample_investigation_step sample_escalation
      sample_disposition (set_text "alert_1" refl) (set_text "case_1" refl)
      (set_text "invstep_1" refl) (set_text "escalation_1" refl) (set_text "disposition_1" refl)

evidence_round_trip_example :
    (SourceRecord.from_dict "id" (SourceRecord.to_dict sample_source_record)
      ≡ ok sample_source_record)
    × (ConfidenceVector.from_dict (ConfidenceVector.to_dict sample_confidence_vector)
        ≡ ok sample_confidence_vector)
    × (Observation.from_dict "id" (Observation.to_dict sample_observation) ≡ ok sample_observation)
    × (Finding.from_dict "id" (Finding.to_dict sample_finding) ≡ ok sample_finding)
    × (ReviewDecision.from_dict "id" (ReviewDecision.to_dict sample_review_decision)
        ≡ ok sample_review_decision)
    × (ProvenanceRecord.from_dict (ProvenanceRecord.to_dict sample_provenance_record)
        ≡ ok sample_provenance_record)
evidence_round_trip_example =
    evidence_round_trip "id" sample_source_record sample_confidence_vector sample_observation
      sample_finding sample_review_decision sample_provenance_record (set_text "srcrec_1" refl)
      (set_text "observation_1" refl) (set_text "finding_1" refl) (set_text "reviewdec_1" refl)

alert_valid_example : (Alert.validate sample_alert ≡ []) ↔ AlertIsValid sample_alert
alert_valid_example = alert_valid sample_alert

alert_closed_unacknowledged_example :
    (Alert.validate sample_alert ≡ [])
    × ((n : ℕ) × (Alert.time_to_close sample_alert ≡ some (negsuc n)))
alert_closed_unacknowledged_example =
    alert_closed_unacknowledged sample_alert (pos 7) (set_text "entity" refl)
      (set_text "assess" refl) (set_text "native" refl) refl refl (omega arith)

finding_valid_example : (Finding.validate sample_finding ≡ []) ↔ FindingIsValid sample_finding
finding_valid_example = finding_valid sample_finding

run_valid_example : (AnalysisRun.validate sample_analysis_run ≡ []) ↔ RunIsValid sample_analysis_run
run_valid_example = run_valid sample_analysis_run

sample_assessment_valid : Assessment.validate sample_assessment ≡ []
unfolding Assessment.validate
sample_assessment_valid = refl

overall_lowest_example :
    (ConfidenceVector.overall sample_confidence_vector
      ≤ℤ sample_confidence_vector.analytical_support)
    × (ConfidenceVector.overall sample_confidence_vector
        ≤ℤ sample_confidence_vector.evidence_completeness)
    × PeerAtLeast
        (ConfidenceVector.overall sample_confidence_vector)
        sample_confidence_vector.peer_confidence
    × ((ConfidenceVector.overall sample_confidence_vector
          ≡ sample_confidence_vector.analytical_support)
        ⊎ (ConfidenceVector.overall sample_confidence_vector
            ≡ sample_confidence_vector.evidence_completeness)
        ⊎ (some (ConfidenceVector.overall sample_confidence_vector)
            ≡ sample_confidence_vector.peer_confidence))
overall_lowest_example = overall_lowest sample_confidence_vector

-- A signal that cites nothing is reported.
signal_without_evidence :
    Finding.validate (record sample_finding { evidence_refs = nil })
    ≡ text
        "a 'signal' finding must cite at least one evidence_ref (SIH-EX-02: 'a score without explanation is insufficient')"
      ∷ []
unfolding Finding.validate
signal_without_evidence = refl
