-- ===== src/Domain/RoundTrip.antt =====
-- satsa/domain: `from_dict` reads back what `to_dict` wrote, record by record.
use sat_sa_with_pqc.Base.{String, ◌≡◌, ◌≢◌, refl, Option, none, some, ok}
use sat_sa_with_pqc.Json.{as_opt_num-opt_num, as_opt_str-opt_str, nonempty}
use sat_sa_with_pqc.Domain.Entity
use sat_sa_with_pqc.Domain.Entity.{Entity}
use sat_sa_with_pqc.Domain.Assessment
use sat_sa_with_pqc.Domain.Assessment.{Assessment}
use sat_sa_with_pqc.Domain.Submission
use sat_sa_with_pqc.Domain.Submission.{Submission}
use sat_sa_with_pqc.Domain.Asset
use sat_sa_with_pqc.Domain.Asset.{Asset}
use sat_sa_with_pqc.Domain.Alert
use sat_sa_with_pqc.Domain.Alert.{Alert}
use sat_sa_with_pqc.Domain.Case
use sat_sa_with_pqc.Domain.Case.{Case}
use sat_sa_with_pqc.Domain.InvestigationStep
use sat_sa_with_pqc.Domain.InvestigationStep.{InvestigationStep}
use sat_sa_with_pqc.Domain.Escalation
use sat_sa_with_pqc.Domain.Escalation.{Escalation}
use sat_sa_with_pqc.Domain.Disposition
use sat_sa_with_pqc.Domain.Disposition.{Disposition}
use sat_sa_with_pqc.Domain.SourceRecord
use sat_sa_with_pqc.Domain.SourceRecord.{SourceRecord}
use sat_sa_with_pqc.Domain.ConfidenceVector
use sat_sa_with_pqc.Domain.ConfidenceVector.{ConfidenceVector}
use sat_sa_with_pqc.Domain.Observation
use sat_sa_with_pqc.Domain.Observation.{Observation}
use sat_sa_with_pqc.Domain.Finding
use sat_sa_with_pqc.Domain.Finding.{Finding}
use sat_sa_with_pqc.Domain.ReviewDecision
use sat_sa_with_pqc.Domain.ReviewDecision.{ReviewDecision}
use sat_sa_with_pqc.Domain.ProvenanceRecord
use sat_sa_with_pqc.Domain.ProvenanceRecord.{ProvenanceRecord}
use sat_sa_with_pqc.Domain.AnalysisRun
use sat_sa_with_pqc.Domain.AnalysisRun.{AnalysisRun}

entity_round_trip :
    (fresh : String) (r : Entity) → r.id ≢ "" → Entity.from_dict fresh (Entity.to_dict r) ≡ ok r
unfolding Entity.from_dict Entity.to_dict
entity_round_trip fresh r h = rw (nonempty r.id h)

assessment_round_trip :
    (fresh : String) (r : Assessment)
    → r.id ≢ ""
    → Assessment.from_dict fresh (Assessment.to_dict r) ≡ ok r
unfolding Assessment.from_dict Assessment.to_dict
assessment_round_trip fresh r h = rw (
  as_opt_num-opt_num "submission_cutoff" r.submission_cutoff,
  as_opt_str-opt_str "supersedes_id" r.supersedes_id,
  nonempty r.id h,
)

submission_round_trip :
    (fresh : String) (r : Submission)
    → r.id ≢ ""
    → Submission.from_dict fresh (Submission.to_dict r) ≡ ok r
unfolding Submission.from_dict Submission.to_dict
submission_round_trip fresh r h =
    rw (as_opt_num-opt_num "received_at" r.received_at, nonempty r.id h)

asset_round_trip :
    (fresh : String) (r : Asset) → r.id ≢ "" → Asset.from_dict fresh (Asset.to_dict r) ≡ ok r
unfolding Asset.from_dict Asset.to_dict
asset_round_trip fresh r h = rw (nonempty r.id h)

alert_round_trip :
    (fresh : String) (r : Alert) → r.id ≢ "" → Alert.from_dict fresh (Alert.to_dict r) ≡ ok r
unfolding Alert.from_dict Alert.to_dict
alert_round_trip fresh r h = rw (
  as_opt_num-opt_num "acknowledged_at" r.acknowledged_at,
  as_opt_num-opt_num "closed_at" r.closed_at,
  as_opt_str-opt_str "disposition_id" r.disposition_id,
  nonempty r.id h,
)

case_round_trip :
    (fresh : String) (r : Case) → r.id ≢ "" → Case.from_dict fresh (Case.to_dict r) ≡ ok r
unfolding Case.from_dict Case.to_dict
case_round_trip fresh r h = rw (as_opt_num-opt_num "closed_at" r.closed_at, nonempty r.id h)

investigation_step_round_trip :
    (fresh : String) (r : InvestigationStep)
    → r.id ≢ ""
    → InvestigationStep.from_dict fresh (InvestigationStep.to_dict r) ≡ ok r
unfolding InvestigationStep.from_dict InvestigationStep.to_dict
investigation_step_round_trip fresh r h = rw (nonempty r.id h)

escalation_round_trip :
    (fresh : String) (r : Escalation)
    → r.id ≢ ""
    → Escalation.from_dict fresh (Escalation.to_dict r) ≡ ok r
unfolding Escalation.from_dict Escalation.to_dict
escalation_round_trip fresh r h = rw (
  as_opt_str-opt_str "alert_id" r.alert_id,
  as_opt_str-opt_str "case_id" r.case_id,
  as_opt_str-opt_str "policy_exception_ref" r.policy_exception_ref,
  nonempty r.id h,
)

disposition_round_trip :
    (fresh : String) (r : Disposition)
    → r.id ≢ ""
    → Disposition.from_dict fresh (Disposition.to_dict r) ≡ ok r
unfolding Disposition.from_dict Disposition.to_dict
disposition_round_trip fresh r h = rw (
  as_opt_str-opt_str "alert_id" r.alert_id,
  as_opt_str-opt_str "case_id" r.case_id,
  as_opt_str-opt_str "exception_ref" r.exception_ref,
  nonempty r.id h,
)

source_record_round_trip :
    (fresh : String) (r : SourceRecord)
    → r.id ≢ ""
    → SourceRecord.from_dict fresh (SourceRecord.to_dict r) ≡ ok r
unfolding SourceRecord.from_dict SourceRecord.to_dict
source_record_round_trip fresh r h = rw (nonempty r.id h)

confidence_vector_round_trip :
    (r : ConfidenceVector) → ConfidenceVector.from_dict (ConfidenceVector.to_dict r) ≡ ok r
unfolding ConfidenceVector.from_dict ConfidenceVector.to_dict ConfidenceVector.overall
confidence_vector_round_trip r = rw (as_opt_num-opt_num "peer_confidence" r.peer_confidence)

observation_round_trip :
    (fresh : String) (r : Observation)
    → r.id ≢ ""
    → Observation.from_dict fresh (Observation.to_dict r) ≡ ok r
unfolding Observation.from_dict Observation.to_dict
observation_round_trip fresh r h = rw (nonempty r.id h)

-- The optional confidence of a finding comes back, an absent one as absent.
read-opt_confidence :
    (c : Option ConfidenceVector) → Finding.read_confidence (Finding.opt_confidence c) ≡ ok c
unfolding Finding.read_confidence Finding.opt_confidence ConfidenceVector.to_dict
read-opt_confidence none = refl
read-opt_confidence (some c) = rw (confidence_vector_round_trip c)

finding_round_trip :
    (fresh : String) (r : Finding) → r.id ≢ "" → Finding.from_dict fresh (Finding.to_dict r) ≡ ok r
unfolding Finding.from_dict Finding.to_dict
finding_round_trip fresh r h = rw (
  as_opt_num-opt_num "statistic" r.statistic,
  as_opt_num-opt_num "effect" r.effect,
  as_opt_num-opt_num "threshold" r.threshold,
  read-opt_confidence r.confidence,
  nonempty r.id h,
)

review_decision_round_trip :
    (fresh : String) (r : ReviewDecision)
    → r.id ≢ ""
    → ReviewDecision.from_dict fresh (ReviewDecision.to_dict r) ≡ ok r
unfolding ReviewDecision.from_dict ReviewDecision.to_dict
review_decision_round_trip fresh r h =
    rw (as_opt_str-opt_str "previous_revision_id" r.previous_revision_id, nonempty r.id h)

provenance_record_round_trip :
    (r : ProvenanceRecord) → ProvenanceRecord.from_dict (ProvenanceRecord.to_dict r) ≡ ok r
unfolding ProvenanceRecord.from_dict ProvenanceRecord.to_dict
provenance_record_round_trip r = refl

-- For every analysis run whose id is not empty, reading what `to_dict` wrote gives the run back,
-- every field of it.
pub analysis_run_round_trip :
    (fresh : String) (r : AnalysisRun)
    → r.id ≢ ""
    → AnalysisRun.from_dict fresh (AnalysisRun.to_dict r) ≡ ok r
unfolding AnalysisRun.from_dict AnalysisRun.to_dict
analysis_run_round_trip fresh r h = rw (
  as_opt_str-opt_str "model_version" r.model_version,
  as_opt_num-opt_num "started_at" r.started_at,
  as_opt_num-opt_num "finished_at" r.finished_at,
  nonempty r.id h,
)

-- For every Entity, Assessment, Submission and Asset whose ids are not empty, reading what `to_dict`
-- wrote gives the record back, every field of it.
pub entities_round_trip :
    (fresh : String) (entity : Entity) (assessment : Assessment) (submission : Submission)
    (asset : Asset)
    → entity.id ≢ ""
    → assessment.id ≢ ""
    → submission.id ≢ ""
    → asset.id ≢ ""
    → (Entity.from_dict fresh (Entity.to_dict entity) ≡ ok entity)
      × (Assessment.from_dict fresh (Assessment.to_dict assessment) ≡ ok assessment)
      × (Submission.from_dict fresh (Submission.to_dict submission) ≡ ok submission)
      × (Asset.from_dict fresh (Asset.to_dict asset) ≡ ok asset)
entities_round_trip fresh entity assessment submission asset h_entity h_assessment h_submission
      h_asset =
    (
      entity_round_trip fresh entity h_entity,
      assessment_round_trip fresh assessment h_assessment,
      submission_round_trip fresh submission h_submission,
      asset_round_trip fresh asset h_asset,
    )

-- For every Alert, Case, InvestigationStep, Escalation and Disposition whose ids are not empty, reading what `to_dict`
-- wrote gives the record back, every field of it.
pub workflow_round_trip :
    (fresh : String) (alert : Alert) (case : Case) (investigation_step : InvestigationStep)
    (escalation : Escalation) (disposition : Disposition)
    → alert.id ≢ ""
    → case.id ≢ ""
    → investigation_step.id ≢ ""
    → escalation.id ≢ ""
    → disposition.id ≢ ""
    → (Alert.from_dict fresh (Alert.to_dict alert) ≡ ok alert)
      × (Case.from_dict fresh (Case.to_dict case) ≡ ok case)
      × (InvestigationStep.from_dict fresh (InvestigationStep.to_dict investigation_step)
          ≡ ok investigation_step)
      × (Escalation.from_dict fresh (Escalation.to_dict escalation) ≡ ok escalation)
      × (Disposition.from_dict fresh (Disposition.to_dict disposition) ≡ ok disposition)
workflow_round_trip fresh alert case investigation_step escalation disposition h_alert h_case
      h_investigation_step h_escalation h_disposition =
    (
      alert_round_trip fresh alert h_alert,
      case_round_trip fresh case h_case,
      investigation_step_round_trip fresh investigation_step h_investigation_step,
      escalation_round_trip fresh escalation h_escalation,
      disposition_round_trip fresh disposition h_disposition,
    )

-- For every SourceRecord, ConfidenceVector, Observation, Finding, ReviewDecision and ProvenanceRecord whose ids (where they have one) are not empty, reading what `to_dict`
-- wrote gives the record back, every field of it.
pub evidence_round_trip :
    (fresh : String) (source_record : SourceRecord) (confidence_vector : ConfidenceVector)
    (observation : Observation) (finding : Finding) (review_decision : ReviewDecision)
    (provenance_record : ProvenanceRecord)
    → source_record.id ≢ ""
    → observation.id ≢ ""
    → finding.id ≢ ""
    → review_decision.id ≢ ""
    → (SourceRecord.from_dict fresh (SourceRecord.to_dict source_record) ≡ ok source_record)
      × (ConfidenceVector.from_dict (ConfidenceVector.to_dict confidence_vector)
          ≡ ok confidence_vector)
      × (Observation.from_dict fresh (Observation.to_dict observation) ≡ ok observation)
      × (Finding.from_dict fresh (Finding.to_dict finding) ≡ ok finding)
      × (ReviewDecision.from_dict fresh (ReviewDecision.to_dict review_decision)
          ≡ ok review_decision)
      × (ProvenanceRecord.from_dict (ProvenanceRecord.to_dict provenance_record)
          ≡ ok provenance_record)
evidence_round_trip fresh source_record confidence_vector observation finding review_decision
      provenance_record h_source_record h_observation h_finding h_review_decision =
    (
      source_record_round_trip fresh source_record h_source_record,
      confidence_vector_round_trip confidence_vector,
      observation_round_trip fresh observation h_observation,
      finding_round_trip fresh finding h_finding,
      review_decision_round_trip fresh review_decision h_review_decision,
      provenance_record_round_trip provenance_record,
    )
