-- ===== src/Domain/Samples.antt =====
-- satsa/domain: a sample of each record.
use sat_sa_with_pqc.Base.{none, some}
use sat_sa_with_pqc.Base.Int.{pos}
use sat_sa_with_pqc.Json.{nil, cons, field, end, str, num}
use sat_sa_with_pqc.Domain.Entity.{Entity}
use sat_sa_with_pqc.Domain.Assessment.{Assessment}
use sat_sa_with_pqc.Domain.Submission.{Submission}
use sat_sa_with_pqc.Domain.Asset.{Asset}
use sat_sa_with_pqc.Domain.Alert.{Alert}
use sat_sa_with_pqc.Domain.Case.{Case}
use sat_sa_with_pqc.Domain.InvestigationStep.{InvestigationStep}
use sat_sa_with_pqc.Domain.Escalation.{Escalation}
use sat_sa_with_pqc.Domain.Disposition.{Disposition}
use sat_sa_with_pqc.Domain.SourceRecord.{SourceRecord}
use sat_sa_with_pqc.Domain.ConfidenceVector.{ConfidenceVector}
use sat_sa_with_pqc.Domain.Observation.{Observation}
use sat_sa_with_pqc.Domain.Finding.{Finding}
use sat_sa_with_pqc.Domain.ReviewDecision.{ReviewDecision}
use sat_sa_with_pqc.Domain.ProvenanceRecord.{ProvenanceRecord}
use sat_sa_with_pqc.Domain.AnalysisRun.{AnalysisRun}

abbrev pub sample_entity : Entity
sample_entity = record {
  display_name = "displa";
  sector = "sector";
  environment_class = "enviro";
  cohort_attributes = field "k" (num (pos 2)) end;
  access_scope = "access";
  id = "entity_1";
  schema_version = pos 1;
}

abbrev pub sample_assessment : Assessment
sample_assessment = record {
  entity_id = "entity";
  period_start = pos 3;
  period_end = pos 9;
  timezone = "timezo";
  submission_cutoff = some (pos 7);
  policy_version = "policy";
  status = "open";
  supersedes_id = some "supe";
  id = "assessment_1";
  schema_version = pos 1;
}

abbrev pub sample_submission : Submission
sample_submission = record {
  assessment_id = "assess";
  source_system = "source";
  declared_period_start = pos 3;
  declared_period_end = pos 9;
  file_digests = field "k" (num (pos 2)) end;
  declared_counts = field "k" (num (pos 2)) end;
  schema_name = "schema";
  received_at = some (pos 7);
  signature_status = "signed";
  id = "submission_1";
  schema_version = pos 1;
}

abbrev pub sample_asset : Asset
sample_asset = record {
  entity_id = "entity";
  native_id = "native";
  criticality = "critic";
  environment = "enviro";
  active_intervals = cons (str "ref-1") nil;
  control_applicability = cons (str "ref-1") nil;
  id = "asset_1";
  schema_version = pos 1;
}

abbrev pub sample_alert : Alert
sample_alert = record {
  entity_id = "entity";
  assessment_id = "assess";
  native_id = "native";
  created_at = pos 20;
  native_severity = "native";
  mapped_severity = "mapped";
  native_category = "native";
  mapped_category = "mapped";
  asset_refs = cons (str "ref-1") nil;
  case_refs = cons (str "ref-1") nil;
  detector_refs = cons (str "ref-1") nil;
  acknowledged_at = none;
  closed_at = some (pos 7);
  disposition_id = some "disp";
  source_record_ref = "source";
  id = "alert_1";
  schema_version = pos 1;
}

abbrev pub sample_case : Case
sample_case = record {
  entity_id = "entity";
  assessment_id = "assess";
  native_id = "native";
  opened_at = pos 3;
  alert_refs = cons (str "ref-1") nil;
  owner_pseudonym = "owner_";
  status = "closed";
  closed_at = some (pos 7);
  closure_reason = "closur";
  investigation_refs = cons (str "ref-1") nil;
  remediation_refs = cons (str "ref-1") nil;
  source_record_ref = "source";
  id = "case_1";
  schema_version = pos 1;
}

abbrev pub sample_investigation_step : InvestigationStep
sample_investigation_step = record {
  case_id = "case_i";
  action_type = "action";
  performed_at = pos 3;
  sequence = pos 3;
  analyst_pseudonym = "analys";
  evidence_refs = cons (str "ref-1") nil;
  result_refs = cons (str "ref-1") nil;
  note_text = "note_t";
  id = "invstep_1";
  schema_version = pos 1;
}

abbrev pub sample_escalation : Escalation
sample_escalation = record {
  entity_id = "entity";
  assessment_id = "assess";
  occurred_at = pos 3;
  alert_id = some "aler";
  case_id = some "case";
  destination_role = "destin";
  trigger = "trigge";
  outcome = "outcom";
  policy_exception_ref = some "poli";
  id = "escalation_1";
  schema_version = pos 1;
}

abbrev pub sample_disposition : Disposition
sample_disposition = record {
  entity_id = "entity";
  assessment_id = "assess";
  occurred_at = pos 3;
  alert_id = some "aler";
  case_id = some "case";
  mapped_category = "mapped";
  reason = "reason";
  approver_role = "approv";
  exception_ref = some "exce";
  supporting_refs = cons (str "ref-1") nil;
  id = "disposition_1";
  schema_version = pos 1;
}

abbrev pub sample_source_record : SourceRecord
sample_source_record = record {
  submission_id = "submis";
  file_digest = "file_d";
  format = "format";
  locator = "locato";
  original_record_digest = "origin";
  id = "srcrec_1";
  schema_version = pos 1;
}

abbrev pub sample_confidence_vector : ConfidenceVector
sample_confidence_vector = record {
  analytical_support = pos 3;
  evidence_completeness = pos 3;
  peer_confidence = some (pos 7);
}

abbrev pub sample_observation : Observation
sample_observation = record {
  run_id = "run_id";
  worker_name = "worker";
  detector_version = "detect";
  entity_id = "entity";
  assessment_id = "assess";
  scope = field "k" (num (pos 2)) end;
  created_at = pos 20;
  id = "observation_1";
  schema_version = pos 1;
}

abbrev pub sample_finding : Finding
sample_finding = record {
  observation_id = "observ";
  rule_or_category = "rule_o";
  state = "signal";
  rationale = "ration";
  scoped_subjects = cons (str "ref-1") nil;
  statistic = some (pos 7);
  effect = some (pos 7);
  threshold = some (pos 7);
  confidence = some sample_confidence_vector;
  evidence_refs = cons (str "ref-1") nil;
  limitations = "limita";
  id = "finding_1";
  schema_version = pos 1;
}

abbrev pub sample_review_decision : ReviewDecision
sample_review_decision = record {
  finding_id = "findin";
  principal_identity_id = "princi";
  action = "confirm";
  reason = "reason";
  occurred_at = pos 3;
  previous_revision_id = some "prev";
  id = "reviewdec_1";
  schema_version = pos 1;
}

abbrev pub sample_provenance_record : ProvenanceRecord
sample_provenance_record = record {
  subject_type = "subjec";
  subject_id = "subjec";
  predicate = "predic";
  object_type = "object";
  object_id = "object";
  metadata = field "k" (num (pos 2)) end;
}

abbrev pub sample_analysis_run : AnalysisRun
sample_analysis_run = record {
  entity_id = "entity";
  assessment_id = "assess";
  snapshot_digest = "snapsh";
  baseline_digests = field "k" (num (pos 2)) end;
  code_version = "code_v";
  analytics_version = "analyt";
  model_version = some "mode";
  status = "completed";
  started_at = some (pos 7);
  finished_at = some (pos 7);
  observation_ids = cons (str "ref-1") nil;
  error = "error";
  id = "run_1";
  schema_version = pos 1;
}
