-- ===== src/Domain.antt =====
-- satsa/domain: the records of the supervisory data model.
pub mod Base
pub mod Entity
pub mod Assessment
pub mod Submission
pub mod Asset
pub mod Alert
pub mod Case
pub mod InvestigationStep
pub mod Escalation
pub mod Disposition
pub mod SourceRecord
pub mod ConfidenceVector
pub mod Observation
pub mod Finding
pub mod ReviewDecision
pub mod ProvenanceRecord
pub mod AnalysisRun
pub mod RoundTrip
pub mod Scope
pub mod Validity
pub mod Samples
pub mod Tests
