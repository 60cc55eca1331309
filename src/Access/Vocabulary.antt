-- ===== src/Access/Vocabulary.antt =====
-- qsmlops/security/permissions/model.py: the vocabulary of permissions and the built-in roles.
use sat_sa_with_pqc.Base.{String, List, [], ◌∷◌}

-- A dictionary of roles, in the order it is written.
abbrev pub Roles : Type 0
Roles = List (String × List String)

abbrev pub all_actions : String
all_actions = "*"

abbrev pub audit_read : String
audit_read = "audit.read"

abbrev pub identity_manage : String
identity_manage = "identity.manage"

abbrev pub identity_read : String
identity_read = "identity.read"

abbrev pub platform_read : String
platform_read = "platform.read"

abbrev pub platform_admin : String
platform_admin = "platform.admin"

abbrev pub config_manage : String
config_manage = "config.manage"

abbrev pub key_manage : String
key_manage = "key.manage"

abbrev pub model_read : String
model_read = "model.read"

abbrev pub model_train : String
model_train = "model.train"

abbrev pub model_verify : String
model_verify = "model.verify"

abbrev pub model_approve : String
model_approve = "model.approve"

abbrev pub model_deploy : String
model_deploy = "model.deploy"

abbrev pub model_rollback : String
model_rollback = "model.rollback"

abbrev pub artifact_read : String
artifact_read = "artifact.read"

abbrev pub artifact_write : String
artifact_write = "artifact.write"

abbrev pub agent_observe : String
agent_observe = "agent.observe"

abbrev pub agent_recommend : String
agent_recommend = "agent.recommend"

abbrev pub agent_act : String
agent_act = "agent.act"

abbrev pub finding_view : String
finding_view = "finding.view"

abbrev pub evidence_view : String
evidence_view = "evidence.view"

abbrev pub review_read : String
review_read = "review.read"

abbrev pub review_create : String
review_create = "review.create"

abbrev pub decision_record : String
decision_record = "decision.record"

abbrev pub analysis_run : String
analysis_run = "analysis.run"

abbrev pub validation_run : String
validation_run = "validation.run"

abbrev pub trust_verify : String
trust_verify = "trust.verify"

abbrev pub report_export : String
report_export = "report.export"

abbrev pub calibration_approve : String
calibration_approve = "calibration.approve"

abbrev pub roles : Roles
roles =
    ("admin", all_actions ∷ [])
    ∷ (
      "ml_engineer",
      artifact_read ∷ artifact_write ∷ model_read ∷ model_train ∷ model_verify ∷ model_approve
          ∷ model_deploy ∷ model_rollback ∷ platform_read ∷ audit_read ∷ identity_read ∷ [],
    )
    ∷ (
      "security_analyst",
      audit_read ∷ identity_read ∷ key_manage ∷ model_read ∷ platform_read ∷ artifact_read ∷ [],
    )
    ∷ (
      "operator",
      artifact_read ∷ audit_read ∷ identity_read ∷ model_read ∷ model_verify ∷ model_deploy
          ∷ model_rollback ∷ platform_read ∷ [],
    )
    ∷ (
      "training_service",
      artifact_read ∷ artifact_write ∷ model_read ∷ model_train ∷ platform_read ∷ [],
    )
    ∷ (
      "registry_service",
      artifact_read ∷ audit_read ∷ model_read ∷ model_verify ∷ platform_read ∷ [],
    )
    ∷ (
      "deployment_service",
      artifact_read ∷ model_read ∷ model_deploy ∷ model_rollback ∷ platform_read ∷ [],
    )
    ∷ ("serving_service", artifact_read ∷ model_read ∷ platform_read ∷ [])
    ∷ ("security_agent", agent_observe ∷ agent_recommend ∷ artifact_read ∷ [])
    ∷ ("performance_agent", agent_observe ∷ agent_recommend ∷ model_read ∷ [])
    ∷ ("monitoring_agent", agent_observe ∷ agent_recommend ∷ platform_read ∷ audit_read ∷ [])
    ∷ ("data_agent", agent_observe ∷ agent_recommend ∷ model_read ∷ [])
    ∷ ("quantum_agent", agent_observe ∷ agent_recommend ∷ audit_read ∷ [])
    ∷ ("redteam_agent", agent_observe ∷ artifact_read ∷ [])
    ∷ ("satsa_viewer", finding_view ∷ evidence_view ∷ review_read ∷ trust_verify ∷ model_read ∷ [])
    ∷ (
      "satsa_analyst",
      finding_view ∷ evidence_view ∷ review_read ∷ analysis_run ∷ validation_run ∷ trust_verify
          ∷ report_export ∷ model_read ∷ model_train ∷ [],
    )
    ∷ (
      "satsa_supervisor",
      finding_view ∷ evidence_view ∷ review_read ∷ review_create ∷ decision_record ∷ analysis_run
          ∷ validation_run ∷ trust_verify ∷ report_export ∷ calibration_approve ∷ model_read
          ∷ model_train ∷ model_approve ∷ model_deploy ∷ model_rollback ∷ [],
    )
    ∷ (
      "satsa_auditor",
      finding_view ∷ evidence_view ∷ review_read ∷ trust_verify ∷ report_export ∷ audit_read
          ∷ model_read ∷ [],
    )
    ∷ ("satsa_admin", all_actions ∷ [])
    ∷ []

abbrev pub satsa_role_names : List String
satsa_role_names =
    "satsa_viewer" ∷ "satsa_analyst" ∷ "satsa_supervisor" ∷ "satsa_auditor" ∷ "satsa_admin" ∷ []

abbrev pub agent_role_names : List String
agent_role_names =
    "security_agent" ∷ "performance_agent" ∷ "monitoring_agent" ∷ "data_agent" ∷ "quantum_agent"
    ∷ "redteam_agent" ∷ []
