-- ===== src/Registry.antt =====
-- satsa/mlops: the registry of models, its lifecycle and its deployments.
pub mod Artifact
pub mod Shape
pub mod Tables
pub mod Lifecycle
pub mod Deploy
pub mod Invariant
pub mod Governance
pub mod Rollout
pub mod Race
pub mod Progress
pub mod Samples
pub mod Tests
