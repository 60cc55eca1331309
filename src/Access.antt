-- ===== src/Access.antt =====
-- qsmlops/security/permissions: who may do what.
pub mod Vocabulary
pub mod Permission
pub mod Decides
pub mod Holders
pub mod Agents
pub mod Tests
