-- ===== src/Keys.antt =====
-- qsmlops/crypto/keys.py: the key store, its rotation, revocation and expiry.
pub mod Store
pub mod Rotation
pub mod Hardware
pub mod Lists
pub mod Signing
pub mod Revocation
pub mod Tests
