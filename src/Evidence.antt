-- ===== src/Evidence.antt =====
-- qsmlops/evidence, qsmlops/artifacts, qsmlops/crypto/hashing.py: the content-addressed store, the
-- verification packet and the hash-chained ledger.
pub mod Codec
pub mod Store
pub mod Packet
pub mod Sensitive
pub mod Chain
pub mod Packets
pub mod Tests
pub mod History
