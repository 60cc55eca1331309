-- ===== src/Policy.antt =====
-- qsmlops/supervisor/policy.py: the rules that the supervisor evaluates on a dictionary of facts.
pub mod Values
pub mod Condition
pub mod Rule
pub mod Engine
pub mod Defaults
pub mod Order
pub mod Decides
pub mod Gate
pub mod RoundTrip
pub mod Facts
pub mod Blocked
pub mod Tests
