-- ===== src/Policy.antt =====
-- src/traceguard/policy: destinations and rule matching.
pub mod Network
pub mod Matching
pub mod Tests
