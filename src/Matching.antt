-- ===== src/Matching.antt =====
-- The matching of components against advisories (src/vulnops/matching).
pub mod Versioning
pub mod Identity
pub mod Service
pub mod Scan
pub mod Decision
pub mod Tests
