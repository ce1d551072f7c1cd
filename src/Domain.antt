-- ===== src/Domain.antt =====
-- The records of evidence (src/vulnops/domain/provenance.py).
pub mod Provenance
pub mod Once
pub mod Tests
