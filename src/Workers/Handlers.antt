-- ===== src/Workers/Handlers.antt =====
-- The handlers of processed SBOMs and of DefectDojo findings
-- (src/vulnops/workers/orchestration.py). `_persist_advisories` writes, on a session of its own, a
-- cache that no call here reads, and catches what it raises: it has no place in the model.
pub mod Shared
pub mod Sbom
pub mod DefectDojo
