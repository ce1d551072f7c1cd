-- ===== src/Cases.antt =====
-- The remediation-case workflow (src/vulnops/cases).
pub mod Workflow
pub mod Actor
pub mod Expiry
pub mod Load
pub mod Reading
pub mod Keys
pub mod Events
pub mod Transition
pub mod Verify
pub mod Request
pub mod Approve
pub mod Reopen
pub mod Expire
pub mod Ownership
pub mod Create
pub mod Tests
