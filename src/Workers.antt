-- ===== src/Workers.antt =====
-- The workers (src/vulnops/workers): the outbox and its handlers.
pub mod Outbox
pub mod Exposures
pub mod Advisories
pub mod Cases
pub mod Payload
pub mod Handlers
pub mod Wazuh
pub mod Emitting
pub mod Draining
pub mod Tests
