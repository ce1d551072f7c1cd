-- ===== src/Risk.antt =====
-- The risk policy and its simulator (src/vulnops/risk).
pub mod Policy
pub mod Simulation
pub mod Tests
