-- ===== src/Assets.antt =====
-- Assets and their aliases (src/vulnops/assets/reconciliation.py, and
-- src/vulnops/integrations/mapping.py).
pub mod Reconciliation
pub mod Mapping
pub mod Lookup
pub mod Tests
