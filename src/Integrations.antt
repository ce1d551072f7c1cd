-- ===== src/Integrations.antt =====
-- The adapters of foreign sources (src/vulnops/integrations/wazuh_purl.py).
pub mod WazuhPurl
pub mod Derived
pub mod Tests
