-- ===== src/Integrations/Tests.antt =====
-- A concrete package of Wazuh (src/vulnops/integrations/wazuh_purl.py).
use vulnops_hub.Prelude.{String, none, some, lower, starts_with, strip, ◌≡◌, refl}
use vulnops_hub.Workers.Advisories.{purl_ecosystem}
use vulnops_hub.Integrations.WazuhPurl.{
  Package, Agent, derived, contains_text, spaced, agent_distro_text, deb_namespace_from_distro,
  base_of, derive_purl_from_wazuh_package,
}
use vulnops_hub.Integrations.Derived.{derive_purl_ecosystem}

abbrev openssl : Package
openssl = record {
  purl = none;
  name = some " openssl ";
  version = some "3.0";
  format = some "DEB";
  architecture = some "amd64";
  vendor = none;
}

abbrev agent : Agent
agent = record { os = none; os_name = some "Ubuntu"; os_version = some "22.04"; platform = none }

-- The texts hold no character that is quoted.
abbrev keep : String → String → String
keep safe s = s

openssl_status : (derive_purl_from_wazuh_package keep openssl (some agent)).status ≡ derived
unfolding derive_purl_from_wazuh_package base_of deb_namespace_from_distro agent_distro_text
    contains_text spaced starts_with strip lower
openssl_status = refl

openssl_purl :
    (derive_purl_from_wazuh_package keep openssl (some agent)).purl
    ≡ some "pkg:deb/ubuntu/openssl@3.0?arch=amd64"
unfolding derive_purl_from_wazuh_package base_of deb_namespace_from_distro agent_distro_text
    contains_text spaced starts_with strip lower
openssl_purl = refl

derive_purl_ecosystem_example :
    (fmt : String) × ((derive_purl_from_wazuh_package keep openssl (some agent)).reason ≡ some fmt)
    × (purl_ecosystem (some "pkg:deb/ubuntu/openssl@3.0?arch=amd64") ≡ some fmt)
derive_purl_ecosystem_example =
    derive_purl_ecosystem keep openssl (some agent) "pkg:deb/ubuntu/openssl@3.0?arch=amd64"
      openssl_status openssl_purl
