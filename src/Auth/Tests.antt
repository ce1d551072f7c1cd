-- ===== src/Auth/Tests.antt =====
-- A concrete application, its tokens, and requests (src/vulnops/auth).
use vulnops_hub.Prelude.{
  String, true, false, none, some, [], ◌∷◌, mem_text, str_eq, strip, lower, truthy, ◌≡◌, refl,
  if◌then◌else◌,
}
use vulnops_hub.Auth.Principals.{
  human, service, Principal, role_capabilities, capabilities, normalize_scope, normalize_role,
  underscored, holds, has_capability,
}
use vulnops_hub.Auth.Claims.{Claims, ClaimNames, scalar, collection, principal_from_claims}
use vulnops_hub.Auth.Boundary.{
  App, granted, denied, resource_not_found, token_caller, is_valid_configuration, first_word,
  extract_bearer_token, get_principal, require_organization, authorize_capability,
  require_capability,
}
use vulnops_hub.Auth.Grants.{Scoped, has_capability-Scoped, has_capability_admin}
use vulnops_hub.Auth.Entry.{Entitled, require_capability-Entitled, require_capability-hides}

abbrev names : ClaimNames
names = record {
  principal_type = "principal_type";
  role = "roles";
  organization = "organizations";
  service_scope = "scope";
}

abbrev human_claims : Claims
human_claims =
    ("sub", scalar "alice")
    ∷ ("principal_type", scalar "Human")
    ∷ ("organizations", collection (some "org" ∷ []))
    ∷ ("roles", collection (some "owner" ∷ []))
    ∷ []

abbrev service_claims : Claims
service_claims =
    ("sub", scalar "scanner")
    ∷ ("principal_type", scalar "service")
    ∷ ("organizations", collection (some "org" ∷ []))
    ∷ ("roles", scalar "admin")
    ∷ ("scope", scalar "sbom:write case:write")
    ∷ []

abbrev alice : Principal
alice = record {
  subject = "alice";
  principal_type = human;
  organization_ids = "org" ∷ [];
  roles = "owner" ∷ [];
  scopes = [];
  permissions = [];
}

abbrev scanner : Principal
scanner = record {
  subject = "scanner";
  principal_type = service;
  organization_ids = "org" ∷ [];
  roles = [];
  scopes = "sbom:write" ∷ "case:write" ∷ [];
  permissions = [];
}

abbrev app : App
app = record {
  settings = record {
    environment = "development";
    auth_test_bypass_enabled = false;
    oidc_allow_insecure_loopback = false;
    oidc_issuer_url = some "https://idp.example";
    oidc_audience = some "vulnops";
    claim_names = names;
  };
  test_principal = alice;
  oidc_verifier = some (λ token. if str_eq token "good" then some human_claims else none);
}

abbrev url_scheme : String → String
url_scheme url = "https"

app-valid : is_valid_configuration url_scheme app.settings ≡ true
unfolding is_valid_configuration
app-valid = refl

scanner_read : principal_from_claims names service_claims ≡ some scanner
unfolding principal_from_claims normalize_role normalize_scope underscored strip lower
scanner_read = refl

alice_read : get_principal app (some "Bearer good") ≡ granted (token_caller alice)
unfolding get_principal extract_bearer_token principal_from_claims normalize_role normalize_scope
    underscored first_word strip lower
alice_read = refl

alice_passes :
    require_capability app (some "Bearer good") "org" "case:write" ≡ granted (token_caller alice)
unfolding require_capability get_principal extract_bearer_token principal_from_claims normalize_role
    normalize_scope underscored first_word require_organization authorize_capability has_capability
    holds capabilities role_capabilities strip lower
alice_passes = refl

require_capability-Entitled_example :
    Entitled app (some "Bearer good") "org" "case:write" (token_caller alice)
require_capability-Entitled_example =
    require_capability-Entitled url_scheme app (some "Bearer good") "org" "case:write"
      (token_caller alice) app-valid refl alice_passes

not_member : mem_text (strip "other") ("org" ∷ []) ≡ false
unfolding strip
not_member = refl

named : truthy (lower (strip "case:write")) ≡ true
unfolding strip lower
named = refl

require_capability-hides_example :
    require_capability app (some "Bearer good") "other" "case:write" ≡ denied resource_not_found
require_capability-hides_example =
    require_capability-hides app (some "Bearer good") "other" "case:write" alice alice_read
      not_member named

scanner_may : has_capability scanner "sbom:write" ≡ true
unfolding has_capability holds normalize_scope strip lower
scanner_may = refl

has_capability-Scoped_example : Scoped scanner "sbom:write"
has_capability-Scoped_example =
    has_capability-Scoped names service_claims scanner "sbom:write" scanner_read refl scanner_may

alice_may : has_capability alice "case:write" ≡ true
unfolding has_capability holds capabilities role_capabilities normalize_scope strip lower
alice_may = refl

has_capability_admin_example :
    has_capability (record alice { roles = "admin" ∷ [] }) "case:write" ≡ true
has_capability_admin_example =
    has_capability_admin alice ("admin" ∷ []) "case:write" refl refl alice_may
