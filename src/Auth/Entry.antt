-- ===== src/Auth/Entry.antt =====
-- Who passes the boundary of a route (src/vulnops/auth/dependencies.py).
use vulnops_hub.Prelude.{
  String, Bool, true, false, not, Option, none, some, mem_text, str_eq, strip, lower, truthy,
  if◌then◌else◌, Bool-cases, Option-cases, ◌≡◌, refl, sym, ap, ◌∙◌, inl, inr, arith,
}
use vulnops_hub.Auth.Principals.{Principal, has_organization, has_capability}
use vulnops_hub.Auth.Claims.{Claims, ClaimNames, principal_from_claims}
use vulnops_hub.Auth.Boundary.{
  Settings, App, Access, granted, denied, AuthError, resource_not_found, empty_capability, Caller,
  token_caller, principal_of, is_valid_configuration, extract_bearer_token, caller_of, of_claims,
  verified, of_token, get_principal, require_organization, authorize_capability, and_then,
  require_capability,
}

granted-injective : {A : Type 0} {a b : A} → granted a ≡ granted b → a ≡ b
granted-injective h = ground arith

denied_not_granted : {A : Type 0} {e : AuthError} {a : A} → denied e ≡ granted a → ⊥
denied_not_granted h = cc

-- Outside the environment of the tests, a valid configuration has no bypass.
no_bypass :
    (scheme : String → String) (s : Settings)
    → is_valid_configuration scheme s ≡ true
    → str_eq s.environment "test" ≡ false
    → s.auth_test_bypass_enabled ≡ false
unfolding is_valid_configuration
no_bypass scheme s valid real = elim (Bool-cases s.auth_test_bypass_enabled) [
  | inl on ↦ ground (arith, valid, real, on)
  | inr off ↦ off
]

-- A caller with a token that the verifier took, and what it says.
pub record Verified (app : App) (authorization : Option String) (caller : Caller) : Type 0 where
  pub token : String
  pub sent : extract_bearer_token authorization ≡ granted (some token)
  pub verify : String → Option Claims
  pub configured : app.oidc_verifier ≡ some verify
  pub claims : Claims
  pub taken : verify token ≡ some claims
  pub principal : Principal
  pub read : principal_from_claims app.settings.claim_names claims ≡ some principal
  pub is_caller : caller ≡ token_caller principal

of_claims-read :
    (names : ClaimNames) (found : Option Claims) (caller : Caller)
    → of_claims names found ≡ granted caller
    → (claims : Claims) × (p : Principal) × (found ≡ some claims)
      × (principal_from_claims names claims ≡ some p)
      × (caller ≡ token_caller p)
of_claims-read names none caller h = cc
of_claims-read names (some claims) caller h =
    elim (Option-cases (principal_from_claims names claims)) [
      | inl raised ↦ absurd (denied_not_granted (sym (ap caller_of raised) ∙ h))
      | inr (p, read) ↦ (claims, p, refl, read, granted-injective (sym h ∙ ap caller_of read))
    ]

of_token-Verified :
    (app : App) (authorization : Option String) (sent : Access (Option String)) (caller : Caller)
    → extract_bearer_token authorization ≡ sent
    → of_token app sent ≡ granted caller
    → Verified app authorization caller
of_token-Verified app authorization (denied e) caller e' h = cc
of_token-Verified app authorization (granted none) caller e h = cc
of_token-Verified app authorization (granted (some token)) caller e h =
    elim (Option-cases app.oidc_verifier) [
      | inl missing ↦ absurd (denied_not_granted (sym (ap (λ v. verified app v token) missing) ∙ h))
      | inr (verify, configured) ↦
          let (claims, p, taken, read, is_caller) =
            of_claims-read app.settings.claim_names (verify token) caller
              (sym (ap (λ v. verified app v token) configured) ∙ h) in
          record {
            token = token;
            sent = e;
            verify = verify;
            configured = configured;
            claims = claims;
            taken = taken;
            principal = p;
            read = read;
            is_caller = is_caller;
          }
    ]

get_principal-Verified :
    (app : App) (authorization : Option String) (caller : Caller)
    → app.settings.auth_test_bypass_enabled ≡ false
    → get_principal app authorization ≡ granted caller
    → Verified app authorization caller
unfolding get_principal
get_principal-Verified app authorization caller off h =
    of_token-Verified app authorization (extract_bearer_token authorization) caller refl
      (sym (rw off refl) ∙ h)

require_organization-ok :
    (app : App) (org_id : String) (caller allowed : Caller)
    → app.settings.auth_test_bypass_enabled ≡ false
    → require_organization app org_id caller ≡ granted allowed
    → (allowed ≡ caller)
      × (mem_text "*" (principal_of caller).organization_ids ≡ false)
      × (has_organization (principal_of caller) org_id ≡ true)
unfolding require_organization
require_organization-ok app org_id caller allowed off h = ground (arith, h, off)

authorize_capability-ok :
    (app : App) (capability : String) (caller allowed : Caller)
    → app.settings.auth_test_bypass_enabled ≡ false
    → authorize_capability app caller capability ≡ granted allowed
    → (allowed ≡ caller) × (has_capability (principal_of caller) (lower (strip capability)) ≡ true)
unfolding authorize_capability
authorize_capability-ok app capability caller allowed off h = ground (arith, h, off)

and_then-ok :
    (r : Access Caller) (f : Caller → Access Caller) (allowed : Caller)
    → and_then r f ≡ granted allowed
    → (caller : Caller) × (r ≡ granted caller) × (f caller ≡ granted allowed)
and_then-ok (denied e) f allowed h = cc
and_then-ok (granted c) f allowed h = (c, refl, h)

-- What holds of a caller that passed the boundary.
pub record Entitled (app : App) (authorization : Option String) (org_id capability : String)
    (caller : Caller) : Type 0 where
  pub verified : Verified app authorization caller
  pub no_wildcard : mem_text "*" (verified.principal).organization_ids ≡ false
  pub member : has_organization verified.principal org_id ≡ true
  pub capable : has_capability verified.principal (lower (strip (lower (strip capability)))) ≡ true

unguarded :
    (b : Bool) (e : AuthError) {x : Access Caller} {c : Caller}
    → (if b then denied e else x) ≡ granted c
    → x ≡ granted c
unguarded true e h = cc
unguarded false e h = h

passes :
    (app : App) (authorization : Option String) (org_id capability : String) (caller : Caller)
    → app.settings.auth_test_bypass_enabled ≡ false
    → require_capability app authorization org_id capability ≡ granted caller
    → Entitled app authorization org_id capability caller
unfolding require_capability
passes app authorization org_id capability caller off h =
    let normalized = lower (strip capability) in
    let inner = unguarded (not (truthy normalized)) empty_capability h in
    let (c1, read, h1) = and_then-ok (get_principal app authorization) _ caller inner in
    let (c2, belongs, h2) = and_then-ok (require_organization app org_id c1) _ caller h1 in
    let (same, no_wildcard, member) = require_organization-ok app org_id c1 c2 off belongs in
    let (last, capable) = authorize_capability-ok app normalized c2 caller off h2 in
    let who : c1 ≡ caller = sym (last ∙ same) in
    let v = get_principal-Verified app authorization caller off (read ∙ ap granted who) in
    let p_is : principal_of c1 ≡ v.principal = ap principal_of (who ∙ v.is_caller) in
    record {
      verified = v;
      no_wildcard = ap (λ p. mem_text "*" p.organization_ids) (sym p_is) ∙ no_wildcard;
      member = ap (λ p. has_organization p org_id) (sym p_is) ∙ member;
      capable =
          ap (λ p. has_capability p (lower (strip normalized))) (sym (ap principal_of same ∙ p_is))
          ∙ capable;
    }

-- In a valid configuration whose environment is not the one of the tests, a caller that passes
-- the dependencies of a route sent a bearer token that the configured verifier took, and is the
-- principal of its claims; no wildcard stands among the organizations of that principal, who is a
-- member of the organization and has the capability.
pub require_capability-Entitled :
    (scheme : String → String) (app : App) (authorization : Option String)
    (org_id capability : String) (caller : Caller)
    → is_valid_configuration scheme app.settings ≡ true
    → str_eq app.settings.environment "test" ≡ false
    → require_capability app authorization org_id capability ≡ granted caller
    → Entitled app authorization org_id capability caller
require_capability-Entitled scheme app authorization org_id capability caller valid real h =
    passes app authorization org_id capability caller (no_bypass scheme app.settings valid real) h

-- A caller from a token who is not a member of the organization gets `resource_not_found` from a
-- route, whichever capability the route asks for.
pub require_capability-hides :
    (app : App) (authorization : Option String) (org_id capability : String) (p : Principal)
    → get_principal app authorization ≡ granted (token_caller p)
    → has_organization p org_id ≡ false
    → truthy (lower (strip capability)) ≡ true
    → require_capability app authorization org_id capability ≡ denied resource_not_found
unfolding require_capability require_organization
require_capability-hides app authorization org_id capability p read outside named =
    ground (arith, read, outside, named)
