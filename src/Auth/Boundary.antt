-- ===== src/Auth/Boundary.antt =====
-- How a request becomes a trusted principal, and what a principal is let do
-- (src/vulnops/auth/dependencies.py). The verifier of tokens and the scheme of a URL, which is
-- `urlparse(issuer).scheme`, are parameters.
use Prim.Native.Char.{code}
use vulnops_hub.Prelude.{
  String, Bool, true, false, not, ◌&&◌, ◌||◌, Option, none, some, List, [], ◌∷◌, any, mem_text,
  str_eq, strip, lower, truthy, is_space, is_empty, if◌then◌else◌,
}
use vulnops_hub.Auth.Principals.{Principal, has_organization, has_capability}
use vulnops_hub.Auth.Claims.{Claims, ClaimNames, principal_from_claims}

-- What the settings say of authentication.
pub record Settings : Type 0 where
  pub environment : String
  pub auth_test_bypass_enabled : Bool
  pub oidc_allow_insecure_loopback : Bool
  pub oidc_issuer_url : Option String
  pub oidc_audience : Option String
  pub claim_names : ClaimNames

-- The codes of `AuthenticationError` and `AuthorizationError`, and the `ValueError` for an empty
-- capability.
pub data AuthError : Type 0 where
  authentication_required invalid_token : AuthError
  insufficient_permission resource_not_found : AuthError
  empty_capability : AuthError

pub data Access {ℓ} (A : Type ℓ) : Type ℓ where
  granted : A → Access A
  denied : AuthError → Access A

-- The object that a request carries: the one that the application created for the test bypass, or
-- one that was made from a token. `is` tells the two apart, whatever they hold.
pub data Caller : Type 0 where
  test_caller token_caller : Principal → Caller

abbrev pub principal_of : Caller → Principal
principal_of (test_caller p) = p
principal_of (token_caller p) = p

abbrev is_test_caller : Caller → Bool
is_test_caller (test_caller p) = true
is_test_caller (token_caller p) = false

abbrev pub given : Option String → Bool
given none = false
given (some s) = truthy s

abbrev stripped : Option String → String
stripped none = ""
stripped (some s) = strip s

-- `validate_auth_configuration`: whether it raises nothing
unfoldable pub is_valid_configuration : (String → String) → Settings → Bool
is_valid_configuration scheme s =
    not (s.auth_test_bypass_enabled && not (str_eq s.environment "test"))
    && not (s.oidc_allow_insecure_loopback && not (str_eq s.environment "staging"))
    && not (
        not s.auth_test_bypass_enabled
        && (not (given s.oidc_issuer_url) || not (given s.oidc_audience)))
    && not (
        str_eq s.environment "production"
        && (s.auth_test_bypass_enabled
            || s.oidc_allow_insecure_loopback
            || (truthy (stripped s.oidc_issuer_url)
                && not (str_eq (scheme (stripped s.oidc_issuer_url)) "https"))))

-- The first word of a text without white space before it, and what follows that word.
unfoldable pub first_word : String → String × String
first_word String.[] = (String.[], String.[])
first_word (String.◌∷◌ c s) =
    let (word, rest) = first_word s in
    if is_space (code c) then (String.[], s) else (String.◌∷◌ c word, rest)

abbrev bearer_parts : String × String → Access (Option String)
bearer_parts (word, rest) =
    if str_eq (lower word) "bearer" && truthy (strip rest)
    then granted (some (strip rest))
    else denied invalid_token

-- `_extract_bearer_token`
unfoldable pub extract_bearer_token : Option String → Access (Option String)
unfolding first_word
extract_bearer_token none = granted none
extract_bearer_token (some authorization) = bearer_parts (first_word (strip authorization))

-- The application: its settings, the principal of the bypass, and the verifier, which answers the
-- claims of a token or raises.
pub record App : Type 0 where
  pub settings : Settings
  pub test_principal : Principal
  pub oidc_verifier : Option (String → Option Claims)

abbrev pub caller_of : Option Principal → Access Caller
caller_of none = denied invalid_token
caller_of (some p) = granted (token_caller p)

abbrev pub of_claims : ClaimNames → Option Claims → Access Caller
of_claims names none = denied invalid_token
of_claims names (some claims) = caller_of (principal_from_claims names claims)

abbrev pub verified : App → Option (String → Option Claims) → String → Access Caller
verified app none token = denied invalid_token
verified app (some verify) token = of_claims app.settings.claim_names (verify token)

abbrev pub of_token : App → Access (Option String) → Access Caller
of_token app (denied e) = denied e
of_token app (granted none) = denied authentication_required
of_token app (granted (some token)) = verified app app.oidc_verifier token

-- `get_principal`, for the header `Authorization`
unfoldable pub get_principal : App → Option String → Access Caller
unfolding extract_bearer_token
get_principal app authorization =
    if app.settings.auth_test_bypass_enabled
    then granted (test_caller app.test_principal)
    else of_token app (extract_bearer_token authorization)

-- `_is_explicit_test_bypass`
abbrev pub is_explicit_test_bypass : App → Caller → Bool
is_explicit_test_bypass app caller = app.settings.auth_test_bypass_enabled && is_test_caller caller

unfoldable pub require_organization : App → String → Caller → Access Caller
require_organization app org_id caller =
    let p = principal_of caller in
    if is_explicit_test_bypass app caller
    then granted caller
    else if str_eq (strip org_id) "*" || mem_text "*" p.organization_ids
    then denied resource_not_found
    else if not (has_organization p org_id)
    then denied resource_not_found
    else granted caller

unfoldable pub authorize_capability : App → Caller → String → Access Caller
authorize_capability app caller capability =
    let normalized = lower (strip capability) in
    if not (truthy normalized)
    then denied empty_capability
    else if is_explicit_test_bypass app caller
    then granted caller
    else if not (has_capability (principal_of caller) normalized)
    then denied insufficient_permission
    else granted caller

abbrev pub and_then : Access Caller → (Caller → Access Caller) → Access Caller
and_then (denied e) f = denied e
and_then (granted c) f = f c

-- The dependencies of a route that asks for a capability: the principal, the organization, and then
-- the capability.
unfoldable pub require_capability : App → Option String → String → String → Access Caller
unfolding get_principal require_organization authorize_capability
require_capability app authorization org_id capability =
    let normalized = lower (strip capability) in
    if not (truthy normalized)
    then denied empty_capability
    else and_then (get_principal app authorization) (λ caller.
      and_then (require_organization app org_id caller)
        (λ allowed. authorize_capability app allowed normalized))

abbrev check_any : App → List String → Caller → Access Caller
check_any app normalized caller =
    if is_explicit_test_bypass app caller
      || any (λ capability. has_capability (principal_of caller) capability) normalized
    then granted caller
    else denied insufficient_permission

abbrev pub normalized_all : List String → List String
normalized_all [] = []
normalized_all (c ∷ cs) =
    if truthy c then lower (strip c) ∷ normalized_all cs else normalized_all cs

-- The same for a route that asks for one of several capabilities.
unfoldable pub require_any_capability : App → Option String → String → List String → Access Caller
unfolding get_principal require_organization
require_any_capability app authorization org_id capabilities =
    if is_empty (normalized_all capabilities)
    then denied empty_capability
    else and_then (get_principal app authorization) (λ caller.
      and_then (require_organization app org_id caller)
        (λ allowed. check_any app (normalized_all capabilities) allowed))
