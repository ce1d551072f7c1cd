-- ===== src/Auth/Claims.antt =====
-- From the claims of a verified token to a principal (`_claim_values` and the validators of
-- src/vulnops/auth/models.py, `principal_from_claims` of src/vulnops/auth/dependencies.py).
use Prim.Native.Char.{code}
use vulnops_hub.Prelude.{
  String, Option, none, some, List, [], ◌∷◌, str_eq, strip, lower, truthy, is_space, if◌then◌else◌,
  ◌≡◌, refl,
}
use vulnops_hub.Auth.Principals.{
  PrincipalType, human, service, Principal, normalize_role, normalize_scope,
}

-- The value of a claim: a text, a collection whose members are `none` where they are no texts, or a
-- value that is not iterable. `None` and a missing claim are `absent`.
pub data Claim : Type 0 where
  absent not_iterable : Claim
  scalar : String → Claim
  collection : List (Option String) → Claim

abbrev pub Claims : Type 0
Claims = List (String × Claim)

abbrev pub claim : String → Claims → Claim
claim name [] = absent
claim name ((n, v) ∷ rest) = if str_eq n name then v else claim name rest

-- The word that a text begins with, and the words after it.
unfoldable words_from : String → String × List String
words_from String.[] = (String.[], [])
words_from (String.◌∷◌ c s) =
    let (word, words) = words_from s in
    if is_space (code c)
    then (String.[], (if truthy word then word ∷ words else words))
    else (String.◌∷◌ c word, words)

-- `text.split()`
unfoldable pub split : String → List String
unfolding words_from
split s = let (word, words) = words_from s in if truthy word then word ∷ words else words

abbrev all_texts : List String → List (Option String)
all_texts [] = []
all_texts (s ∷ rest) = some s ∷ all_texts rest

-- One member of the loop of `_claim_values`: stripped, and dropped where it is empty.
abbrev add_value : Option String → Option (List String) → Option (List String)
add_value none rest = none
add_value (some s) none = none
add_value (some s) (some values) = some (if truthy (strip s) then strip s ∷ values else values)

abbrev values_of : List (Option String) → Option (List String)
values_of [] = some []
values_of (item ∷ items) = add_value item (values_of items)

-- `_claim_values`; `none` where it raises
unfoldable pub claim_values : Claim → Option (List String)
unfolding split
claim_values absent = some []
claim_values not_iterable = none
claim_values (scalar s) = values_of (all_texts (split s))
claim_values (collection items) = values_of items

abbrev cons_each : Option String → Option (List String) → Option (List String)
cons_each (some s) (some values) = some (s ∷ values)
cons_each _ _ = none

abbrev pub normalized_each : (String → Option String) → List String → Option (List String)
normalized_each normalize [] = some []
normalized_each normalize (s ∷ rest) = cons_each (normalize s) (normalized_each normalize rest)

abbrev after_values : (String → Option String) → Option (List String) → Option (List String)
after_values normalize none = none
after_values normalize (some values) = normalized_each normalize values

abbrev pub roles_of : Claim → Option (List String)
roles_of c = after_values normalize_role (claim_values c)

abbrev pub scopes_of : Claim → Option (List String)
scopes_of c = after_values normalize_scope (claim_values c)

-- `_claim_principal_type`; `none` where it raises
unfoldable pub claim_principal_type : Claim → Option PrincipalType
claim_principal_type (scalar s) =
    let normalized = lower (strip s) in
    if str_eq normalized "human"
    then some human
    else if str_eq normalized "service"
    then some service
    else none
claim_principal_type _ = none

-- `_normalize_subject`
abbrev pub subject_of : Claim → Option String
subject_of (scalar s) = if truthy (strip s) then some (strip s) else none
subject_of _ = none

-- The names of the claims in the settings.
pub record ClaimNames : Type 0 where
  pub principal_type : String
  pub role : String
  pub organization : String
  pub service_scope : String

-- `roles` is read from the token of a human only.
abbrev pub role_claim : PrincipalType → Claim → Claim
role_claim human c = c
role_claim service c = absent

abbrev pub build :
    PrincipalType
    → Option String
    → (organizations roles scopes permissions : Option (List String)) → Option Principal
build kind (some subject) (some organizations) (some roles) (some scopes) (some permissions) =
    some (record {
      subject = subject;
      principal_type = kind;
      organization_ids = organizations;
      roles = roles;
      scopes = scopes;
      permissions = permissions;
    })
build kind _ _ _ _ _ = none

abbrev pub principal_of : ClaimNames → Claims → Option PrincipalType → Option Principal
principal_of names claims none = none
principal_of names claims (some kind) =
    build kind (subject_of (claim "sub" claims)) (claim_values (claim names.organization claims))
      (roles_of (role_claim kind (claim names.role claims)))
      (scopes_of (claim names.service_scope claims)) (scopes_of (claim "permissions" claims))

-- `none` where `principal_from_claims` raises, which is always `invalid_token`.
unfoldable pub principal_from_claims : ClaimNames → Claims → Option Principal
unfolding claim_values claim_principal_type
principal_from_claims names claims =
    principal_of names claims (claim_principal_type (claim names.principal_type claims))

split_sample : split " sbom:read  case:read " ≡ "sbom:read" ∷ "case:read" ∷ []
unfolding split words_from
split_sample = refl
