-- ===== src/Auth/Grants.antt =====
-- What roles and scopes grant (src/vulnops/auth/models.py).
use vulnops_hub.Prelude.{
  String, Bool, true, false, ◌&&◌, ◌||◌, Option, none, some, List, [], ◌∷◌, ◌++◌, all, if-holds,
  eq_iff, mem_text, str_eq, Bool-cases, ◌≡◌, refl, sym, ap, ◌∙◌, inl, inr, arith, some-injective,
}
use vulnops_hub.Auth.Principals.{
  PrincipalType, human, service, Principal, is_service, role_capabilities, capabilities_of_roles,
  viewer_capabilities, owner_capabilities, risk_approver_capabilities, reads_cases, approves,
  human_capabilities, admin_capabilities, admin_reads, service_scope_capabilities, when,
  capabilities, normalize_scope, holds, holds_normalized, has_capability,
}
use vulnops_hub.Auth.Claims.{
  Claims, ClaimNames, claim, claim_principal_type, claim_values, build, principal_of,
  principal_from_claims,
}

-- A service may do what it has a scope for, and only of the four capabilities of services.
holds_service :
    (p : Principal) (capability : String)
    → is_service p ≡ true
    → holds p capability ≡ true
    → (mem_text capability service_scope_capabilities ≡ true)
      × (mem_text capability p.scopes ≡ true)
unfolding holds
holds_service p capability kind h = ground (arith, h, kind)

mem_append :
    (c : String) (xs ys : List String) → mem_text c (xs ++ ys) ≡ (mem_text c xs || mem_text c ys)
mem_append c [] ys = refl
mem_append c (x ∷ xs) ys = ground (arith, mem_append c xs ys)

-- A text of the first list is one of the second.
abbrev is_within : List String → List String → Bool
is_within xs ys = all (λ x. mem_text x ys) xs

within_mem :
    (c : String) (xs ys : List String)
    → is_within xs ys ≡ true
    → mem_text c xs ≡ true
    → mem_text c ys ≡ true
within_mem c [] ys h m = ground (arith, m)
within_mem c (x ∷ xs) ys h m = elim (Bool-cases (str_eq c x)) [
  | inl same ↦ ap (λ z. mem_text z ys) ((eq_iff c x).0 same) ∙ ground (arith, h)
  | inr differs ↦ within_mem c xs ys (ground (arith, h)) (ground (arith, m, differs))
]

-- All that an administrator may do.
abbrev everything : List String
everything = admin_capabilities ++ admin_reads

role_within : (role : String) → is_within (role_capabilities role) everything ≡ true
unfolding role_capabilities
role_within role =
    if-holds Within (str_eq role "viewer") (λ _. refl)
      (λ _.
        if-holds Within (str_eq role "owner") (λ _. refl)
          (λ _.
            if-holds Within (str_eq role "auditor") (λ _. refl)
              (λ _.
                if-holds Within (str_eq role "risk_approver") (λ _. refl)
                  (λ _. if-holds Within (str_eq role "admin") (λ _. refl) (λ _. refl)))))
  where
    Within : List String → Type 0
    Within xs = is_within xs everything ≡ true

roles_within :
    (c : String) (roles : List String)
    → mem_text c (capabilities_of_roles roles) ≡ true
    → mem_text c everything ≡ true
roles_within c [] m = ground (arith, m)
roles_within c (role ∷ roles) m = elim (Bool-cases (mem_text c (role_capabilities role))) [
  | inl here ↦ within_mem c (role_capabilities role) everything (role_within role) here
  | inr elsewhere ↦ roles_within c roles (
      ground
        (arith, m, elsewhere, mem_append c (role_capabilities role) (capabilities_of_roles roles)))
]

admin_within :
    (c : String) (roles : List String)
    → mem_text "admin" roles ≡ true
    → mem_text c admin_capabilities ≡ true
    → mem_text c (capabilities_of_roles roles) ≡ true
unfolding role_capabilities
admin_within c [] listed m = ground (arith, listed)
admin_within c (role ∷ roles) listed m = elim (Bool-cases (str_eq "admin" role)) [
  | inl same ↦
      mem_append c (role_capabilities role) (capabilities_of_roles roles)
      ∙ ap (λ b. b || mem_text c (capabilities_of_roles roles))
          (ap (λ r. mem_text c (role_capabilities r)) (sym ((eq_iff "admin" role).0 same)) ∙ m)
  | inr differs ↦
      mem_append c (role_capabilities role) (capabilities_of_roles roles)
      ∙ ground (arith, admin_within c roles (ground (arith, listed, differs)) m)
]

when_mem :
    (c : String) (b : Bool) (xs : List String) → mem_text c (when b xs) ≡ (b && mem_text c xs)
when_mem c true xs = refl
when_mem c false xs = refl

append_within :
    (c : String) (xs ys zs : List String)
    → (mem_text c xs ≡ true → mem_text c zs ≡ true)
    → (mem_text c ys ≡ true → mem_text c zs ≡ true)
    → mem_text c (xs ++ ys) ≡ true
    → mem_text c zs ≡ true
append_within c xs ys zs hx hy m = elim (Bool-cases (mem_text c xs)) [
  | inl here ↦ hx here
  | inr elsewhere ↦ hy (ground (arith, m, elsewhere, mem_append c xs ys))
]

when_within :
    (c : String) (b : Bool) (xs : List String)
    → is_within xs everything ≡ true
    → mem_text c (when b xs) ≡ true
    → mem_text c everything ≡ true
when_within c false xs h m = ground (arith, m)
when_within c true xs h m = within_mem c xs everything h m

human_within :
    (c : String) (roles : List String)
    → mem_text c (human_capabilities roles) ≡ true
    → mem_text c everything ≡ true
human_within c roles =
    append_within c _ _ everything
      (append_within c _ _ everything
        (append_within c _ _ everything
          (append_within c _ _ everything (roles_within c roles)
            (when_within c (reads_cases roles) viewer_capabilities refl))
          (when_within c (approves roles) risk_approver_capabilities refl))
        (when_within c (mem_text "security_lead" roles) (owner_capabilities ++ viewer_capabilities)
          refl))
      (when_within c (mem_text "admin" roles) admin_reads refl)

mem_left : (c : String) (xs ys : List String) → mem_text c xs ≡ true → mem_text c (xs ++ ys) ≡ true
mem_left c xs ys m = mem_append c xs ys ∙ ground (arith, m)

mem_right : (c : String) (xs ys : List String) → mem_text c ys ≡ true → mem_text c (xs ++ ys) ≡ true
mem_right c xs ys m = mem_append c xs ys ∙ ground (arith, m)

admin_has :
    (c : String) (roles : List String)
    → mem_text "admin" roles ≡ true
    → mem_text c everything ≡ true
    → mem_text c (human_capabilities roles) ≡ true
admin_has c roles listed m = elim (Bool-cases (mem_text c admin_capabilities)) [
  | inl own ↦ mem_left c _ (when (mem_text "admin" roles) admin_reads) (
      mem_left c _
        (when (mem_text "security_lead" roles) (owner_capabilities ++ viewer_capabilities))
        (mem_left c _ (when (approves roles) risk_approver_capabilities) (
          mem_left c (capabilities_of_roles roles) (when (reads_cases roles) viewer_capabilities)
            (admin_within c roles listed own))))
  | inr other ↦ mem_right c _ (when (mem_text "admin" roles) admin_reads) (
      when_mem c (mem_text "admin" roles) admin_reads
      ∙ ground (arith, m, other, listed, mem_append c admin_capabilities admin_reads))
]

holds_human :
    (p : Principal) (c : String)
    → is_service p ≡ false
    → holds p c ≡ (mem_text c (human_capabilities p.roles) || mem_text c p.permissions)
unfolding holds capabilities
holds_human p c kind = rw kind refl

holds_admin :
    (p : Principal) (roles : List String) (c : String)
    → is_service p ≡ false
    → mem_text "admin" roles ≡ true
    → holds p c ≡ true
    → holds (record p { roles = roles }) c ≡ true
holds_admin p roles c kind listed h =
    holds_human (record p { roles = roles }) c kind
    ∙ (elim (Bool-cases (mem_text c (human_capabilities p.roles))) [
      | inl granted ↦
          ap (λ b. b || mem_text c p.permissions)
            (admin_has c roles listed (human_within c p.roles granted))
      | inr refused ↦ ground (arith, h, refused, holds_human p c kind)
    ])

normalized_admin :
    (p : Principal) (roles : List String) (c : Option String)
    → is_service p ≡ false
    → mem_text "admin" roles ≡ true
    → holds_normalized p c ≡ true
    → holds_normalized (record p { roles = roles }) c ≡ true
normalized_admin p roles none kind listed h = h
normalized_admin p roles (some c) kind listed h = holds_admin p roles c kind listed h

-- Whatever a human may do with some roles, they may do with any roles among which is that of an
-- administrator, all else being equal.
pub has_capability_admin :
    (p : Principal) (roles : List String) (capability : String)
    → is_service p ≡ false
    → mem_text "admin" roles ≡ true
    → has_capability p capability ≡ true
    → has_capability (record p { roles = roles }) capability ≡ true
unfolding has_capability
has_capability_admin p roles capability = normalized_admin p roles (normalize_scope capability)

-- What holds of a service that may do something: its token gave it no role, and the capability is
-- one of the four for services and one of its scopes.
pub record Scoped (p : Principal) (capability : String) : Type 0 where
  pub no_roles : p.roles ≡ []
  pub name : String
  pub named : normalize_scope capability ≡ some name
  pub listed : mem_text name service_scope_capabilities ≡ true
  pub scoped : mem_text name p.scopes ≡ true

build_ok :
    (kind : PrincipalType) (subject : Option String)
    (organizations roles scopes permissions : Option (List String)) (p : Principal)
    → build kind subject organizations roles scopes permissions ≡ some p
    → (p.principal_type ≡ kind) × (roles ≡ some p.roles)
build_ok kind (some a) (some b) (some c) (some d) (some e) p h =
    (ap (λ q. q.principal_type) (sym (some-injective h)), ap (λ q. some q.roles) (some-injective h))
build_ok kind none b c d e p h = cc
build_ok kind (some a) none c d e p h = cc
build_ok kind (some a) (some b) none d e p h = cc
build_ok kind (some a) (some b) (some c) none e p h = cc
build_ok kind (some a) (some b) (some c) (some d) none p h = cc

service_roles :
    (names : ClaimNames) (claims : Claims) (kind : Option PrincipalType) (p : Principal)
    → is_service p ≡ true
    → principal_of names claims kind ≡ some p
    → p.roles ≡ []
unfolding claim_values
service_roles names claims none p served h = cc
service_roles names claims (some human) p served h =
    let (kind, _) = build_ok human _ _ _ _ _ p h in ground (arith, kind, served)
service_roles names claims (some service) p served h =
    let (_, roles) = build_ok service _ _ _ _ _ p h in some-injective (sym roles)

service-Scoped :
    (p : Principal) (capability : String) (name : Option String)
    → normalize_scope capability ≡ name
    → is_service p ≡ true
    → p.roles ≡ []
    → holds_normalized p name ≡ true
    → Scoped p capability
service-Scoped p capability none e served bare h = cc
service-Scoped p capability (some name) e served bare h =
    let (listed, scoped) = holds_service p name served h in
    record { no_roles = bare; name = name; named = e; listed = listed; scoped = scoped }

-- Of a service whose principal comes from the claims of a token and that has a capability: it has
-- no role, whatever the token says, and the normalized name of the capability is one of the four
-- of services and one of its scopes.
pub has_capability-Scoped :
    (names : ClaimNames) (claims : Claims) (p : Principal) (capability : String)
    → principal_from_claims names claims ≡ some p
    → is_service p ≡ true
    → has_capability p capability ≡ true
    → Scoped p capability
unfolding principal_from_claims has_capability
has_capability-Scoped names claims p capability read served h =
    service-Scoped p capability (normalize_scope capability) refl served
      (service_roles names claims (claim_principal_type (claim names.principal_type claims)) p
        served read)
      h
