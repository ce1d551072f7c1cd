-- ===== src/Auth/Principals.antt =====
-- Principals and what they may do (src/vulnops/auth/models.py). A set of texts is a list. The lower
-- case of a text is that of ASCII.
use Prim.Native.Char.{code}
use vulnops_hub.Prelude.{
  String, Bool, true, false, ◌&&◌, ◌||◌, Option, none, some, List, [], ◌∷◌, ◌++◌, mem_text, str_eq,
  strip, lower, truthy, ◌==◌, if◌then◌else◌,
}

pub data PrincipalType : Type 0 where
  human service : PrincipalType

pub record Principal : Type 0 where
  pub subject : String
  pub principal_type : PrincipalType
  pub organization_ids : List String
  pub roles : List String
  pub scopes : List String
  pub permissions : List String

abbrev pub is_service : Principal → Bool
is_service p = elim p.principal_type [ human ↦ false | service ↦ true ]

-- `_ROLE_CAPABILITIES`, by its keys
abbrev pub viewer_capabilities : List String
viewer_capabilities = "case:read" ∷ "sbom:read" ∷ []

abbrev pub owner_capabilities : List String
owner_capabilities = "case:write" ∷ "risk:request" ∷ "verification:write" ∷ []

abbrev auditor_capabilities : List String
auditor_capabilities =
    "audit:read" ∷ "case:read" ∷ "provenance:read" ∷ "risk:read" ∷ "verification:read" ∷ []

abbrev pub risk_approver_capabilities : List String
risk_approver_capabilities = "risk:approve" ∷ []

abbrev pub admin_capabilities : List String
admin_capabilities =
    "asset:write" ∷ "case:write" ∷ "risk:approve" ∷ "risk:request" ∷ "sbom:write"
    ∷ "verification:write" ∷ []

-- `_ROLE_CAPABILITIES.get(role, frozenset())`
unfoldable pub role_capabilities : String → List String
role_capabilities role =
    if str_eq role "viewer"
    then viewer_capabilities
    else if str_eq role "owner"
    then owner_capabilities
    else if str_eq role "auditor"
    then auditor_capabilities
    else if str_eq role "risk_approver"
    then risk_approver_capabilities
    else if str_eq role "admin"
    then admin_capabilities
    else []

abbrev pub service_scope_capabilities : List String
service_scope_capabilities =
    "evidence:raw:read" ∷ "evidence:write" ∷ "sbom:read" ∷ "sbom:write" ∷ []

-- What `admin` adds to the reads of the other roles.
abbrev pub admin_reads : List String
admin_reads =
    "audit:read" ∷ "case:read" ∷ "provenance:read" ∷ "risk:read" ∷ "sbom:read" ∷ "verification:read"
    ∷ []

-- The loop over the roles.
abbrev pub capabilities_of_roles : List String → List String
capabilities_of_roles [] = []
capabilities_of_roles (role ∷ rest) = role_capabilities role ++ capabilities_of_roles rest

abbrev pub when : Bool → List String → List String
when b xs = if b then xs else []

-- The three tests of the roles that are cumulative.
abbrev pub reads_cases : List String → Bool
reads_cases roles =
    mem_text "owner" roles
    || mem_text "risk_approver" roles
    || mem_text "security_lead" roles
    || mem_text "admin" roles

abbrev pub approves : List String → Bool
approves roles =
    mem_text "risk_approver" roles || mem_text "security_lead" roles || mem_text "admin" roles

abbrev pub human_capabilities : List String → List String
human_capabilities roles =
    capabilities_of_roles roles
    ++ when (reads_cases roles) viewer_capabilities
    ++ when (approves roles) risk_approver_capabilities
    ++ when (mem_text "security_lead" roles) (owner_capabilities ++ viewer_capabilities)
    ++ when (mem_text "admin" roles) admin_reads

unfoldable pub capabilities : Principal → List String
unfolding role_capabilities
capabilities p = if is_service p then [] else human_capabilities p.roles

-- `normalize_scope`; `none` where it raises
unfoldable pub normalize_scope : String → Option String
normalize_scope s =
    let normalized = lower (strip s) in if truthy normalized then some normalized else none

-- `text.replace("-", "_")`
unfoldable pub underscored : String → String
underscored String.[] = String.[]
underscored (String.◌∷◌ c s) = String.◌∷◌ (if code c == b'-' then "_" else c) (underscored s)

-- `normalize_role`; `none` where it raises
unfoldable pub normalize_role : String → Option String
unfolding underscored
normalize_role s =
    let normalized = underscored (lower (strip s)) in
    if truthy normalized then some normalized else none

abbrev pub in_set : Option String → List String → Bool
in_set none xs = false
in_set (some s) xs = mem_text s xs

abbrev pub has_organization : Principal → String → Bool
has_organization p id = mem_text (strip id) p.organization_ids

unfoldable pub has_role : Principal → String → Bool
unfolding normalize_role
has_role p role = in_set (normalize_role role) p.roles

unfoldable pub has_scope : Principal → String → Bool
unfolding normalize_scope
has_scope p scope = in_set (normalize_scope scope) p.scopes

unfoldable pub has_permission : Principal → String → Bool
unfolding normalize_scope
has_permission p permission = in_set (normalize_scope permission) p.permissions

-- The rest of `has_capability`, for a normalized capability.
unfoldable pub holds : Principal → String → Bool
unfolding capabilities
holds p capability =
    if is_service p
    then mem_text capability service_scope_capabilities && mem_text capability p.scopes
    else mem_text capability (capabilities p) || mem_text capability p.permissions

abbrev pub holds_normalized : Principal → Option String → Bool
holds_normalized p none = false
holds_normalized p (some capability) = holds p capability

unfoldable pub has_capability : Principal → String → Bool
unfolding normalize_scope holds
has_capability p capability = holds_normalized p (normalize_scope capability)
