-- ===== src/Cases/Ownership.antt =====
-- Who owns a case (src/vulnops/cases/ownership.py, and the choice of an owner in
-- `CaseService.create_case` of src/vulnops/cases/service.py). `casefold` is the lower case of ASCII.
pub mod Choice
pub mod Source
use vulnops_hub.Prelude.{
  ℕ, String, Bool, true, false, not, ◌&&◌, ◌||◌, Option, none, some, List, [], ◌∷◌, ◌++◌, find, all,
  select, map, mem_text, str_eq, str_lt, strip, lower, truthy, sorted_set, if◌then◌else◌,
}
use vulnops_hub.Db.{Database, Asset, BusinessService, Exposure}
use vulnops_hub.Session.{Result, ok, err, value_error, conflicting_owners}

pub data OwnerSource : Type 0 where
  asset service default explicit : OwnerSource

abbrev source_text : OwnerSource → String
source_text asset = "asset"
source_text service = "service"
source_text default = "default"
source_text explicit = "explicit"

abbrev pub is_default : OwnerSource → Bool
is_default default = true
is_default _ = false

pub record ResolvedOwner : Type 0 where
  pub owner_team : String
  pub source : OwnerSource

-- `(s or "")`
abbrev pub text_or_empty : Option String → String
text_or_empty none = ""
text_or_empty (some s) = s

-- `(s or "unassigned").strip() or "unassigned"`
unfoldable pub default_team : Option String → String
default_team none = "unassigned"
default_team (some s) = let team = strip s in if truthy s && truthy team then team else "unassigned"

-- `_default_owner_team`: the argument, the settings, and what is left
unfoldable pub default_owner_team : Option String → Option String → String
default_owner_team argument configured =
    if truthy (text_or_empty argument) then default_team argument else default_team configured

abbrev fallback : String → ResolvedOwner
fallback team = record { owner_team = team; source = default }

abbrev pub in_organization : String → String → Asset → Bool
in_organization org id a = str_eq a.id id && str_eq a.organization_id org

abbrev pub service_in : String → String → BusinessService → Bool
service_in org id b = str_eq b.id id && str_eq b.organization_id org

abbrev service_owner : Option BusinessService → String
service_owner none = strip ""
service_owner (some b) = strip b.owner_team

unfoldable pub resolve_service : Database → String → String → Option String → ResolvedOwner
resolve_service db org team none = fallback team
resolve_service db org team (some id) =
    let owner = service_owner (find (service_in org id) db.services) in
    if truthy id && truthy owner
    then record { owner_team = owner; source = service }
    else fallback team

unfoldable pub resolve_asset : Database → String → String → Option Asset → ResolvedOwner
resolve_asset db org team none = fallback team
resolve_asset db org team (some a) =
    let owner = strip (text_or_empty a.owner) in
    if truthy owner
    then record { owner_team = owner; source = asset }
    else resolve_service db org team a.business_service_id

unfoldable pub resolve_case_owner :
    Database
    → (org : String) → (asset_id : Option String) → (argument configured : Option String)
    → ResolvedOwner
resolve_case_owner db org none argument configured =
    fallback (default_owner_team argument configured)
resolve_case_owner db org (some id) argument configured =
    let team = default_owner_team argument configured in
    if truthy id
    then resolve_asset db org team (find (in_organization org id) db.assets)
    else fallback team

abbrev pub resolve_case_owner_team :
    Database → String → Option String → Option String → Option String → String
resolve_case_owner_team db org id argument configured =
    (resolve_case_owner db org id argument configured).owner_team

-- The assets that the exposures of the case name, each once and in order.
abbrev pub is_linked : String → List String → Exposure → Bool
is_linked org ids e = str_eq e.organization_id org && mem_text e.id ids

unfoldable pub linked_assets : Database → String → Option String → List String → List String
linked_assets db org asset_id exposures = sorted_set (
    strip (text_or_empty asset_id)
    ∷ map (λ e. text_or_empty e.asset_id) (select (is_linked org exposures) db.exposures))

-- Whether two owners give the same key of the set `owner_keys`.
abbrev pub bool_eq : Bool → Bool → Bool
bool_eq true b = b
bool_eq false b = not b

abbrev pub same_key : ResolvedOwner → ResolvedOwner → Bool
same_key a b =
    str_eq (lower a.owner_team) (lower b.owner_team)
    && bool_eq (is_default a.source) (is_default b.source)

-- `len(owner_keys) > 1`
unfoldable pub conflicting : List ResolvedOwner → Bool
conflicting [] = false
conflicting (o ∷ os) = not (all (same_key o) os)

-- The order of the key of `min`.
abbrev pub precedes : ResolvedOwner → ResolvedOwner → Bool
precedes a b =
    str_lt (lower a.owner_team) (lower b.owner_team)
    || (str_eq (lower a.owner_team) (lower b.owner_team)
        && (str_lt a.owner_team b.owner_team
            || (str_eq a.owner_team b.owner_team
                && str_lt (source_text a.source) (source_text b.source))))

unfoldable pub least : ResolvedOwner → List ResolvedOwner → ResolvedOwner
least o [] = o
least o (a ∷ os) = let rest = if precedes a o then a else o in least rest os

-- `if resolved_owner.source == "default"`: the default team in its own spelling
abbrev pub respelled : String → ResolvedOwner → ResolvedOwner
respelled team o = if is_default o.source then fallback team else o

abbrev pub choose_default : String → List ResolvedOwner → ResolvedOwner
choose_default team [] = fallback team
choose_default team (o ∷ os) = respelled team (least o os)

-- The owner of a new case: what the caller requests, unless it is empty or the default, once the
-- owners of the assets agree.
unfoldable pub choose_owner : String → Option String → List ResolvedOwner → Result ResolvedOwner
unfolding conflicting least
choose_owner team requested owners =
    let owner = strip (text_or_empty requested) in
    if conflicting owners
    then err (value_error conflicting_owners)
    else if not (truthy owner) || str_eq (lower owner) (lower team)
    then ok (choose_default team owners)
    else ok (record { owner_team = owner; source = explicit })
