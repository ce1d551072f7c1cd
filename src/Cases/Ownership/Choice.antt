-- ===== src/Cases/Ownership/Choice.antt =====
-- What the choice of an owner guarantees (src/vulnops/cases/ownership.py and `create_case` of
-- src/vulnops/cases/service.py).
use vulnops_hub.Prelude.{
  String, Bool, true, false, ◌&&◌, Option, none, some, List, [], ◌∷◌, find, all, ◌≡◌, refl, arith,
  Option-cases, truthy, inl, inr, ◌↔◌, strip, if-holds,
}
use vulnops_hub.Db.{Database, Asset, BusinessService}
use vulnops_hub.Session.{ok, err, value_error, conflicting_owners}
use vulnops_hub.Cases.Ownership.{
  OwnerSource, asset, service, default, explicit, is_default, ResolvedOwner, in_organization,
  service_in, resolve_case_owner, resolve_asset, resolve_service, text_or_empty, default_owner_team,
  conflicting, choose_owner, same_key, least, bool_eq,
}

-- What the source of an owner says: an asset's or a service's owner is the text of a row of the
-- same organization, without its outer spaces, and is not empty; the default is the configured team.
abbrev pub OwnerAgrees : Database → String → String → ResolvedOwner → OwnerSource → Type 0
OwnerAgrees db org team o asset =
    (id : String) × (a : Asset) × (find (in_organization org id) db.assets ≡ some a)
    × (o.owner_team ≡ strip (text_or_empty a.owner))
    × (truthy o.owner_team ≡ true)
OwnerAgrees db org team o service =
    (id : String) × (b : BusinessService) × (find (service_in org id) db.services ≡ some b)
    × (o.owner_team ≡ strip b.owner_team)
    × (truthy o.owner_team ≡ true)
OwnerAgrees db org team o default = o.owner_team ≡ team
OwnerAgrees db org team o explicit = true ≡ false

abbrev Agrees : Database → String → String → ResolvedOwner → Type 0
Agrees db org team o = OwnerAgrees db org team o o.source

strip_empty : truthy (strip "") ≡ false
unfolding strip
strip_empty = refl

no_owner : (b : Bool) → (b && truthy (strip "")) ≡ true → true ≡ false
no_owner b h = ground (arith, h, strip_empty)

impossible : {A : Type 0} → true ≡ false → A
impossible h = cc

resolve_service-Agrees :
    (db : Database) (org team : String) (id : Option String)
    → Agrees db org team (resolve_service db org team id)
unfolding resolve_service
resolve_service-Agrees db org team none = refl
resolve_service-Agrees db org team (some id) =
    elim (Option-cases (find (service_in org id) db.services)) [
      | inl absent ↦ rw absent (
          if-holds (Agrees db org team) (truthy id && truthy (strip ""))
            (λ h. impossible (no_owner (truthy id) h)) (λ _. refl))
      | inr (b, found) ↦ rw found (
          if-holds (Agrees db org team) (truthy id && truthy (strip b.owner_team))
            (λ h. (id, b, found, refl, ground (arith, h))) (λ _. refl))
    ]

resolve_asset-Agrees :
    (db : Database) (org team id : String) (row : Option Asset)
    → find (in_organization org id) db.assets ≡ row
    → Agrees db org team (resolve_asset db org team row)
unfolding resolve_asset
resolve_asset-Agrees db org team id none h = refl
resolve_asset-Agrees db org team id (some a) h =
    if-holds (Agrees db org team) (truthy (strip (text_or_empty a.owner)))
      (λ owned. (id, a, h, refl, owned))
      λ _. resolve_service-Agrees db org team a.business_service_id

-- A resolved owner agrees with its source: an asset's or a service's owner is the text of a row
-- of the same organization and is not empty, the default is the default team, and no owner is
-- explicit.
pub resolve_case_owner-Agrees :
    (db : Database) (org : String) (id argument configured : Option String)
    → Agrees db org
        (default_owner_team argument configured)
        (resolve_case_owner db org id argument configured)
unfolding resolve_case_owner
resolve_case_owner-Agrees db org none argument configured = refl
resolve_case_owner-Agrees db org (some id) argument configured =
    let team = default_owner_team argument configured in
    if-holds (Agrees db org team) (truthy id)
      (λ _. resolve_asset-Agrees db org team id (find (in_organization org id) db.assets) refl)
      λ _. refl

least-source :
    (d : Bool) (o : ResolvedOwner) (os : List ResolvedOwner)
    → is_default o.source ≡ d
    → all (λ x. bool_eq d (is_default x.source)) os ≡ true
    → is_default (least o os).source ≡ d
unfolding least
least-source d o [] h hs = h
least-source d o (a ∷ os) h hs =
    let keep = least-source d o os h in
    let swap = least-source d a os in ground (arith, h, hs, keep, swap)

all_same_source :
    (o : ResolvedOwner) (os : List ResolvedOwner)
    → all (same_key o) os ≡ true
    → all (λ x. bool_eq (is_default o.source) (is_default x.source)) os ≡ true
all_same_source o [] h = refl
all_same_source o (a ∷ os) h = ground (arith, h, all_same_source o os)

-- The choice of an owner raises exactly where the owners of the assets conflict, whoever is
-- requested.
pub choose_owner-conflict :
    (team : String) (requested : Option String) (owners : List ResolvedOwner)
    → (choose_owner team requested owners ≡ err (value_error conflicting_owners))
      ↔ (conflicting owners ≡ true)
unfolding choose_owner
choose_owner-conflict team requested owners = ground arith

-- Where the choice falls on the default, every asset's owner is a default, and the team is the
-- default team in its own spelling.
pub choose_owner-default :
    (team : String) (requested : Option String) (owners : List ResolvedOwner) (o : ResolvedOwner)
    → choose_owner team requested owners ≡ ok o
    → is_default o.source ≡ true
    → (all (λ x. is_default x.source) owners ≡ true) × (o.owner_team ≡ team)
unfolding choose_owner conflicting
choose_owner-default team requested [] o h d = ground (arith, h, d)
choose_owner-default team requested (a ∷ owners) o h d =
    let same = all_same_source a owners in
    let source = least-source (is_default a.source) a owners refl in
    ground (arith, h, d, same, source)
