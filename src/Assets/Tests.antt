-- ===== src/Assets/Tests.antt =====
-- Concrete aliases and hints (src/vulnops/assets/reconciliation.py).
use vulnops_hub.Prelude.{some, [], ◌∷◌, ◌≡◌, refl, List}
use vulnops_hub.Db.{Database, AssetAlias}
use vulnops_hub.Session.{Session, ok, run}
use vulnops_hub.Cases.Tests.Rows.{rows, start}
use vulnops_hub.Assets.Reconciliation.{
  resolved, alias_row, add_alias_row, add_alias, judge, reconcile_alias,
}
use vulnops_hub.Assets.Mapping.{Hint, map_each, map_hints}
use vulnops_hub.Assets.Lookup.{Aliases, add_alias-Aliases, Resolves, map_hints-Resolves}

abbrev new_alias : AssetAlias
new_alias = alias_row "alias_01234567" "asset_a" "hostname" "web-1" "org"

abbrev aliased : Database
aliased = record rows { aliases = new_alias ∷ [] }

abbrev after : Session
after = record start { committed = aliased; working = aliased; draws = 1 }

added : add_alias "asset_a" "hostname" "web-1" "org" start ≡ (ok new_alias, after)
unfolding add_alias add_alias_row run
added = refl

add_alias-Aliases_example : Aliases "asset_a" "hostname" "web-1" "org" start after
add_alias-Aliases_example =
    add_alias-Aliases "asset_a" "hostname" "web-1" "org" start after new_alias refl added

abbrev hints : List Hint
hints =
    record { namespace = some "ip"; value = some "10.0.0.1" }
    ∷ record { namespace = some "hostname"; value = some "web-1" }
    ∷ []

hints_status : (map_hints aliased hints "org").status ≡ resolved
unfolding map_hints map_each reconcile_alias judge
hints_status = refl

hints_asset : (map_hints aliased hints "org").asset_id ≡ some "asset_a"
unfolding map_hints map_each reconcile_alias judge
hints_asset = refl

map_hints-Resolves_example : Resolves aliased "org" hints "asset_a"
map_hints-Resolves_example =
    map_hints-Resolves aliased "org" hints "asset_a" hints_status hints_asset
