-- ===== src/Assets/Reconciliation.antt =====
-- `AssetService` (src/vulnops/assets/reconciliation.py). An asset has the columns that the resolution
-- of owners reads. The identifiers of assets are not empty.
use vulnops_hub.Prelude.{
  String, Bool, true, ◌&&◌, Option, none, some, List, [], ◌∷◌, ◌++◌, map, select, mem_text, str_eq,
  truthy, concat, sorted_set, if◌then◌else◌,
}
use vulnops_hub.Db.{Database, Asset, AssetAlias}
use vulnops_hub.Session.{Action, pure, modify, generated_id, commit, ◌>>=◌, ◌>>◌}

-- `candidate` is a status that no call gives.
pub data MappingStatus : Type 0 where
  resolved ambiguous not_found candidate : MappingStatus

pub record ReconciliationResult : Type 0 where
  pub status : MappingStatus
  pub asset_id : Option String
  pub reason : String

-- `if organization_id`, and the filter
abbrev pub in_scope : Option String → AssetAlias → Bool
in_scope none a = true
in_scope (some org) a = if truthy org then str_eq a.organization_id org else true

abbrev pub is_alias : String → String → Option String → AssetAlias → Bool
is_alias namespace value org a =
    str_eq a.namespace namespace && str_eq a.value value && in_scope org a

-- `", ".join(texts)`
unfoldable pub join : List String → String
join [] = ""
join (s ∷ []) = s
join (s ∷ t ∷ rest) = concat s (concat ", " (join (t ∷ rest)))

abbrev pair_text : String → String → String
pair_text namespace value = concat namespace (concat "=" value)

abbrev unmatched : String → String → ReconciliationResult
unmatched namespace value = record {
  status = not_found;
  asset_id = none;
  reason =
      if mem_text namespace ("ip" ∷ "hostname" ∷ "dns" ∷ [])
      then concat "no asset found for " (pair_text namespace value)
      else "no alias match";
}

abbrev collision : String → String → List AssetAlias → ReconciliationResult
collision namespace value rows = record {
  status = ambiguous;
  asset_id = none;
  reason = concat "ambiguous collision for " (
      concat (pair_text namespace value)
        (concat " across assets [" (concat (join (sorted_set (map (λ a. a.asset_id) rows))) "]")));
}

-- The three branches, by the aliases that the query gives.
unfoldable pub judge : String → String → List AssetAlias → ReconciliationResult
unfolding join
judge namespace value [] = unmatched namespace value
judge namespace value (a ∷ []) = record {
  status = resolved;
  asset_id = some a.asset_id;
  reason = concat "single match for " (pair_text namespace value);
}
judge namespace value (a ∷ b ∷ rest) = collision namespace value (a ∷ b ∷ rest)

unfoldable pub reconcile_alias : Database → String → String → Option String → ReconciliationResult
unfolding judge
reconcile_alias db namespace value org =
    judge namespace value (select (is_alias namespace value org) db.aliases)

unfoldable pub add_asset : Asset → Database → Database
add_asset row db = record db { assets = db.assets ++ row ∷ [] }

unfoldable pub add_alias_row : AssetAlias → Database → Database
add_alias_row row db = record db { aliases = db.aliases ++ row ∷ [] }

-- `id or f"ast_{...}"`
abbrev asset_id_or_new : Option String → Action String
asset_id_or_new none = generated_id "ast_" 8
asset_id_or_new (some id) = if truthy id then pure id else generated_id "ast_" 8

unfoldable pub create_asset : Option String → String → Option String → Option String → Action Asset
unfolding add_asset
create_asset id organization_id owner business_service_id = do
  new_id ← asset_id_or_new id
  modify (
      add_asset (record {
        id = new_id;
        organization_id = organization_id;
        owner = owner;
        business_service_id = business_service_id;
      }))
  commit
  pure (record {
    id = new_id;
    organization_id = organization_id;
    owner = owner;
    business_service_id = business_service_id;
  })

abbrev pub alias_row : String → String → String → String → String → AssetAlias
alias_row id asset_id namespace value organization_id = record {
  id = id;
  asset_id = asset_id;
  namespace = namespace;
  value = value;
  organization_id = organization_id;
}

unfoldable pub add_alias : (asset_id namespace value organization_id : String) → Action AssetAlias
unfolding add_alias_row
add_alias asset_id namespace value organization_id = do
  id ← generated_id "alias_" 8
  modify (add_alias_row (alias_row id asset_id namespace value organization_id))
  commit
  pure (alias_row id asset_id namespace value organization_id)
