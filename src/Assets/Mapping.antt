-- ===== src/Assets/Mapping.antt =====
-- `AssetMapper` (src/vulnops/integrations/mapping.py). A hint is a dict with two keys that are read.
use vulnops_hub.Prelude.{
  String, Bool, false, not, ◌&&◌, Option, none, some, List, [], ◌∷◌, ◌++◌, any, str_eq, strip,
  lower, truthy, if◌then◌else◌,
}
use vulnops_hub.Db.{Database}
use vulnops_hub.Assets.Reconciliation.{
  resolved, ambiguous, not_found, candidate, ReconciliationResult, reconcile_alias,
}

pub record Hint : Type 0 where
  pub namespace : Option String
  pub value : Option String

abbrev given : Option String → Bool
given none = false
given (some s) = truthy s

abbrev pub text_or_empty : Option String → String
text_or_empty none = ""
text_or_empty (some s) = s

-- `not ns or not val`
abbrev pub is_usable : Hint → Bool
is_usable h = given h.namespace && given h.value

abbrev pub reconcile_hint : Database → String → Hint → ReconciliationResult
reconcile_hint db org h =
    reconcile_alias db (text_or_empty h.namespace) (text_or_empty h.value) (some org)

abbrev nothing : String → ReconciliationResult
nothing reason = record { status = not_found; asset_id = none; reason = reason }

-- What the loop does with the result of a hint, before the hints after it.
abbrev pub decide : ReconciliationResult → ReconciliationResult → ReconciliationResult
decide r rest = elim r.status [
  | ambiguous ↦ record { status = ambiguous; asset_id = none; reason = r.reason }
  | resolved ↦ record { status = resolved; asset_id = r.asset_id; reason = r.reason }
  | not_found ↦ rest
  | candidate ↦ rest
]

unfoldable pub map_each : Database → String → List Hint → ReconciliationResult
map_each db org [] = nothing "no resolvable alias"
map_each db org (h ∷ hints) =
    let rest = map_each db org hints in
    if not (is_usable h) then rest else decide (reconcile_hint db org h) rest

unfoldable pub map_hints : Database → List Hint → String → ReconciliationResult
unfolding map_each
map_hints db [] org = nothing "no hints"
map_hints db (h ∷ hints) org = map_each db org (h ∷ hints)

-- A member of `finding_meta` that is a dict: its name and its value, where they are texts.
pub record MetaItem : Type 0 where
  pub name : Option String
  pub value : Option String

abbrev pub lookup : String → List (String × String) → Option String
lookup key [] = none
lookup key ((k, v) ∷ rest) = if str_eq k key then some v else lookup key rest

-- `values[key] = value`
abbrev assign : String → String → List (String × String) → List (String × String)
assign key value [] = (key, value) ∷ []
assign key value ((k, v) ∷ rest) =
    if str_eq k key then (k, value) ∷ rest else (k, v) ∷ assign key value rest

abbrev read_item : Option MetaItem → List (String × String) → List (String × String)
read_item none values = values
read_item (some item) values = elim item.name [
  | none ↦ values
  | some name ↦ elim item.value [
    | none ↦ values
    | some value ↦
        if truthy (strip value) then assign (lower (strip name)) (strip value) values else values
  ]
]

abbrev read_items : List (Option MetaItem) → List (String × String) → List (String × String)
read_items [] values = values
read_items (item ∷ items) values = read_items items (read_item item values)

-- `_metadata_map`, for a list; a value that is no list reads as an empty one
unfoldable pub metadata_map : List (Option MetaItem) → List (String × String)
metadata_map items = read_items items []

-- A finding of DefectDojo and an event of Wazuh, by the keys that are read.
pub record Finding : Type 0 where
  pub asset_hints : List Hint
  pub finding_meta : List (Option MetaItem)
  pub host : Option String
  pub service : Option String

pub record WazuhEvent : Type 0 where
  pub asset_hints : List Hint
  pub agent_id : Option String
  pub agent_name : Option String

-- `a or b`
abbrev or_else : Option String → Option String → Option String
or_else a b = if given a then a else b

abbrev has_value : String → Hint → Bool
has_value v h = elim h.value [ none ↦ false | some w ↦ str_eq w v ]

abbrev hint : String → String → Hint
hint namespace value = record { namespace = some namespace; value = some value }

-- `if host and not any(...)`
abbrev add_new : String → Option String → List Hint → List Hint
add_new namespace none hints = hints
add_new namespace (some v) hints =
    if truthy v && not (any (has_value v) hints) then hints ++ hint namespace v ∷ [] else hints

unfoldable pub map_defectdojo : Database → Finding → String → ReconciliationResult
unfolding map_hints metadata_map
map_defectdojo db f org =
    let metadata = metadata_map f.finding_meta in
    let host = or_else f.host (or_else (lookup "host" metadata) (lookup "hostname" metadata)) in
    let service = or_else f.service (lookup "service" metadata) in
    map_hints db (add_new "service" service (add_new "hostname" host f.asset_hints)) org

-- `if agent.get(key)`
abbrev add_given : String → Option String → List Hint → List Hint
add_given namespace none hints = hints
add_given namespace (some v) hints = if truthy v then hints ++ hint namespace v ∷ [] else hints

unfoldable pub map_wazuh : Database → WazuhEvent → String → ReconciliationResult
unfolding map_hints
map_wazuh db e org =
    map_hints db (add_given "hostname" e.agent_name (add_given "wazuh" e.agent_id e.asset_hints))
      org
