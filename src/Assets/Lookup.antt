-- ===== src/Assets/Lookup.antt =====
-- What the aliases of a database resolve to (src/vulnops/assets/reconciliation.py and
-- src/vulnops/integrations/mapping.py).
use vulnops_hub.Prelude.{
  String, Bool, true, false, not, ◌||◌, none, some, List, [], ◌∷◌, ◌++◌, select, is_empty, concat,
  first_chars, truthy, eq_iff, All, ◌≡◌, refl, ap, ◌∙◌, arith, if◌then◌else◌, some-injective,
}
use vulnops_hub.Db.{Database, AssetAlias}
use vulnops_hub.Session.{Session, ok, run}
use vulnops_hub.Assets.Reconciliation.{
  resolved, ambiguous, ReconciliationResult, is_alias, judge, reconcile_alias, alias_row,
  add_alias_row, add_alias,
}
use vulnops_hub.Assets.Mapping.{Hint, is_usable, text_or_empty, decide, map_each, map_hints}

-- The aliases of a name, within an organization.
abbrev pub aliases_of : Database → String → String → String → List AssetAlias
aliases_of db namespace value org = select (is_alias namespace value (some org)) db.aliases

select_last :
    {A : Type 0} (p : A → Bool) (xs : List A) (y : A)
    → p y ≡ true
    → select p (xs ++ y ∷ []) ≡ select p xs ++ y ∷ []
select_last p [] y h = ground (arith, h)
select_last p (x ∷ xs) y h = ground (arith, select_last p xs y h)

-- A new alias is committed; its name resolves to its asset where the name was free, and is ambiguous
-- where it was taken.
pub record Aliases (asset_id namespace value org : String) (s t : Session) : Type 0 where
  pub durable : t.committed ≡ t.working
  pub status :
      (reconcile_alias t.committed namespace value (some org)).status
      ≡ (if is_empty (aliases_of s.working namespace value org) then resolved else ambiguous)
  pub asset :
      (reconcile_alias t.committed namespace value (some org)).asset_id
      ≡ (if is_empty (aliases_of s.working namespace value org) then some asset_id else none)

judge_last :
    (namespace value : String) (rows : List AssetAlias) (y : AssetAlias)
    → ((judge namespace value (rows ++ y ∷ [])).status
        ≡ (if is_empty rows then resolved else ambiguous))
      × ((judge namespace value (rows ++ y ∷ [])).asset_id
          ≡ (if is_empty rows then some y.asset_id else none))
unfolding judge
judge_last namespace value [] y = (refl, refl)
judge_last namespace value (a ∷ []) y = (refl, refl)
judge_last namespace value (a ∷ b ∷ rest) y = (refl, refl)

-- The row of a call that returned stands at the end of the table, and is committed.
record Added (asset_id namespace value org : String) (s t : Session) : Type 0 where
  pub durable : t.committed ≡ t.working
  pub id : String
  pub rows : t.working.aliases ≡ s.working.aliases ++ alias_row id asset_id namespace value org ∷ []

add_alias-Added :
    (asset_id namespace value org : String) (s t : Session) (row : AssetAlias)
    → add_alias asset_id namespace value org s ≡ (ok row, t)
    → Added asset_id namespace value org s t
unfolding add_alias add_alias_row run
add_alias-Added asset_id namespace value org s t row h = record {
  durable = ground (arith, h);
  id = concat "alias_" (first_chars 8 (s.world.uuid s.draws));
  rows = ground (arith, h);
}

-- An alias that was added, for a named organization, is committed; its name then resolves to its
-- asset where no alias of the organization had that name, and is ambiguous and resolves to none
-- where one had it.
pub add_alias-Aliases :
    (asset_id namespace value org : String) (s t : Session) (row : AssetAlias)
    → truthy org ≡ true
    → add_alias asset_id namespace value org s ≡ (ok row, t)
    → Aliases asset_id namespace value org s t
unfolding reconcile_alias judge
add_alias-Aliases asset_id namespace value org s t row named h =
    let a = add_alias-Added asset_id namespace value org s t row h in
    let new = alias_row a.id asset_id namespace value org in
    let own : is_alias namespace value (some org) new ≡ true = ground (
      arith,
      named,
      (eq_iff namespace namespace).1 refl,
      (eq_iff value value).1 refl,
      (eq_iff org org).1 refl,
    ) in
    let rows : aliases_of t.committed namespace value org
        ≡ aliases_of s.working namespace value org ++ new ∷ [] =
      ap (λ db. aliases_of db namespace value org) a.durable
      ∙ ap (select (is_alias namespace value (some org))) a.rows
      ∙ select_last (is_alias namespace value (some org)) s.working.aliases new own in
    let (status, asset) =
      judge_last namespace value (aliases_of s.working namespace value org) new in
    record {
      durable = a.durable;
      status = ap (λ xs. (judge namespace value xs).status) rows ∙ status;
      asset = ap (λ xs. (judge namespace value xs).asset_id) rows ∙ asset;
    }

-- A hint that decides nothing.
abbrev is_silent : Database → String → Hint → Bool
is_silent db org h =
    not (is_usable h)
    || is_empty (aliases_of db (text_or_empty h.namespace) (text_or_empty h.value) org)

-- Why a mapping names an asset: the first hint that decides has one alias only, that of the asset.
pub record Resolves (db : Database) (org : String) (hints : List Hint) (asset_id : String)
    : Type 0 where
  pub earlier : List Hint
  pub hint : Hint
  pub later : List Hint
  pub split : hints ≡ earlier ++ hint ∷ later
  pub silent : All (λ h. is_silent db org h ≡ true) earlier
  pub alias : AssetAlias
  pub only :
      aliases_of db (text_or_empty hint.namespace) (text_or_empty hint.value) org ≡ alias ∷ []
  pub asset : alias.asset_id ≡ asset_id

judge_resolved :
    (namespace value : String) (rows : List AssetAlias)
    → (judge namespace value rows).status ≡ resolved
    → (a : AssetAlias) × (rows ≡ a ∷ []) × ((judge namespace value rows).asset_id ≡ some a.asset_id)
unfolding judge
judge_resolved namespace value [] h = ground (arith, h)
judge_resolved namespace value (a ∷ []) h = (a, refl, refl)
judge_resolved namespace value (a ∷ b ∷ rest) h = ground (arith, h)

or_true : (b : Bool) → (b || true) ≡ true
or_true b = ground arith

-- One round of the loop, for what the hint is good for and its aliases.
abbrev hint_result : Hint → Bool → List AssetAlias → ReconciliationResult → ReconciliationResult
hint_result h usable rows rest =
    if not usable
    then rest
    else decide (judge (text_or_empty h.namespace) (text_or_empty h.value) rows) rest

-- A hint that decides nothing may stand first.
skip_hint :
    (db : Database) (org : String) (h : Hint) (hints : List Hint) (asset_id : String)
    → is_silent db org h ≡ true
    → Resolves db org hints asset_id
    → Resolves db org (h ∷ hints) asset_id
skip_hint db org h hints asset_id quiet r = record {
  earlier = h ∷ r.earlier;
  hint = r.hint;
  later = r.later;
  split = ap (λ hs. h ∷ hs) r.split;
  silent = (quiet, r.silent);
  alias = r.alias;
  only = r.only;
  asset = r.asset;
}

-- The first hint, by its aliases, and the rest of the loop.
first_hint :
    (db : Database) (org : String) (h : Hint) (hints : List Hint) (asset_id : String)
    (usable : Bool) (rows : List AssetAlias)
    → is_usable h ≡ usable
    → aliases_of db (text_or_empty h.namespace) (text_or_empty h.value) org ≡ rows
    → ((map_each db org hints).status ≡ resolved
        → (map_each db org hints).asset_id ≡ some asset_id
        → Resolves db org hints asset_id)
    → (hint_result h usable rows (map_each db org hints)).status ≡ resolved
    → (hint_result h usable rows (map_each db org hints)).asset_id ≡ some asset_id
    → Resolves db org (h ∷ hints) asset_id
unfolding judge
first_hint db org h hints asset_id false rows u e later status asset =
    skip_hint db org h hints asset_id (ground (arith, u)) (later status asset)
first_hint db org h hints asset_id true [] u e later status asset =
    skip_hint db org h hints asset_id (ap is_empty_or e ∙ or_true (not (is_usable h)))
      (later status asset)
  where
    is_empty_or : List AssetAlias → Bool
    is_empty_or xs = not (is_usable h) || is_empty xs
first_hint db org h hints asset_id true (a ∷ []) u e later status asset = record {
  earlier = [];
  hint = h;
  later = hints;
  split = refl;
  silent = tt;
  alias = a;
  only = e;
  asset = some-injective asset;
}
first_hint db org h hints asset_id true (a ∷ b ∷ rest) u e later status asset =
    ground (arith, status)

map_each-Resolves :
    (db : Database) (org : String) (hints : List Hint) (asset_id : String)
    → (map_each db org hints).status ≡ resolved
    → (map_each db org hints).asset_id ≡ some asset_id
    → Resolves db org hints asset_id
unfolding map_each reconcile_alias
map_each-Resolves db org [] asset_id status asset = ground (arith, status)
map_each-Resolves db org (h ∷ hints) asset_id status asset =
    first_hint db org h hints asset_id (is_usable h) _ refl refl
      (map_each-Resolves db org hints asset_id) status asset

-- A mapping that resolves to an asset does so by the first hint that decides: the hints before it
-- are unusable or match no alias, and it matches exactly one alias of the organization, which is
-- of that asset.
pub map_hints-Resolves :
    (db : Database) (org : String) (hints : List Hint) (asset_id : String)
    → (map_hints db hints org).status ≡ resolved
    → (map_hints db hints org).asset_id ≡ some asset_id
    → Resolves db org hints asset_id
unfolding map_hints
map_hints-Resolves db org [] asset_id status asset = ground (arith, status)
map_hints-Resolves db org (h ∷ hints) asset_id status asset =
    map_each-Resolves db org (h ∷ hints) asset_id status asset
