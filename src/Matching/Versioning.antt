-- ===== src/Matching/Versioning.antt =====
-- The comparison of versions (src/vulnops/matching/versioning.py), over the `packaging.version`
-- that it calls.
use vulnops_hub.Prelude.{
  String, Bool, true, false, not, ◌&&◌, Option, none, some, List, [], ◌∷◌, ◌≡◌, arith, str_eq,
  str_lt, truthy, lower, mem_text, if◌then◌else◌,
}

-- What the code uses of `packaging.version`: `Version(text)`, which may raise, its `<` and `>`, and
-- the text of a version.
pub record Packaging : Type 1 where
  pub Version : Type 0
  pub parse : String → Option Version
  pub lt : Version → Version → Bool
  pub gt : Version → Version → Bool
  pub to_text : Version → String

-- The documented order of versions: no version stands on both sides of another.
pub record Laws (p : Packaging) : Type 0 where
  pub lt_gt : (a b : p.Version) → p.lt a b ≡ true → p.gt a b ≡ false

-- The results -1, 0 and 1 of a comparison.
pub data Sign : Type 0 where
  less equal greater : Sign

module _ (p : Packaging) where
  -- `str(_parse_version(v))`
  abbrev pub parsed_text : String → String
  parsed_text v = elim (p.parse v) [ some a ↦ p.to_text a | none ↦ v ]

  abbrev pub compare_parsed : p.Version → p.Version → Sign
  compare_parsed a b = if p.lt a b then less else if p.gt a b then greater else equal

  abbrev pub compare_texts : String → String → Sign
  compare_texts a b = if str_lt a b then less else if str_lt b a then greater else equal

  unfoldable pub compare_versions : String → String → Sign
  compare_versions a b = elim (p.parse a) [
    | none ↦ compare_texts (parsed_text a) (parsed_text b)
    | some va ↦ elim (p.parse b) [
      | none ↦ compare_texts (parsed_text a) (parsed_text b)
      | some vb ↦ compare_parsed va vb
    ]
  ]

  abbrev is_less : Sign → Bool
  is_less less = true
  is_less _ = false

  abbrev is_greater : Sign → Bool
  is_greater greater = true
  is_greater _ = false

  -- `introduced and introduced != "0" and _compare_versions(version, introduced) < 0`
  unfoldable pub before_introduced : String → Option String → Bool
  before_introduced version none = false
  before_introduced version (some i) =
      truthy i && not (str_eq i "0") && is_less (compare_versions version i)

  unfoldable pub from_fixed : String → Option String → Bool
  from_fixed version none = false
  from_fixed version (some f) = truthy f && not (is_less (compare_versions version f))

  unfoldable pub past_last : String → Option String → Bool
  past_last version none = false
  past_last version (some l) = truthy l && is_greater (compare_versions version l)

  unfoldable pub is_version_in_range : String → Option String → Option String → Option String → Bool
  is_version_in_range version introduced fixed last_affected =
      if before_introduced version introduced
      then false
      else if from_fixed version fixed
      then false
      else not (past_last version last_affected)

-- the truth value of an optional text
abbrev pub given : Option String → Bool
given none = false
given (some s) = truthy s

supported_ecosystems : List String
supported_ecosystems = "pypi" ∷ "deb" ∷ "maven" ∷ "npm" ∷ "golang" ∷ "generic" ∷ "pypi" ∷ []

unfoldable pub supports_ecosystem : Option String → Bool
unfolding supported_ecosystems
supports_ecosystem none = false
supports_ecosystem (some e) = truthy e && mem_text (lower e) supported_ecosystems

-- `mapping.get(lower, lower)`
abbrev mapped : String → String
mapped e = if str_eq e "debian" then "deb" else e

unfoldable pub normalize_ecosystem : Option String → Option String
normalize_ecosystem none = none
normalize_ecosystem (some e) = if truthy e then some (mapped (lower e)) else none

-- For versions that parse, and bounds that are given: a version is in range exactly where it is
-- not below the introduction, is below the fix and is not above the last affected version.
pub in_range_parsed :
    (p : Packaging)
    → Laws p
    → (v i f l : String) (pv pi pf pl : p.Version) → p.parse v ≡ some pv
    → p.parse i ≡ some pi
    → p.parse f ≡ some pf
    → p.parse l ≡ some pl
    → truthy i ≡ true
    → str_eq i "0" ≡ false
    → truthy f ≡ true
    → truthy l ≡ true
    → is_version_in_range p v (some i) (some f) (some l)
      ≡ (not (p.lt pv pi) && p.lt pv pf && not (p.gt pv pl))
unfolding is_version_in_range before_introduced from_fixed past_last compare_versions
in_range_parsed p laws v i f l pv pi pf pl hv hi hf hl ti zi tf tl =
    ground (arith, laws.lt_gt pv pl)
