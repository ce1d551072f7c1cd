-- ===== src/Matching/Identity.antt =====
-- Whether an advisory's package is the component's (`_strip_purl_identity` and
-- `_package_identity_matches` of src/vulnops/matching/service.py).
use vulnops_hub.Prelude.{
  String, Bool, false, ◌&&◌, Option, none, some, List, [], ◌∷◌, any, ◌≡◌, refl, str_eq, truthy,
  lower, before, rstrip, strip, contains_char, after_last, before-concat, before_end, nil-append,
  cons-append, mem_text, concat, if◌then◌else◌, ◌==◌, ap, ◌∙◌,
}
use vulnops_hub.Matching.Versioning.{given}

-- `ParsedComponent`, by the fields that the matching reads.
pub record Component : Type 0 where
  pub raw_name : String
  pub raw_version : Option String
  pub purl : Option String
  pub ecosystem : Option String
  pub normalized_name : Option String
  pub cpe : Option String

-- The dict `package` of an advisory; a missing key reads as `None`.
pub record Package : Type 0 where
  pub purl : Option String
  pub name : Option String
  pub ecosystem : Option String

-- The prefix of a purl before its version, its qualifiers and its subpath.
unfoldable pub bare : String → String
bare p = before b'@' (before b'#' (before b'?' p))

-- The part of `_strip_purl_identity` for a text that is not empty.
unfoldable pub strip_identity : String → String
unfolding bare
strip_identity p = rstrip (λ c. c == b'/') (lower (bare p))

unfoldable pub strip_purl_identity : Option String → Option String
unfolding strip_identity
strip_purl_identity none = none
strip_purl_identity (some p) = if truthy p then some (strip_identity p) else none

-- A name, and its last segment where it has several.
unfoldable pub name_forms : String → List String
name_forms n = if contains_char b'/' n then n ∷ after_last b'/' n ∷ [] else n ∷ []

-- `component.normalized_name or component.raw_name or ""`
unfoldable pub component_name : Component → String
component_name c = elim c.normalized_name [
  | some n ↦ if truthy n then n else c.raw_name
  | none ↦ c.raw_name
]

-- `bool(a & b)`, for two sets
abbrev pub meet : List String → List String → Bool
meet xs ys = any (λ x. mem_text x ys) xs

unfoldable pub same_purl : Option String → Option String → Bool
same_purl (some a) (some b) = truthy a && truthy b && str_eq a b
same_purl _ _ = false

unfoldable pub same_name : Component → Option String → Bool
unfolding name_forms component_name
same_name c none = false
same_name c (some n) =
    truthy n && meet (name_forms (strip (lower (component_name c)))) (name_forms (strip (lower n)))

unfoldable pub package_identity_matches : Component → Package → Bool
package_identity_matches c pkg =
    if given pkg.purl && given c.purl
    then same_purl (strip_purl_identity c.purl) (strip_purl_identity pkg.purl)
    else same_name c pkg.name

-- A text that holds none of the marks that end the bare prefix of a purl.
abbrev pub IsBare : String → Type 0
IsBare p =
    (contains_char b'?' p ≡ false) × (contains_char b'#' p ≡ false) × (contains_char b'@' p ≡ false)

-- The mark, a version and the end of a text.
marked : (v : String) → concat "@" v ≡ String.◌∷◌ "@" v
marked v = cons-append "@" "" v ∙ ap (λ t. String.◌∷◌ "@" t) (nil-append v)

bare-concat : (p v : String) → IsBare p → bare (concat p (concat "@" v)) ≡ p
unfolding bare before
bare-concat p v h =
    rw
      (
        marked v,
        before-concat b'?' p (String.◌∷◌ "@" v) h.0,
        before-concat b'#' p (String.◌∷◌ "@" (before b'?' v)) h.1,
      )
      (before_end b'@' p "@" (before b'#' (before b'?' v)) h.2 refl)

-- The version of a purl does not count for its identity, where what stands before the version
-- holds none of the marks `?`, `#` and `@`.
pub strip_identity_version :
    (p v w : String)
    → IsBare p
    → strip_identity (concat p (concat "@" v)) ≡ strip_identity (concat p (concat "@" w))
unfolding strip_identity
strip_identity_version p v w h = rw (bare-concat p v h, bare-concat p w h) refl
