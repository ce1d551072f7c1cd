-- ===== src/Matching/Scan.antt =====
-- What the loop over an advisory's entries finds (src/vulnops/matching/service.py).
use vulnops_hub.Prelude.{
  String, Bool, not, ◌&&◌, Option, none, some, List, [], ◌∷◌, ◌++◌, any, ◌≡◌, refl, arith,
}
use vulnops_hub.Matching.Versioning.{Packaging, is_version_in_range}
use vulnops_hub.Matching.Identity.{Component, package_identity_matches}
use vulnops_hub.Matching.Service.{
  Affected, RangeEvent, Bounds, no_bounds, read_events, other_ecosystem, version_matches,
  range_matches, scan,
}

-- The entry is of the component's ecosystem and names its package.
abbrev pub is_relevant : Component → Option String → Affected → Bool
is_relevant c eco aff =
    not (other_ecosystem eco aff.pkg.ecosystem) && package_identity_matches c aff.pkg

abbrev pub is_hit : Packaging → Component → String → Option String → Affected → Bool
is_hit p c version eco aff = is_relevant c eco aff && version_matches p version aff

-- The loop stops at its first hit, and yet reports exactly whether some entry is a hit and
-- whether some entry is relevant.
pub scan-any :
    (p : Packaging) (c : Component) (version : String) (eco : Option String) (affs : List Affected)
    → ((scan p c version eco affs).0 ≡ any (is_hit p c version eco) affs)
      × ((scan p c version eco affs).1 ≡ any (is_relevant c eco) affs)
unfolding scan
scan-any p c version eco [] = (refl, refl)
scan-any p c version eco (aff ∷ affs) = ground (arith, scan-any p c version eco affs)

read_events-append :
    (b : Bounds) (es fs : List RangeEvent)
    → read_events b (es ++ fs) ≡ read_events (read_events b es) fs
unfolding read_events
read_events-append b [] fs = refl
read_events-append b (e ∷ es) fs = read_events-append _ es fs

abbrev pub introduced_at : String → RangeEvent
introduced_at v = record { introduced = some (some v); fixed = none; last_affected = none }

abbrev pub fixed_at : String → RangeEvent
fixed_at v = record { introduced = none; fixed = some (some v); last_affected = none }

-- Of a range whose events end with an introduction and a fix, only that interval counts, with the
-- last affected version that the events name before it.
pub last_interval :
    (p : Packaging) (version i f : String) (es : List RangeEvent)
    → range_matches p version (es ++ introduced_at i ∷ fixed_at f ∷ [])
      ≡ is_version_in_range p version (some i) (some f) (read_events no_bounds es).last_affected
unfolding range_matches read_events
last_interval p version i f es =
    rw (read_events-append no_bounds es (introduced_at i ∷ fixed_at f ∷ [])) refl
