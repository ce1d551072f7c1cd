-- ===== src/Matching/Tests.antt =====
-- Concrete components and advisories (src/vulnops/matching).
use vulnops_hub.Prelude.{
  ℕ, String, false, Option, none, some, [], ◌∷◌, ◌++◌, any, ◌≡◌, refl, arith, ltb, str_eq,
  if◌then◌else◌, contains_char,
}
use vulnops_hub.Matching.Versioning.{Packaging, Laws, is_version_in_range}
use vulnops_hub.Matching.Identity.{Component, IsBare}
use vulnops_hub.Matching.Service.{
  Advisory, Affected, evaluate, scan, range_matches, read_events, no_bounds,
}
use vulnops_hub.Matching.Scan.{
  is_hit, is_relevant, scan-any, last_interval, introduced_at, fixed_at,
}
use vulnops_hub.Matching.Decision.{Rests, evaluate-Rests}

-- Versions of one digit, in place of the package that compares versions.
abbrev digit : String → Option ℕ
digit s =
    if str_eq s "1"
    then some 1
    else if str_eq s "2"
    then some 2
    else if str_eq s "3"
    then some 3
    else none

abbrev digits : Packaging
digits = record { Version = ℕ; parse = digit; lt = ltb; gt = λ a b. ltb b a; to_text = λ n. "" }

digits-Laws : Laws digits
digits-Laws = record { lt_gt = λ a b h. ground arith }

purl-IsBare : IsBare "pkg:pypi/urllib3"
unfolding contains_char
purl-IsBare = (refl, refl, refl)

abbrev component : Component
component = record {
  raw_name = "urllib3";
  raw_version = some "2";
  purl = some "pkg:pypi/urllib3@2";
  ecosystem = some "PyPI";
  normalized_name = some "urllib3";
  cpe = none;
}

abbrev entry : Affected
entry = record {
  pkg = record { purl = some "pkg:pypi/urllib3"; name = some "urllib3"; ecosystem = some "PyPI" };
  ranges = (introduced_at "1" ∷ fixed_at "3" ∷ []) ∷ [];
  versions = [];
}

abbrev advisory : Advisory
advisory = record { id = some "CVE-2026-1"; vulnerability_id = none; affected = entry ∷ [] }

evaluate-Rests_example :
    Rests digits "0123456789abcdef" component advisory none
      (evaluate digits "0123456789abcdef" component advisory false none none)
evaluate-Rests_example = evaluate-Rests digits "0123456789abcdef" component advisory false none none

scan-any_example :
    ((scan digits component "2" (some "pypi") (entry ∷ [])).0
      ≡ any (is_hit digits component "2" (some "pypi")) (entry ∷ []))
    × ((scan digits component "2" (some "pypi") (entry ∷ [])).1
        ≡ any (is_relevant component (some "pypi")) (entry ∷ []))
scan-any_example = scan-any digits component "2" (some "pypi") (entry ∷ [])

last_interval_example :
    range_matches digits "1"
      ((introduced_at "1" ∷ fixed_at "2" ∷ []) ++ introduced_at "3" ∷ fixed_at "4" ∷ [])
    ≡ is_version_in_range digits "1"
        (some "3")
        (some "4")
        (read_events no_bounds (introduced_at "1" ∷ fixed_at "2" ∷ [])).last_affected
last_interval_example = last_interval digits "1" "3" "4" (introduced_at "1" ∷ fixed_at "2" ∷ [])
