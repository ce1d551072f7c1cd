-- ===== src/Matching/Decision.antt =====
-- What each class of a match rests on (src/vulnops/matching/service.py).
use vulnops_hub.Prelude.{
  String, Bool, true, false, not, ◌&&◌, Option, none, some, any, if-holds, eq_iff, sym, ap, ◌∙◌,
  ◌≡◌, ◌⊎◌, inl, inr, refl, arith, if◌then◌else◌, truthy, str_eq,
}
use vulnops_hub.Risk.Policy.{
  MatchClass, confirmed, deterministic, corroborated, candidate, not_affected,
}
use vulnops_hub.Matching.Versioning.{Packaging, normalize_ecosystem, supports_ecosystem, given}
use vulnops_hub.Matching.Identity.{Component}
use vulnops_hub.Matching.Service.{
  Advisory, ScannerEvidence, ExposureResult, evaluate, evaluate_range, fallback, has_ranges, scan,
  opened_case, range_or_fallback, after_vex, after_scanner,
}
use vulnops_hub.Matching.Scan.{is_relevant, is_hit, scan-any}

-- The classes that open a case.
abbrev pub opens_case : MatchClass → Bool
opens_case confirmed = true
opens_case deterministic = true
opens_case _ = false

-- The case that a result opens is the one that its class says.
abbrev pub CaseAgrees : String → ExposureResult → Type 0
CaseAgrees uuid r =
    (r.should_create_case ≡ opens_case r.match_class)
    × (r.case_id ≡ (if opens_case r.match_class then opened_case uuid else none))

abbrev is_review : MatchClass → Bool
is_review candidate = true
is_review corroborated = true
is_review _ = false

-- The fallback leaves the match to a review.
fallback-review :
    (uuid : String) (c : Component) (second : Bool)
    → (is_review (fallback c second).match_class ≡ true) × CaseAgrees uuid (fallback c second)
unfolding fallback
fallback-review uuid c second = ground arith

-- What stands behind a deterministic match.
pub record IsDeterministic (p : Packaging) (c : Component) (adv : Advisory) : Type 0 where
  pub version : String
  pub version_given : c.raw_version ≡ some version
  pub purl_given : given c.purl ≡ true
  pub supported : supports_ecosystem (normalize_ecosystem c.ecosystem) ≡ true
  pub hit : any (is_hit p c version (normalize_ecosystem c.ecosystem)) adv.affected ≡ true

-- What stands behind a match that is not affected, where no VEX statement says so.
pub record IsNotAffected (p : Packaging) (c : Component) (adv : Advisory) : Type 0 where
  pub version : String
  pub version_given : c.raw_version ≡ some version
  pub relevant : any (is_relevant c (normalize_ecosystem c.ecosystem)) adv.affected ≡ true
  pub no_hit : any (is_hit p c version (normalize_ecosystem c.ecosystem)) adv.affected ≡ false
  pub ranges : any has_ranges adv.affected ≡ true

-- What a result rests on, with the VEX statement that was given.
pub record Rests (p : Packaging) (uuid : String) (c : Component) (adv : Advisory)
    (vex : Option String) (r : ExposureResult) : Type 0 where
  pub agrees : CaseAgrees uuid r
  pub if_deterministic : r.match_class ≡ deterministic → IsDeterministic p c adv
  pub if_not_affected :
      r.match_class ≡ not_affected → (vex ≡ some "not_affected") ⊎ IsNotAffected p c adv

fallback-Rests :
    (p : Packaging) (uuid : String) (c : Component) (adv : Advisory) (vex : Option String)
    (second : Bool)
    → Rests p uuid c adv vex (fallback c second)
fallback-Rests p uuid c adv vex second =
    let (review, agrees) = fallback-review uuid c second in
    record {
      agrees = agrees;
      if_deterministic = λ h. ground (arith, review, h);
      if_not_affected = λ h. ground (arith, review, h);
    }

evaluate_range-Rests :
    (p : Packaging) (uuid : String) (c : Component) (version : String) (adv : Advisory)
    (vex : Option String) (second : Bool)
    → c.raw_version ≡ some version
    → given c.purl ≡ true
    → Rests p uuid c adv vex (evaluate_range p uuid c version adv second)
unfolding evaluate_range
evaluate_range-Rests p uuid c version adv vex second hv hp =
    let eco = normalize_ecosystem c.ecosystem in
    let (found, relevant) = scan-any p c version eco adv.affected in
    let P = Rests p uuid c adv vex in
    if-holds P (not (supports_ecosystem eco))
      (λ _. record { agrees = (refl, refl); if_deterministic = λ h. cc; if_not_affected = λ h. cc })
      λ supported.
        if-holds P (scan p c version eco adv.affected).0
          (λ matched. record {
            agrees = (refl, refl);
            if_deterministic = λ _. record {
              version = version;
              version_given = hv;
              purl_given = hp;
              supported = ground (arith, supported);
              hit = sym found ∙ matched;
            };
            if_not_affected = λ h. cc;
          })
          λ missed.
            if-holds P ((scan p c version eco adv.affected).1 && any has_ranges adv.affected)
              (λ ranged. record {
                agrees = (refl, refl);
                if_deterministic = λ h. cc;
                if_not_affected = λ _. inr (record {
                  version = version;
                  version_given = hv;
                  relevant = ground (arith, relevant, ranged);
                  no_hit = sym found ∙ missed;
                  ranges = ground (arith, ranged);
                });
              })
              λ _. fallback-Rests p uuid c adv vex second

range_or_fallback-Rests :
    (p : Packaging) (uuid : String) (c : Component) (adv : Advisory) (vex : Option String)
    (second : Bool) (version : Option String)
    → c.raw_version ≡ version
    → Rests p uuid c adv vex (range_or_fallback p uuid c adv second version)
range_or_fallback-Rests p uuid c adv vex second none h = fallback-Rests p uuid c adv vex second
range_or_fallback-Rests p uuid c adv vex second (some version) present =
    if-holds (Rests p uuid c adv vex) (given c.purl && truthy version)
      (λ both. evaluate_range-Rests p uuid c version adv vex second present (ground (arith, both)))
      λ _. fallback-Rests p uuid c adv vex second

after_vex-Rests :
    (p : Packaging) (uuid : String) (c : Component) (adv : Advisory) (vex : Option String)
    (second : Bool)
    → Rests p uuid c adv vex (after_vex p uuid c adv second)
after_vex-Rests p uuid c adv vex second =
    range_or_fallback-Rests p uuid c adv vex second c.raw_version refl

after_scanner-Rests :
    (p : Packaging) (uuid : String) (c : Component) (adv : Advisory) (vex : Option String)
    (second : Bool)
    → Rests p uuid c adv vex (after_scanner p uuid c adv second vex)
after_scanner-Rests p uuid c adv none second = after_vex-Rests p uuid c adv none second
after_scanner-Rests p uuid c adv (some vex) second =
    let P = Rests p uuid c adv (some vex) in
    if-holds P (str_eq vex "not_affected")
      (λ same. record {
        agrees = (refl, refl);
        if_deterministic = λ h. cc;
        if_not_affected = λ _. inl (ap some ((eq_iff vex "not_affected").0 same));
      })
      λ _.
        if-holds P (str_eq vex "affected")
          (λ _. record {
            agrees = (refl, refl);
            if_deterministic = λ h. cc;
            if_not_affected = λ h. cc;
          })
          λ _. after_vex-Rests p uuid c adv (some vex) second

-- What every result rests on. A case is opened, and named, exactly for a confirmed or a
-- deterministic match. A deterministic match rests on a purl, a supported ecosystem, and an entry
-- of the advisory that is relevant and holds the version. A match that is not affected rests on a
-- VEX statement, or on a relevant entry where no relevant entry holds the version and some entry
-- names versions.
pub evaluate-Rests :
    (p : Packaging) (uuid : String) (c : Component) (adv : Advisory) (second : Bool)
    (ev : Option ScannerEvidence) (vex : Option String)
    → Rests p uuid c adv vex (evaluate p uuid c adv second ev vex)
unfolding evaluate
evaluate-Rests p uuid c adv second none vex = after_scanner-Rests p uuid c adv vex second
evaluate-Rests p uuid c adv second (some ev) vex =
    if-holds (Rests p uuid c adv vex) ev.scanner_confirmed
      (λ _. record { agrees = (refl, refl); if_deterministic = λ h. cc; if_not_affected = λ h. cc })
      λ _. after_scanner-Rests p uuid c adv vex second
