-- ===== src/Matching/Service.antt =====
-- `MatchingService.evaluate` (src/vulnops/matching/service.py). The advisory is the dict of the
-- source, by the keys that the matching reads; confidences count hundredths.
use vulnops_hub.Prelude.{
  ℕ, String, Bool, true, false, not, ◌&&◌, ◌||◌, Option, none, some, List, [], ◌∷◌, any, mem_text,
  str_eq, truthy, is_empty, concat, first_chars, if◌then◌else◌,
}
use vulnops_hub.Risk.Policy.{
  MatchClass, confirmed, deterministic, corroborated, candidate, not_affected,
}
use vulnops_hub.Matching.Versioning.{
  Packaging, is_version_in_range, supports_ecosystem, normalize_ecosystem, given,
}
use vulnops_hub.Matching.Identity.{Component, Package, package_identity_matches}

-- An event of a range: a key may be absent, or hold `None`.
pub record RangeEvent : Type 0 where
  pub introduced : Option (Option String)
  pub fixed : Option (Option String)
  pub last_affected : Option (Option String)

pub record Affected : Type 0 where
  pub pkg : Package
  pub ranges : List (List RangeEvent)
  pub versions : List String

pub record Advisory : Type 0 where
  pub id : Option String
  pub vulnerability_id : Option String
  pub affected : List Affected

pub record ScannerEvidence : Type 0 where
  pub scanner_confirmed : Bool
  pub finding_id : Option String

pub record MatchExplanation : Type 0 where
  pub decision : MatchClass
  pub confidence : ℕ
  pub component_identity : Option String
  pub vulnerability : String
  pub rules : List String
  pub evidence_refs : List String

pub record ExposureResult : Type 0 where
  pub match_class : MatchClass
  pub confidence : ℕ
  pub should_create_case : Bool
  pub case_id : Option String
  pub matched_rules : List String
  pub limitations : List String
  pub explanation : Option MatchExplanation

-- The variables `introduced`, `fixed` and `last_affected` of the loop over the events.
pub record Bounds : Type 0 where
  pub introduced : Option String
  pub fixed : Option String
  pub last_affected : Option String

abbrev set_if : Option (Option String) → Option String → Option String
set_if none old = old
set_if (some value) old = value

unfoldable pub read_events : Bounds → List RangeEvent → Bounds
read_events b [] = b
read_events b (ev ∷ events) =
    read_events
      (record {
        introduced = set_if ev.introduced b.introduced;
        fixed = set_if ev.fixed b.fixed;
        last_affected = set_if ev.last_affected b.last_affected;
      })
      events

abbrev pub no_bounds : Bounds
no_bounds = record { introduced = none; fixed = none; last_affected = none }

-- `aff_eco and aff_eco_norm != eco and aff_eco_norm != "generic"`
unfoldable pub other_ecosystem : Option String → Option String → Bool
other_ecosystem eco none = false
other_ecosystem eco (some e) = elim (normalize_ecosystem (some e)) [
  | none ↦ false
  | some norm ↦
      not (str_eq norm "generic") && elim eco [ none ↦ true | some own ↦ not (str_eq norm own) ]
]

-- The values that the branches return.
abbrev pub opened_case : String → Option String
opened_case uuid = some (concat "case_" (first_chars 8 uuid))

abbrev or_text : Option String → Option String → Option String
or_text a b = if given a then a else b

-- `advisory.get("id") or advisory.get("vulnerability_id") or "unknown"`
abbrev advisory_id : Advisory → String
advisory_id adv = elim (or_text adv.id adv.vulnerability_id) [
  | some id ↦ if truthy id then id else "unknown"
  | none ↦ "unknown"
]

abbrev result : MatchClass → ℕ → List String → List String → ExposureResult
result c confidence rules limitations = record {
  match_class = c;
  confidence = confidence;
  should_create_case = false;
  case_id = none;
  matched_rules = rules;
  limitations = limitations;
  explanation = none;
}

abbrev opening : String → MatchClass → ℕ → List String → Option MatchExplanation → ExposureResult
opening uuid c confidence rules explanation = record {
  match_class = c;
  confidence = confidence;
  should_create_case = true;
  case_id = opened_case uuid;
  matched_rules = rules;
  limitations = [];
  explanation = explanation;
}

abbrev explain :
    MatchClass → ℕ → Option String → Advisory → String → String → Option MatchExplanation
explain c confidence identity adv rule evidence = some (record {
  decision = c;
  confidence = confidence;
  component_identity = identity;
  vulnerability = advisory_id adv;
  rules = rule ∷ [];
  evidence_refs = evidence ∷ [];
})

abbrev text_or : String → Option String → String
text_or default none = default
text_or default (some s) = s

abbrev scanner_result : String → Component → Advisory → ScannerEvidence → ExposureResult
scanner_result uuid c adv ev =
    opening uuid confirmed 99 ("scanner.confirmed" ∷ "asset.service-context" ∷ []) (
      explain confirmed 99 (or_text c.purl (or_text c.cpe (some c.raw_name))) adv
        "scanner.confirmed" (text_or "ev_scanner" ev.finding_id))

abbrev range_result : String → Component → Advisory → ExposureResult
range_result uuid c adv =
    opening uuid deterministic 93 ("osv.purl-range" ∷ "asset.service-context" ∷ [])
      (explain deterministic 93 c.purl adv "osv.purl-range" (text_or "" c.purl))

-- What `evaluate` returns where no range of a purl has decided.
unfoldable pub fallback : Component → Bool → ExposureResult
fallback c second_signal =
    if given c.cpe && not (given c.purl)
    then if second_signal
      then result corroborated 65 ("cpe.corroborated" ∷ "inventory.second_signal" ∷ [])
          ("CPE mapping requires review" ∷ [])
      else result candidate 35 ("cpe.candidate" ∷ [])
          ("CPE/name heuristic only - review required" ∷ [])
    else if not (given c.purl) && not (given c.cpe)
    then result candidate 30 ("name.candidate" ∷ []) ("incomplete version data" ∷ [])
    else result candidate 40 ("candidate.fallback" ∷ []) ("no deterministic match" ∷ [])

unfoldable pub has_ranges : Affected → Bool
has_ranges aff = not (is_empty aff.ranges) || not (is_empty aff.versions)

module _ (p : Packaging) where
  unfoldable pub range_matches : String → List RangeEvent → Bool
  unfolding read_events
  range_matches version events =
      let b = read_events no_bounds events in
      is_version_in_range p version b.introduced b.fixed b.last_affected

  -- The ranges of an entry, and then its listed versions.
  unfoldable pub version_matches : String → Affected → Bool
  unfolding range_matches
  version_matches version aff =
      any (range_matches version) aff.ranges || mem_text version aff.versions

  -- The loop over `affected`: whether a version has matched, and whether an identity has.
  unfoldable pub scan : Component → String → Option String → List Affected → Bool × Bool
  scan c version eco [] = (false, false)
  scan c version eco (aff ∷ rest) =
      let (matched, identity_matched) = scan c version eco rest in
      if other_ecosystem eco aff.pkg.ecosystem
      then (matched, identity_matched)
      else if not (package_identity_matches c aff.pkg)
      then (matched, identity_matched)
      else if version_matches version aff
      then (true, true)
      else (matched, true)

  -- The branch for a component with a purl and a version.
  unfoldable pub evaluate_range : String → Component → String → Advisory → Bool → ExposureResult
  evaluate_range uuid c version adv second_signal =
      let eco = normalize_ecosystem c.ecosystem in
      let (matched, identity_matched) = scan c version eco adv.affected in
      if not (supports_ecosystem eco)
      then result candidate 40 ("unsupported.ecosystem" ∷ [])
          (concat "unsupported version scheme: " (text_or "None" c.ecosystem) ∷ [])
      else if matched
      then range_result uuid c adv
      else if identity_matched && any has_ranges adv.affected
      then result not_affected 85 ("osv.purl-range.not_affected" ∷ []) []
      else fallback c second_signal

  -- `if component.purl and component.raw_version`, for that version
  abbrev pub range_or_fallback :
      String → Component → Advisory → Bool → Option String → ExposureResult
  range_or_fallback uuid c adv second_signal none = fallback c second_signal
  range_or_fallback uuid c adv second_signal (some version) =
      if given c.purl && truthy version
      then evaluate_range uuid c version adv second_signal
      else fallback c second_signal

  abbrev pub after_vex : String → Component → Advisory → Bool → ExposureResult
  after_vex uuid c adv second_signal = range_or_fallback uuid c adv second_signal c.raw_version

  abbrev pub after_scanner : String → Component → Advisory → Bool → Option String → ExposureResult
  after_scanner uuid c adv second_signal none = after_vex uuid c adv second_signal
  after_scanner uuid c adv second_signal (some vex) =
      if str_eq vex "not_affected"
      then result not_affected 95 ("vex.not_affected" ∷ []) []
      else if str_eq vex "affected"
      then opening uuid confirmed 98 ("vex.affected" ∷ []) none
      else after_vex uuid c adv second_signal

  -- `uuid` is the text that `uuid.uuid4().hex` gives, and `second_signal` the truth of
  -- `asset_context["second_signal"]`.
  unfoldable pub evaluate :
      String → Component → Advisory → Bool → Option ScannerEvidence → Option String → ExposureResult
  evaluate uuid c adv second_signal none vex = after_scanner uuid c adv second_signal vex
  evaluate uuid c adv second_signal (some ev) vex =
      if ev.scanner_confirmed
      then scanner_result uuid c adv ev
      else after_scanner uuid c adv second_signal vex
