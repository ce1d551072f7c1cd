-- ===== src/Risk/Policy.antt =====
-- `RiskPolicyEngine` of src/vulnops/risk/policy.py. The scores are floats in the source; here they
-- are exact multiples of 1/100000 of a point of the score, and the inputs exact multiples of what
-- the fields say. The texts of the explanation, which format floats, are left out.
pub mod Bands
use vulnops_hub.Prelude.{
  ℕ, ◌+◌, ◌-◌, ◌*◌, String, Bool, true, false, not, ◌&&◌, ◌||◌, Option, none, some, List, [], ◌∷◌,
  leb, ltb, if◌then◌else◌,
}
use vulnops_hub.Db.{Priority, p0, p1, p2, p3, p4}
pub use vulnops_hub.Db.Classes.{
  MatchClass, confirmed, deterministic, corroborated, candidate, not_affected, unlisted_class,
}

pub data Criticality : Type 0 where
  critical high medium low unknown_criticality : Criticality
  unlisted_criticality : String → Criticality

pub data ExposureLevel : Type 0 where
  external internal unknown_exposure : ExposureLevel
  unlisted_exposure : String → ExposureLevel

-- `epss_score` and `epss_percentile` count 1/100000, `cvss_score` counts tenths and
-- `match_confidence` hundredths.
pub record PolicyInput : Type 0 where
  pub vulnerability_id : String
  pub kev : Bool
  pub epss_score : ℕ
  pub epss_percentile : Option ℕ
  pub cvss_score : Option ℕ
  pub cvss_vector : Option String
  pub asset_criticality : Criticality
  pub internet_exposure : ExposureLevel
  pub match_confidence : ℕ
  pub match_class : MatchClass
  pub age_days : Option ℕ
  pub data_sensitivity : Option String

pub data Escalation : Type 0 where
  kev_critical_internet kev_confirmed_high_epss : Escalation

pub data PolicyReason : Type 0 where
  kev_escalation kev_confirmed candidate_requires_review : PolicyReason
  confidence_adjustment : (confidence : ℕ) (from to : Priority) → PolicyReason

-- The dict `factors`: the inputs, and the keys that a branch adds.
pub record Factors : Type 0 where
  pub inputs : PolicyInput
  pub hard_escalation : Option Escalation
  pub candidate_limitation : Bool

pub record PolicyResult : Type 0 where
  pub priority : Priority
  pub policy_version : String
  pub escalated : Bool
  pub factors : Factors
  pub reasons : List PolicyReason
  pub score : ℕ

pub record Engine : Type 0 where
  pub policy_version : String

-- a score of so many points
abbrev pub points : ℕ → ℕ
points n = n * 100000

abbrev pub or_zero : Option ℕ → ℕ
or_zero none = 0
or_zero (some n) = n

unfoldable pub criticality_weight : Criticality → ℕ
criticality_weight critical = points 20
criticality_weight high = points 15
criticality_weight medium = points 10
criticality_weight low = points 5
criticality_weight unknown_criticality = points 5
criticality_weight (unlisted_criticality _) = points 5

unfoldable pub exposure_weight : ExposureLevel → ℕ
exposure_weight external = points 10
exposure_weight internal = points 2
exposure_weight unknown_exposure = points 5
exposure_weight (unlisted_exposure _) = points 2

-- The sum before the confidence adjustment.
unfoldable pub weighted_sum : PolicyInput → ℕ
weighted_sum inp =
    or_zero inp.cvss_score * 50000
    + (inp.epss_score * 20 + or_zero inp.epss_percentile * 5)
    + (criticality_weight inp.asset_criticality + exposure_weight inp.internet_exposure)

-- `(match_confidence - 0.5) * 10` is added as a gain and a loss; a negative total is clamped to 0
unfoldable pub calculate_score : PolicyInput → ℕ
unfolding weighted_sum
calculate_score inp =
    let total = weighted_sum inp + inp.match_confidence * 10000 - points 5 in
    if leb total (points 100) then total else points 100

abbrev is_strong_match : MatchClass → Bool
is_strong_match deterministic = true
is_strong_match confirmed = true
is_strong_match _ = false

abbrev is_confirmed : MatchClass → Bool
is_confirmed confirmed = true
is_confirmed _ = false

abbrev pub is_candidate : MatchClass → Bool
is_candidate candidate = true
is_candidate _ = false

abbrev is_critical : Criticality → Bool
is_critical critical = true
is_critical _ = false

abbrev is_external : ExposureLevel → Bool
is_external external = true
is_external _ = false

-- The condition of the first escalation rule.
unfoldable pub escalates_internet : PolicyInput → Bool
escalates_internet inp =
    inp.kev
    && is_critical inp.asset_criticality
    && is_external inp.internet_exposure
    && is_strong_match inp.match_class
    && leb 70 inp.match_confidence

-- The condition of the second escalation rule.
unfoldable pub escalates_confirmed : PolicyInput → Bool
escalates_confirmed inp = inp.kev && is_confirmed inp.match_class && ltb 50000 inp.epss_score

unfoldable pub candidate_band : ℕ → Priority
candidate_band base = if leb (points 70) base then p2 else if leb (points 40) base then p3 else p4

unfoldable pub score_band : ℕ → Priority
score_band score =
    if leb (points 90) score
    then p0
    else if leb (points 70) score
    then p1
    else if leb (points 40) score
    then p2
    else if leb (points 20) score
    then p3
    else p4

-- `downgrade_map`, and the reason that the downgrade adds
unfoldable pub adjust : ℕ → Priority → Priority × List PolicyReason
adjust confidence p0 =
    if ltb confidence 50 then (p1, confidence_adjustment confidence p0 p1 ∷ []) else (p0, [])
adjust confidence p1 =
    if ltb confidence 50 then (p2, confidence_adjustment confidence p1 p2 ∷ []) else (p1, [])
adjust confidence p = (p, [])

abbrev escalation : Engine → PolicyInput → Escalation → PolicyReason → ℕ → PolicyResult
escalation engine inp rule reason score = record {
  priority = p0;
  policy_version = engine.policy_version;
  escalated = true;
  factors = record { inputs = inp; hard_escalation = some rule; candidate_limitation = false };
  reasons = reason ∷ [];
  score = score;
}

abbrev candidate_result : Engine → PolicyInput → PolicyResult
candidate_result engine inp = record {
  priority = candidate_band (calculate_score inp);
  policy_version = engine.policy_version;
  escalated = false;
  factors = record { inputs = inp; hard_escalation = none; candidate_limitation = true };
  reasons = candidate_requires_review ∷ [];
  score = calculate_score inp;
}

abbrev scored_result : Engine → PolicyInput → PolicyResult
scored_result engine inp =
    let adjusted = adjust inp.match_confidence (score_band (calculate_score inp)) in
    record {
      priority = adjusted.0;
      policy_version = engine.policy_version;
      escalated = false;
      factors = record { inputs = inp; hard_escalation = none; candidate_limitation = false };
      reasons = adjusted.1;
      score = calculate_score inp;
    }

unfoldable pub evaluate : Engine → PolicyInput → PolicyResult
unfolding escalates_internet escalates_confirmed
evaluate engine inp =
    if escalates_internet inp
    then escalation engine inp kev_critical_internet kev_escalation (points 100)
    else if escalates_confirmed inp
    then escalation engine inp kev_confirmed_high_epss kev_confirmed (points 95)
    else if is_candidate inp.match_class
    then candidate_result engine inp
    else scored_result engine inp
