-- ===== src/Risk/Policy/Bands.antt =====
-- Bounds, escalations and monotonicity of the risk policy (src/vulnops/risk/policy.py).
use vulnops_hub.Prelude.{ℕ, ◌≤◌, Bool, true, false, ◌&&◌, ◌||◌, not, ◌≡◌, arith, leb, ap, ◌↔◌}
use vulnops_hub.Db.{Priority, p0, p1, p2, p3, p4, unlisted_priority}
use vulnops_hub.Risk.Policy.{
  PolicyInput, candidate, Engine, evaluate, calculate_score, weighted_sum, points,
  criticality_weight, exposure_weight, escalates_internet, escalates_confirmed, candidate_band,
  or_zero, score_band, adjust, is_candidate,
}

abbrev pub rank : Priority → ℕ
rank p0 = 0
rank p1 = 1
rank p2 = 2
rank p3 = 3
rank p4 = 4
rank (unlisted_priority _) = 5

-- No score exceeds 100 points, whichever rule gives it.
pub score_bound : (engine : Engine) (inp : PolicyInput) → (evaluate engine inp).score ≤ points 100
unfolding evaluate calculate_score
score_bound engine inp = ground arith

-- A result for a candidate match is never P0 or P1 and never escalated, whatever the other inputs
-- are.
pub candidate_never_urgent :
    (engine : Engine) (inp : PolicyInput)
    → inp.match_class ≡ candidate
    → (2 ≤ rank (evaluate engine inp).priority) × ((evaluate engine inp).escalated ≡ false)
unfolding evaluate escalates_internet escalates_confirmed candidate_band
candidate_never_urgent engine inp h = ground arith

-- What makes a result P0: an escalation rule, or a score of 90 points of a match that is no
-- candidate and has a confidence of a half or more.
unfoldable pub is_urgent : PolicyInput → Bool
is_urgent inp =
    escalates_internet inp
    || escalates_confirmed inp
    || (not (is_candidate inp.match_class)
        && leb (points 90) (calculate_score inp)
        && leb 50 inp.match_confidence)

-- A result is P0 exactly where an escalation rule applies, or where a match that is no candidate
-- scores 90 points with a confidence of at least a half.
pub evaluate-p0 :
    (engine : Engine) (inp : PolicyInput)
    → ((evaluate engine inp).priority ≡ p0) ↔ (is_urgent inp ≡ true)
unfolding evaluate score_band adjust is_urgent candidate_band
evaluate-p0 engine inp = ground arith

-- `b` is at least as severe as `a`: the same match and asset, and no measure of `a` exceeds that
-- of `b`.
pub record AtLeast (a b : PolicyInput) : Type 0 where
  pub same_class : a.match_class ≡ b.match_class
  pub same_criticality : a.asset_criticality ≡ b.asset_criticality
  pub same_exposure : a.internet_exposure ≡ b.internet_exposure
  pub kev_le : a.kev ≡ true → b.kev ≡ true
  pub epss_le : a.epss_score ≤ b.epss_score
  pub percentile_le : or_zero a.epss_percentile ≤ or_zero b.epss_percentile
  pub cvss_le : or_zero a.cvss_score ≤ or_zero b.cvss_score
  pub confidence_le : a.match_confidence ≤ b.match_confidence

calculate_score-AtLeast : (a b : PolicyInput) → AtLeast a b → calculate_score a ≤ calculate_score b
unfolding calculate_score weighted_sum
calculate_score-AtLeast a b h =
    let sum = ap criticality_weight h.same_criticality in
    let exposed = ap exposure_weight h.same_exposure in
    ground (arith, sum, exposed, h.epss_le, h.percentile_le, h.cvss_le, h.confidence_le)

escalates_internet-AtLeast :
    (a b : PolicyInput) → AtLeast a b → escalates_internet a ≡ true → escalates_internet b ≡ true
unfolding escalates_internet
escalates_internet-AtLeast a b h e =
    ground (arith, h.kev_le, h.same_class, h.same_criticality, h.same_exposure, h.confidence_le)

escalates_confirmed-AtLeast :
    (a b : PolicyInput) → AtLeast a b → escalates_confirmed a ≡ true → escalates_confirmed b ≡ true
unfolding escalates_confirmed
escalates_confirmed-AtLeast a b h e = ground (arith, h.kev_le, h.same_class, h.epss_le)

scored_rank :
    (s t c d : ℕ)
    → s ≤ t
    → c ≤ d
    → rank (adjust d (score_band t)).0 ≤ rank (adjust c (score_band s)).0
unfolding adjust score_band
scored_rank s t c d score conf = ground arith

candidate_rank : (s t : ℕ) → s ≤ t → rank (candidate_band t) ≤ rank (candidate_band s)
unfolding candidate_band
candidate_rank s t score = ground arith

-- Where a second input is at least as severe as a first, for the same asset and class of match,
-- it does not get a lower priority: neither an escalation nor the confidence adjustment reverses
-- them.
pub evaluate-AtLeast :
    (engine : Engine) (a b : PolicyInput)
    → AtLeast a b
    → rank (evaluate engine b).priority ≤ rank (evaluate engine a).priority
unfolding evaluate
evaluate-AtLeast engine a b h =
    let score = calculate_score-AtLeast a b h in
    let scored =
      scored_rank (calculate_score a) (calculate_score b) a.match_confidence b.match_confidence
        score h.confidence_le in
    let limited = candidate_rank (calculate_score a) (calculate_score b) score in
    let internet = escalates_internet-AtLeast a b h in
    let confirmed = escalates_confirmed-AtLeast a b h in
    let same = ap is_candidate h.same_class in
    ground (arith, scored, limited, internet, confirmed, same)
