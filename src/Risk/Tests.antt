-- ===== src/Risk/Tests.antt =====
-- Concrete inputs of the risk policy (src/vulnops/risk/policy.py).
use vulnops_hub.Prelude.{ℕ, ◌≤◌, true, none, some, ◌≡◌, ◌↔◌, refl, arith}
use vulnops_hub.Db.{p0}
use vulnops_hub.Risk.Policy.{
  PolicyInput, MatchClass, deterministic, critical, external, Engine, evaluate,
}
use vulnops_hub.Risk.Policy.Bands.{rank, AtLeast, evaluate-AtLeast, is_urgent, evaluate-p0}

abbrev engine : Engine
engine = record { policy_version = "risk-2026-09-01" }

abbrev input : MatchClass → ℕ → ℕ → PolicyInput
input match_class cvss confidence = record {
  vulnerability_id = "CVE-2026-1";
  kev = true;
  epss_score = 60000;
  epss_percentile = some 90000;
  cvss_score = some cvss;
  cvss_vector = none;
  asset_criticality = critical;
  internet_exposure = external;
  match_confidence = confidence;
  match_class = match_class;
  age_days = none;
  data_sensitivity = none;
}

above : AtLeast (input deterministic 50 40) (input deterministic 98 90)
above = record {
  same_class = refl;
  same_criticality = refl;
  same_exposure = refl;
  kev_le = λ h. h;
  epss_le = omega arith;
  percentile_le = omega arith;
  cvss_le = omega arith;
  confidence_le = omega arith;
}

evaluate-AtLeast_example :
    rank (evaluate engine (input deterministic 98 90)).priority
    ≤ rank (evaluate engine (input deterministic 50 40)).priority
evaluate-AtLeast_example =
    evaluate-AtLeast engine (input deterministic 50 40) (input deterministic 98 90) above

evaluate-p0_example :
    ((evaluate engine (input deterministic 98 90)).priority ≡ p0)
    ↔ (is_urgent (input deterministic 98 90) ≡ true)
evaluate-p0_example = evaluate-p0 engine (input deterministic 98 90)
