-- ===== src/Cases/Load.antt =====
-- Loading rows by their primary keys (`get_case`, `get_risk_decision` and
-- `_canonicalize_risk_decision_expiry` of src/vulnops/cases/service.py).
use vulnops_hub.Prelude.{String, some, find}
use vulnops_hub.Db.{
  naive, utc, zone, Expiry, no_expiry, not_datetime, at_datetime, RiskDecision, RemediationCase,
}
use vulnops_hub.Session.{
  World, Action, ok, err, gets, or_raise, ◌>>=◌, has_case_id, has_decision_id, case_not_found,
  decision_not_found,
}
use vulnops_hub.Cases.Expiry.{normalize_utc, safe_utcoffset}

unfoldable pub get_case : String → Action RemediationCase
get_case case_id = do
  row ← gets (λ s. find (has_case_id case_id) s.working.cases)
  or_raise row (case_not_found case_id)

-- Converts an expiry to UTC; what cannot be converted is left as it is.
unfoldable pub canonicalize_expiry : World → Expiry → Expiry
canonicalize_expiry w no_expiry = no_expiry
canonicalize_expiry w not_datetime = not_datetime
canonicalize_expiry w (at_datetime d) = elim d.tzinfo [
  | utc ↦ at_datetime d
  | naive ↦ elim (normalize_utc w d) [ ok c ↦ at_datetime c | err _ ↦ at_datetime d ]
  | zone _ ↦ elim (safe_utcoffset d) [
    | ok (some _) ↦ elim (normalize_utc w d) [ ok c ↦ at_datetime c | err _ ↦ at_datetime d ]
    | _ ↦ at_datetime d
  ]
]

-- The row as `get_risk_decision` hands it out: its expiry in UTC, the stored one unchanged.
unfoldable pub canonicalize : World → RiskDecision → RiskDecision
unfolding canonicalize_expiry
canonicalize w decision = record decision { expires_at = canonicalize_expiry w decision.expires_at }

unfoldable pub get_risk_decision : String → Action RiskDecision
get_risk_decision decision_id = do
  row ← gets (λ s. find (has_decision_id decision_id) s.working.decisions)
  decision ← or_raise row (decision_not_found decision_id)
  gets (λ s. canonicalize s.world decision)
