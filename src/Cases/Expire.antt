-- ===== src/Cases/Expire.antt =====
-- `CaseService.process_expirations` (src/vulnops/cases/service.py).
pub mod Effect
use vulnops_hub.Prelude.{
  ℕ, suc, ◌+◌, String, Bool, true, false, not, Option, none, some, List, [], ◌∷◌, leb, length,
  if◌then◌else◌,
}
use vulnops_hub.Db.{
  CaseStatus, risk_accepted, triage, status_eq, DecisionStatus, approved, expired, Datetime, Expiry,
  no_expiry, not_datetime, at_datetime, RemediationCase, RiskDecision, text, number,
}
use vulnops_hub.Session.{
  Action, Result, ok, err, datetime_error, pure, gets, lift, modify, commit, ◌>>=◌, ◌>>◌,
  update_case, update_decision,
}
use vulnops_hub.Cases.Expiry.{ensure_aware, compare_instant}
use vulnops_hub.Cases.Events.{Events, describe_system, add_events}
use vulnops_hub.Cases.Load.{get_case}
use vulnops_hub.Cases.Reopen.{restated, system_audit}

abbrev pub is_approved : DecisionStatus → Bool
is_approved approved = true
is_approved _ = false

-- `exp <= now`, after `_ensure_aware`; a value that is no datetime has no `tzinfo`
unfoldable pub has_expired : ℕ → Expiry → Result Bool
has_expired now no_expiry = ok false
has_expired now not_datetime = err datetime_error
has_expired now (at_datetime d) = compare_instant leb (ensure_aware d) now

-- The decisions to expire: approved, with an expiry that has passed.
unfoldable pub select_expired : ℕ → List RiskDecision → Result (List RiskDecision)
select_expired now [] = ok []
select_expired now (d ∷ ds) =
    let rest = select_expired now ds in
    if is_approved d.status
    then elim (has_expired now d.expires_at) [
      | err e ↦ err e
      | ok true ↦ elim rest [ ok l ↦ ok (d ∷ l) | err e ↦ err e ]
      | ok false ↦ rest
    ]
    else rest

abbrev pub expired_row : RiskDecision → RiskDecision
expired_row row = record row { status = expired }

abbrev expiry_events : RemediationCase → RiskDecision → ℕ → String → String → String → Events
expiry_events c d now correlation audit_id outbox_id = record {
  audit =
      system_audit "system" "risk-decision.expired" c triage "risk acceptance expired" correlation
        audit_id;
  outbox = record {
    id = outbox_id;
    aggregate_type = "case";
    aggregate_id = c.id;
    event_type = "vulnops.risk-decision.expired.v1";
    payload = ("decision_id", text d.id) ∷ ("expired_at", number now) ∷ [];
    correlation_id = correlation;
    delivered_at = none;
    attempts = 0;
  };
}

-- The change of the case of an expired decision, if it stands at `risk_accepted`.
unfoldable pub return_to_triage : Bool → ℕ → RiskDecision → RemediationCase → Action (Unit {0})
unfolding pure
return_to_triage false now d c = pure tt
return_to_triage true now d c = do
  modify (update_case c.id (restated c triage))
  events ← describe_system (expiry_events c d now)
  add_events events

-- The body of the loop.
unfoldable pub expire_decision : ℕ → RiskDecision → Action (Unit {0})
expire_decision now d = do
  modify (update_decision d.id expired_row)
  c ← get_case d.case_id
  return_to_triage (status_eq c.status risk_accepted) now d c

unfoldable pub expire_all : ℕ → List RiskDecision → Action (Unit {0})
unfolding pure
expire_all now [] = pure tt
expire_all now (d ∷ ds) = expire_decision now d >> expire_all now ds

unfoldable pub process_expirations : ℕ → Action ℕ
process_expirations now = do
  rows ← gets (λ s. s.working.decisions)
  decisions ← lift (select_expired now rows)
  expire_all now decisions
  commit
  pure (length decisions)
