-- ===== src/Cases/Reopen.antt =====
-- `CaseService.reopen_on_evidence` and `CaseService.revoke_decision`
-- (src/vulnops/cases/service.py).
pub mod Effect
pub mod Revoke
use vulnops_hub.Prelude.{
  ℕ, ◌+◌, String, Bool, true, false, not, Option, none, some, List, [], ◌∷◌, find,
}
use vulnops_hub.Db.{
  CaseStatus, closed, reopened, triage, status_eq, status_text, revoked, legacy_request,
  RemediationCase, RiskDecision, AuditEvent, OutboxEvent, text,
}
use vulnops_hub.Session.{
  Action, pure, gets, modify, utcnow, uuid4, generated_id, raise_if, or_raise, ◌>>=◌, ◌>>◌,
  update_case, update_decision, has_decision_id, not_closed, decision_not_found,
}
use vulnops_hub.Cases.Events.{Events, describe_system, commit_events}
use vulnops_hub.Cases.Load.{get_case}

-- The audit row of a change that the system makes, with no actor context.
abbrev pub system_audit :
    (actor action : String) → RemediationCase → CaseStatus → String → String → String → AuditEvent
system_audit actor action c new_status reason correlation id = record {
  id = id;
  actor = actor;
  action = action;
  subject_type = "case";
  subject_id = c.id;
  prior_state = some (status_text c.status);
  new_state = some (status_text new_status);
  reason = some reason;
  correlation_id = some correlation;
  request_id = none;
  organization_id = c.organization_id;
  actor_provenance = legacy_request;
  actor_principal_type = none;
  actor_roles = none;
  actor_scopes = none;
}

abbrev reopen_events :
    RemediationCase → (evidence_id reason : String) → String → String → String → Events
reopen_events c evidence_id reason correlation audit_id outbox_id = record {
  audit = system_audit "system" "exposure.reopened" c reopened reason correlation audit_id;
  outbox = record {
    id = outbox_id;
    aggregate_type = "case";
    aggregate_id = c.id;
    event_type = "vulnops.exposure.reopened.v1";
    payload = ("evidence_id", text evidence_id) ∷ ("reason", text reason) ∷ [];
    correlation_id = correlation;
    delivered_at = none;
    attempts = 0;
  };
}

-- `case.status = status; case.version += 1`
abbrev pub restated : RemediationCase → CaseStatus → RemediationCase → RemediationCase
restated c status row = record row { status = status; version = c.version + 1 }

unfoldable pub reopen_on_evidence : (case_id evidence_id reason : String) → Action RemediationCase
reopen_on_evidence case_id evidence_id reason = do
  c ← get_case case_id
  raise_if (not (status_eq c.status closed)) not_closed
  modify (update_case case_id (restated c reopened))
  events ← describe_system (reopen_events c evidence_id reason)
  commit_events events
  get_case case_id

abbrev pub revoke_events :
    RemediationCase → (decision_id actor reason : String) → String → String → String → Events
revoke_events c decision_id actor reason correlation audit_id outbox_id = record {
  audit = system_audit actor "risk.decision.revoked" c triage reason correlation audit_id;
  outbox = record {
    id = outbox_id;
    aggregate_type = "case";
    aggregate_id = c.id;
    event_type = "vulnops.risk-decision.revoked.v1";
    payload = ("decision_id", text decision_id) ∷ ("reason", text reason) ∷ [];
    correlation_id = correlation;
    delivered_at = none;
    attempts = 0;
  };
}

abbrev pub revoked_row : ℕ → RiskDecision → RiskDecision
revoked_row now row = record row { status = revoked; updated_at = now }

-- The decision is marked before its case is loaded.
unfoldable pub revoke_decision : (decision_id actor reason : String) → Action (Unit {0})
revoke_decision decision_id actor reason = do
  row ← gets (λ s. find (has_decision_id decision_id) s.working.decisions)
  decision ← or_raise row (decision_not_found decision_id)
  now ← utcnow
  modify (update_decision decision_id (revoked_row now))
  c ← get_case decision.case_id
  modify (update_case c.id (restated c triage))
  events ← describe_system (revoke_events c decision_id actor reason)
  commit_events events
