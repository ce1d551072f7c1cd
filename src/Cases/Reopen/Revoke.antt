-- ===== src/Cases/Reopen/Revoke.antt =====
-- The revocation of a decision (`CaseService.revoke_decision` of src/vulnops/cases/service.py).
use vulnops_hub.Prelude.{◌+◌, String, some, [], ◌∷◌, ◌++◌, find, ◌≡◌, ◌≢◌}
use vulnops_hub.Db.{
  Database, triage, revoked, status_text, RemediationCase, RiskDecision, AuditEvent, OutboxEvent,
}
use vulnops_hub.Session.{Session, Result, ok, has_case_id, has_decision_id}
use vulnops_hub.Cases.Events.{Events}

-- What a revocation of the decision `d` on the case `c` leaves behind.
pub record Revoked (decision_id actor : String) (d : RiskDecision) (c : RemediationCase)
    (db : Database) (x : Result (Unit {0}) × Session) : Type 0 where
  pub returned : x.0 ≡ ok tt
  pub durable : x.1.committed ≡ x.1.working
  pub decision : RiskDecision
  pub found_decision : find (has_decision_id decision_id) x.1.committed.decisions ≡ some decision
  pub is_revoked : decision.status ≡ revoked
  pub decision_kept : record decision { status = d.status; updated_at = d.updated_at } ≡ d
  pub other_decisions :
      (id : String)
      → id ≢ decision_id
      → find (has_decision_id id) x.1.committed.decisions ≡ find (has_decision_id id) db.decisions
  pub after : RemediationCase
  pub found : find (has_case_id d.case_id) x.1.committed.cases ≡ some after
  pub at_triage : after.status ≡ triage
  pub counted : after.version ≡ c.version + 1
  pub kept : record after { status = c.status; version = c.version } ≡ c
  pub other_cases :
      (id : String)
      → id ≢ d.case_id
      → find (has_case_id id) x.1.committed.cases ≡ find (has_case_id id) db.cases
  pub audit : AuditEvent
  pub audited : x.1.committed.audits ≡ db.audits ++ audit ∷ []
  pub by_actor : audit.actor ≡ actor
  pub audit_prior : audit.prior_state ≡ some (status_text c.status)
  pub audit_new : audit.new_state ≡ some "triage"
  pub event : OutboxEvent
  pub announced : x.1.committed.outbox ≡ db.outbox ++ event ∷ []
  pub event_of : event.aggregate_id ≡ d.case_id
