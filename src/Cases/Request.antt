-- ===== src/Cases/Request.antt =====
-- `CaseService.create_risk_decision` (src/vulnops/cases/service.py): the request for a decision.
pub mod Effect
use vulnops_hub.Prelude.{
  ℕ, String, Bool, true, false, not, ◌||◌, Option, none, some, List, [], ◌∷◌, str_eq, if◌then◌else◌,
}
use vulnops_hub.Db.{
  DecisionType, risk_acceptance, waiver, compensating_control, false_positive, not_affected,
  unlisted_type, pending_approval, Expiry, no_expiry, not_datetime, at_datetime, EvidenceIds,
  RemediationCase, RiskDecision, AuditEvent, OutboxEvent, Json, text, expiry,
}
use vulnops_hub.Session.{
  World, Action, Result, ok, err, pure, gets, lift, modify, generated_id, utcnow, rollback_on_error,
  raise_if, ◌>>=◌, ◌>>◌, add_decision, approval_by_request, requester_mismatch,
}
use vulnops_hub.Cases.Actor.{
  ActorContext, ActorFields, actor_audit_fields, correlation_or_new, trace_payload,
}
use vulnops_hub.Cases.Expiry.{normalize_utc, validate_risk_decision_request}
use vulnops_hub.Cases.Events.{Events, commit_events}
use vulnops_hub.Cases.Load.{get_case, canonicalize}

-- The arguments of the call. `scope` is the dict's `exposure_ids`, if it is not empty.
pub record Request : Type 0 where
  pub case_id : String
  pub type : DecisionType
  pub reason : Option String
  pub expires_at : Expiry
  pub compensating_controls : Option (List String)
  pub evidence_ids : EvidenceIds
  pub requested_by : String
  pub approver : Option String
  pub approver_role : Option String
  pub actor : String
  pub scope : Option (List String)
  pub context : ActorContext

abbrev pub type_text : DecisionType → String
type_text risk_acceptance = "risk_accepted"
type_text waiver = "waiver"
type_text compensating_control = "compensating_control"
type_text false_positive = "false_positive"
type_text not_affected = "not_affected"
type_text (unlisted_type s) = s

-- `_normalize_utc`, for the value that has been validated
abbrev normalize : World → Expiry → Result Expiry
normalize w (at_datetime d) = elim (normalize_utc w d) [ ok n ↦ ok (at_datetime n) | err e ↦ err e ]
normalize w other = ok other

abbrev decision_row : Request → Expiry → String → ℕ → RiskDecision
decision_row r expires_at id now = record {
  id = id;
  case_id = r.case_id;
  type = r.type;
  status = pending_approval;
  scope_exposure_ids = r.scope;
  reason = r.reason;
  compensating_controls = r.compensating_controls;
  evidence_ids = r.evidence_ids;
  requested_by = r.requested_by;
  requested_by_provenance = r.context.provenance;
  approver = none;
  approver_role = none;
  approver_provenance = none;
  approver_principal_type = none;
  decided_at = none;
  expires_at = expires_at;
  updated_at = now;
}

abbrev request_events :
    Request → RiskDecision → RemediationCase → ActorFields → String → String → String → Events
request_events r decision c fields correlation audit_id outbox_id = record {
  audit = record {
    id = audit_id;
    actor = r.actor;
    action = "risk.decision.requested";
    subject_type = "risk_decision";
    subject_id = decision.id;
    prior_state = none;
    new_state = none;
    reason = r.reason;
    correlation_id = some correlation;
    request_id = r.context.request_id;
    organization_id = c.organization_id;
    actor_provenance = fields.provenance;
    actor_principal_type = fields.principal_type;
    actor_roles = some fields.roles;
    actor_scopes = some fields.scopes;
  };
  outbox = record {
    id = outbox_id;
    aggregate_type = "risk_decision";
    aggregate_id = decision.id;
    event_type = "vulnops.risk-decision.requested.v1";
    payload =
        ("decision_id", text decision.id)
        ∷ ("case_id", text r.case_id)
        ∷ ("type", text (type_text r.type))
        ∷ ("expires_at", expiry decision.expires_at)
        ∷ trace_payload fields r.actor c.organization_id r.context.request_id correlation;
    correlation_id = correlation;
    delivered_at = none;
    attempts = 0;
  };
}

abbrev is_given : Option String → Bool
is_given none = false
is_given (some _) = true

-- What the call has built before it writes.
pub record Pending : Type 0 where
  pub decision : RiskDecision
  pub events : Events

unfoldable pub prepare : Request → Action Pending
prepare r = do
  raise_if (is_given r.approver || is_given r.approver_role) approval_by_request
  raise_if (not (str_eq r.actor r.requested_by)) requester_mismatch
  validate_risk_decision_request r.type r.reason r.evidence_ids r.expires_at
  w ← gets (λ s. s.world)
  expires_at ← lift (normalize w r.expires_at)
  fields ← actor_audit_fields r.context
  c ← get_case r.case_id
  correlation ← correlation_or_new r.context.correlation_id
  id ← generated_id "rdec_" 12
  audit_id ← generated_id "aud_" 12
  outbox_id ← generated_id "evt_" 12
  now ← utcnow
  pure (record {
    decision = decision_row r expires_at id now;
    events =
        request_events r (decision_row r expires_at id now) c fields correlation audit_id outbox_id;
  })

-- The `try` block.
unfoldable pub write : Pending → Action (Unit {0})
write p = rollback_on_error (modify (add_decision p.decision) >> commit_events p.events)

unfoldable pub create_risk_decision : Request → Action RiskDecision
create_risk_decision r = do p ← prepare r; write p; gets (λ s. canonicalize s.world p.decision)
