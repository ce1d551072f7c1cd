-- ===== src/Cases/Verify.antt =====
-- `CaseService.verify` (src/vulnops/cases/service.py).
pub mod Pending
pub mod Effect
use vulnops_hub.Prelude.{
  ℕ, ◌+◌, String, Bool, true, false, not, Option, none, some, List, [], ◌∷◌, if◌then◌else◌,
}
use vulnops_hub.Db.{
  CaseStatus, awaiting_verification, closed, status_eq, Method, scanner, wazuh_inventory,
  manual_attestation, vex, unlisted_method, Coverage, RemediationCase, Verification,
  VerificationStatus, verified_closed, requires_approval, insufficient_evidence, AuditEvent,
  OutboxEvent, Json, null, text, texts, coverage_dict,
}
use vulnops_hub.Session.{
  Action, pure, modify, utcnow, generated_id, commit, raise_if, ◌>>=◌, ◌>>◌, add_verification,
  add_audit, add_outbox, update_case, verification_not_allowed,
}
use vulnops_hub.Cases.Workflow.{CoverageReason, evaluate_coverage, reason_text}
use vulnops_hub.Cases.Actor.{
  ActorContext, ActorFields, actor_audit_fields, correlation_or_new, trace_payload,
}
use vulnops_hub.Cases.Events.{Events, describe, commit_events}
use vulnops_hub.Cases.Load.{get_case}

-- The arguments of the call.
pub record Request : Type 0 where
  pub case_id : String
  pub method : Method
  pub evidence_ids : List String
  pub coverage : Option Coverage
  pub actor : String
  pub asserted_result : Option String
  pub context : ActorContext

abbrev method_text : Method → String
method_text scanner = "scanner"
method_text wazuh_inventory = "wazuh_inventory"
method_text manual_attestation = "manual_attestation"
method_text vex = "vex"
method_text (unlisted_method s) = s

-- The status of the verification, by whether its coverage can close the case.
unfoldable pub outcome : Bool → Method → VerificationStatus
outcome true method = verified_closed
outcome false manual_attestation = requires_approval
outcome false _ = insufficient_evidence

abbrev verification_text : VerificationStatus → String
verification_text verified_closed = "closed"
verification_text requires_approval = "requires_approval"
verification_text insufficient_evidence = "insufficient_evidence"

abbrev audit_action : VerificationStatus → String
audit_action verified_closed = "verification.completed"
audit_action requires_approval = "verification.requires_approval"
audit_action insufficient_evidence = "verification.failed"

abbrev outbox_type : VerificationStatus → String
outbox_type verified_closed = "vulnops.verification.completed.v1"
outbox_type requires_approval = "vulnops.verification.requires_approval.v1"
outbox_type insufficient_evidence = "vulnops.verification.failed.v1"

abbrev coverage_json : Option Coverage → Json
coverage_json none = null
coverage_json (some c) = coverage_dict c

abbrev pub verification_row : Request → VerificationStatus → String → Verification
verification_row r status id = record {
  id = id;
  case_id = r.case_id;
  method = r.method;
  asserted_result = r.asserted_result;
  evidence_ids = r.evidence_ids;
  coverage = r.coverage;
  status = status;
}

abbrev audit_row :
    Request
    → RemediationCase
    → VerificationStatus
    → String
    → ActorFields
    → String
    → String
    → AuditEvent
audit_row r c status reason fields correlation id = record {
  id = id;
  actor = r.actor;
  action = audit_action status;
  subject_type = "case";
  subject_id = r.case_id;
  prior_state = none;
  new_state = none;
  reason = some reason;
  correlation_id = some correlation;
  request_id = r.context.request_id;
  organization_id = c.organization_id;
  actor_provenance = fields.provenance;
  actor_principal_type = fields.principal_type;
  actor_roles = some fields.roles;
  actor_scopes = some fields.scopes;
}

abbrev outbox_row :
    Request
    → RemediationCase
    → VerificationStatus
    → String
    → ActorFields
    → String
    → String
    → OutboxEvent
outbox_row r c status reason fields correlation id = record {
  id = id;
  aggregate_type = "case";
  aggregate_id = r.case_id;
  event_type = outbox_type status;
  payload =
      ("method", text (method_text r.method))
      ∷ ("evidence_ids", texts r.evidence_ids)
      ∷ ("coverage", coverage_json r.coverage)
      ∷ ("status", text (verification_text status))
      ∷ ("reason", text reason)
      ∷ trace_payload fields r.actor c.organization_id r.context.request_id correlation;
  correlation_id = correlation;
  delivered_at = none;
  attempts = 0;
}

abbrev pub verify_events :
    Request
    → RemediationCase
    → VerificationStatus
    → String
    → ActorFields
    → String
    → String
    → String
    → Events
verify_events r c status reason fields correlation audit_id outbox_id = record {
  audit = audit_row r c status reason fields correlation audit_id;
  outbox = outbox_row r c status reason fields correlation outbox_id;
}

abbrev pub closed_row : RemediationCase → String → ℕ → RemediationCase → RemediationCase
closed_row c reason now row = record row {
  status = closed;
  version = c.version + 1;
  closure_reason = some reason;
  updated_at = now;
}

-- The assignments to the case when its coverage can close it. They are pending until the commit.
unfoldable pub close_if : Bool → RemediationCase → String → String → Action (Unit {0})
unfolding pure
close_if true c case_id reason = do
  now ← utcnow
  modify (update_case case_id (closed_row c reason now))
close_if false c case_id reason = pure tt

-- The end of the call: its two events, and the commit.
unfoldable pub record_outcome :
    Request → RemediationCase → VerificationStatus → String → Verification → Action Verification
record_outcome r c status reason verification = do
  fields ← actor_audit_fields r.context
  events ← describe r.context.correlation_id (verify_events r c status reason fields)
  commit_events events
  pure verification

-- The call behind its guard, once the coverage is evaluated.
unfoldable pub verify_from : Request → RemediationCase → Bool × CoverageReason → Action Verification
unfolding outcome
verify_from r c (can_close, reason) = do
  verification_id ← generated_id "ver_" 12
  close_if can_close c r.case_id (reason_text reason)
  modify (add_verification (verification_row r (outcome can_close r.method) verification_id))
  record_outcome r c (outcome can_close r.method) (reason_text reason)
      (verification_row r (outcome can_close r.method) verification_id)

unfoldable pub verify : Request → Action Verification
verify r = do
  c ← get_case r.case_id
  raise_if (not (status_eq c.status awaiting_verification)) (verification_not_allowed c.status)
  verify_from r c (evaluate_coverage r.method r.coverage)
