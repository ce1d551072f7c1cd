-- ===== src/Cases/Approve.antt =====
-- `CaseService.approve_risk_decision` (src/vulnops/cases/service.py): the decision on a request.
pub mod Atomic
pub mod Effect
pub mod Loaded
pub mod Decided
pub mod Once
use vulnops_hub.Prelude.{
  ℕ, ◌+◌, String, Bool, true, false, not, ◌&&◌, ◌||◌, Option, none, some, List, [], ◌∷◌, ◌++◌, any,
  update, str_eq, truthy, strip, lower, if◌then◌else◌,
}
use vulnops_hub.Db.{
  CaseStatus, risk_accepted, not_applicable, status_text, Database, DecisionType, risk_acceptance,
  waiver, compensating_control, false_positive, not_affected, unlisted_type, DecisionStatus,
  pending_approval, approved, rejected, RemediationCase, RiskDecision, AuditEvent, OutboxEvent,
  Json, text, number, expiry,
}
use vulnops_hub.Session.{
  Action, pure, raise, gets, modify, utcnow, rollback_on_error, raise_if, or_raise, value_error,
  ◌>>=◌, ◌>>◌, update_case, has_decision_id, no_longer_pending, not_human, no_capability,
  self_approval, bad_outcome, approval_reason_required, no_approver_role, unsupported_type,
  reason_required, decision_transition_not_allowed,
}
use vulnops_hub.Cases.Workflow.{is_allowed}
use vulnops_hub.Cases.Actor.{
  ActorContext, ActorFields, actor_audit_fields, approval_role, can_approve, trace_payload,
}
use vulnops_hub.Cases.Expiry.{
  has_content, is_supported, validate_evidence_ids, validate_risk_decision_expiry,
}
use vulnops_hub.Cases.Events.{Events, describe, commit_events}
use vulnops_hub.Cases.Load.{get_case, get_risk_decision}
use vulnops_hub.Cases.Request.{type_text}

-- The arguments of the call. `outcome` is `none` where it is no text.
pub record Approval : Type 0 where
  pub decision_id : String
  pub outcome : Option String
  pub reason : Option String
  pub actor : String
  pub principal_type : String
  pub capabilities : List String
  pub context : ActorContext

pub data Outcome : Type 0 where
  approves rejects : Outcome

abbrev normalized_outcome : String → Option Outcome
normalized_outcome s =
    if str_eq s "approve" then some approves else if str_eq s "reject" then some rejects else none

abbrev read_outcome : Option String → Option Outcome
read_outcome none = none
read_outcome (some s) = normalized_outcome (lower (strip s))

-- `target_state_map[decision.type]`
unfoldable pub target_state : DecisionType → CaseStatus
target_state false_positive = not_applicable
target_state not_affected = not_applicable
target_state _ = risk_accepted

-- `audit_action_map.get(decision.type, "risk.accepted")`
abbrev approval_action : DecisionType → String
approval_action waiver = "risk.waiver.accepted"
approval_action compensating_control = "risk.compensating_control.accepted"
approval_action false_positive = "risk.false_positive.accepted"
approval_action not_affected = "risk.not_affected.accepted"
approval_action _ = "risk.accepted"

abbrev outcome_text : Outcome → String
outcome_text approves = "approve"
outcome_text rejects = "reject"

abbrev pub next_status : Outcome → DecisionStatus
next_status approves = approved
next_status rejects = rejected

abbrev audit_action : Outcome → DecisionType → String
audit_action approves type = approval_action type
audit_action rejects type = "risk.decision.rejected"

abbrev outbox_type : Outcome → String
outbox_type approves = "vulnops.risk-decision.accepted.v1"
outbox_type rejects = "vulnops.risk-decision.rejected.v1"

abbrev pub is_pending : DecisionStatus → Bool
is_pending pending_approval = true
is_pending _ = false

-- What the call has read before it writes.
pub record Plan : Type 0 where
  pub decision : RiskDecision
  pub loaded : RemediationCase
  pub outcome : Outcome
  pub role : String
  pub fields : ActorFields
  pub now : ℕ

-- The checks that only an approval makes, on the stored request.
unfoldable pub validate_approval : Outcome → RiskDecision → Action (Unit {0})
unfolding pure
validate_approval rejects d = pure tt
validate_approval approves d = do
  raise_if (not (is_supported d.type)) unsupported_type
  raise_if (not (has_content d.reason)) reason_required
  validate_evidence_ids d.evidence_ids
  validate_risk_decision_expiry d.expires_at

-- The part of the call before its first write, once the request is loaded.
unfoldable pub prepare_from : Approval → RiskDecision → Action Plan
prepare_from a d = do
  raise_if (not (is_pending d.status)) no_longer_pending
  raise_if (not (str_eq a.principal_type "human")) not_human
  raise_if (not (can_approve a.capabilities)) no_capability
  raise_if (str_eq a.actor d.requested_by) self_approval
  outcome ← or_raise (read_outcome a.outcome) bad_outcome
  raise_if (not (has_content a.reason)) approval_reason_required
  fields ← actor_audit_fields a.context
  role ← or_raise (approval_role a.context.roles) no_approver_role
  c ← get_case d.case_id
  now ← utcnow
  validate_approval outcome d
  pure (record {
    decision = d;
    loaded = c;
    outcome = outcome;
    role = role;
    fields = fields;
    now = now;
  })

unfoldable pub prepare : Approval → Action Plan
prepare a = get_risk_decision a.decision_id >>= prepare_from a

-- `UPDATE ... WHERE id = decision.id AND status = 'pending_approval'`
abbrev pub is_pending_row : String → RiskDecision → Bool
is_pending_row id row = has_decision_id id row && is_pending row.status

abbrev pub decided_row : Approval → Plan → RiskDecision → RiskDecision
decided_row a p row = record row {
  status = next_status p.outcome;
  approver = some a.actor;
  approver_role = some p.role;
  approver_provenance = some a.context.provenance;
  approver_principal_type = some a.principal_type;
  decided_at = some p.now;
  updated_at = p.now;
}

unfoldable pub claim_decision : Approval → Plan → Database → Database
claim_decision a p db = record db {
  decisions = update (is_pending_row p.decision.id) (decided_row a p) db.decisions;
}

abbrev pub approved_case : Plan → RemediationCase → RemediationCase
approved_case p row = record row {
  status = target_state p.decision.type;
  version = p.loaded.version + 1;
  updated_at = p.now;
}

-- The change of the case, which only an approval makes.
unfoldable pub move_case : Outcome → Plan → Action (Unit {0})
unfolding pure
move_case rejects p = pure tt
move_case approves p = do
  raise_if (not (is_allowed p.loaded.status (target_state p.decision.type))) (
      decision_transition_not_allowed p.loaded.status (target_state p.decision.type)
        p.decision.type)
  modify (update_case p.loaded.id (approved_case p))

abbrev when_approved {ℓ} : {A : Type ℓ} → Outcome → A → Option A
when_approved approves x = some x
when_approved rejects x = none

abbrev expiry_entry : Outcome → RiskDecision → List (String × Json)
expiry_entry approves d = ("expires_at", expiry d.expires_at) ∷ []
expiry_entry rejects d = []

abbrev pub approval_events : Approval → Plan → String → String → String → Events
approval_events a p correlation audit_id outbox_id = record {
  audit = record {
    id = audit_id;
    actor = a.actor;
    action = audit_action p.outcome p.decision.type;
    subject_type = "risk_decision";
    subject_id = p.decision.id;
    prior_state = when_approved p.outcome (status_text p.loaded.status);
    new_state = when_approved p.outcome (status_text (target_state p.decision.type));
    reason = a.reason;
    correlation_id = some correlation;
    request_id = a.context.request_id;
    organization_id = p.loaded.organization_id;
    actor_provenance = p.fields.provenance;
    actor_principal_type = p.fields.principal_type;
    actor_roles = some p.fields.roles;
    actor_scopes = some p.fields.scopes;
  };
  outbox = record {
    id = outbox_id;
    aggregate_type = "risk_decision";
    aggregate_id = p.decision.id;
    event_type = outbox_type p.outcome;
    payload =
        (("decision_id", text p.decision.id)
          ∷ ("case_id", text p.loaded.id)
          ∷ ("type", text (type_text p.decision.type))
          ∷ ("outcome", text (outcome_text p.outcome))
          ∷ ("approver", text a.actor)
          ∷ ("approver_role", text p.role)
          ∷ ("decided_at", number p.now)
          ∷ trace_payload p.fields a.actor p.loaded.organization_id a.context.request_id
              correlation)
        ++ expiry_entry p.outcome p.decision;
    correlation_id = correlation;
    delivered_at = none;
    attempts = 0;
  };
}

-- The body of the `try` block: the conditional `UPDATE` decides between contenders.
unfoldable pub write_body : Approval → Plan → Action (Unit {0})
write_body a p = do
  claimed ← gets (λ s. any (is_pending_row p.decision.id) s.working.decisions)
  modify (claim_decision a p)
  raise_if (not claimed) no_longer_pending
  move_case p.outcome p
  events ← describe a.context.correlation_id (approval_events a p)
  commit_events events

unfoldable pub write : Approval → Plan → Action (Unit {0})
write a p = rollback_on_error (write_body a p)

unfoldable pub approve_risk_decision : Approval → Action RiskDecision
approve_risk_decision a = do p ← prepare a; write a p; get_risk_decision a.decision_id
