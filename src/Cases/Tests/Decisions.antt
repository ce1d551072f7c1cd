-- ===== src/Cases/Tests/Decisions.antt =====
-- Runs of requests, approvals, revocations and expiries of risk decisions
-- (src/vulnops/cases/service.py).
use vulnops_hub.Prelude.{
  false, none, some, [], ◌∷◌, ◌≡◌, refl, select, any, length, lower, strip, sorted_set,
}
use vulnops_hub.Db.{
  closed, risk_accepted, triage, pending_approval, approved, RiskDecision, authenticated_claim,
  risk_acceptance, evidence_list, evidence_text,
}
use vulnops_hub.Session.{
  decision_transition_not_allowed, ok, err, value_error, no_longer_pending, run,
}
use vulnops_hub.Session.Steps.{returned}
use vulnops_hub.Cases.Workflow.{is_allowed}
use vulnops_hub.Cases.Actor.{actor_audit_fields, correlation_or_new, approval_role, can_approve}
use vulnops_hub.Cases.Expiry.{
  ensure_aware, utcoffset, safe_utcoffset, normalize_utc, compare_instant, validate_evidence_ids,
  require_future, validate_request_expiry, validate_risk_decision_request,
  validate_risk_decision_expiry,
}
use vulnops_hub.Cases.Load.{get_case, canonicalize_expiry, canonicalize, get_risk_decision}
use vulnops_hub.Cases.Events.{describe, describe_system, add_events, commit_events}
use vulnops_hub.Cases.Request as Request
use vulnops_hub.Cases.Request.{create_risk_decision}
use vulnops_hub.Cases.Request.Effect.{Requests, create_risk_decision-Requests}
use vulnops_hub.Cases.Approve as Approve
use vulnops_hub.Cases.Approve.{Approval, Plan, approves, approve_risk_decision}
use vulnops_hub.Cases.Approve.Atomic.{write-rolls_back}
use vulnops_hub.Cases.Approve.Once.{Decides, approve-Decides, decide_once}
use vulnops_hub.Cases.Expire.{
  has_expired, select_expired, return_to_triage, expire_decision, expire_all, process_expirations,
}
use vulnops_hub.Cases.Expire.Effect.{is_due, process_expirations-none_due}
use vulnops_hub.Cases.Tests.Rows.{case_at, decision_at, expiry_at, start, human_context}

abbrev approval : Approval
approval = record {
  decision_id = "rdec_a";
  outcome = some " Approve";
  reason = some "agreed";
  actor = "carol";
  principal_type = "human";
  capabilities = "risk:approve" ∷ [];
  context = human_context authenticated_claim;
}

abbrev approved_row : RiskDecision
approved_row = record (decision_at "rdec_a" "case_a" approved (expiry_at 9000)) {
  approver = some "carol";
  approver_role = some "risk_approver";
  approver_provenance = some authenticated_claim;
  approver_principal_type = some "human";
  decided_at = some 1000;
  updated_at = 1000;
}

approval_returns : (approve_risk_decision approval start).0 ≡ ok approved_row
unfolding approve_risk_decision Approve.prepare Approve.prepare_from Approve.validate_approval
    Approve.write Approve.write_body Approve.claim_decision Approve.move_case Approve.target_state
    run is_allowed actor_audit_fields correlation_or_new approval_role can_approve ensure_aware
    utcoffset safe_utcoffset normalize_utc compare_instant validate_evidence_ids require_future
    validate_risk_decision_expiry get_case canonicalize_expiry canonicalize get_risk_decision
    describe commit_events lower strip sorted_set
approval_returns = refl

approve-Decides_example : Decides approval start (approve_risk_decision approval start).1
approve-Decides_example =
    approve-Decides approval start (approve_risk_decision approval start).1 approved_row
      (returned (approve_risk_decision approval start) approved_row approval_returns)

abbrev plan : Plan
plan = record {
  decision = decision_at "rdec_a" "case_a" pending_approval (expiry_at 9000);
  loaded = case_at "case_a" triage;
  outcome = approves;
  role = "risk_approver";
  fields = record {
    provenance = authenticated_claim;
    principal_type = some "human";
    roles = "risk_approver" ∷ [];
    scopes = [];
  };
  now = 1000;
}

first_decides : (Approve.write approval plan start).0 ≡ ok tt
unfolding Approve.write Approve.write_body Approve.claim_decision Approve.move_case
    Approve.target_state run is_allowed describe correlation_or_new commit_events
first_decides = refl

decide_once_example : Approve.write approval plan (Approve.write approval plan start).1 ≡ (
  err (value_error no_longer_pending),
  record ((Approve.write approval plan start).1) {
    working = (Approve.write approval plan start).1.committed;
  },
)
decide_once_example =
    decide_once approval approval plan plan start (Approve.write approval plan start).1 refl
      (returned (Approve.write approval plan start) tt first_decides)

abbrev closed_plan : Plan
closed_plan = record plan { loaded = case_at "case_c" closed }

edge_refused :
    (Approve.write approval closed_plan start).0
    ≡ err (value_error (decision_transition_not_allowed closed risk_accepted risk_acceptance))
unfolding Approve.write Approve.write_body Approve.claim_decision Approve.move_case
    Approve.target_state run is_allowed describe correlation_or_new commit_events
edge_refused = refl

write-rolls_back_example :
    ((Approve.write approval closed_plan start).1.committed ≡ start.committed)
    × ((Approve.write approval closed_plan start).1.working ≡ start.committed)
write-rolls_back_example =
    write-rolls_back approval closed_plan start
      (value_error (decision_transition_not_allowed closed risk_accepted risk_acceptance))
      edge_refused

abbrev request : Request.Request
request = record {
  case_id = "case_a";
  type = risk_acceptance;
  reason = some "no fix yet";
  expires_at = expiry_at 9000;
  compensating_controls = none;
  evidence_ids = evidence_list (evidence_text "ev_1" ∷ []);
  requested_by = "bob";
  approver = none;
  approver_role = none;
  actor = "bob";
  scope = none;
  context = human_context authenticated_claim;
}

abbrev requested_row : RiskDecision
requested_row =
    record (decision_at "rdec_0123456789ab" "case_a" pending_approval (expiry_at 9000)) {
      updated_at = 1001;
    }

request_returns : (create_risk_decision request start).0 ≡ ok requested_row
unfolding create_risk_decision Request.prepare Request.write run actor_audit_fields
    correlation_or_new ensure_aware utcoffset safe_utcoffset normalize_utc compare_instant
    validate_evidence_ids require_future validate_request_expiry validate_risk_decision_request
    get_case canonicalize_expiry canonicalize commit_events sorted_set strip
request_returns = refl

create_risk_decision-Requests_example :
    Requests request start (create_risk_decision request start).1 requested_row
create_risk_decision-Requests_example =
    create_risk_decision-Requests request start (create_risk_decision request start).1 requested_row
      (returned (create_risk_decision request start) requested_row request_returns)

expiry_returns : (process_expirations 1000 start).0 ≡ ok 1
unfolding process_expirations expire_all expire_decision return_to_triage select_expired has_expired
    ensure_aware compare_instant get_case run describe_system add_events
expiry_returns = refl

process_expirations-none_due_example :
    (1 ≡ length (select (is_due 1000) start.working.decisions))
    × (any (is_due 1000) (process_expirations 1000 start).1.committed.decisions ≡ false)
    × ((process_expirations 1000 start).1.committed ≡ (process_expirations 1000 start).1.working)
process_expirations-none_due_example =
    process_expirations-none_due 1000 1 start (process_expirations 1000 start).1
      (returned (process_expirations 1000 start) 1 expiry_returns)
