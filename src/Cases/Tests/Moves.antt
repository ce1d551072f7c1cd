-- ===== src/Cases/Tests/Moves.antt =====
-- Runs of transitions, verifications and reopenings (src/vulnops/cases/service.py).
use vulnops_hub.Prelude.{ℕ, true, false, Option, none, some, [], ◌∷◌, ◌≡◌, refl}
use vulnops_hub.Db.{
  triage, assigned, closed, reopened, awaiting_verification, RemediationCase, Verification,
  Provenance, authenticated_claim, unlisted_provenance, scanner, verified_closed, Coverage,
}
use vulnops_hub.Session.{Session, ok, err, value_error, version_conflict, run}
use vulnops_hub.Session.Steps.{returned}
use vulnops_hub.Cases.Workflow.{is_allowed, evaluate_coverage, evaluate_method, reason_text}
use vulnops_hub.Cases.Actor.{actor_audit_fields, correlation_or_new}
use vulnops_hub.Cases.Load.{get_case}
use vulnops_hub.Cases.Events.{describe, commit_events}
use vulnops_hub.Cases.Transition.{
  breach_flag, prepare, prepare_from, write, write_by, transition, Plan,
}
use vulnops_hub.Cases.Transition as Transition
use vulnops_hub.Cases.Transition.Effect.{Moves, transition-Moves}
use vulnops_hub.Cases.Transition.Conflict.{write_once, transition-atomic}
use vulnops_hub.Cases.Transition.Returns.{transition-returns}
use vulnops_hub.Cases.Keys.{HasKeys}
use vulnops_hub.Cases.Verify as Verify
use vulnops_hub.Cases.Verify.{verify, verify_from, record_outcome, close_if, verification_row}
use vulnops_hub.Cases.Verify.Effect.{Verifies, verify-Verifies, LeavesClosed, verify-LeavesClosed}
use vulnops_hub.Cases.Reopen.{system_audit}
use vulnops_hub.Cases.Create.{created_event}
use vulnops_hub.Cases.Tests.Rows.{case_at, start, human_context}

abbrev assign : Option ℕ → Transition.Request
assign expected = record {
  case_id = "case_a";
  target = assigned;
  actor = "alice";
  reason = none;
  extra = none;
  expected_version = expected;
  context = human_context authenticated_claim;
}

abbrev assigned_case : RemediationCase
assigned_case = record (case_at "case_a" triage) {
  status = assigned;
  version = 4;
  updated_at = 1000;
}

assign_returns : (transition (assign (some 3)) start).0 ≡ ok assigned_case
unfolding transition prepare prepare_from write write_by run is_allowed breach_flag
    actor_audit_fields describe commit_events correlation_or_new get_case
assign_returns = refl

start_keys : HasKeys start.working.cases
start_keys = (refl, (refl, (refl, tt)))

transition-Moves_example :
    Moves (assign (some 3)) start (transition (assign (some 3)) start).1 assigned_case
transition-Moves_example =
    transition-Moves (assign (some 3)) start (transition (assign (some 3)) start).1 assigned_case
      start_keys (returned (transition (assign (some 3)) start) assigned_case assign_returns)

not_overdue : breach_flag (case_at "case_a" triage) 1000 ≡ ok false
unfolding breach_flag
not_overdue = refl

assignment_allowed : is_allowed triage assigned ≡ true
unfolding is_allowed
assignment_allowed = refl

transition-returns_example :
    (c' : RemediationCase) × (t : Session) × (transition (assign (some 3)) start ≡ (ok c', t))
transition-returns_example =
    transition-returns (assign (some 3)) start (case_at "case_a" triage) false start_keys refl
      assignment_allowed refl not_overdue refl refl

abbrev plan : Plan
plan = record {
  loaded = case_at "case_a" triage;
  now = 1000;
  sla_breached = false;
  events = record {
    audit = system_audit "alice" "case.transitioned" (case_at "case_a" triage) assigned "r" "c" "a";
    outbox = created_event (case_at "case_a" triage) "c" "e";
  };
}

first_writes : (write (assign (some 3)) plan start).0 ≡ ok tt
unfolding write write_by run commit_events get_case
first_writes = refl

write_once_example :
    ((write (assign (some 3)) plan (write (assign (some 3)) plan start).1).0
      ≡ err (value_error (version_conflict 3 4)))
    × ((write (assign (some 3)) plan (write (assign (some 3)) plan start).1).1.committed
        ≡ (write (assign (some 3)) plan start).1.committed)
write_once_example =
    write_once (assign (some 3)) (assign (some 3)) plan plan 3 start
      (write (assign (some 3)) plan start).1 start_keys refl refl refl refl
      (returned (write (assign (some 3)) plan start) tt first_writes)

stale_raises : (transition (assign (some 2)) start).0 ≡ err (value_error (version_conflict 2 3))
unfolding transition prepare prepare_from write write_by run is_allowed breach_flag
    actor_audit_fields describe commit_events correlation_or_new get_case
stale_raises = refl

transition-atomic_example : (transition (assign (some 2)) start).1.committed ≡ start.committed
transition-atomic_example =
    transition-atomic (assign (some 2)) start (value_error (version_conflict 2 3)) start_keys
      stale_raises

abbrev full_scan : Coverage
full_scan = record {
  status = some "complete";
  scope_version = some "v2";
  scope = none;
  freshness_seconds = none;
  other_keys = false;
}

abbrev scan : Provenance → Verify.Request
scan provenance = record {
  case_id = "case_b";
  method = scanner;
  evidence_ids = "ev_2" ∷ [];
  coverage = some full_scan;
  actor = "alice";
  asserted_result = some "fixed";
  context = human_context provenance;
}

abbrev scan_row : Verification
scan_row = verification_row (scan authenticated_claim) verified_closed "ver_0123456789ab"

scan_returns : (verify (scan authenticated_claim) start).0 ≡ ok scan_row
unfolding verify verify_from record_outcome close_if Verify.outcome run evaluate_coverage
    evaluate_method actor_audit_fields describe commit_events correlation_or_new get_case
    reason_text
scan_returns = refl

verify-Verifies_example :
    Verifies (scan authenticated_claim) start (verify (scan authenticated_claim) start).1 scan_row
verify-Verifies_example =
    verify-Verifies (scan authenticated_claim) start (verify (scan authenticated_claim) start).1
      scan_row (returned (verify (scan authenticated_claim) start) scan_row scan_returns)

coverage_accepts : (evaluate_coverage scanner (some full_scan)).0 ≡ true
unfolding evaluate_coverage evaluate_method
coverage_accepts = refl

verify-LeavesClosed_example :
    LeavesClosed
      (scan (unlisted_provenance "x"))
      (case_at "case_b" awaiting_verification)
      (reason_text (evaluate_coverage scanner (some full_scan)).1)
      start
      (verify (scan (unlisted_provenance "x")) start)
verify-LeavesClosed_example =
    verify-LeavesClosed (scan (unlisted_provenance "x")) start
      (case_at "case_b" awaiting_verification) "x" refl refl coverage_accepts refl

abbrev reopened_case : RemediationCase
reopened_case = record (case_at "case_c" closed) { status = reopened; version = 4 }
