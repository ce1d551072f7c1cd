-- ===== src/Cases/Create.antt =====
-- `CaseService.create_case` (src/vulnops/cases/service.py).
pub mod Writing
pub mod Effect
pub mod Returns
use vulnops_hub.Prelude.{
  ℕ, String, Bool, true, false, ◌&&◌, Option, none, some, List, [], ◌∷◌, ◌++◌, map, find, concat,
  first_chars, upper,
}
use vulnops_hub.Db.{
  CaseStatus, new, status_text, Priority, p0, p1, p2, p3, p4, unlisted_priority, legacy_request,
  RemediationCase, SlaClock, AuditEvent, OutboxEvent, Json, text, texts, flag, Datetime,
}
use vulnops_hub.Session.{
  Session, Action, Result, storage_error, pure, raise, gets, lift, modify, utcnow, uuid4,
  generated_id, commit, rollback_on_error, ◌>>=◌, ◌>>◌, add_case, add_clock, add_audit, add_outbox,
  has_case_id,
}
use vulnops_hub.Cases.Workflow.{calculate_due_date}
use vulnops_hub.Cases.Ownership.{
  ResolvedOwner, is_default, default_team, resolve_case_owner, linked_assets, choose_owner,
}

-- The arguments of the call.
pub record Request : Type 0 where
  pub organization_id : String
  pub title : String
  pub owner_team : Option String
  pub priority : Priority
  pub exposures : List String
  pub policy_version : Option String
  pub assignee : Option String
  pub asset_id : Option String

abbrev pub priority_text : Priority → String
priority_text p0 = "P0"
priority_text p1 = "P1"
priority_text p2 = "P2"
priority_text p3 = "P3"
priority_text p4 = "P4"
priority_text (unlisted_priority s) = s

-- `priority in {"P0", "P1"}`
abbrev pub is_high : Priority → Bool
is_high p0 = true
is_high p1 = true
is_high _ = false

-- The owner of the case, from the rows that the session sees and the settings.
unfoldable pub owner_of : Request → Session → Result ResolvedOwner
owner_of r s =
    let team = default_team s.world.default_case_owner_team in
    choose_owner team r.owner_team (
      map
        (λ id.
          resolve_case_owner s.working r.organization_id (some id) (some team)
            s.world.default_case_owner_team)
        (linked_assets s.working r.organization_id r.asset_id r.exposures))

-- `_gen_case_key()`
unfoldable pub case_key : Action String
case_key = do id ← uuid4; pure (concat "CASE-" (upper (first_chars 8 id)))

abbrev pub escalates : Request → ResolvedOwner → Bool
escalates r owner = is_high r.priority && is_default owner.source

abbrev pub new_case : Request → ResolvedOwner → String → String → ℕ → RemediationCase
new_case r owner id key now = record {
  id = id;
  case_key = key;
  title = r.title;
  organization_id = r.organization_id;
  owner_team = owner.owner_team;
  assignee = r.assignee;
  priority = r.priority;
  policy_version = r.policy_version;
  status = new;
  version = 1;
  due_at = some (calculate_due_date r.priority now);
  sla_breached = false;
  ownership_escalated = escalates r owner;
  closure_reason = none;
  exposures = r.exposures;
  external_ticket_id = none;
  updated_at = now;
}

abbrev pub audit_row : RemediationCase → String → String → String → String → String → AuditEvent
audit_row c action new_state reason correlation id = record {
  id = id;
  actor = "system";
  action = action;
  subject_type = "case";
  subject_id = c.id;
  prior_state = none;
  new_state = some new_state;
  reason = some reason;
  correlation_id = some correlation;
  request_id = none;
  organization_id = c.organization_id;
  actor_provenance = legacy_request;
  actor_principal_type = none;
  actor_roles = none;
  actor_scopes = none;
}

abbrev pub created_event : RemediationCase → String → String → OutboxEvent
created_event c correlation id = record {
  id = id;
  aggregate_type = "case";
  aggregate_id = c.id;
  event_type = "vulnops.case.created.v1";
  payload =
      ("case_id", text c.id)
      ∷ ("priority", text (priority_text c.priority))
      ∷ ("owner_team", text c.owner_team)
      ∷ ("ownership_escalated", flag c.ownership_escalated)
      ∷ ("exposures", texts c.exposures)
      ∷ [];
  correlation_id = correlation;
  delivered_at = none;
  attempts = 0;
}

abbrev pub sla_clock : RemediationCase → Datetime → String → SlaClock
sla_clock c due id = record { id = id; case_id = c.id; phase = "remediation"; due_at = due }

-- The second audit row, where the case is escalated.
abbrev pub escalation_row : RemediationCase → String → String → AuditEvent
escalation_row c correlation id =
    audit_row c "case.ownership.unassigned_high_priority" "unassigned"
      (concat (priority_text c.priority) " case created without an asset or business-service owner")
      correlation id

unfoldable pub audit_escalation : Bool → RemediationCase → String → Action (Unit {0})
unfolding pure
audit_escalation false c correlation = pure tt
audit_escalation true c correlation = do
  id ← generated_id "aud_" 12
  modify (add_audit (escalation_row c correlation id))

-- The `try` block.
unfoldable pub write : RemediationCase → Datetime → Action (Unit {0})
write c due = rollback_on_error (do
  modify (add_case c)
  clock_id ← generated_id "sla_" 8
  modify (add_clock (sla_clock c due clock_id))
  correlation ← uuid4
  audit_id ← generated_id "aud_" 12
  modify
      (add_audit (audit_row c "case.created" (status_text new) "case created" correlation audit_id))
  audit_escalation c.ownership_escalated c correlation
  outbox_id ← generated_id "evt_" 12
  modify (add_outbox (created_event c correlation outbox_id))
  commit)

-- `session.refresh(case)`, which raises where the row is gone
unfoldable pub refresh : String → Action RemediationCase
refresh id = do
  row ← gets (λ s. find (has_case_id id) s.working.cases)
  elim row [ none ↦ raise storage_error | some c ↦ pure c ]

unfoldable pub create_case : Request → Action RemediationCase
create_case r = do
  resolved ← gets (owner_of r)
  owner ← lift resolved
  id ← generated_id "case_" 12
  now ← utcnow
  key ← case_key
  write (new_case r owner id key now) (calculate_due_date r.priority now)
  refresh id
