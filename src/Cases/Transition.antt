-- ===== src/Cases/Transition.antt =====
-- `CaseService.transition` (src/vulnops/cases/service.py): what it reads and prepares, and what it
-- writes, so that the writes of two callers that read the same row can be put in any order.
pub mod Effect
pub mod Conflict
pub mod Returns
use vulnops_hub.Prelude.{
  ℕ, suc, ◌+◌, String, Bool, true, false, not, ◌&&◌, ◌||◌, Option, none, some, List, [], ◌∷◌, ◌++◌,
  any, ◌==◌, ltb, str_eq, update, truthy, if◌then◌else◌, concat,
}
use vulnops_hub.Db.{
  CaseStatus, status_text, Datetime, Database, RemediationCase, AuditEvent, OutboxEvent, Json, null,
  text, texts, optional_text,
}
use vulnops_hub.Session.{
  Session, Action, Result, ok, err, Error, value_error, storage_error, pure, raise, gets, lift,
  modify, utcnow, uuid4, generated_id, rollback, commit, raise_if, rollback_on_storage_error, ◌>>=◌,
  ◌>>◌, add_audit, add_outbox, update_case, has_case_id, transition_not_allowed, version_conflict,
}
use vulnops_hub.Cases.Workflow.{is_allowed}
use vulnops_hub.Cases.Actor.{
  ActorContext, ActorFields, actor_audit_fields, correlation_or_new, trace_payload,
}
use vulnops_hub.Cases.Expiry.{ensure_aware, compare_instant}
use vulnops_hub.Cases.Load.{get_case}
use vulnops_hub.Cases.Events.{Events, describe, commit_events}
use vulnops_hub.Cases.Keys.{has_version}

-- The dict `extra`: the key `assignee` may be absent, or hold `None`.
pub record Extra : Type 0 where
  pub assignee : Option (Option String)
  pub evidence_ids : Option (List String)

-- The arguments of the call.
pub record Request : Type 0 where
  pub case_id : String
  pub target : CaseStatus
  pub actor : String
  pub reason : Option String
  pub extra : Option Extra
  pub expected_version : Option ℕ
  pub context : ActorContext

-- What the call has read and built before it writes.
pub record Plan : Type 0 where
  pub loaded : RemediationCase
  pub now : ℕ
  pub sla_breached : Bool
  pub events : Events

-- `reason or f"{prior}->{target}"`
abbrev reason_or_arrow : Option String → CaseStatus → CaseStatus → String
reason_or_arrow (some (String.◌∷◌ c s)) prior target = String.◌∷◌ c s
reason_or_arrow _ prior target = concat (status_text prior) (concat "->" (status_text target))

-- `sla_breached`, once the due date is compared with the clock
unfoldable pub breach_flag : RemediationCase → ℕ → Result Bool
breach_flag c now = elim c.due_at [
  | none ↦ ok c.sla_breached
  | some due ↦ elim (compare_instant ltb (ensure_aware due) now) [
    | ok overdue ↦ ok (overdue || c.sla_breached)
    | err e ↦ err e
  ]
]

-- `extra.get("assignee") if extra and "assignee" in extra else case.assignee`
abbrev new_assignee : Option Extra → Option String → Option String
new_assignee none old = old
new_assignee (some e) old = elim e.assignee [ none ↦ old | some a ↦ a ]

abbrev evidence_json : Option Extra → Json
evidence_json none = null
evidence_json (some e) = elim e.evidence_ids [ none ↦ null | some ids ↦ texts ids ]

abbrev audit_row : Request → RemediationCase → ActorFields → String → String → AuditEvent
audit_row r c fields correlation id = record {
  id = id;
  actor = r.actor;
  action = "case.transitioned";
  subject_type = "case";
  subject_id = r.case_id;
  prior_state = some (status_text c.status);
  new_state = some (status_text r.target);
  reason = some (reason_or_arrow r.reason c.status r.target);
  correlation_id = some correlation;
  request_id = r.context.request_id;
  organization_id = c.organization_id;
  actor_provenance = fields.provenance;
  actor_principal_type = fields.principal_type;
  actor_roles = some fields.roles;
  actor_scopes = some fields.scopes;
}

abbrev outbox_row : Request → RemediationCase → ActorFields → String → String → OutboxEvent
outbox_row r c fields correlation id = record {
  id = id;
  aggregate_type = "case";
  aggregate_id = r.case_id;
  event_type = "vulnops.case.transitioned.v1";
  payload =
      ("from", text (status_text c.status))
      ∷ ("to", text (status_text r.target))
      ∷ ("reason", optional_text r.reason)
      ∷ ("evidence_ids", evidence_json r.extra)
      ∷ trace_payload fields r.actor c.organization_id r.context.request_id correlation;
  correlation_id = correlation;
  delivered_at = none;
  attempts = 0;
}

-- The part of the call before its first write, once the row is loaded.
unfoldable pub prepare_from : Request → RemediationCase → Action Plan
prepare_from r c = do
  raise_if (not (is_allowed c.status r.target)) (transition_not_allowed c.status r.target)
  now ← utcnow
  breached ← lift (breach_flag c now)
  fields ← actor_audit_fields r.context
  events ← describe r.context.correlation_id (λ correlation audit_id outbox_id. record {
    audit = audit_row r c fields correlation audit_id;
    outbox = outbox_row r c fields correlation outbox_id;
  })
  pure (record { loaded = c; now = now; sla_breached = breached; events = events })

unfoldable pub prepare : Request → Action Plan
prepare r = get_case r.case_id >>= prepare_from r

-- The columns that the call sets, with the version that it writes.
abbrev pub moved : Request → Plan → ℕ → RemediationCase → RemediationCase
moved r plan version row = record row {
  status = r.target;
  version = version;
  assignee = new_assignee r.extra plan.loaded.assignee;
  updated_at = plan.now;
  sla_breached = plan.sla_breached;
}

abbrev update_version : String → ℕ → (RemediationCase → RemediationCase) → Database → Database
update_version case_id expected f db = record db {
  cases = update (has_version case_id expected) f db.cases;
}

-- After `UPDATE` has matched no row.
abbrev pub report_conflict : String → ℕ → Action (Unit {0})
report_conflict case_id expected = do
  rollback
  current ← get_case case_id
  raise (value_error (version_conflict expected current.version))

abbrev swap_or_conflict : Request → Plan → ℕ → Bool → Action (Unit {0})
swap_or_conflict r plan expected true = do
  modify (update_version r.case_id expected (moved r plan (expected + 1)))
  commit_events plan.events
swap_or_conflict r plan expected false = report_conflict r.case_id expected

unfoldable pub write_by : Request → Plan → Option ℕ → Action (Unit {0})
write_by r plan (some expected) = do
  matched ← gets (λ s. any (has_version r.case_id expected) s.working.cases)
  swap_or_conflict r plan expected matched
write_by r plan none = do
  modify (update_case r.case_id (moved r plan (plan.loaded.version + 1)))
  commit_events plan.events

-- The `try` block.
unfoldable pub write : Request → Plan → Action (Unit {0})
write r plan = rollback_on_storage_error (write_by r plan r.expected_version)

unfoldable pub transition : Request → Action RemediationCase
transition r = do plan ← prepare r; write r plan; get_case r.case_id
