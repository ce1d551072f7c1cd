-- ===== src/Cases/Create/Effect.antt =====
-- What the creation of a case leaves behind (`CaseService.create_case` of
-- src/vulnops/cases/service.py).
use vulnops_hub.Prelude.{
  ℕ, ◌+◌, ◌*◌, ◌≤◌, String, Bool, true, false, none, some, List, [], ◌∷◌, ◌++◌, find, map, ◌≡◌, ◌↔◌,
  ◌⊎◌, inl, inr, refl, arith,
}
use vulnops_hub.Db.{
  Priority, p0, p1, p2, p3, p4, unlisted_priority, RemediationCase, SlaClock, AuditEvent,
  OutboxEvent, new, utc,
}
use vulnops_hub.Session.{Session, ok, has_case_id}
use vulnops_hub.Cases.Workflow.{calculate_due_date, priority_sla_days}
use vulnops_hub.Cases.Ownership.{
  ResolvedOwner, OwnerSource, default, is_default, default_team, resolve_case_owner, linked_assets,
}
use vulnops_hub.Cases.Ownership.Source.{Chosen, choose_owner-Chosen}
use vulnops_hub.Cases.Create.{
  Request, owner_of, is_high, escalates, created_event, sla_clock, create_case,
}
use vulnops_hub.Cases.Create.Writing.{create_case-Built, audits_of, case_id_of, row_of}

-- The owners that the assets of a request resolve to.
abbrev pub linked_owners : Request → Session → List ResolvedOwner
linked_owners r s =
    map
      (λ id.
        resolve_case_owner s.working r.organization_id (some id)
          (some (default_team s.world.default_case_owner_team)) s.world.default_case_owner_team)
      (linked_assets s.working r.organization_id r.asset_id r.exposures)

-- The case of a request and its owner, which is escalated exactly where it is urgent and nobody
-- but the default owns it.
pub record IsCaseOf (r : Request) (owner : ResolvedOwner) (c : RemediationCase) : Type 0 where
  pub title : c.title ≡ r.title
  pub organization : c.organization_id ≡ r.organization_id
  pub owned : c.owner_team ≡ owner.owner_team
  pub assigned : c.assignee ≡ r.assignee
  pub priority : c.priority ≡ r.priority
  pub policy : c.policy_version ≡ r.policy_version
  pub exposures : c.exposures ≡ r.exposures
  pub is_new : c.status ≡ new
  pub first_version : c.version ≡ 1
  pub in_time : c.sla_breached ≡ false
  pub unexplained : c.closure_reason ≡ none
  pub escalated :
      (c.ownership_escalated ≡ true)
      ↔ (((r.priority ≡ p0) ⊎ (r.priority ≡ p1)) × (owner.source ≡ default))

-- The due date of a case that is created now: of the case and of its clock, in UTC, one day to
-- ninety days ahead.
pub record IsDue (now : ℕ) (c : RemediationCase) (clock : SlaClock) : Type 0 where
  pub due : c.due_at ≡ some clock.due_at
  pub in_utc : clock.due_at.tzinfo ≡ utc
  pub later : now + 86400 ≤ clock.due_at.reading
  pub bounded : clock.due_at.reading ≤ now + 90 * 86400
  pub of_case : clock.case_id ≡ c.id

-- The audit rows of a creation, by whether the case is escalated: each is about the case.
abbrev pub Audited : Bool → RemediationCase → List AuditEvent → Type 0
Audited false c rows =
    (a : AuditEvent) × (rows ≡ a ∷ []) × (a.action ≡ "case.created") × (a.subject_id ≡ c.id)
Audited true c rows =
    (a : AuditEvent) × (b : AuditEvent) × (rows ≡ a ∷ b ∷ [])
    × (a.action ≡ "case.created")
    × (a.subject_id ≡ c.id)
    × (b.action ≡ "case.ownership.unassigned_high_priority")
    × (b.subject_id ≡ c.id)

-- An event that announces a case: not delivered, and never tried.
abbrev pub Announces : RemediationCase → OutboxEvent → Type 0
Announces c e =
    (e.event_type ≡ "vulnops.case.created.v1")
    × (e.aggregate_id ≡ c.id)
    × (e.delivered_at ≡ none)
    × (e.attempts ≡ 0)

-- What a creation that returned `c` has made of the rows.
pub record Creates (r : Request) (s t : Session) (c : RemediationCase) : Type 0 where
  pub owner : ResolvedOwner
  pub chosen :
      Chosen (default_team s.world.default_case_owner_team) r.owner_team (linked_owners r s) owner
  pub row : IsCaseOf r owner c
  pub durable : t.committed ≡ t.working
  pub stored : t.committed.cases ≡ s.working.cases ++ c ∷ []
  pub clock : SlaClock
  pub clock_added : t.committed.clocks ≡ s.working.clocks ++ clock ∷ []
  pub due : IsDue (s.world.clock s.ticks) c clock
  pub rows : List AuditEvent
  pub audited : t.committed.audits ≡ s.working.audits ++ rows
  pub audits : Audited c.ownership_escalated c rows
  pub event : OutboxEvent
  pub announced : t.committed.outbox ≡ s.working.outbox ++ event ∷ []
  pub announces : Announces c event

is_high-urgent : (p : Priority) → (is_high p ≡ true) ↔ ((p ≡ p0) ⊎ (p ≡ p1))
is_high-urgent p0 = (λ _. inl refl, λ _. refl)
is_high-urgent p1 = (λ _. inr refl, λ _. refl)
is_high-urgent p2 = ground arith
is_high-urgent p3 = ground arith
is_high-urgent p4 = ground arith
is_high-urgent (unlisted_priority s) = ground arith

is_default-default : (o : OwnerSource) → (is_default o ≡ true) ↔ (o ≡ default)
is_default-default o = ground arith

escalates-urgent :
    (r : Request) (owner : ResolvedOwner)
    → (escalates r owner ≡ true)
      ↔ (((r.priority ≡ p0) ⊎ (r.priority ≡ p1)) × (owner.source ≡ default))
escalates-urgent r owner =
    let (urgent, high) = is_high-urgent r.priority in
    let (to_default, from_default) = is_default-default owner.source in
    (
      λ h. (urgent (ground (arith, h)), to_default (ground (arith, h))),
      λ (u, d). ground (arith, high u, from_default d),
    )

row_of-IsCaseOf :
    (r : Request) (owner : ResolvedOwner) (s : Session) → IsCaseOf r owner (row_of r owner s)
row_of-IsCaseOf r owner s = record {
  title = refl;
  organization = refl;
  owned = refl;
  assigned = refl;
  priority = refl;
  policy = refl;
  exposures = refl;
  is_new = refl;
  first_version = refl;
  in_time = refl;
  unexplained = refl;
  escalated = escalates-urgent r owner;
}

due_bounds :
    (p : Priority) (now : ℕ)
    → (now + 86400 ≤ (calculate_due_date p now).reading)
      × ((calculate_due_date p now).reading ≤ now + 90 * 86400)
unfolding calculate_due_date priority_sla_days
due_bounds p0 now = (omega arith, omega arith)
due_bounds p1 now = (omega arith, omega arith)
due_bounds p2 now = (omega arith, omega arith)
due_bounds p3 now = (omega arith, omega arith)
due_bounds p4 now = (omega arith, omega arith)
due_bounds (unlisted_priority s) now = (omega arith, omega arith)

row_of-IsDue :
    (r : Request) (owner : ResolvedOwner) (s : Session) (id : String)
    → IsDue
        (s.world.clock s.ticks)
        (row_of r owner s)
        (sla_clock (row_of r owner s) (calculate_due_date r.priority (s.world.clock s.ticks)) id)
unfolding calculate_due_date
row_of-IsDue r owner s id =
    let (later, bounded) = due_bounds r.priority (s.world.clock s.ticks) in
    record { due = refl; in_utc = refl; later = later; bounded = bounded; of_case = refl }

audits_of-Audited :
    (escalated : Bool) (c : RemediationCase) (correlation id second : String)
    → Audited escalated c (audits_of escalated c correlation id second)
audits_of-Audited false c correlation id second = (_, refl, refl, refl)
audits_of-Audited true c correlation id second = (_, _, refl, refl, refl, refl, refl)

-- A creation that returned, where the drawn identifier is new. Its owner is the requested team,
-- or what one of the assets resolves to, or the default team where every asset falls back to it.
-- The new case has the values of the request and the owner, status `new` and version 1, and is
-- escalated exactly where its priority is P0 or P1 and its owner is the default. It is committed,
-- with a clock of its due date, which lies one day to ninety days ahead, one event that announces
-- it, and the audit row of the creation, with a second one exactly where the case is escalated.
pub create_case-Creates :
    (r : Request) (s t : Session) (c : RemediationCase)
    → find (has_case_id (case_id_of s)) s.working.cases ≡ none
    → create_case r s ≡ (ok c, t)
    → Creates r s t c
unfolding owner_of
create_case-Creates r s t c fresh h =
    let b = create_case-Built r s t c fresh h in
    let (clock_id, clock_added) = b.clock_added in
    let (correlation, audit_id, second_id, outbox_id, audited, announced) = b.announced in
    let row = row_of r b.owner s in
    record {
      owner = b.owner;
      chosen = choose_owner-Chosen _ r.owner_team (linked_owners r s) b.owner b.resolved;
      row = rw b.built (row_of-IsCaseOf r b.owner s);
      durable = b.durable;
      stored = b.case_added;
      clock = sla_clock c (calculate_due_date r.priority (s.world.clock s.ticks)) clock_id;
      clock_added = clock_added;
      due = rw b.built (row_of-IsDue r b.owner s clock_id);
      rows = audits_of (escalates r b.owner) c correlation audit_id second_id;
      audited = audited;
      audits =
          rw b.built (audits_of-Audited (escalates r b.owner) row correlation audit_id second_id);
      event = created_event c correlation outbox_id;
      announced = announced;
      announces = (refl, refl, refl, refl);
    }
