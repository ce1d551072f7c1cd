-- ===== src/Cases/Create/Writing.antt =====
-- How a creation of a case runs, step by step (`CaseService.create_case` of
-- src/vulnops/cases/service.py).
use vulnops_hub.Prelude.{
  ℕ, String, Bool, true, false, none, some, List, [], ◌∷◌, ◌++◌, find, append_assoc, upper, suc,
  Option-cases, inl, inr, find-append, eq_iff, ◌≡◌, refl, arith, ◌+◌, concat, first_chars,
  if◌then◌else◌, sym, ap, ◌∙◌,
}
use vulnops_hub.Db.{RemediationCase, AuditEvent, Datetime, new, status_text}
use vulnops_hub.Session.{Session, ok, err, Error, run, has_case_id, ◌>>◌}
use vulnops_hub.Session.Steps.{>>-ok, Result-cases}
use vulnops_hub.Cases.Workflow.{calculate_due_date}
use vulnops_hub.Cases.Ownership.{ResolvedOwner}
use vulnops_hub.Cases.Create.{
  Request, owner_of, escalates, new_case, audit_row, created_event, sla_clock, escalation_row,
  audit_escalation, write, refresh, case_key, create_case,
}

-- The audit rows of a creation: one, and a second for a case that is escalated.
abbrev pub audits_of : Bool → RemediationCase → String → String → String → List AuditEvent
audits_of false c correlation id second =
    audit_row c "case.created" (status_text new) "case created" correlation id ∷ []
audits_of true c correlation id second =
    audit_row c "case.created" (status_text new) "case created" correlation id
    ∷ escalation_row c correlation second
    ∷ []

-- What a `try` block that returned has written.
pub record Written (c : RemediationCase) (due : Datetime) (s t : Session) : Type 0 where
  pub durable : t.committed ≡ t.working
  pub case_added : t.working.cases ≡ s.working.cases ++ c ∷ []
  pub clock_added : (id : String) × (t.working.clocks ≡ s.working.clocks ++ sla_clock c due id ∷ [])
  pub announced :
      (correlation : String) × (audit_id : String) × (second_id : String) × (outbox_id : String)
      × (t.working.audits
          ≡ s.working.audits ++ audits_of c.ownership_escalated c correlation audit_id second_id)
      × (t.working.outbox ≡ s.working.outbox ++ created_event c correlation outbox_id ∷ [])

pub write-atomic :
    (c : RemediationCase) (due : Datetime) (s : Session) (e : Error)
    → (write c due s).0 ≡ err e
    → ((write c due s).1.committed ≡ s.committed) × ((write c due s).1.working ≡ s.committed)
unfolding write audit_escalation run
write-atomic c due s e h = ground arith

-- The identifier that a draw gives.
abbrev drawn : Session → String → ℕ → ℕ → String
drawn s prefix digits n = concat prefix (first_chars digits (s.world.uuid (s.draws + n)))

pub write-ok :
    (c : RemediationCase) (due : Datetime) (s t : Session)
    → write c due s ≡ (ok tt, t)
    → Written c due s t
unfolding write audit_escalation run
write-ok c due s t h =
    let correlation = s.world.uuid (s.draws + 1) in
    let first =
      audit_row c "case.created" (status_text new) "case created" correlation
        (drawn s "aud_" 12 2) in
    let second = escalation_row c correlation (drawn s "aud_" 12 3) in
    let assoc = append_assoc s.working.audits (first ∷ []) (second ∷ []) in
    record {
      durable = ground (arith);
      case_added = ground (arith);
      clock_added = (drawn s "sla_" 8 0, ground (arith));
      announced = (
        correlation,
        drawn s "aud_" 12 2,
        drawn s "aud_" 12 3,
        drawn s "evt_" 12 (if c.ownership_escalated then 4 else 3),
        ground (arith, assoc),
        ground (arith),
      );
    }

abbrev pub case_id_of : Session → String
case_id_of s = concat "case_" (first_chars 12 (s.world.uuid s.draws))

-- The session after the identifiers and the clock are read.
abbrev pub after_reading : Session → Session
after_reading s = record s { ticks = suc s.ticks; draws = suc (suc s.draws) }

abbrev key_of : Session → String
key_of s = concat "CASE-" (upper (first_chars 8 (s.world.uuid (suc s.draws))))

-- The row that a creation builds.
abbrev pub row_of : Request → ResolvedOwner → Session → RemediationCase
row_of r owner s = new_case r owner (case_id_of s) (key_of s) (s.world.clock s.ticks)

refresh-ok :
    (id : String) (s t : Session) (c : RemediationCase)
    → refresh id s ≡ (ok c, t)
    → (find (has_case_id id) s.working.cases ≡ some c) × (t ≡ s)
unfolding refresh run
refresh-ok id s t c h = elim (Option-cases (find (has_case_id id) s.working.cases)) [
  | inl absent ↦ ground (arith, absent)
  | inr (row, found) ↦ ground (arith, found)
]

pub create_case-run :
    (r : Request) (owner : ResolvedOwner) (s : Session)
    → owner_of r s ≡ ok owner
    → create_case r s
      ≡ (write (row_of r owner s) (calculate_due_date r.priority (s.world.clock s.ticks))
            >> refresh (case_id_of s))
          (after_reading s)
unfolding create_case case_key run
create_case-run r owner s resolved = rw resolved refl

owner_of-ok :
    (r : Request) (s t : Session) (c : RemediationCase)
    → create_case r s ≡ (ok c, t)
    → (owner : ResolvedOwner) × (owner_of r s ≡ ok owner)
unfolding create_case run
owner_of-ok r s t c h = elim (Result-cases (owner_of r s)) [
  | inl (owner, resolved) ↦ (owner, resolved)
  | inr (e, raised) ↦ ground (arith, raised)
]

-- Of a creation that returned, whether its identifier is new or not, the row that it built stands at
-- the end of the table.
pub create_case-adds :
    (r : Request) (s t : Session) (c : RemediationCase)
    → create_case r s ≡ (ok c, t)
    → (owner : ResolvedOwner) × (t.working.cases ≡ s.working.cases ++ row_of r owner s ∷ [])
create_case-adds r s t c h =
    let (owner, resolved) = owner_of-ok r s t c h in
    let due = calculate_due_date r.priority (s.world.clock s.ticks) in
    let (_, s2, wrote, refreshed) =
      >>-ok (write (row_of r owner s) due) (refresh (case_id_of s)) (after_reading s) t
        (sym (create_case-run r owner s resolved) ∙ h) in
    let w = write-ok (row_of r owner s) due (after_reading s) s2 wrote in
    let (_, unchanged) = refresh-ok (case_id_of s) s2 t c refreshed in
    (owner, ap (λ x. x.working.cases) unchanged ∙ w.case_added)

-- What a creation that returned `c` has made of the rows: the case, its clock, an audit row or two,
-- and one event of the outbox, all committed.
pub record Built (r : Request) (s t : Session) (c : RemediationCase) : Type 0 where
  pub owner : ResolvedOwner
  pub resolved : owner_of r s ≡ ok owner
  pub built : c ≡ row_of r owner s
  pub durable : t.committed ≡ t.working
  pub case_added : t.committed.cases ≡ s.working.cases ++ c ∷ []
  pub clock_added :
      (id : String) × (t.committed.clocks
        ≡ s.working.clocks
          ++ sla_clock c (calculate_due_date r.priority (s.world.clock s.ticks)) id ∷ [])
  pub announced :
      (correlation : String) × (audit_id : String) × (second_id : String) × (outbox_id : String)
      × (t.committed.audits
          ≡ s.working.audits ++ audits_of (escalates r owner) c correlation audit_id second_id)
      × (t.committed.outbox ≡ s.working.outbox ++ created_event c correlation outbox_id ∷ [])

-- A creation that returned, where the drawn identifier is new, has committed the rows that `row_of`,
-- `sla_clock`, `audits_of` and `created_event` build.
pub create_case-Built :
    (r : Request) (s t : Session) (c : RemediationCase)
    → find (has_case_id (case_id_of s)) s.working.cases ≡ none
    → create_case r s ≡ (ok c, t)
    → Built r s t c
create_case-Built r s t c fresh h =
    let (owner, resolved) = owner_of-ok r s t c h in
    let due = calculate_due_date r.priority (s.world.clock s.ticks) in
    let (_, s2, wrote, refreshed) =
      >>-ok (write (row_of r owner s) due) (refresh (case_id_of s)) (after_reading s) t
        (sym (create_case-run r owner s resolved) ∙ h) in
    let w = write-ok (row_of r owner s) due (after_reading s) s2 wrote in
    let (found, unchanged) = refresh-ok (case_id_of s) s2 t c refreshed in
    let last =
      find-append (has_case_id (case_id_of s)) s.working.cases (row_of r owner s) fresh
        ((eq_iff (case_id_of s) (case_id_of s)).1 refl) in
    let built : c ≡ row_of r owner s = ground (arith, w.case_added, found, last) in
    record {
      owner = owner;
      resolved = resolved;
      built = built;
      durable = ground (arith, unchanged, w.durable);
      case_added = ground (arith, unchanged, w.durable, w.case_added, built);
      clock_added = (w.clock_added.0, ground (arith, unchanged, w.durable, w.clock_added.1, built));
      announced = (
        w.announced.0,
        w.announced.1,
        w.announced.2,
        w.announced.3,
        ground (arith, unchanged, w.durable, w.announced.4, built),
        ground (arith, unchanged, w.durable, w.announced.5, built),
      );
    }
