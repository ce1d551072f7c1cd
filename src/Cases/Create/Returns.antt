-- ===== src/Cases/Create/Returns.antt =====
-- When a creation returns (`CaseService.create_case` of src/vulnops/cases/service.py).
use vulnops_hub.Prelude.{
  String, none, some, [], find, ◌≡◌, refl, ap, ◌∙◌, Bool-cases, inl, inr, find-append, eq_iff,
}
use vulnops_hub.Db.{RemediationCase, Datetime}
use vulnops_hub.Session.{Session, ok, run, has_case_id}
use vulnops_hub.Session.Steps.{>>-run}
use vulnops_hub.Cases.Workflow.{calculate_due_date}
use vulnops_hub.Cases.Ownership.{ResolvedOwner}
use vulnops_hub.Cases.Create.{Request, owner_of, audit_escalation, write, refresh, create_case}
use vulnops_hub.Cases.Create.Writing.{write-ok, case_id_of, row_of, after_reading, create_case-run}

write-returns :
    (c : RemediationCase) (due : Datetime) (s : Session)
    → s.faults ≡ []
    → (t : Session) × (write c due s ≡ (ok tt, t))
unfolding write audit_escalation run
write-returns c due s no_faults = elim (Bool-cases c.ownership_escalated) [
  | inl escalated ↦ rw (escalated, no_faults) (_, refl)
  | inr owned ↦ rw (owned, no_faults) (_, refl)
]

refresh-run :
    (id : String) (s : Session) (c : RemediationCase)
    → find (has_case_id id) s.working.cases ≡ some c
    → refresh id s ≡ (ok c, s)
unfolding refresh run
refresh-run id s c found = rw found refl

-- A creation does return, where the owners of the assets do not conflict, the drawn identifier is
-- new and no commit fails.
pub create_case-returns :
    (r : Request) (s : Session) (owner : ResolvedOwner)
    → owner_of r s ≡ ok owner
    → find (has_case_id (case_id_of s)) s.working.cases ≡ none
    → s.faults ≡ []
    → (c : RemediationCase) × (t : Session) × (create_case r s ≡ (ok c, t))
create_case-returns r s owner resolved fresh no_faults =
    let due = calculate_due_date r.priority (s.world.clock s.ticks) in
    let row = row_of r owner s in
    let (t, wrote) = write-returns row due (after_reading s) no_faults in
    let w = write-ok row due (after_reading s) t wrote in
    let last =
      find-append (has_case_id (case_id_of s)) s.working.cases row fresh
        ((eq_iff (case_id_of s) (case_id_of s)).1 refl) in
    let found : find (has_case_id (case_id_of s)) t.working.cases ≡ some row =
      ap (find (has_case_id (case_id_of s))) w.case_added ∙ last in
    (
      row,
      t,
      create_case-run r owner s resolved
          ∙ (>>-run (write row due) (refresh (case_id_of s)) (after_reading s) t tt wrote
              ∙ refresh-run (case_id_of s) t row found),
    )
