-- ===== src/Cases/Approve/Once.antt =====
-- The guarantees of an approval: who may decide, what is written, and that a request is decided
-- once (`CaseService.approve_risk_decision` of src/vulnops/cases/service.py).
use vulnops_hub.Prelude.{
  false, some, List, [], ◌∷◌, ◌++◌, any, find, update, ◌≡◌, refl, sym, ap, subst, ◌∙◌, arith,
  find-update, none_left, eq_iff,
}
use vulnops_hub.Db.{RiskDecision, pending_approval}
use vulnops_hub.Session.{
  has_case_id, Session, ok, err, value_error, run, has_decision_id, no_longer_pending,
}
use vulnops_hub.Session.Keeps.{SameRows}
use vulnops_hub.Session.Steps.{>>=-ok, >>-ok}
use vulnops_hub.Cases.Load.{canonicalize}
use vulnops_hub.Cases.Reading.{get_risk_decision-ok}
use vulnops_hub.Cases.Events.{Events}
use vulnops_hub.Cases.Approve.{
  read_outcome, Approval, Outcome, approves, rejects, Plan, prepare, write, write_body,
  approve_risk_decision, next_status, is_pending, is_pending_row, decided_row, claim_decision,
}
use vulnops_hub.Cases.Approve.Decided.{
  IsDecided, decided_row-IsDecided, CaseAfter, CasesAfter-CaseAfter,
}
use vulnops_hub.Cases.Approve.Loaded.{prepare-loaded}
use vulnops_hub.Cases.Approve.Effect.{MayDecide, CasesAfter, Written, write-ok, prepare-ok}

-- The rows before and after a decision.
pub record Decides (a : Approval) (s t : Session) : Type 0 where
  pub plan : Plan
  pub row : RiskDecision
  pub found : find (has_decision_id a.decision_id) s.working.decisions ≡ some row
  pub outcome_read : read_outcome a.outcome ≡ some plan.outcome
  pub case_loaded : find (has_case_id row.case_id) s.working.cases ≡ some plan.loaded
  pub may_decide : MayDecide a (canonicalize s.world row) plan
  pub stored :
      find (has_decision_id a.decision_id) t.committed.decisions ≡ some (decided_row a plan row)
  pub decided : IsDecided a plan.outcome row (decided_row a plan row)
  pub cases_after : CasesAfter plan.outcome plan s.working.cases t.committed.cases
  pub case_after : CaseAfter plan.outcome plan row.case_id t.committed.cases
  pub durable : t.committed ≡ t.working
  pub events : Events
  pub audited : t.committed.audits ≡ s.working.audits ++ events.audit ∷ []
  pub announced : t.committed.outbox ≡ s.working.outbox ++ events.outbox ∷ []

stored_row :
    (a : Approval) (p : Plan) (row : RiskDecision) (rows : List RiskDecision)
    → find (has_decision_id a.decision_id) rows ≡ some row
    → p.decision.id ≡ row.id
    → row.status ≡ pending_approval
    → find
        (has_decision_id a.decision_id)
        (update (is_pending_row p.decision.id) (decided_row a p) rows)
      ≡ some (decided_row a p row)
stored_row a p row rows found same_id pending = ground (
  arith,
  eq_iff row.id p.decision.id,
  find-update (has_decision_id a.decision_id) (is_pending_row p.decision.id) (decided_row a p) rows
      (λ x. refl),
)

Decides-of :
    (a : Approval) (p : Plan) (row : RiskDecision) (s s1 t : Session)
    → find (has_decision_id a.decision_id) s.working.decisions ≡ some row
    → (find (has_case_id row.case_id) s.working.cases ≡ some p.loaded)
      × (read_outcome a.outcome ≡ some p.outcome)
    → MayDecide a (canonicalize s.world row) p
    → SameRows s s1
    → Written a p s1 t
    → Decides a s t
unfolding canonicalize
Decides-of a p row s s1 t found loaded may same w =
    let cases_after : CasesAfter p.outcome p s.working.cases t.committed.cases =
      subst (λ x. CasesAfter p.outcome p s.working.cases x.cases) (sym w.durable)
        (subst (λ x. CasesAfter p.outcome p x.cases t.working.cases) same.working_same
          w.cases_after) in
    record {
      plan = p;
      row = row;
      found = found;
      outcome_read = loaded.1;
      case_loaded = loaded.0;
      may_decide = may;
      stored =
          ap (λ x. find (has_decision_id a.decision_id) x.decisions) w.durable
          ∙ ap (find (has_decision_id a.decision_id)) w.decisions_after
          ∙ ap
              (λ x.
                find (has_decision_id a.decision_id)
                  (update (is_pending_row p.decision.id) (decided_row a p) x.decisions))
              same.working_same
          ∙ stored_row a p row s.working.decisions found (ap (λ x. x.id) may.planned) may.pending;
      decided = decided_row-IsDecided a p row;
      cases_after = cases_after;
      case_after =
          CasesAfter-CaseAfter p.outcome p row.case_id s.working.cases t.committed.cases loaded.0
            cases_after;
      durable = w.durable;
      events = w.events;
      audited = ground (arith, w.durable, w.audited, same.working_same);
      announced = ground (arith, w.durable, w.announced, same.working_same);
    }

-- An approval or rejection that returned: the actor is a human with the capability and an
-- approver's role, is not the requester, the outcome is the one named, and the stored decision
-- was pending. The decision is committed as approved or rejected, by the actor and otherwise as
-- it was requested but for its times, with one audit row and one event. For an approval its case
-- is moved along an allowed edge to the status of the decision's type, with one version more; for
-- a rejection no case changes.
pub approve-Decides :
    (a : Approval) (s t : Session) (d : RiskDecision)
    → approve_risk_decision a s ≡ (ok d, t)
    → Decides a s t
unfolding approve_risk_decision
approve-Decides a s t d h =
    let (p, s1, h1, g1) = >>=-ok (prepare a) _ s t h in
    let (_, s2, h2, g2) = >>-ok (write a p) _ s1 t g1 in
    let (row, found, may, same) = prepare-ok a s s1 p h1 in
    let (_, _, _, unchanged) = get_risk_decision-ok a.decision_id s2 t d g2 in
    subst (Decides a s) (sym unchanged) (
      Decides-of a p row s s1 s2 found (prepare-loaded a s s1 p row found h1) may same
        (write-ok a p s1 s2 h2))

not_pending : (o : Outcome) → is_pending (next_status o) ≡ false
not_pending approves = refl
not_pending rejects = refl

not_pending_row :
    (a : Approval) (p : Plan) (x : RiskDecision)
    → is_pending_row p.decision.id (decided_row a p x) ≡ false
not_pending_row a p x = ground (arith, not_pending p.outcome)

refused :
    (a : Approval) (p : Plan) (t : Session)
    → any (is_pending_row p.decision.id) t.working.decisions ≡ false
    → write a p t ≡ (err (value_error no_longer_pending), record t { working = t.committed })
unfolding write write_body claim_decision run
refused a p t gone = rw gone refl

-- Two contenders that have read one pending request: once the first has decided, the second gets
-- the conflict, and its session is rolled back to what is committed.
pub decide_once :
    (a a' : Approval) (p p' : Plan) (s t : Session)
    → p'.decision.id ≡ p.decision.id
    → write a p s ≡ (ok tt, t)
    → write a' p' t ≡ (err (value_error no_longer_pending), record t { working = t.committed })
decide_once a a' p p' s t same h =
    let w = write-ok a p s t h in
    let gone =
      none_left (is_pending_row p.decision.id) (decided_row a p) s.working.decisions
        (not_pending_row a p) in
    refused a' p' t (rw (same, w.decisions_after) gone)
