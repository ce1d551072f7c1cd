-- ===== src/Cases/Approve/Loaded.antt =====
-- Which case an approval has loaded (`CaseService.approve_risk_decision` of
-- src/vulnops/cases/service.py).
use vulnops_hub.Prelude.{Option, none, some, arith, find, ◌≡◌, ap, sym, ◌∙◌, subst, some-injective}
use vulnops_hub.Db.{RiskDecision}
use vulnops_hub.Session.{
  Session, ok, ValueError, has_case_id, has_decision_id, or_raise, utcnow, bad_outcome,
  no_approver_role,
}
use vulnops_hub.Session.Keeps.{ReadsOnly-eq, ReadsOnly-or_raise}
use vulnops_hub.Session.Steps.{>>=-ok, >>-ok, guard-ok, pure-ok}
use vulnops_hub.Cases.Actor.{actor_audit_fields, approval_role}
use vulnops_hub.Cases.Load.{get_case, get_risk_decision, canonicalize}
use vulnops_hub.Cases.Reading.{actor_audit_fields-ReadsOnly, get_case-ok, get_risk_decision-ok}
use vulnops_hub.Cases.Approve.{
  Approval, Plan, prepare, prepare_from, read_outcome, validate_approval,
}

or_raise-some :
    {A : Type 0} (o : Option A) (a : A) (e : ValueError) (s t : Session)
    → or_raise o e s ≡ (ok a, t)
    → o ≡ some a
unfolding or_raise
or_raise-some none a e s t h = cc
or_raise-some (some b) a e s t h = ground (arith, h)

prepare_from-loaded :
    (a : Approval) (d : RiskDecision) (s t : Session) (p : Plan)
    → prepare_from a d s ≡ (ok p, t)
    → (find (has_case_id d.case_id) s.working.cases ≡ some p.loaded)
      × (read_outcome a.outcome ≡ some p.outcome)
unfolding prepare_from
prepare_from-loaded a d s t p h =
    let (_, h1) = guard-ok _ _ _ s t h in
    let (_, h2) = guard-ok _ _ _ s t h1 in
    let (_, h3) = guard-ok _ _ _ s t h2 in
    let (_, h4) = guard-ok _ _ _ s t h3 in
    let (outcome, s1, e1, h5) = >>=-ok (or_raise (read_outcome a.outcome) bad_outcome) _ s t h4 in
    let (_, h6) = guard-ok _ _ _ s1 t h5 in
    let (fields, s2, e2, h7) = >>=-ok (actor_audit_fields a.context) _ s1 t h6 in
    let (role, s3, e3, h8) =
      >>=-ok (or_raise (approval_role a.context.roles) no_approver_role) _ s2 t h7 in
    let (c, s4, e4, h9) = >>=-ok (get_case d.case_id) _ s3 t h8 in
    let (now, s5, e5, h10) = >>=-ok utcnow _ s4 t h9 in
    let (_, s6, e6, h11) = >>-ok (validate_approval outcome d) _ s5 t h10 in
    let (built, _) = pure-ok _ p s6 t h11 in
    let (found, _) = get_case-ok d.case_id s3 s4 c e4 in
    let same1 = (ReadsOnly-eq s (ReadsOnly-or_raise _ _) e1).working_same in
    let same2 = (ReadsOnly-eq s1 (actor_audit_fields-ReadsOnly a.context) e2).working_same in
    let same3 = (ReadsOnly-eq s2 (ReadsOnly-or_raise _ _) e3).working_same in
    (
      ap (λ db. find (has_case_id d.case_id) db.cases) (sym (same3 ∙ same2 ∙ same1))
          ∙ found
          ∙ ap (λ x. some x.loaded) built,
      or_raise-some (read_outcome a.outcome) outcome bad_outcome s s1 e1
          ∙ ap (λ x. some x.outcome) built,
    )

-- The case of the stored decision is loaded, and the outcome is the one that the caller named.
pub prepare-loaded :
    (a : Approval) (s t : Session) (p : Plan) (row : RiskDecision)
    → find (has_decision_id a.decision_id) s.working.decisions ≡ some row
    → prepare a s ≡ (ok p, t)
    → (find (has_case_id row.case_id) s.working.cases ≡ some p.loaded)
      × (read_outcome a.outcome ≡ some p.outcome)
unfolding prepare canonicalize
prepare-loaded a s t p row found h =
    let (d, s1, loading, h1) = >>=-ok (get_risk_decision a.decision_id) (prepare_from a) s t h in
    let (row', found', value, same) = get_risk_decision-ok a.decision_id s s1 d loading in
    let (case_found, outcome) = prepare_from-loaded a d s1 t p h1 in
    let same_row : row' ≡ row = some-injective (sym found' ∙ found) in
    let same_case : d.case_id ≡ row.case_id =
      ap (λ x. x.case_id) value ∙ ap (λ x. x.case_id) same_row in
    (
      subst (λ id. find (has_case_id id) s.working.cases ≡ some p.loaded) same_case
          (subst (λ x. find (has_case_id d.case_id) x.working.cases ≡ some p.loaded) same
            case_found),
      outcome,
    )
