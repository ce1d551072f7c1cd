-- ===== src/Cases/Approve/Effect.antt =====
-- What an approval does to the rows (`CaseService.approve_risk_decision` of
-- src/vulnops/cases/service.py).
use vulnops_hub.Prelude.{
  Bool, true, false, Option, none, some, List, [], ◌∷◌, ◌++◌, find, ◌≡◌, ◌≢◌, refl, any, update, ap,
  subst, ◌∙◌, arith, not, eq_iff,
}
use vulnops_hub.Db.{RemediationCase, RiskDecision, DecisionStatus, pending_approval}
use vulnops_hub.Session.{
  Session, gets, modify, ok, ValueError, run, has_case_id, has_decision_id, or_raise,
  rollback_on_error,
}
use vulnops_hub.Session.Keeps.{
  SameRows, ReadsOnly, ReadsOnly-eq, Ensures, Ensures-guard, Ensures->>=, Ensures-chain, Ensures->>,
  Ensures-pure,
}
use vulnops_hub.Session.Steps.{gets-ok, modify-ok, >>=-ok, >>-ok, guard-ok}
use vulnops_hub.Cases.Workflow.{is_allowed}
use vulnops_hub.Cases.Actor.{approval_role, can_approve}
use vulnops_hub.Cases.Load.{get_risk_decision, canonicalize}
use vulnops_hub.Cases.Reading.{reading, get_risk_decision-ok}
use vulnops_hub.Cases.Events.{
  Events, describe, Commits, Commits-same, commit_events-ok, describe-ReadsOnly,
}
use vulnops_hub.Cases.Approve.{
  Approval, Outcome, approves, rejects, Plan, prepare, prepare_from, validate_approval, write,
  write_body, target_state, is_pending, is_pending_row, decided_row, approved_case, claim_decision,
  move_case, approval_events,
}

validate_approval-ReadsOnly : (o : Outcome) (d : RiskDecision) → ReadsOnly (validate_approval o d)
unfolding validate_approval
validate_approval-ReadsOnly approves d = search reading
validate_approval-ReadsOnly rejects d = search reading

pub prepare-ReadsOnly : (a : Approval) → ReadsOnly (prepare a)
unfolding prepare prepare_from
prepare-ReadsOnly a = search (reading, validate_approval-ReadsOnly) depth 24

-- Who may decide on the request `d`, and in which state it is.
pub record MayDecide (a : Approval) (d : RiskDecision) (p : Plan) : Type 0 where
  pub planned : p.decision ≡ d
  pub pending : d.status ≡ pending_approval
  pub human : a.principal_type ≡ "human"
  pub capable : can_approve a.capabilities ≡ true
  pub not_self : a.actor ≢ d.requested_by
  pub role_held : approval_role a.context.roles ≡ some p.role

pending_of : (d : DecisionStatus) → not (is_pending d) ≡ false → d ≡ pending_approval
pending_of d h = ground arith

or_raise-Ensures :
    {A : Type 0} (o : Option A) (e : ValueError) → Ensures (λ a. o ≡ some a) (or_raise o e)
unfolding or_raise
or_raise-Ensures none e = record { at = λ s t a h. cc }
or_raise-Ensures (some b) e = record { at = λ s t a h. ground arith }

prepare_from-Ensures :
    (a : Approval) (d : RiskDecision) → Ensures (MayDecide a d) (prepare_from a d)
unfolding prepare_from
prepare_from-Ensures a d = Ensures-guard _ _ _ λ pending. Ensures-guard _ _ _ λ human.
    Ensures-guard _ _ _ λ capable. Ensures-guard _ _ _ λ other. Ensures->>= _ _ λ outcome.
      Ensures-guard _ _ _ λ reasoned. Ensures->>= _ _ λ fields.
        Ensures-chain _ _ (or_raise-Ensures _ _) λ role held. Ensures->>= _ _ λ c.
          Ensures->>= _ _ λ now. Ensures->> _ _ (
            Ensures-pure _ (record {
              planned = refl;
              pending = pending_of d.status pending;
              human = (eq_iff _ _).0 (ground (arith, human));
              capable = ground (arith, capable);
              not_self = λ e. cc ((eq_iff a.actor d.requested_by).1 e);
              role_held = held;
            }))

-- The rows of cases after the case has been moved, if it has.
abbrev pub CasesAfter : Outcome → Plan → List RemediationCase → List RemediationCase → Type 0
CasesAfter rejects p before after = after ≡ before
CasesAfter approves p before after =
    (is_allowed p.loaded.status (target_state p.decision.type) ≡ true)
    × (after ≡ update (has_case_id p.loaded.id) (approved_case p) before)

-- What moving the case leaves as it was.
record Moved (o : Outcome) (p : Plan) (s t : Session) : Type 0 where
  cases_after : CasesAfter o p s.working.cases t.working.cases
  decisions_same : t.working.decisions ≡ s.working.decisions
  audits_same : t.working.audits ≡ s.working.audits
  outbox_same : t.working.outbox ≡ s.working.outbox

move_case-ok :
    (o : Outcome) (p : Plan) (s t : Session) → move_case o p s ≡ (ok tt, t) → Moved o p s t
unfolding move_case run
move_case-ok rejects p s t h = ground arith
move_case-ok approves p s t h = ground arith

-- What the `try` block of an approval has written.
pub record Written (a : Approval) (p : Plan) (s t : Session) : Type 0 where
  pub claimed : any (is_pending_row p.decision.id) s.working.decisions ≡ true
  pub durable : t.committed ≡ t.working
  pub decisions_after :
      t.working.decisions
      ≡ update (is_pending_row p.decision.id) (decided_row a p) s.working.decisions
  pub cases_after : CasesAfter p.outcome p s.working.cases t.working.cases
  pub events : Events
  pub audited : t.working.audits ≡ s.working.audits ++ events.audit ∷ []
  pub announced : t.working.outbox ≡ s.working.outbox ++ events.outbox ∷ []

Written-of :
    (a : Approval) (p : Plan) (s s2 s4 t : Session) (claimed : Bool) (events : Events)
    → not claimed ≡ false
    → claimed ≡ any (is_pending_row p.decision.id) s.working.decisions
    → s2.working ≡ claim_decision a p s.working
    → Moved p.outcome p s2 s4
    → Commits events s4 t
    → Written a p s t
unfolding claim_decision
Written-of a p s s2 s4 t claimed events passed is_claimed after_claim moved w = record {
  claimed = ground (arith, is_claimed);
  durable = w.durable;
  decisions_after = ground (arith, w.rows, moved.decisions_same, after_claim);
  cases_after =
      let old : s2.working.cases ≡ s.working.cases = ground (arith, after_claim) in
      let new_rows : s4.working.cases ≡ t.working.cases = ground (arith, w.rows) in
      subst (CasesAfter p.outcome p s.working.cases) new_rows
        (subst (λ x. CasesAfter p.outcome p x s4.working.cases) old moved.cases_after);
  events = events;
  audited = ground (arith, w.rows, moved.audits_same, after_claim);
  announced = ground (arith, w.rows, moved.outbox_same, after_claim);
}

write_body-ok :
    (a : Approval) (p : Plan) (s t : Session) → write_body a p s ≡ (ok tt, t) → Written a p s t
unfolding write_body
write_body-ok a p s t h =
    let (claimed, s1, h1, g1) =
      >>=-ok (gets (λ x. any (is_pending_row p.decision.id) x.working.decisions)) _ s t h in
    let (_, s2, h2, g2) = >>-ok (modify (claim_decision a p)) _ s1 t g1 in
    let (passed, g3) = guard-ok (not claimed) _ _ s2 t g2 in
    let (_, s4, h4, g4) = >>-ok (move_case p.outcome p) _ s2 t g3 in
    let (events, s5, h5, g5) =
      >>=-ok (describe a.context.correlation_id (approval_events a p)) _ s4 t g4 in
    let (is_claimed, same1) = gets-ok _ s s1 claimed h1 in
    let same2 = modify-ok _ s1 s2 h2 in
    let moved = move_case-ok p.outcome p s2 s4 h4 in
    let same5 = ReadsOnly-eq s4 (describe-ReadsOnly _ _) h5 in
    let w = Commits-same same5.working_same (commit_events-ok events s5 t g5) in
    Written-of a p s s2 s4 t claimed events passed is_claimed
      (ap (λ x. x.working) same2 ∙ ap (λ x. claim_decision a p x.working) same1) moved w

pub write-ok :
    (a : Approval) (p : Plan) (s t : Session) → write a p s ≡ (ok tt, t) → Written a p s t
unfolding write rollback_on_error
write-ok a p s t h = write_body-ok a p s t (ground arith)

pub prepare-ok :
    (a : Approval) (s t : Session) (p : Plan)
    → prepare a s ≡ (ok p, t)
    → (row : RiskDecision) × (find (has_decision_id a.decision_id) s.working.decisions ≡ some row)
      × MayDecide a (canonicalize s.world row) p
      × SameRows s t
unfolding prepare
prepare-ok a s t p h =
    let (d, s1, loading, h1) = >>=-ok (get_risk_decision a.decision_id) (prepare_from a) s t h in
    let (row, found, same, _) = get_risk_decision-ok a.decision_id s s1 d loading in
    (
      row,
      found,
      subst (λ x. MayDecide a x p) same ((prepare_from-Ensures a d).at s1 t p h1),
      ReadsOnly-eq s (prepare-ReadsOnly a) h,
    )
