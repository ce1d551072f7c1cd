-- ===== src/Cases/Approve/Atomic.antt =====
-- Approvals that raise (`CaseService.approve_risk_decision` of src/vulnops/cases/service.py).
use vulnops_hub.Prelude.{
  String, Option, Bool, true, false, Bool-cases, not, any, inl, inr, ◌≡◌, refl, arith, ◌∙◌,
}
use vulnops_hub.Session.{
  Session, Action, ValueError, raise_if, gets, modify, ◌>>◌, update_case, no_longer_pending,
  rollback_on_error, Result, ok, err, Error, run, and_then, ◌>>=◌,
}
use vulnops_hub.Cases.Events.{
  Events, describe, commit_events, describe-ReadsOnly, commit_events-atomic,
}
use vulnops_hub.Cases.Approve.{
  Approval, Outcome, approves, rejects, Plan, write, write_body, move_case, claim_decision,
  approval_events, approved_case, target_state, is_pending_row,
}
use vulnops_hub.Cases.Workflow.{is_allowed}

after_describe :
    (s : Session) (e : Error) (x : Result Events × Session)
    → x.1.committed ≡ s.committed
    → (and_then x.0 commit_events x.1).0 ≡ err e
    → (and_then x.0 commit_events x.1).1.committed ≡ s.committed
after_describe s e (ok events, t) same h = commit_events-atomic events t e h ∙ same
after_describe s e (err e', t) same h = same

-- The last steps of the `try` block.
announce-atomic :
    (correlation : Option String) (build : String → String → String → Events) (s : Session)
    (e : Error)
    → ((describe correlation build >>= commit_events) s).0 ≡ err e
    → ((describe correlation build >>= commit_events) s).1.committed ≡ s.committed
unfolding ◌>>=◌
announce-atomic correlation build s e h =
    after_describe s e (describe correlation build s)
      ((describe-ReadsOnly correlation build).at s).committed_same h

move_case-atomic :
    (o : Outcome) (p : Plan) (k : Action (Unit {0})) (e : Error) (s : Session)
    → ((t : Session) → (k t).0 ≡ err e → (k t).1.committed ≡ t.committed)
    → ((move_case o p >> k) s).0 ≡ err e
    → ((move_case o p >> k) s).1.committed ≡ s.committed
unfolding move_case run
move_case-atomic rejects p k e s hk h = hk s h
move_case-atomic approves p k e s hk h =
    elim (Bool-cases (is_allowed p.loaded.status (target_state p.decision.type))) [
      | inl allowed ↦ ground (
        arith,
        h,
        allowed,
        hk (record s { working = update_case p.loaded.id (approved_case p) s.working }),
      )
      | inr refused ↦ ground (arith, h, refused)
    ]

guard-atomic :
    (b : Bool) (error : ValueError) (k : Action (Unit {0})) (e : Error) (s : Session)
    → ((k s).0 ≡ err e → (k s).1.committed ≡ s.committed)
    → ((raise_if b error >> k) s).0 ≡ err e
    → ((raise_if b error >> k) s).1.committed ≡ s.committed
unfolding run
guard-atomic true error k e s hk h = refl
guard-atomic false error k e s hk h = hk h

write_body-atomic :
    (a : Approval) (p : Plan) (s : Session) (e : Error)
    → (write_body a p s).0 ≡ err e
    → (write_body a p s).1.committed ≡ s.committed
unfolding write_body gets modify ◌>>=◌ ◌>>◌
write_body-atomic a p s e h =
    let announce : Action (Unit {0}) =
      describe a.context.correlation_id (approval_events a p) >>= commit_events in
    let s1 = record s { working = claim_decision a p s.working } in
    guard-atomic (not (any (is_pending_row p.decision.id) s.working.decisions)) no_longer_pending
      (move_case p.outcome p >> announce) e s1
      (λ g.
        move_case-atomic p.outcome p announce e s1
          (λ t. announce-atomic a.context.correlation_id (approval_events a p) t e) g)
      h

-- The writes of an approval that raise, for a lost claim, a forbidden edge or a failed commit,
-- change nothing that is committed, and the session is rolled back to it.
pub write-rolls_back :
    (a : Approval) (p : Plan) (s : Session) (e : Error)
    → (write a p s).0 ≡ err e
    → ((write a p s).1.committed ≡ s.committed) × ((write a p s).1.working ≡ s.committed)
unfolding write rollback_on_error
write-rolls_back a p s e h = ground (arith, h, write_body-atomic a p s e)
