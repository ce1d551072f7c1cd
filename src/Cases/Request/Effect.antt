-- ===== src/Cases/Request/Effect.antt =====
-- What a request of a risk decision leaves behind (`CaseService.create_risk_decision` of
-- src/vulnops/cases/service.py).
use vulnops_hub.Prelude.{none, [], ◌∷◌, ◌++◌, ◌≡◌, refl, sym, ap, arith, eq_iff, ◌∙◌}
use vulnops_hub.Db.{RiskDecision, pending_approval}
use vulnops_hub.Session.{Session, Action, ok, run, gets, ◌>>◌}
use vulnops_hub.Session.Keeps.{
  ReadsOnly, ReadsOnly-eq, Ensures, Ensures-guard, Ensures->>=, Ensures->>, Ensures-pure,
}
use vulnops_hub.Session.Steps.{>>=-ok, >>-ok, gets-ok}
use vulnops_hub.Cases.Reading.{reading}
use vulnops_hub.Cases.Load.{canonicalize}
use vulnops_hub.Cases.Events.{commit_events}
use vulnops_hub.Cases.Request.{Request, Pending, prepare, write, create_risk_decision}

prepare-ReadsOnly : (r : Request) → ReadsOnly (prepare r)
unfolding prepare
prepare-ReadsOnly r = search reading depth 30

-- What a request that is prepared says of the decision.
pub record IsPending (r : Request) (p : Pending) : Type 0 where
  pub status : p.decision.status ≡ pending_approval
  pub case_named : p.decision.case_id ≡ r.case_id
  pub requester : p.decision.requested_by ≡ r.actor
  pub unapproved : p.decision.approver ≡ none
  pub undecided : p.decision.decided_at ≡ none

prepare-Ensures : (r : Request) → Ensures (IsPending r) (prepare r)
unfolding prepare
prepare-Ensures r = Ensures-guard _ _ _ λ unapproved. Ensures-guard _ _ _ λ same. Ensures->> _ _ (
    Ensures->>= _ _ λ w. Ensures->>= _ _ λ expires_at. Ensures->>= _ _ λ fields.
      Ensures->>= _ _ λ c. Ensures->>= _ _ λ correlation. Ensures->>= _ _ λ id.
        Ensures->>= _ _ λ audit_id. Ensures->>= _ _ λ outbox_id. Ensures->>= _ _ λ now.
          Ensures-pure _ (record {
            status = refl;
            case_named = refl;
            requester = sym ((eq_iff r.actor r.requested_by).0 (ground (arith, same)));
            unapproved = refl;
            undecided = refl;
          }))

write-ok :
    (p : Pending) (s t : Session)
    → write p s ≡ (ok tt, t)
    → (t.committed ≡ t.working)
      × (t.working.decisions ≡ s.working.decisions ++ p.decision ∷ [])
      × (t.working.cases ≡ s.working.cases)
      × (t.working.audits ≡ s.working.audits ++ p.events.audit ∷ [])
      × (t.working.outbox ≡ s.working.outbox ++ p.events.outbox ∷ [])
unfolding write commit_events run
write-ok p s t h = ground arith

-- What a request that returned has made of the rows.
pub record Requests (r : Request) (s t : Session) (d : RiskDecision) : Type 0 where
  pub pending : Pending
  pub is_pending : IsPending r pending
  pub returned : d ≡ canonicalize t.world pending.decision
  pub durable : t.committed ≡ t.working
  pub added : t.committed.decisions ≡ s.working.decisions ++ pending.decision ∷ []
  pub cases_same : t.committed.cases ≡ s.working.cases
  pub audited : t.committed.audits ≡ s.working.audits ++ pending.events.audit ∷ []
  pub announced : t.committed.outbox ≡ s.working.outbox ++ pending.events.outbox ∷ []

-- A request that returned has committed one decision, one audit row and one event, and has
-- changed no case. The decision waits for an approval, names the case and the actor as the
-- requester, and has no approver and no time of decision.
pub create_risk_decision-Requests :
    (r : Request) (s t : Session) (d : RiskDecision)
    → create_risk_decision r s ≡ (ok d, t)
    → Requests r s t d
unfolding create_risk_decision
create_risk_decision-Requests r s t d h =
    let finish : Pending → Action RiskDecision = λ p. gets (λ s. canonicalize s.world p.decision) in
    let (p, s1, prepared, h1) = >>=-ok (prepare r) (λ p. write p >> finish p) s t h in
    let (_, s2, wrote, h2) = >>-ok (write p) (finish p) s1 t h1 in
    let (value, last) = gets-ok (λ s. canonicalize s.world p.decision) s2 t d h2 in
    let same = ReadsOnly-eq s (prepare-ReadsOnly r) prepared in
    let (durable, added, cases, audits, outbox) = write-ok p s1 s2 wrote in
    record {
      pending = p;
      is_pending = (prepare-Ensures r).at s s1 p prepared;
      returned = value ∙ ap (λ x. canonicalize x.world p.decision) (sym last);
      durable = ground (arith, durable, last);
      added = ground (arith, same.working_same, durable, added, last);
      cases_same = ground (arith, same.working_same, durable, cases, last);
      audited = ground (arith, same.working_same, durable, audits, last);
      announced = ground (arith, same.working_same, durable, outbox, last);
    }
