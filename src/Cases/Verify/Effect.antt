-- ===== src/Cases/Verify/Effect.antt =====
-- What a verification does to the rows (`CaseService.verify` of src/vulnops/cases/service.py).
use vulnops_hub.Prelude.{
  String, Bool, true, false, some, [], ◌∷◌, ◌++◌, find, ◌≡◌, ◌≢◌, refl, sym, ap, subst, ◌∙◌, arith,
}
use vulnops_hub.Db.{
  CaseStatus, awaiting_verification, status_eq, verified_closed, RemediationCase, Verification,
  VerificationStatus, unlisted_provenance,
}
use vulnops_hub.Session.{Session, Result, ok, err, value_error, bad_provenance, has_case_id}
use vulnops_hub.Session.Keeps.{ReadsOnly-eq}
use vulnops_hub.Session.Steps.{>>=-run, >>=-err, guard-run, guard-ok, >>=-ok, >>-ok, pure-ok}
use vulnops_hub.Cases.Workflow.{CoverageReason, evaluate_coverage, reason_text}
use vulnops_hub.Cases.Actor.{actor_audit_fields}
use vulnops_hub.Cases.Reading.{
  get_case-run, actor_audit_fields-err, get_case-ok, actor_audit_fields-ReadsOnly,
}
use vulnops_hub.Cases.Events.{
  Events, describe, commit_events, Commits, commit_events-ok, describe-ReadsOnly, describe-Ensures,
  Commits-same,
}
use vulnops_hub.Cases.Load.{get_case}
use vulnops_hub.Cases.Verify.{Request, verify, verify_from, verify_events, record_outcome}
use vulnops_hub.Cases.Verify.Pending.{Closes, AfterVerify, Judges, Pending, verify_from-Pending}

status_eq-eq :
    (a b : CaseStatus) → status_eq a awaiting_verification ≡ true → a ≡ awaiting_verification
status_eq-eq a b h = ground arith

-- The two rows are about the case of the call.
abbrev pub IsAbout : Request → Events → Type 0
IsAbout r e = (e.audit.subject_id ≡ r.case_id) × (e.outbox.aggregate_id ≡ r.case_id)

record_outcome-ok :
    (r : Request) (c : RemediationCase) (status : VerificationStatus) (reason : String)
    (v v' : Verification) (s t : Session)
    → record_outcome r c status reason v s ≡ (ok v', t)
    → (v ≡ v') × ((e : Events) × IsAbout r e × Commits e s t)
unfolding record_outcome
record_outcome-ok r c status reason v v' s t h =
    let (fields, s1, h1, g1) = >>=-ok (actor_audit_fields r.context) _ s t h in
    let (events, s2, h2, g2) =
      >>=-ok (describe r.context.correlation_id (verify_events r c status reason fields)) _ s1 t
        g1 in
    let (_, s3, h3, g3) = >>-ok (commit_events events) _ s2 t g2 in
    let (same_row, same_session) = pure-ok v v' s3 t g3 in
    let first = ReadsOnly-eq s (actor_audit_fields-ReadsOnly r.context) h1 in
    let second = ReadsOnly-eq s1 (describe-ReadsOnly _ _) h2 in
    (
      same_row,
      (
        events,
        (describe-Ensures {Q = IsAbout r} r.context.correlation_id
              (verify_events r c status reason fields) (λ _ _ _. (refl, refl))).at
            s1 s2 events h2,
        subst (Commits events s) same_session (
            Commits-same (second.working_same ∙ first.working_same)
              (commit_events-ok events s2 s3 h3)),
      ),
    )

-- The rows before and after a verification that returned `v`.
pub record Verifies (r : Request) (s t : Session) (v : Verification) : Type 0 where
  pub before : RemediationCase
  pub loaded : find (has_case_id r.case_id) s.working.cases ≡ some before
  pub awaited : before.status ≡ awaiting_verification
  pub judged : Judges (evaluate_coverage r.method r.coverage).0 r.method v.status
  pub of_case : v.case_id ≡ r.case_id
  pub by_method : v.method ≡ r.method
  pub on_evidence : v.evidence_ids ≡ r.evidence_ids
  pub after : RemediationCase
  pub found : find (has_case_id r.case_id) t.committed.cases ≡ some after
  pub effect :
      AfterVerify
        (evaluate_coverage r.method r.coverage).0
        (reason_text (evaluate_coverage r.method r.coverage).1)
        before
        after
  pub others :
      (id : String)
      → id ≢ r.case_id
      → find (has_case_id id) t.committed.cases ≡ find (has_case_id id) s.working.cases
  pub durable : t.committed ≡ t.working
  pub stored : t.committed.verifications ≡ s.working.verifications ++ v ∷ []
  pub events : Events
  pub about : IsAbout r events
  pub audited : t.committed.audits ≡ s.working.audits ++ events.audit ∷ []
  pub announced : t.committed.outbox ≡ s.working.outbox ++ events.outbox ∷ []

-- A verification that returned: the case awaited one. The verification is of that case, with the
-- method and evidence of the call; it is `closed` where the coverage is accepted, and otherwise
-- `requires_approval` for a manual attestation and `insufficient_evidence` for any other method.
-- It is committed, with one audit row and one event about the case. Exactly where the coverage is
-- accepted, the case is closed for the reason of the coverage, with one version more and nothing
-- else changed but its time of update; otherwise it is as before. Other cases are as before.
pub verify-Verifies :
    (r : Request) (s t : Session) (v : Verification) → verify r s ≡ (ok v, t) → Verifies r s t v
unfolding verify
verify-Verifies r s t v h =
    let j = evaluate_coverage r.method r.coverage in
    let (c, s1, loading, h1) = >>=-ok (get_case r.case_id) _ s t h in
    let (found, same) = get_case-ok r.case_id s s1 c loading in
    let (awaiting, h2) = guard-ok _ _ _ s1 t h1 in
    let h3 = subst (λ x. verify_from r c j x ≡ (ok v, t)) same h2 in
    let (v', u, runs, p) = verify_from-Pending r c j s found in
    let (same_row, (e, about, w)) =
      record_outcome-ok r c _ (reason_text j.1) v' v u t (sym runs ∙ h3) in
    let q = subst (λ x. Pending r c j x s u) same_row p in
    record {
      before = c;
      loaded = found;
      awaited = status_eq-eq c.status awaiting_verification (ground (arith, awaiting));
      judged = q.judged;
      of_case = q.of_case;
      by_method = q.by_method;
      on_evidence = q.on_evidence;
      after = q.after;
      found = ground (arith, w.durable, w.rows, q.found);
      effect = q.effect;
      others = λ id other.
          ap (λ d. find (has_case_id id) d.cases) (w.durable ∙ w.rows) ∙ q.others id other;
      durable = w.durable;
      stored = ground (arith, w.durable, w.rows, q.stored);
      events = e;
      about = about;
      audited = ground (arith, w.durable, w.rows, q.audits);
      announced = ground (arith, w.durable, w.rows, q.outbox);
    }

-- What a call that raises leaves behind when it had accepted the coverage: nothing is committed and
-- no event is pending, but the closing of the case is, and the accepted verification.
pub record LeavesClosed (r : Request) (c : RemediationCase) (reason : String) (s : Session)
    (x : Result Verification × Session) : Type 0 where
  pub raised : x.0 ≡ err (value_error bad_provenance)
  pub uncommitted : x.1.committed ≡ s.committed
  pub unaudited : x.1.working.audits ≡ s.working.audits
  pub unannounced : x.1.working.outbox ≡ s.working.outbox
  pub after : RemediationCase
  pub found : find (has_case_id r.case_id) x.1.working.cases ≡ some after
  pub closing : Closes reason c after
  pub verification : Verification
  pub accepted : verification.status ≡ verified_closed
  pub of_case : verification.case_id ≡ r.case_id
  pub pending : x.1.working.verifications ≡ s.working.verifications ++ verification ∷ []

record_outcome-err :
    (r : Request) (c : RemediationCase) (status : VerificationStatus) (reason : String)
    (v : Verification) (p : String) (s : Session)
    → r.context.provenance ≡ unlisted_provenance p
    → record_outcome r c status reason v s ≡ (err (value_error bad_provenance), s)
unfolding record_outcome
record_outcome-err r c status reason v p s unlisted =
    >>=-err (actor_audit_fields r.context) _ s s _ (actor_audit_fields-err r.context p s unlisted)

LeavesClosed-Pending :
    (r : Request) (c : RemediationCase) (judgement : Bool × CoverageReason) (v : Verification)
    (s u : Session)
    → judgement.0 ≡ true
    → Pending r c judgement v s u
    → LeavesClosed r c (reason_text judgement.1) s (err (value_error bad_provenance), u)
LeavesClosed-Pending r c (false, reason) v s u accepted p = cc
LeavesClosed-Pending r c (true, reason) v s u accepted p = record {
  raised = refl;
  uncommitted = p.committed;
  unaudited = p.audits;
  unannounced = p.outbox;
  after = p.after;
  found = p.found;
  closing = p.effect;
  verification = v;
  accepted = p.judged;
  of_case = p.of_case;
  pending = p.stored;
}

-- Where the coverage is accepted and the provenance of the actor is not a known one, a
-- verification of a waiting case raises: nothing is committed and no audit row or event is added,
-- yet the session holds the case as closed, for the reason of the coverage and with one version
-- more, and the accepted verification.
pub verify-LeavesClosed :
    (r : Request) (s : Session) (c : RemediationCase) (p : String)
    → find (has_case_id r.case_id) s.working.cases ≡ some c
    → c.status ≡ awaiting_verification
    → (evaluate_coverage r.method r.coverage).0 ≡ true
    → r.context.provenance ≡ unlisted_provenance p
    → LeavesClosed r c (reason_text (evaluate_coverage r.method r.coverage).1) s (verify r s)
unfolding verify
verify-LeavesClosed r s c p found awaiting accepted unlisted =
    let j = evaluate_coverage r.method r.coverage in
    let (v, u, runs, pending) = verify_from-Pending r c j s found in
    subst (LeavesClosed r c (reason_text j.1) s)
      (sym (
        >>=-run (get_case r.case_id) _ s s c (get_case-run r.case_id s c found)
        ∙ guard-run _ _ _ s (ground (arith, awaiting))
        ∙ runs
        ∙ record_outcome-err r c _ _ v p u unlisted))
      (LeavesClosed-Pending r c j v s u accepted pending)
