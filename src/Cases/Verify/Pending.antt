-- ===== src/Cases/Verify/Pending.antt =====
-- What a verification has pending when its two events are to be recorded (`CaseService.verify` of
-- src/vulnops/cases/service.py).
use vulnops_hub.Prelude.{
  ℕ, ◌+◌, String, Bool, true, false, some, [], ◌∷◌, ◌++◌, find, ◌≡◌, ◌≢◌, ◌⊎◌, inl, inr, refl,
  find-update_self, find-update_other,
}
use vulnops_hub.Db.{
  closed, Method, scanner, wazuh_inventory, manual_attestation, vex, unlisted_method,
  RemediationCase, Verification, VerificationStatus, verified_closed, requires_approval,
  insufficient_evidence,
}
use vulnops_hub.Session.{Session, Action, run, has_case_id}
use vulnops_hub.Cases.Workflow.{CoverageReason, reason_text}
use vulnops_hub.Cases.Verify.{Request, outcome, verify_from, close_if, closed_row, record_outcome}

-- A case after its closing: closed for the given reason, one version more, otherwise as before.
pub record Closes (reason : String) (before after : RemediationCase) : Type 0 where
  pub is_closed : after.status ≡ closed
  pub counted : after.version ≡ before.version + 1
  pub explained : after.closure_reason ≡ some reason
  pub kept :
      record after {
        status = before.status;
        version = before.version;
        closure_reason = before.closure_reason;
        updated_at = before.updated_at;
      }
      ≡ before

-- The row of the case after a verification that may close it.
abbrev pub AfterVerify : Bool → String → RemediationCase → RemediationCase → Type 0
AfterVerify true reason before after = Closes reason before after
AfterVerify false reason before after = after ≡ before

-- The status of a verification, by whether its coverage is accepted.
abbrev pub Judges : Bool → Method → VerificationStatus → Type 0
Judges true method status = status ≡ verified_closed
Judges false method status =
    ((method ≡ manual_attestation) × (status ≡ requires_approval))
    ⊎ ((method ≢ manual_attestation) × (status ≡ insufficient_evidence))

-- What the session sees when the two events of the call are to be recorded: the verification is
-- pending, and so is the closing of the case where the coverage is accepted.
pub record Pending (r : Request) (c : RemediationCase) (judgement : Bool × CoverageReason)
    (v : Verification) (s u : Session) : Type 0 where
  pub judged : Judges judgement.0 r.method v.status
  pub of_case : v.case_id ≡ r.case_id
  pub by_method : v.method ≡ r.method
  pub on_evidence : v.evidence_ids ≡ r.evidence_ids
  pub after : RemediationCase
  pub found : find (has_case_id r.case_id) u.working.cases ≡ some after
  pub effect : AfterVerify judgement.0 (reason_text judgement.1) c after
  pub others :
      (id : String)
      → id ≢ r.case_id
      → find (has_case_id id) u.working.cases ≡ find (has_case_id id) s.working.cases
  pub stored : u.working.verifications ≡ s.working.verifications ++ v ∷ []
  pub audits : u.working.audits ≡ s.working.audits
  pub outbox : u.working.outbox ≡ s.working.outbox
  pub committed : u.committed ≡ s.committed

outcome-Judges :
    (accepted : Bool) (method : Method) → Judges accepted method (outcome accepted method)
unfolding outcome
outcome-Judges true method = refl
outcome-Judges false manual_attestation = inl (refl, refl)
outcome-Judges false scanner = inr (λ h. cc, refl)
outcome-Judges false wazuh_inventory = inr (λ h. cc, refl)
outcome-Judges false vex = inr (λ h. cc, refl)
outcome-Judges false (unlisted_method s) = inr (λ h. cc, refl)

closed_row-Closes :
    (c : RemediationCase) (reason : String) (now : ℕ) → Closes reason c (closed_row c reason now c)
closed_row-Closes c reason now = record {
  is_closed = refl;
  counted = refl;
  explained = refl;
  kept = refl;
}

-- The end of a call, after the rows of the verification and the case are pending.
abbrev pub finish :
    Request → RemediationCase → Bool × CoverageReason → Verification → Action Verification
finish r c judgement v =
    record_outcome r c (outcome judgement.0 r.method) (reason_text judgement.1) v

pub verify_from-Pending :
    (r : Request) (c : RemediationCase) (judgement : Bool × CoverageReason) (s : Session)
    → find (has_case_id r.case_id) s.working.cases ≡ some c
    → (v : Verification) × (u : Session) × (verify_from r c judgement s ≡ finish r c judgement v u)
      × Pending r c judgement v s u
unfolding verify_from close_if run
verify_from-Pending r c (true, reason) s found = (
  _,
  _,
  refl,
  record {
    judged = outcome-Judges true r.method;
    of_case = refl;
    by_method = refl;
    on_evidence = refl;
    after = closed_row c (reason_text reason) (s.world.clock s.ticks) c;
    found = find-update_self (has_case_id r.case_id) _ s.working.cases (λ x. refl) found;
    effect = closed_row-Closes c (reason_text reason) (s.world.clock s.ticks);
    others =
        λ id other. find-update_other (λ x. x.id) _ id r.case_id s.working.cases (λ x. refl) other;
    stored = refl;
    audits = refl;
    outbox = refl;
    committed = refl;
  },
)
verify_from-Pending r c (false, reason) s found = (
  _,
  _,
  refl,
  record {
    judged = outcome-Judges false r.method;
    of_case = refl;
    by_method = refl;
    on_evidence = refl;
    after = c;
    found = found;
    effect = refl;
    others = λ id other. refl;
    stored = refl;
    audits = refl;
    outbox = refl;
    committed = refl;
  },
)
