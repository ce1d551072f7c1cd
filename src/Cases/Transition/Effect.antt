-- ===== src/Cases/Transition/Effect.antt =====
-- What a transition does to the rows (`CaseService.transition` of src/vulnops/cases/service.py).
use vulnops_hub.Prelude.{
  ℕ, ◌+◌, Bool, true, false, not, Option, none, some, [], ◌∷◌, ◌++◌, ◌≡◌, arith, find,
  find-update_self, ap, sym, ◌∙◌, refl,
}
use vulnops_hub.Db.{RemediationCase, status_text, AuditEvent, OutboxEvent}
use vulnops_hub.Session.{Session, ok, run, has_case_id, ◌>>◌, rollback_on_storage_error}
use vulnops_hub.Session.Keeps.{
  Ensures, Ensures-guard, Ensures-pure, Ensures-chain, Ensures->>=, SameRows, ReadsOnly,
  ReadsOnly-eq,
}
use vulnops_hub.Session.Steps.{>>=-ok, >>-ok}
use vulnops_hub.Cases.Workflow.{is_allowed}
use vulnops_hub.Cases.Load.{get_case}
use vulnops_hub.Cases.Reading.{reading, get_case-ok}
use vulnops_hub.Cases.Events.{Events, commit_events, describe-ReadsOnly, describe-Ensures}
use vulnops_hub.Cases.Keys.{HasKeys, find-update_version}
use vulnops_hub.Cases.Transition.{
  Request, Plan, prepare, prepare_from, write_by, write, transition, moved,
}

pub prepare-ReadsOnly : (r : Request) → ReadsOnly (prepare r)
unfolding prepare prepare_from
prepare-ReadsOnly r = search (reading, describe-ReadsOnly) depth 20

-- What a plan says of the row `c` that was loaded.
abbrev pub IsPlanFor : Request → RemediationCase → Plan → Type 0
IsPlanFor r c plan =
    (plan.loaded ≡ c)
    × (is_allowed c.status r.target ≡ true)
    × (plan.events.audit.prior_state ≡ some (status_text c.status))
    × (plan.events.audit.new_state ≡ some (status_text r.target))

abbrev IsPairFor : Request → RemediationCase → Events → Type 0
IsPairFor r c events =
    (events.audit.prior_state ≡ some (status_text c.status))
    × (events.audit.new_state ≡ some (status_text r.target))

allowed_of : (b : Bool) → not b ≡ false → b ≡ true
allowed_of b h = ground arith

prepare_from-Ensures :
    (r : Request) (c : RemediationCase) → Ensures (IsPlanFor r c) (prepare_from r c)
unfolding prepare_from
prepare_from-Ensures r c = Ensures-guard _ _ _ λ allowed. Ensures->>= _ _ λ now.
    Ensures->>= _ _ λ breached. Ensures->>= _ _ λ fields.
      Ensures-chain _ _ (describe-Ensures {Q = IsPairFor r c} _ _ (λ _ _ _. (refl, refl)))
        λ events pair. Ensures-pure _ (refl, allowed_of _ allowed, pair.0, pair.1)

-- The version that the caller expects, if it names one, is that of the row.
abbrev pub Expects : Option ℕ → ℕ → Type 0
Expects none version = Unit
Expects (some expected) version = version ≡ expected

pub prepare-ok :
    (r : Request) (s t : Session) (plan : Plan)
    → prepare r s ≡ (ok plan, t)
    → (find (has_case_id r.case_id) s.working.cases ≡ some plan.loaded)
      × IsPlanFor r plan.loaded plan
      × SameRows s t
unfolding prepare
prepare-ok r s t plan h =
    let (c, s1, loading, h1) = >>=-ok (get_case r.case_id) (prepare_from r) s t h in
    let (found, _) = get_case-ok r.case_id s s1 c loading in
    let planned = (prepare_from-Ensures r c).at s1 t plan h1 in
    (
      found ∙ ap some (sym planned.0),
      rw planned.0 (refl, planned.1, planned.2, planned.3),
      ReadsOnly-eq s (prepare-ReadsOnly r) h,
    )

-- What a `try` block that returned has written.
pub record Written (r : Request) (plan : Plan) (c : RemediationCase) (ev : Option ℕ) (s t : Session)
    : Type 0 where
  pub durable : t.committed ≡ t.working
  pub audited : t.working.audits ≡ s.working.audits ++ plan.events.audit ∷ []
  pub announced : t.working.outbox ≡ s.working.outbox ++ plan.events.outbox ∷ []
  pub expected : Expects ev c.version
  pub stored : find (has_case_id r.case_id) t.working.cases ≡ some (moved r plan (c.version + 1) c)

pub write_by-ok :
    (r : Request) (plan : Plan) (ev : Option ℕ) (s t : Session)
    → HasKeys s.working.cases
    → find (has_case_id r.case_id) s.working.cases ≡ some plan.loaded
    → write_by r plan ev s ≡ (ok tt, t)
    → Written r plan plan.loaded ev s t
unfolding write_by commit_events run get_case
write_by-ok r plan none s t keys found h =
    let row =
      find-update_self (has_case_id r.case_id) (moved r plan (plan.loaded.version + 1))
        s.working.cases (λ x. refl) found in
    ground (arith, row)
write_by-ok r plan (some v) s t keys found h =
    let row =
      find-update_version r.case_id v (moved r plan (v + 1)) s.working.cases plan.loaded (λ x. refl)
        keys found in
    ground (arith, row)

pub write-write_by :
    (r : Request) (plan : Plan) (s t : Session)
    → write r plan s ≡ (ok tt, t)
    → write_by r plan r.expected_version s ≡ (ok tt, t)
unfolding write rollback_on_storage_error
write-write_by r plan s t h = ground arith

-- The rows before and after a transition that returned `c'`.
pub record Moves (r : Request) (s t : Session) (c' : RemediationCase) : Type 0 where
  pub before : RemediationCase
  pub loaded : find (has_case_id r.case_id) s.working.cases ≡ some before
  pub allowed : is_allowed before.status r.target ≡ true
  pub expected : Expects r.expected_version before.version
  pub at_target : c'.status ≡ r.target
  pub counted : c'.version ≡ before.version + 1
  pub stored : find (has_case_id r.case_id) t.committed.cases ≡ some c'
  pub durable : t.committed ≡ t.working
  pub audit : AuditEvent
  pub audited : t.committed.audits ≡ s.working.audits ++ audit ∷ []
  pub audit_prior : audit.prior_state ≡ some (status_text before.status)
  pub audit_new : audit.new_state ≡ some (status_text r.target)
  pub event : OutboxEvent
  pub announced : t.committed.outbox ≡ s.working.outbox ++ event ∷ []

Written-Moves :
    (r : Request) (plan : Plan) (c' : RemediationCase) (s s1 t : Session)
    → find (has_case_id r.case_id) s.working.cases ≡ some plan.loaded
    → s1.working ≡ s.working
    → IsPlanFor r plan.loaded plan
    → Written r plan plan.loaded r.expected_version s1 t
    → find (has_case_id r.case_id) t.working.cases ≡ some c'
    → Moves r s t c'
Written-Moves r plan c' s s1 t found same planned w after = record {
  before = plan.loaded;
  loaded = found;
  allowed = planned.1;
  expected = w.expected;
  at_target = ground (arith, w.stored);
  counted = ground (arith, w.stored);
  stored = ground (arith, w.durable);
  durable = w.durable;
  audit = plan.events.audit;
  audited = ground (arith, w.durable, w.audited);
  audit_prior = planned.2;
  audit_new = planned.3;
  event = plan.events.outbox;
  announced = ground (arith, w.durable, w.announced);
}

-- A transition that returned, where the cases have distinct identifiers: it loaded a row, at the
-- version that the caller expects if it names one, and moved it to the target along an allowed
-- edge; the version is one more. The row is committed, with one audit row that names both
-- statuses and one event.
pub transition-Moves :
    (r : Request) (s t : Session) (c' : RemediationCase)
    → HasKeys s.working.cases
    → transition r s ≡ (ok c', t)
    → Moves r s t c'
unfolding transition
transition-Moves r s t c' keys h =
    let (plan, s1, prepared, h1) =
      >>=-ok (prepare r) (λ plan. write r plan >> get_case r.case_id) s t h in
    let (_, s2, written, h2) = >>-ok (write r plan) (get_case r.case_id) s1 t h1 in
    let (found, planned, same) = prepare-ok r s s1 plan prepared in
    let (after, unchanged) = get_case-ok r.case_id s2 t c' h2 in
    let w =
      write_by-ok r plan r.expected_version s1 s2 (rw same.working_same keys)
        (rw same.working_same found) (write-write_by r plan s1 s2 written) in
    Written-Moves r plan c' s s1 t found same.working_same planned (rw unchanged w)
      (rw unchanged after)
