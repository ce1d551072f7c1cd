-- ===== src/Cases/Transition/Returns.antt =====
-- When a transition returns (`CaseService.transition` of src/vulnops/cases/service.py).
use vulnops_hub.Prelude.{
  ℕ, String, Bool, true, Option, none, some, List, [], ◌∷◌, subst, find, any, ◌≡◌, refl, ap, ◌∙◌,
  arith,
}
use vulnops_hub.Db.{RemediationCase}
use vulnops_hub.Session.{
  Session, Result, ok, run, has_case_id, and_then, pure, rollback_on_storage_error, ◌>>◌,
}
use vulnops_hub.Session.Steps.{>>=-run, >>-run}
use vulnops_hub.Cases.Keys.{HasKeys, has_version}
use vulnops_hub.Cases.Reading.{get_case-run}
use vulnops_hub.Cases.Workflow.{is_allowed}
use vulnops_hub.Cases.Actor.{actor_audit_fields, correlation_or_new, is_known}
use vulnops_hub.Cases.Load.{get_case}
use vulnops_hub.Cases.Events.{Events, describe, commit_events}
use vulnops_hub.Cases.Transition.{
  Request, Plan, breach_flag, prepare, prepare_from, write, write_by, transition,
}
use vulnops_hub.Cases.Transition.Effect.{Expects, prepare-ok, write_by-ok, write-write_by}

-- A call that returns, from a session.
abbrev Returns : {A : Type 0} → Result A × Session → Type 0
Returns {A} x = (a : A) × (s' : Session) × (x ≡ (ok a, s'))

describe-Returns :
    (o : Option String) (build : String → String → String → Events) (s : Session)
    → Returns (describe o build s)
unfolding describe correlation_or_new run
describe-Returns none build s = (_, _, refl)
describe-Returns (some String.[]) build s = (_, _, refl)
describe-Returns (some (String.◌∷◌ c o)) build s = (_, _, refl)

and_then-Returns :
    {A B : Type 0} (x : Result A × Session) (f : A → B)
    → Returns x
    → Returns (and_then x.0 (λ a. pure (f a)) x.1)
unfolding pure
and_then-Returns x f (a, s', h) = (f a, s', ap (λ y. and_then y.0 (λ a. pure (f a)) y.1) h)

prepare-Returns :
    (r : Request) (s : Session) (c : RemediationCase) (b : Bool)
    → find (has_case_id r.case_id) s.working.cases ≡ some c
    → is_allowed c.status r.target ≡ true
    → breach_flag c (s.world.clock s.ticks) ≡ ok b
    → is_known r.context.provenance ≡ true
    → Returns (prepare r s)
unfolding prepare prepare_from get_case actor_audit_fields run
prepare-Returns r s c b found allowed flag known =
    rw (found, allowed, flag, known)
      (and_then-Returns _ _ (describe-Returns r.context.correlation_id _ _))

any-has_version :
    (id : String) (rows : List RemediationCase) (c : RemediationCase)
    → find (has_case_id id) rows ≡ some c
    → any (has_version id c.version) rows ≡ true
any-has_version id [] c h = cc
any-has_version id (x ∷ rows) c h = ground (arith, any-has_version id rows c)

write_by-returns :
    (r : Request) (plan : Plan) (ev : Option ℕ) (s : Session) (c : RemediationCase)
    → find (has_case_id r.case_id) s.working.cases ≡ some c
    → Expects ev c.version
    → s.faults ≡ []
    → (t : Session) × (write_by r plan ev s ≡ (ok tt, t))
unfolding write_by commit_events run
write_by-returns r plan none s c found expects no_faults = rw no_faults (_, refl)
write_by-returns r plan (some v) s c found expects no_faults =
    let matched =
      subst (λ n. any (has_version r.case_id n) s.working.cases ≡ true) expects
        (any-has_version r.case_id s.working.cases c found) in
    rw (matched, no_faults) (_, refl)

write-returns :
    (r : Request) (plan : Plan) (s : Session) (c : RemediationCase)
    → find (has_case_id r.case_id) s.working.cases ≡ some c
    → Expects r.expected_version c.version
    → s.faults ≡ []
    → (t : Session) × (write r plan s ≡ (ok tt, t))
unfolding write rollback_on_storage_error
write-returns r plan s c found expects no_faults =
    let (t, wrote) = write_by-returns r plan r.expected_version s c found expects no_faults in
    (t, rw wrote refl)

-- A transition does return, where the cases have distinct identifiers: it is enough that the row
-- exists, the edge is allowed, the version is the expected one if one is expected, the due date
-- can be compared, the provenance of the actor is a known one, and no commit fails.
pub transition-returns :
    (r : Request) (s : Session) (c : RemediationCase) (b : Bool)
    → HasKeys s.working.cases
    → find (has_case_id r.case_id) s.working.cases ≡ some c
    → is_allowed c.status r.target ≡ true
    → Expects r.expected_version c.version
    → breach_flag c (s.world.clock s.ticks) ≡ ok b
    → is_known r.context.provenance ≡ true
    → s.faults ≡ []
    → (c' : RemediationCase) × (t : Session) × (transition r s ≡ (ok c', t))
unfolding transition
transition-returns r s c b keys found allowed expects flag known no_faults =
    let (plan, s1, prepared) = prepare-Returns r s c b found allowed flag known in
    let (found', _, same) = prepare-ok r s s1 plan prepared in
    let found1 : find (has_case_id r.case_id) s1.working.cases ≡ some c =
      rw same.working_same found in
    let (t, wrote) = write-returns r plan s1 c found1 expects (same.faults_same ∙ no_faults) in
    let w =
      write_by-ok r plan r.expected_version s1 t (rw same.working_same keys)
        (rw same.working_same found') (write-write_by r plan s1 t wrote) in
    let last = get_case-run r.case_id t _ w.stored in
    (
      _,
      t,
      >>=-run (prepare r) (λ plan. write r plan >> get_case r.case_id) s s1 plan prepared
          ∙ (>>-run (write r plan) (get_case r.case_id) s1 t tt wrote ∙ last),
    )
