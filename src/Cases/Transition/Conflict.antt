-- ===== src/Cases/Transition/Conflict.antt =====
-- Two callers that expect one version, and calls that raise (`CaseService.transition` of
-- src/vulnops/cases/service.py).
use vulnops_hub.Prelude.{
  ℕ, ◌+◌, false, Option, none, some, any, ◌≡◌, refl, arith, ◌∙◌, ap, subst, ◌≢◌, find, none_left,
}
use vulnops_hub.Db.{RemediationCase}
use vulnops_hub.Session.{
  Session, Result, ok, err, Error, run, and_then, value_error, version_conflict, has_case_id,
  rollback_on_storage_error, ◌>>=◌, ◌>>◌,
}
use vulnops_hub.Session.Keeps.{ReadsOnly-eq}
use vulnops_hub.Cases.Load.{get_case}
use vulnops_hub.Cases.Events.{commit_events}
use vulnops_hub.Cases.Keys.{HasKeys, has_version}
use vulnops_hub.Cases.Transition.{Request, Plan, prepare, write_by, write, transition, moved}
use vulnops_hub.Cases.Transition.Effect.{prepare-ok, prepare-ReadsOnly, write_by-ok, write-write_by}

-- The `UPDATE` of a caller whose version has gone: a conflict with the version that is stored, and
-- the session is rolled back.
stale-conflict :
    (r : Request) (plan : Plan) (v : ℕ) (s : Session) (c : RemediationCase)
    → r.expected_version ≡ some v
    → any (has_version r.case_id v) s.working.cases ≡ false
    → find (has_case_id r.case_id) s.committed.cases ≡ some c
    → (write r plan s).0 ≡ err (value_error (version_conflict v c.version))
unfolding write write_by run get_case
stale-conflict r plan v s c e gone found = ground (arith, e, gone, found)

write_by-atomic :
    (r : Request) (plan : Plan) (ev : Option ℕ) (s : Session) (e : Error)
    → (write_by r plan ev s).0 ≡ err e
    → (write_by r plan ev s).1.committed ≡ s.committed
unfolding write_by commit_events run get_case
write_by-atomic r plan none s e h = ground arith
write_by-atomic r plan (some v) s e h = ground arith

write-atomic :
    (r : Request) (plan : Plan) (s : Session) (e : Error)
    → (write r plan s).0 ≡ err e
    → (write r plan s).1.committed ≡ s.committed
unfolding write rollback_on_storage_error
write-atomic r plan s e h = ground (arith, write_by-atomic r plan r.expected_version s e)

version_gone :
    (r : Request) (plan : Plan) (v : ℕ) (s t : Session)
    → write_by r plan (some v) s ≡ (ok tt, t)
    → any (has_version r.case_id v) t.working.cases ≡ false
unfolding write_by commit_events run get_case
version_gone r plan v s t h =
    let gone =
      none_left (has_version r.case_id v) (moved r plan (v + 1)) s.working.cases
        (λ x. ground arith) in
    ground (arith, gone)

-- Two callers that have read the row at version `v`, and expect it: once the first has written,
-- the second gets a conflict that names version `v + 1`, and changes nothing that is committed.
pub write_once :
    (r q : Request) (plan plan' : Plan) (v : ℕ) (s t : Session)
    → HasKeys s.working.cases
    → find (has_case_id r.case_id) s.working.cases ≡ some plan.loaded
    → q.case_id ≡ r.case_id
    → r.expected_version ≡ some v
    → q.expected_version ≡ some v
    → write r plan s ≡ (ok tt, t)
    → ((write q plan' t).0 ≡ err (value_error (version_conflict v (v + 1))))
      × ((write q plan' t).1.committed ≡ t.committed)
write_once r q plan plan' v s t keys found same_case e e' h =
    let h' : write_by r plan (some v) s ≡ (ok tt, t) =
      subst (λ ev. write_by r plan ev s ≡ (ok tt, t)) e (write-write_by r plan s t h) in
    let w = write_by-ok r plan (some v) s t keys found h' in
    let gone = version_gone r plan v s t h' in
    let refused =
      stale-conflict q plan' v t (moved r plan (plan.loaded.version + 1) plan.loaded) e'
        (rw same_case gone) (rw (same_case, w.durable) w.stored) in
    (
      refused ∙ ap (λ n. err (value_error (version_conflict v (n + 1)))) w.expected,
      write-atomic q plan' t _ refused,
    )

pub write-get_case :
    (r : Request) (plan : Plan) (s t : Session) (e : Error)
    → HasKeys s.working.cases
    → find (has_case_id r.case_id) s.working.cases ≡ some plan.loaded
    → write r plan s ≡ (ok tt, t)
    → (get_case r.case_id t).0 ≢ err e
unfolding get_case run
write-get_case r plan s t e keys found h g =
    let w = write_by-ok r plan r.expected_version s t keys found (write-write_by r plan s t h) in
    ground (arith, w.stored)

module _ (r : Request) (s : Session) (e : Error) (keys : HasKeys s.working.cases) where
  after_write :
      (plan : Plan) (s1 : Session) (x : Result (Unit {0}) × Session)
      → HasKeys s1.working.cases
      → find (has_case_id r.case_id) s1.working.cases ≡ some plan.loaded
      → write r plan s1 ≡ x
      → (and_then x.0 (λ _. get_case r.case_id) x.1).0 ≡ err e
      → (and_then x.0 (λ _. get_case r.case_id) x.1).1.committed ≡ s1.committed
  after_write plan s1 (ok tt, t) k found w h = absurd (write-get_case r plan s1 t e k found w h)
  after_write plan s1 (err e', t) k found w h = ground (arith, w, write-atomic r plan s1 e')

  after_prepare :
      (x : Result Plan × Session)
      → prepare r s ≡ x
      → (and_then x.0 (λ plan. write r plan >> get_case r.case_id) x.1).0 ≡ err e
      → (and_then x.0 (λ plan. write r plan >> get_case r.case_id) x.1).1.committed ≡ s.committed
  unfolding ◌>>◌
  after_prepare (ok plan, s1) p h =
      let (found, _, same) = prepare-ok r s s1 plan p in
      after_write plan s1 (write r plan s1) (rw same.working_same keys) (rw same.working_same found)
        refl h
      ∙ same.committed_same
  after_prepare (err e', s1) p h = (ReadsOnly-eq s (prepare-ReadsOnly r) p).committed_same

-- A transition that raises leaves the committed rows as they were.
pub transition-atomic :
    (r : Request) (s : Session) (e : Error)
    → HasKeys s.working.cases
    → (transition r s).0 ≡ err e
    → (transition r s).1.committed ≡ s.committed
unfolding transition ◌>>=◌
transition-atomic r s e keys h = after_prepare r s e keys (prepare r s) refl h
