-- ===== src/Cases/Expire/Effect.antt =====
-- Which decisions an expiry run selects, and what it does to their cases
-- (`CaseService.process_expirations` of src/vulnops/cases/service.py).
use vulnops_hub.Prelude.{
  ℕ, Bool, true, false, not, ◌&&◌, List, [], ◌∷◌, update, any, eq_iff, ◌≡◌, refl, sym, ap, ◌∙◌,
  arith, length, select, inl, inr,
}
use vulnops_hub.Db.{risk_accepted, status_eq, RemediationCase, RiskDecision}
use vulnops_hub.Session.{
  Session, Action, Result, ok, err, run, has_decision_id, gets, lift, commit, modify, pure,
  update_decision, ◌>>=◌, ◌>>◌,
}
use vulnops_hub.Session.Steps.{Result-cases, modify-ok, >>=-ok, >>-ok, gets-ok, pure-ok}
use vulnops_hub.Cases.Expire.{
  is_approved, has_expired, select_expired, process_expirations, expire_all, expire_decision,
  expired_row, return_to_triage,
}
use vulnops_hub.Cases.Load.{get_case}
use vulnops_hub.Cases.Reading.{get_case-ok}
use vulnops_hub.Cases.Events.{describe_system, add_events}

-- `has_expired`, for an expiry that can be compared.
abbrev pub is_due : ℕ → RiskDecision → Bool
is_due now d =
    is_approved d.status && elim (has_expired now d.expires_at) [ ok b ↦ b | err _ ↦ false ]

-- Where every comparison succeeds, the selection is the approved decisions whose expiry has passed.
pub select_expired-select :
    (now : ℕ) (ds due : List RiskDecision)
    → select_expired now ds ≡ ok due
    → due ≡ select (is_due now) ds
unfolding select_expired
select_expired-select now [] due h = ground arith
select_expired-select now (d ∷ ds) due h = elim (Result-cases (select_expired now ds)) [
  | inl (l, eq) ↦ let rest = select_expired-select now ds l eq in ground (arith)
  | inr (e, eq) ↦ ground (arith)
]

-- The rows once each of some decisions is marked.
abbrev expire_rows : List RiskDecision → List RiskDecision → List RiskDecision
expire_rows [] rows = rows
expire_rows (d ∷ ds) rows = expire_rows ds (update (has_decision_id d.id) expired_row rows)

return_to_triage-ok :
    (b : Bool) (now : ℕ) (d : RiskDecision) (c : RemediationCase) (s t : Session)
    → return_to_triage b now d c s ≡ (ok tt, t)
    → t.working.decisions ≡ s.working.decisions
unfolding return_to_triage describe_system add_events run
return_to_triage-ok false now d c s t h = ground arith
return_to_triage-ok true now d c s t h = ground arith

expire_decision-ok :
    (now : ℕ) (d : RiskDecision) (s t : Session)
    → expire_decision now d s ≡ (ok tt, t)
    → t.working.decisions ≡ update (has_decision_id d.id) expired_row s.working.decisions
unfolding expire_decision update_decision
expire_decision-ok now d s t h =
    let (_, s1, marked, h1) =
      >>-ok (modify (update_decision d.id expired_row))
        (get_case d.case_id >>= λ c. return_to_triage (status_eq c.status risk_accepted) now d c) s
        t h in
    let (c, s2, loading, h2) =
      >>=-ok (get_case d.case_id) (λ c. return_to_triage (status_eq c.status risk_accepted) now d c)
        s1 t h1 in
    let (_, same) = get_case-ok d.case_id s1 s2 c loading in
    let step = modify-ok (update_decision d.id expired_row) s s1 marked in
    let kept = return_to_triage-ok (status_eq c.status risk_accepted) now d c s2 t h2 in
    kept ∙ ap (λ x. x.working.decisions) (same ∙ step)

expire_all-ok :
    (now : ℕ) (ds : List RiskDecision) (s t : Session)
    → expire_all now ds s ≡ (ok tt, t)
    → t.working.decisions ≡ expire_rows ds s.working.decisions
unfolding expire_all
expire_all-ok now [] s t h = ap (λ x. x.working.decisions) (sym (pure-ok tt tt s t h).1)
expire_all-ok now (d ∷ ds) s t h =
    let (_, s1, first, rest) = >>-ok (expire_decision now d) (expire_all now ds) s t h in
    expire_all-ok now ds s1 t rest ∙ ap (expire_rows ds) (expire_decision-ok now d s s1 first)

in_ids : RiskDecision → List RiskDecision → Bool
in_ids x ds = any (λ d. has_decision_id d.id x) ds

-- A row that is due and that no decision of a list names.
abbrev is_left : ℕ → List RiskDecision → RiskDecision → Bool
is_left now ds x = is_due now x && not (in_ids x ds)

is_left-cons :
    (now : ℕ) (y : RiskDecision) (ds xs : List RiskDecision)
    → any (is_left now ds) xs ≡ false
    → any (is_left now (y ∷ ds)) xs ≡ false
unfolding in_ids
is_left-cons now y ds [] h = refl
is_left-cons now y ds (x ∷ xs) h = ground (arith, is_left-cons now y ds xs)

none_left_of_select :
    (now : ℕ) (xs : List RiskDecision) → any (is_left now (select (is_due now) xs)) xs ≡ false
unfolding in_ids
none_left_of_select now [] = refl
none_left_of_select now (x ∷ xs) =
    let tail = none_left_of_select now xs in
    let more = is_left-cons now x (select (is_due now) xs) xs tail in
    let self = (eq_iff x.id x.id).1 refl in ground (arith, tail, more, self)

is_left-update :
    (now : ℕ) (d : RiskDecision) (ds xs : List RiskDecision)
    → any (is_left now (d ∷ ds)) xs ≡ false
    → any (is_left now ds) (update (has_decision_id d.id) expired_row xs) ≡ false
unfolding in_ids
is_left-update now d ds [] h = refl
is_left-update now d ds (x ∷ xs) h = ground (arith, is_left-update now d ds xs)

none_due_left :
    (now : ℕ) (ds xs : List RiskDecision)
    → any (is_left now ds) xs ≡ false
    → any (is_left now []) (expire_rows ds xs) ≡ false
none_due_left now [] xs h = h
none_due_left now (d ∷ ds) xs h = none_due_left now ds _ (is_left-update now d ds xs h)

any-is_due :
    (now : ℕ) (xs : List RiskDecision)
    → any (is_left now []) xs ≡ false
    → any (is_due now) xs ≡ false
unfolding in_ids
any-is_due now [] h = refl
any-is_due now (x ∷ xs) h = ground (arith, any-is_due now xs)

commit-decisions :
    (s t : Session) → commit s ≡ (ok tt, t) → (t.committed ≡ s.working) × (t.working ≡ s.working)
unfolding commit
commit-decisions s t h = ground arith

-- The rest of a run, once the decisions are selected.
finish-ok :
    (now n : ℕ) (ds : List RiskDecision) (s t : Session)
    → (expire_all now ds >> (commit >> pure (length ds))) s ≡ (ok n, t)
    → (n ≡ length ds)
      × (t.working.decisions ≡ expire_rows ds s.working.decisions)
      × (t.committed ≡ t.working)
finish-ok now n ds s t h =
    let (_, s1, expired_all, h1) = >>-ok (expire_all now ds) (commit >> pure (length ds)) s t h in
    let (_, s2, stored, h2) = >>-ok commit (pure (length ds)) s1 t h1 in
    let (counted, last) = pure-ok (length ds) n s2 t h2 in
    let (durable, same) = commit-decisions s1 s2 stored in
    let rows = expire_all-ok now ds s s1 expired_all in
    (
      sym counted,
      ap (λ x. x.working.decisions) (sym last) ∙ ap (λ db. db.decisions) same ∙ rows,
      ground (arith, durable, same, last),
    )

lift-ok :
    {A : Type 0} (r : Result A) (s t : Session) (a : A)
    → lift r s ≡ (ok a, t)
    → (r ≡ ok a) × (t ≡ s)
unfolding lift
lift-ok r s t a h = ground arith

-- An expiry run that returned has committed, it returns the number of the approved decisions
-- whose expiry had passed, and it leaves no such decision behind.
pub process_expirations-none_due :
    (now n : ℕ) (s t : Session)
    → process_expirations now s ≡ (ok n, t)
    → (n ≡ length (select (is_due now) s.working.decisions))
      × (any (is_due now) t.committed.decisions ≡ false)
      × (t.committed ≡ t.working)
unfolding process_expirations
process_expirations-none_due now n s t h =
    let rest : List RiskDecision → Action ℕ =
      λ ds. expire_all now ds >> (commit >> pure (length ds)) in
    let (rows, s1, read, h1) =
      >>=-ok (gets (λ s. s.working.decisions)) (λ rows. lift (select_expired now rows) >>= rest) s t
        h in
    let (due, s2, selected, h2) = >>=-ok (lift (select_expired now rows)) rest s1 t h1 in
    let (from_rows, same1) = gets-ok (λ s. s.working.decisions) s s1 rows read in
    let (chosen, same2) = lift-ok (select_expired now rows) s1 s2 due selected in
    let (counted, after, durable) = finish-ok now n due s2 t h2 in
    let exact = select_expired-select now rows due chosen in
    let left =
      any-is_due now (expire_rows due rows)
        (none_due_left now due rows (rw exact (none_left_of_select now rows))) in
    let unchanged : s2.working.decisions ≡ rows =
      ap (λ x. x.working.decisions) (same2 ∙ same1) ∙ sym from_rows in
    (
      counted ∙ ap length exact ∙ ap (λ r. length (select (is_due now) r)) from_rows,
      ap (λ db. any (is_due now) db.decisions) durable
          ∙ ap (any (is_due now)) (after ∙ ap (expire_rows due) unchanged)
          ∙ left,
      durable,
    )
