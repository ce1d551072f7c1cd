-- ===== src/Workers/Cases/Once.antt =====
-- An exposure opens one case (`_maybe_create_case` of src/vulnops/workers/orchestration.py).
use vulnops_hub.Prelude.{
  String, Bool, true, false, ◌&&◌, Option, none, some, List, [], ◌∷◌, ◌++◌, any, update, mem_text,
  str_eq, truthy, eq_iff, ◌≡◌, refl, sym, ap, ◌∙◌, arith,
}
use vulnops_hub.Db.{RemediationCase, CaseExposure, Exposure}
use vulnops_hub.Session.{Session, ok, modify, commit, run, update_case, has_case_id}
use vulnops_hub.Session.Steps.{>>=-ok, >>-ok, modify-ok, pure-ok}
use vulnops_hub.Session.Keeps.{ReadsOnly-eq, ReadsOnly-generated_id}
use vulnops_hub.Cases.Create.{create_case}
use vulnops_hub.Cases.Create.Writing.{row_of, create_case-adds}
use vulnops_hub.Workers.Cases.{
  Sources, is_open, is_listed, skips, case_request, add_case_exposure, link_by, link_ticket,
  open_case, create_unless, maybe_create_case,
}

any_last :
    {A : Type 0} (p : A → Bool) (xs : List A) (x : A) → p x ≡ true → any p (xs ++ x ∷ []) ≡ true
any_last p [] x h = ground (arith, h)
any_last p (y ∷ ys) x h = ground (arith, any_last p ys x h)

any-update_kept :
    {A : Type 0} (p q : A → Bool) (f : A → A) (xs : List A)
    → ((x : A) → p (f x) ≡ p x)
    → any p (update q f xs) ≡ any p xs
any-update_kept p q f [] kept = refl
any-update_kept p q f (x ∷ xs) kept = ground (arith, kept x, any-update_kept p q f xs kept)

-- Whether an open case lists the exposure.
abbrev listed : Exposure → Session → Bool
listed e s = is_listed s.working e.organization_id e.id

link_by-listed :
    (b : Bool) (e : Exposure) (id ticket : String) (provenance : Option String) (s t : Session)
    → link_by b e id ticket provenance s ≡ (ok tt, t)
    → listed e t ≡ listed e s
unfolding link_by is_listed update_case run
link_by-listed false e id ticket provenance s t h = ground (arith, h)
link_by-listed true e id ticket provenance s t h =
    let tests : RemediationCase → Bool =
      λ c. str_eq c.organization_id e.organization_id && is_open c && mem_text e.id c.exposures in
    ap (λ x. any tests x.1.working.cases) (sym h)
    ∙ any-update_kept tests (has_case_id id) _ s.working.cases (λ x. refl)

link_ticket-listed :
    (e : Exposure) (id : String) (ticket provenance : Option String) (s t : Session)
    → link_ticket e id ticket provenance s ≡ (ok tt, t)
    → listed e t ≡ listed e s
unfolding run is_listed
link_ticket-listed e id none provenance s t h = ground (arith, h)
link_ticket-listed e id (some ticket) provenance s t h =
    link_by-listed (truthy ticket) e id ticket provenance s t h

create_case-listed :
    (e : Exposure) (label : String) (team : Option String) (s t : Session) (c : RemediationCase)
    → create_case (case_request e label team) s ≡ (ok c, t)
    → listed e t ≡ true
unfolding is_listed
create_case-listed e label team s t c h =
    let (owner, rows) = create_case-adds (case_request e label team) s t c h in
    let row = row_of (case_request e label team) owner s in
    let tests : RemediationCase → Bool =
      λ x. str_eq x.organization_id e.organization_id && is_open x && mem_text e.id x.exposures in
    ap (any tests) rows
    ∙ any_last tests s.working.cases row (
        ground
          (arith, (eq_iff e.organization_id e.organization_id).1 refl, (eq_iff e.id e.id).1 refl))

add_link-listed :
    (e : Exposure) (row : CaseExposure) (s t : Session)
    → modify (add_case_exposure row) s ≡ (ok tt, t)
    → listed e t ≡ listed e s
unfolding is_listed add_case_exposure
add_link-listed e row s t h = ground (arith, modify-ok (add_case_exposure row) s t h)

commit-listed : (e : Exposure) (s t : Session) → commit s ≡ (ok tt, t) → listed e t ≡ listed e s
unfolding run is_listed
commit-listed e s t h = ground (arith, h)

open_case-listed :
    (e : Exposure) (label : String) (ticket provenance : Option String) (s t : Session)
    (c : RemediationCase)
    → open_case e label ticket provenance s ≡ (ok c, t)
    → listed e t ≡ true
unfolding open_case
open_case-listed e label ticket provenance s t c h =
    let (team, s1, read, h1) = >>=-ok _ _ s t h in
    let (row, s2, created, h2) = >>=-ok _ _ s1 t h1 in
    let (id, s3, drew, h3) = >>=-ok _ _ s2 t h2 in
    let (_, s4, linked, h4) = >>-ok _ _ s3 t h3 in
    let (_, s5, ticketed, h5) = >>-ok _ _ s4 t h4 in
    let (_, s6, committed, h6) = >>-ok _ _ s5 t h5 in
    let (_, last) = pure-ok row c s6 t h6 in
    let same = (ReadsOnly-eq s2 (ReadsOnly-generated_id "cx_" 12) drew).working_same in
    ap (listed e) (sym last)
    ∙ commit-listed e s5 s6 committed
    ∙ link_ticket-listed e row.id ticket provenance s4 s5 ticketed
    ∙ add_link-listed e _ s3 s4 linked
    ∙ ap (λ db. is_listed db e.organization_id e.id) same
    ∙ create_case-listed e label team s1 s2 row created

-- A call that is skipped returns `None` and changes nothing.
skipped :
    (sources : Sources) (e : Exposure) (label : String) (ticket provenance : Option String)
    (s : Session)
    → skips sources e s.working ≡ true
    → maybe_create_case sources e label ticket provenance s ≡ (ok none, s)
unfolding maybe_create_case run
skipped sources e label ticket provenance s skip = rw skip refl

create_unless-listed :
    (b : Bool) (e : Exposure) (label : String) (ticket provenance : Option String) (s t : Session)
    (c : RemediationCase)
    → create_unless b e label ticket provenance s ≡ (ok (some c), t)
    → listed e t ≡ true
create_unless-listed true e label ticket provenance s t c h =
    ground (arith, pure-ok none (some c) s t h)
create_unless-listed false e label ticket provenance s t c h =
    let (row, s1, opened, h1) = >>=-ok (open_case e label ticket provenance) _ s t h in
    ap (listed e) (sym (pure-ok (some row) (some c) s1 t h1).1)
    ∙ open_case-listed e label ticket provenance s s1 row opened

-- Once a call has opened a case for an exposure, a further call for that exposure on the session
-- that it left, whatever its label, ticket and provenance, returns `None` and changes nothing.
pub maybe_create_case-once :
    (sources : Sources) (e : Exposure) (label label' : String)
    (ticket provenance ticket' provenance' : Option String) (s t : Session) (c : RemediationCase)
    → maybe_create_case sources e label ticket provenance s ≡ (ok (some c), t)
    → maybe_create_case sources e label' ticket' provenance' t ≡ (ok none, t)
unfolding maybe_create_case skips
maybe_create_case-once sources e label label' ticket provenance ticket' provenance' s t c h =
    let (skip, s1, read, h1) = >>=-ok _ _ s t h in
    let found = create_unless-listed skip e label ticket provenance s1 t c h1 in
    skipped sources e label' ticket' provenance' t (ground (arith, found))
