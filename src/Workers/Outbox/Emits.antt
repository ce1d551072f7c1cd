-- ===== src/Workers/Outbox/Emits.antt =====
-- Calls that, when they return, have left the rows of the outbox as they were and have added only
-- rows that no handler of src/vulnops/workers/orchestration.py takes.
use vulnops_hub.Prelude.{
  ℕ, String, Bool, false, ◌||◌, List, [], ◌∷◌, ◌++◌, any, ◌≡◌, refl, sym, ap, subst, ◌∙◌,
  append-nil_list, append_assoc, arith,
}
use vulnops_hub.Db.{Database, RemediationCase, SlaClock, AuditEvent, OutboxEvent}
use vulnops_hub.Session.{
  Session, Action, Result, ok, Error, pure, raise, gets, lift, utcnow, uuid4, generated_id, modify,
  commit, rollback_on_error, ◌>>=◌, ◌>>◌, run, add_case, add_clock, add_audit, add_outbox,
  update_case,
}
use vulnops_hub.Session.Steps.{>>=-ok, >>-ok}
use vulnops_hub.Session.Keeps.{
  ReadsOnly, ReadsOnly-eq, ReadsOnly-gets, ReadsOnly-lift, ReadsOnly-raise, ReadsOnly-utcnow,
  ReadsOnly-uuid4, ReadsOnly-generated_id,
}
use vulnops_hub.Workers.Outbox.{is_handled}

abbrev pub is_work : OutboxEvent → Bool
is_work e = is_handled e.event_type

-- The rows of an outbox before and after, with follow-up rows at the end.
abbrev pub Follows : List OutboxEvent → List OutboxEvent → Type 0
Follows before after =
    (new : List OutboxEvent) × (after ≡ before ++ new) × (any is_work new ≡ false)

any_append {ℓ} :
    {A : Type ℓ} (p : A → Bool) (xs ys : List A) → any p (xs ++ ys) ≡ (any p xs || any p ys)
any_append p [] ys = refl
any_append p (x ∷ xs) ys = ground (arith, any_append p xs ys)

pub Follows-refl : (rows : List OutboxEvent) → Follows rows rows
Follows-refl rows = ([], sym (append-nil_list rows), refl)

pub Follows-trans : (a b c : List OutboxEvent) → Follows a b → Follows b c → Follows a c
Follows-trans a b c (m, eb, hm) (n, ec, hn) = (
  m ++ n,
  ec ∙ (ap (λ x. x ++ n) eb ∙ append_assoc a m n),
  any_append is_work m n ∙ ground (arith, hm, hn),
)

pub record Emits {A : Type 0} (m : Action A) : Type 0 where
  pub at : (s t : Session) (a : A) → m s ≡ (ok a, t) → Follows s.working.outbox t.working.outbox

same_outbox : (s t : Session) → t.working ≡ s.working → Follows s.working.outbox t.working.outbox
same_outbox s t same =
    subst (λ db. Follows s.working.outbox db.outbox) (sym same) (Follows-refl s.working.outbox)

module _ {A : Type 0} where
  pub Emits-pure : (a : A) → Emits (pure a)
  unfolding pure
  Emits-pure a = record { at = λ s t b e. same_outbox s t (ground (arith, e)) }

  pub Emits-reads : {m : Action A} → ReadsOnly m → Emits m
  Emits-reads h = record { at = λ s t b e. same_outbox s t (ReadsOnly-eq s h e).working_same }

  pub Emits-gets : (f : Session → A) → Emits (gets f)
  Emits-gets f = Emits-reads (ReadsOnly-gets f)

  pub Emits-lift : (r : Result A) → Emits (lift r)
  Emits-lift r = Emits-reads (ReadsOnly-lift r)

  pub Emits-raise : (e : Error) → Emits (raise {A = A} e)
  Emits-raise e = Emits-reads (ReadsOnly-raise e)

pub Emits-utcnow : Emits utcnow
Emits-utcnow = Emits-reads ReadsOnly-utcnow

pub Emits-uuid4 : Emits uuid4
Emits-uuid4 = Emits-reads ReadsOnly-uuid4

pub Emits-generated_id : (prefix : String) (n : ℕ) → Emits (generated_id prefix n)
Emits-generated_id prefix n = Emits-reads (ReadsOnly-generated_id prefix n)

-- A change of the database that does not touch the outbox.
pub record Quiet (f : Database → Database) : Type 0 where
  pub at : (db : Database) → (f db).outbox ≡ db.outbox

pub Emits-modify : (f : Database → Database) → Quiet f → Emits (modify f)
unfolding modify
Emits-modify f h = record {
  at = λ s t b e.
      subst (λ rows. Follows s.working.outbox rows) (sym (h.at s.working) ∙ ground (arith, e))
        (Follows-refl s.working.outbox);
}

pub Emits-add_outbox : (row : OutboxEvent) → is_work row ≡ false → Emits (modify (add_outbox row))
unfolding modify add_outbox
Emits-add_outbox row h = record { at = λ s t b e. (row ∷ [], ground (arith, e), ground (arith, h)) }

pub Emits-commit : Emits commit
unfolding run
Emits-commit = record { at = λ s t b e. same_outbox s t (ground (arith, e)) }

module _ {A B : Type 0} where
  pub Emits->>= :
      (m : Action A) (f : A → Action B) → Emits m → ((a : A) → Emits (f a)) → Emits (m >>= f)
  Emits->>= m f hm hf = record {
    at = λ s t b e.
        let (a, s', first, g) = >>=-ok m f s t e in
        Follows-trans s.working.outbox s'.working.outbox t.working.outbox (hm.at s s' a first)
          ((hf a).at s' t b g);
  }

  pub Emits->> : (m : Action A) (k : Action B) → Emits m → Emits k → Emits (m >> k)
  Emits->> m k hm hk = record {
    at = λ s t b e.
        let (a, s', first, g) = >>-ok m k s t e in
        Follows-trans s.working.outbox s'.working.outbox t.working.outbox (hm.at s s' a first)
          (hk.at s' t b g);
  }

body_ok :
    {A : Type 0} (body : Action A) (s t : Session) (a : A)
    → rollback_on_error body s ≡ (ok a, t)
    → body s ≡ (ok a, t)
unfolding rollback_on_error
body_ok body s t a h = ground (arith, h)

pub Emits-rollback_on_error :
    {A : Type 0} (body : Action A) → Emits body → Emits (rollback_on_error body)
Emits-rollback_on_error body h = record { at = λ s t a e. h.at s t a (body_ok body s t a e) }

pub Quiet-add_case : (row : RemediationCase) → Quiet (add_case row)
unfolding add_case
Quiet-add_case row = record { at = λ db. refl }

pub Quiet-add_clock : (row : SlaClock) → Quiet (add_clock row)
unfolding add_clock
Quiet-add_clock row = record { at = λ db. refl }

pub Quiet-add_audit : (row : AuditEvent) → Quiet (add_audit row)
unfolding add_audit
Quiet-add_audit row = record { at = λ db. refl }

pub Quiet-update_case :
    (id : String) (f : RemediationCase → RemediationCase) → Quiet (update_case id f)
unfolding update_case
Quiet-update_case id f = record { at = λ db. refl }

pub ruleset emits = (
  Emits-pure, Emits-gets, Emits-lift, Emits-raise, Emits-utcnow, Emits-uuid4, Emits-generated_id,
  Emits-modify, Emits-add_outbox, Emits-commit, Emits->>=, Emits->>, Emits-rollback_on_error,
  Quiet-add_case, Quiet-add_clock, Quiet-add_audit, Quiet-update_case,
)
