-- ===== src/Workers/Exposures/Keyed.antt =====
-- One row for each key, whatever is observed (`upsert_exposure` of
-- src/vulnops/workers/orchestration.py).
use vulnops_hub.Prelude.{
  ◌≤◌, String, Bool, true, ◌&&◌, Option, none, some, List, [], ◌∷◌, find, update, str_eq, eq_iff,
  Bool-cases, ◌≡◌, refl, ap, subst, ◌∙◌, inl, inr, arith, count, count-append,
}
use vulnops_hub.Db.{Exposure}
use vulnops_hub.Session.{Session, ok}
use vulnops_hub.Workers.Exposures.{
  Observation, Key, has_key, same_text, new_exposure, refreshed, has_exposure_id, upsert_exposure,
}
use vulnops_hub.Workers.Exposures.Upsert.{Wrote, fresh, again, refreshed_key, upsert_exposure-Wrote}

-- No key has two rows.
abbrev pub IsKeyed : List Exposure → Type 0
IsKeyed rows = (k : Key) → count (has_key k) rows ≤ 1

count_unfound : {A : Type 0} (p : A → Bool) (xs : List A) → find p xs ≡ none → count p xs ≡ 0
count_unfound p [] h = refl
count_unfound p (x ∷ xs) h = ground (arith, count_unfound p xs)

count-update_kept :
    {A : Type 0} (p q : A → Bool) (f : A → A) (xs : List A)
    → ((x : A) → p (f x) ≡ p x)
    → count p (update q f xs) ≡ count p xs
count-update_kept p q f [] kept = refl
count-update_kept p q f (x ∷ xs) kept = ground (arith, kept x, count-update_kept p q f xs kept)

all_four :
    (a b c d : Bool) → (a && b && c && d) ≡ true → (a ≡ true) × (b ≡ true) × (c ≡ true) × (d ≡ true)
all_four a b c d h = ground (arith, h)

same_text-eq : (a b : Option String) → same_text a b ≡ true → a ≡ b
same_text-eq none none h = refl
same_text-eq none (some b) h = cc
same_text-eq (some a) none h = cc
same_text-eq (some a) (some b) h = ap some ((eq_iff a b).0 h)

abbrev pub row_key : Exposure → Key
row_key e = record {
  organization_id = e.organization_id;
  vulnerability_id = e.vulnerability_id;
  detection_context = e.detection_context;
  component_occurrence_id = e.component_occurrence_id;
}

-- A row that a key finds has just that key.
pub key_eq : (k : Key) (e : Exposure) → has_key k e ≡ true → row_key e ≡ k
key_eq k e h =
    let (org, vuln, context, component) =
      all_four (str_eq e.organization_id k.organization_id)
        (str_eq e.vulnerability_id k.vulnerability_id)
        (str_eq e.detection_context k.detection_context)
        (same_text e.component_occurrence_id k.component_occurrence_id) h in
    λ i. record {
      organization_id = (eq_iff e.organization_id k.organization_id).0 org i;
      vulnerability_id = (eq_iff e.vulnerability_id k.vulnerability_id).0 vuln i;
      detection_context = (eq_iff e.detection_context k.detection_context).0 context i;
      component_occurrence_id =
          same_text-eq e.component_occurrence_id k.component_occurrence_id component i;
    }

Wrote-IsKeyed :
    (o : Observation) (s t : Session) (w : Exposure × Bool)
    → Wrote o s t w
    → IsKeyed s.working.exposures
    → IsKeyed t.working.exposures
Wrote-IsKeyed o s t w (again e now looked rows) keyed k = omega (
  arith,
  ap (count (has_key k)) rows,
  count-update_kept (has_key k) (has_exposure_id e.id) (refreshed now o) s.working.exposures
      (refreshed_key k now o),
  keyed k,
)
Wrote-IsKeyed o s t w (fresh id now looked rows) keyed k =
    let total =
      ap (count (has_key k)) rows
      ∙ count-append (has_key k) s.working.exposures (new_exposure o id now ∷ []) in
    elim (Bool-cases (has_key k (new_exposure o id now))) [
      | inl found ↦
          let unfound = count_unfound (has_key k) s.working.exposures (
            subst (λ j. find (has_key j) s.working.exposures ≡ none)
              (key_eq k (new_exposure o id now) found) looked) in
          ground (arith, total, found, unfound)
      | inr missed ↦ ground (arith, total, missed, keyed k)
    ]

-- An upsert that returned keeps that no key has two exposures.
pub upsert_exposure-IsKeyed :
    (o : Observation) (s t : Session) (w : Exposure × Bool)
    → upsert_exposure o s ≡ (ok w, t)
    → IsKeyed s.working.exposures
    → IsKeyed t.working.exposures
upsert_exposure-IsKeyed o s t w h = Wrote-IsKeyed o s t w (upsert_exposure-Wrote o s t w h)
