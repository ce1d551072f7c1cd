-- ===== src/Workers/Exposures/Table.antt =====
-- The table of exposures as a map from keys to rows (`upsert_exposure` of
-- src/vulnops/workers/orchestration.py).
use vulnops_hub.Prelude.{
  ◌≤◌, String, Bool, true, false, Option, some, List, [], ◌∷◌, ◌++◌, find, find_passes, find-update,
  update, eq_iff, Bool-cases, Option-cases, ◌≡◌, ◌≢◌, refl, sym, ap, ◌∙◌, inl, inr, arith, count,
  count_mem,
}
use mathlib.Core.List.{Memᴰ}
use vulnops_hub.Db.{Exposure}
use vulnops_hub.Session.{Session, ok}
use vulnops_hub.Workers.Exposures.{
  Observation, Key, key_of, has_key, new_exposure, refreshed, has_exposure_id, state_of,
  upsert_exposure,
}
use vulnops_hub.Workers.Exposures.Upsert.{
  Wrote, fresh, again, refreshed_key, upsert_exposure-Wrote, upsert_exposure-Holds,
}
use vulnops_hub.Workers.Exposures.Keyed.{row_key, key_eq}

-- The abstract state: what each key has.
abbrev pub table : Session → Key → Option Exposure
table s k = find (has_key k) s.working.exposures

-- Primary keys.
abbrev pub IsIdentified : List Exposure → Type 0
IsIdentified rows = (id : String) → count (has_exposure_id id) rows ≤ 1

-- The specification of the call: its key holds the row that it returns, and no other key changes.
pub record Puts (o : Observation) (s t : Session) (row : Exposure) : Type 0 where
  pub put : table t (key_of o) ≡ some row
  pub others : (k : Key) → k ≢ key_of o → table t k ≡ table s k
  pub observed :
      (row.match_class ≡ o.match_class)
      × (row.confidence ≡ o.confidence)
      × (row.state ≡ state_of o.match_class)

find_mem : {A : Type 0} (p : A → Bool) (xs : List A) (x : A) → find p xs ≡ some x → Memᴰ x xs
find_mem p [] x h = cc
find_mem p (y ∷ ys) x h = elim (Bool-cases (p y)) [
  | inl passes ↦ Memᴰ.head (ground (arith, h, passes))
  | inr fails ↦ Memᴰ.tail (find_mem p ys x (ground (arith, h, fails)))
]

-- Two rows that pass a test which at most one row passes are the same.
same_row :
    {A : Type 0} (r : A → Bool) (xs : List A) (x y : A)
    → count r xs ≤ 1
    → Memᴰ x xs
    → Memᴰ y xs
    → r x ≡ true
    → r y ≡ true
    → x ≡ y
same_row r [] x y one here there rx ry = elim here [ ]
same_row r (z ∷ zs) x y one (Memᴰ.head ex) (Memᴰ.head ey) rx ry = ex ∙ sym ey
same_row r (z ∷ zs) x y one (Memᴰ.head ex) (Memᴰ.tail there) rx ry =
    ground (arith, one, ap r ex, rx, count_mem r zs y there ry)
same_row r (z ∷ zs) x y one (Memᴰ.tail here) (Memᴰ.head ey) rx ry =
    ground (arith, one, ap r ey, ry, count_mem r zs x here rx)
same_row r (z ∷ zs) x y one (Memᴰ.tail here) (Memᴰ.tail there) rx ry =
    same_row r zs x y (ground (arith, one)) here there rx ry

find-append_missed :
    {A : Type 0} (p : A → Bool) (xs : List A) (y : A)
    → p y ≡ false
    → find p (xs ++ y ∷ []) ≡ find p xs
find-append_missed p [] y h = ground (arith, h)
find-append_missed p (x ∷ xs) y h = ground (arith, find-append_missed p xs y h)

-- A found row that the update does not touch is found as it was.
find-update_missed :
    {A : Type 0} (p q : A → Bool) (f : A → A) (xs : List A)
    → ((x : A) → p (f x) ≡ p x)
    → ((x : A) → find p xs ≡ some x → q x ≡ false)
    → find p (update q f xs) ≡ find p xs
find-update_missed p q f xs kept missed = elim (Option-cases (find p xs)) [
  | inl absent ↦ find-update p q f xs kept ∙ ground (arith, absent)
  | inr (x, found) ↦ find-update p q f xs kept ∙ ground (arith, found, missed x found)
]

others_kept :
    (o : Observation) (s t : Session) (w : Exposure × Bool)
    → IsIdentified s.working.exposures
    → Wrote o s t w
    → (k : Key) → k ≢ key_of o
    → table t k ≡ table s k
others_kept o s t w ids (fresh id now looked rows) k other =
    elim (Bool-cases (has_key k (new_exposure o id now))) [
      | inl found ↦ absurd (other (sym (key_eq k (new_exposure o id now) found)))
      | inr missed ↦
          ap (find (has_key k)) rows ∙ find-append_missed (has_key k) s.working.exposures _ missed
    ]
others_kept o s t w ids (again e now looked rows) k other =
    ap (find (has_key k)) rows
    ∙ find-update_missed (has_key k) (has_exposure_id e.id) (refreshed now o) s.working.exposures
        (refreshed_key k now o)
        (λ x found. elim (Bool-cases (has_exposure_id e.id x)) [
          | inl same ↦
              let x_is_e =
                same_row (has_exposure_id e.id) s.working.exposures x e (ids e.id)
                  (find_mem (has_key k) s.working.exposures x found)
                  (find_mem (has_key (key_of o)) s.working.exposures e looked) same
                  ((eq_iff e.id e.id).1 refl) in
              absurd (
                other (
                  sym (key_eq k x (find_passes (has_key k) s.working.exposures found))
                  ∙ ap row_key x_is_e
                  ∙ key_eq (key_of o) e
                      (find_passes (has_key (key_of o)) s.working.exposures looked)))
          | inr differs ↦ differs
        ])

-- The table of exposures refines a map from keys to rows: an upsert that returned has put its row
-- at the key of the observation, with the class, the confidence and the state that the
-- observation gives, and has changed the row of no other key, where the identifiers of the rows
-- are distinct.
pub upsert_exposure-Puts :
    (o : Observation) (s t : Session) (w : Exposure × Bool)
    → IsIdentified s.working.exposures
    → upsert_exposure o s ≡ (ok w, t)
    → Puts o s t w.0
upsert_exposure-Puts o s t w ids h = record {
  put = (upsert_exposure-Holds o s t w h).found;
  others = others_kept o s t w ids (upsert_exposure-Wrote o s t w h);
  observed = (upsert_exposure-Holds o s t w h).observed;
}
