-- ===== src/Workers/Exposures/Upsert.antt =====
-- What `upsert_exposure` (src/vulnops/workers/orchestration.py) leaves in the table.
use vulnops_hub.Prelude.{
  ℕ, String, Bool, true, false, Option, none, some, [], ◌∷◌, ◌++◌, find, find-update, find-append,
  update, truthy, eq_iff, ◌≡◌, refl, sym, ap, subst, ◌∙◌, arith,
}
use vulnops_hub.Db.{Exposure, MatchEvidence}
use vulnops_hub.Session.{Session, ok, run}
use vulnops_hub.Session.Steps.{ok-injective, >>=-ok, >>-ok, gets-ok, pure-ok}
use vulnops_hub.Workers.Exposures.{
  Observation, Key, key_of, has_key, same_text, refreshed, new_exposure, has_exposure_id,
  update_exposure, add_exposure, write_exposure, support, support_by, add_support,
  add_match_evidence, upsert_exposure, state_of,
}

same_text_refl : (o : Option String) → same_text o o ≡ true
same_text_refl none = refl
same_text_refl (some s) = (eq_iff s s).1 refl

pub new_exposure_key :
    (o : Observation) (id : String) (now : ℕ) → has_key (key_of o) (new_exposure o id now) ≡ true
new_exposure_key o id now = ground (
  arith,
  (eq_iff o.organization_id o.organization_id).1 refl,
  (eq_iff o.vulnerability_id o.vulnerability_id).1 refl,
  (eq_iff o.detection_context o.detection_context).1 refl,
  same_text_refl o.component_occurrence_id,
)

abbrev pub is_none {ℓ} : {A : Type ℓ} → Option A → Bool
is_none none = true
is_none (some _) = false

-- The write of the row, as it changes the table of exposures.
pub data Wrote (o : Observation) (s t : Session) : Exposure × Bool → Type 0 where
  fresh :
      (id : String) (now : ℕ)
      → find (has_key (key_of o)) s.working.exposures ≡ none
      → t.working.exposures ≡ s.working.exposures ++ new_exposure o id now ∷ []
      → Wrote o s t (new_exposure o id now, true)
  again :
      (e : Exposure) (now : ℕ)
      → find (has_key (key_of o)) s.working.exposures ≡ some e
      → t.working.exposures ≡ update (has_exposure_id e.id) (refreshed now o) s.working.exposures
      → Wrote o s t (refreshed now o e, false)

add_support_quiet :
    (o : Observation) (id ref : String) (seen : Option MatchEvidence) (s t : Session)
    → add_support o id ref seen s ≡ (ok tt, t)
    → t.working.exposures ≡ s.working.exposures
unfolding add_support add_match_evidence run
add_support_quiet o id ref (some m) s t h = ground (arith, h)
add_support_quiet o id ref none s t h = ground (arith, h)

support_by_quiet :
    (b : Bool) (o : Observation) (id ref : String) (s t : Session)
    → support_by b o id ref s ≡ (ok tt, t)
    → t.working.exposures ≡ s.working.exposures
unfolding support_by run
support_by_quiet false o id ref s t h = ground (arith, h)
support_by_quiet true o id ref s t h = add_support_quiet o id ref _ s t h

support_quiet :
    (o : Observation) (id : String) (ref : Option String) (s t : Session)
    → support o id ref s ≡ (ok tt, t)
    → t.working.exposures ≡ s.working.exposures
unfolding run
support_quiet o id none s t h = ground (arith, h)
support_quiet o id (some ref) s t h = support_by_quiet (truthy ref) o id ref s t h

write_exposure-Wrote :
    (o : Observation) (found : Option Exposure) (s t : Session) (w : Exposure × Bool)
    → find (has_key (key_of o)) s.working.exposures ≡ found
    → write_exposure o found s ≡ (ok w, t)
    → Wrote o s t w
unfolding write_exposure add_exposure update_exposure run
write_exposure-Wrote o none s t w looked h =
    subst {A = (Exposure × Bool) × Session} (λ x. Wrote o s x.1 x.0)
      (λ i. (ok-injective (ap (λ x. x.0) h) i, (h i).1)) (fresh _ _ looked refl)
write_exposure-Wrote o (some e) s t w looked h =
    subst {A = (Exposure × Bool) × Session} (λ x. Wrote o s x.1 x.0)
      (λ i. (ok-injective (ap (λ x. x.0) h) i, (h i).1)) (again e _ looked refl)

rows_kept :
    (o : Observation) (s t u : Session) (w : Exposure × Bool)
    → u.working.exposures ≡ t.working.exposures
    → Wrote o s t w
    → Wrote o s u w
rows_kept o s t u w same (fresh id now looked rows) = fresh id now looked (same ∙ rows)
rows_kept o s t u w same (again e now looked rows) = again e now looked (same ∙ rows)

pub upsert_exposure-Wrote :
    (o : Observation) (s t : Session) (w : Exposure × Bool)
    → upsert_exposure o s ≡ (ok w, t)
    → Wrote o s t w
unfolding upsert_exposure
upsert_exposure-Wrote o s t w h =
    let (found, s1, looked, h1) = >>=-ok _ _ s t h in
    let (same, start) = gets-ok _ s s1 found looked in
    let (w', s2, wrote, h2) = >>=-ok _ _ s1 t h1 in
    let (_, s3, supported, h3) = >>-ok _ _ s2 t h2 in
    let (e, last) = pure-ok w' w s3 t h3 in
    let looked' : find (has_key (key_of o)) s1.working.exposures ≡ found =
      ap (λ x. find (has_key (key_of o)) x.working.exposures) start ∙ sym same in
    let kept = support_quiet o (w'.0).id o.evidence_ref s2 s3 supported in
    let done = rows_kept o s1 s2 s3 w' kept (write_exposure-Wrote o found s1 s2 w' looked' wrote) in
    subst {A = Session × Session × (Exposure × Bool)} (λ x. Wrote o x.0 x.1 x.2)
      (λ i. (start i, last i, e i)) done

-- A row keeps its key when it is observed again.
pub refreshed_key :
    (k : Key) (now : ℕ) (o : Observation) (e : Exposure)
    → has_key k (refreshed now o e) ≡ has_key k e
unfolding refreshed
refreshed_key k now o e = refl

-- A call that returned: the key of the observation has a row, the one that it returns, which holds
-- what was observed; and it is a new row exactly where the key had none.
pub record Holds (o : Observation) (s t : Session) (w : Exposure × Bool) : Type 0 where
  pub found : find (has_key (key_of o)) t.working.exposures ≡ some w.0
  pub observed :
      ((w.0).match_class ≡ o.match_class)
      × ((w.0).confidence ≡ o.confidence)
      × ((w.0).state ≡ state_of o.match_class)
  pub created : w.1 ≡ is_none (find (has_key (key_of o)) s.working.exposures)

holds : (o : Observation) (s t : Session) (w : Exposure × Bool) → Wrote o s t w → Holds o s t w
unfolding refreshed
holds o s t w (fresh id now looked rows) = record {
  found =
      ap (find (has_key (key_of o))) rows
      ∙ find-append (has_key (key_of o)) s.working.exposures _ looked (new_exposure_key o id now);
  observed = (refl, refl, refl);
  created = sym (ap is_none looked);
}
holds o s t w (again e now looked rows) = record {
  found =
      ap (find (has_key (key_of o))) rows
      ∙ find-update (has_key (key_of o)) (has_exposure_id e.id) (refreshed now o)
          s.working.exposures (refreshed_key (key_of o) now o)
      ∙ ground (arith, looked, (eq_iff e.id e.id).1 refl);
  observed = (refl, refl, refl);
  created = sym (ap is_none looked);
}

-- An upsert that returned returns the row that the key of the observation now has, with the
-- class, the confidence and the state that the observation gives; it says that the row is new
-- exactly where the key had none.
pub upsert_exposure-Holds :
    (o : Observation) (s t : Session) (w : Exposure × Bool)
    → upsert_exposure o s ≡ (ok w, t)
    → Holds o s t w
upsert_exposure-Holds o s t w h = holds o s t w (upsert_exposure-Wrote o s t w h)
