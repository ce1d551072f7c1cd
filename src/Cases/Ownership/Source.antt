-- ===== src/Cases/Ownership/Source.antt =====
-- Whose owner a new case gets (`create_case` of src/vulnops/cases/service.py).
use vulnops_hub.Prelude.{
  String, true, false, Option, List, [], ◌∷◌, all, strip, if-holds, Bool-cases, ◌≡◌, refl, ap,
  subst, sym, ◌∙◌, ◌⊎◌, inl, inr, arith,
}
use mathlib.Core.List.{Memᴰ}
use vulnops_hub.Session.{ok}
use vulnops_hub.Cases.Ownership.{
  OwnerSource, default, explicit, is_default, ResolvedOwner, text_or_empty, least, precedes,
  respelled, choose_default, choose_owner,
}
use vulnops_hub.Cases.Ownership.Choice.{choose_owner-default}

-- The owner that is chosen for a case: the requested team, the default team where every asset's
-- owner is a default, or the owner of one of the assets.
abbrev pub Chosen : String → Option String → List ResolvedOwner → ResolvedOwner → Type 0
Chosen team requested owners o =
    ((o.source ≡ explicit) × (o.owner_team ≡ strip (text_or_empty requested)))
    ⊎ ((o.source ≡ default)
        × (o.owner_team ≡ team)
        × (all (λ x. is_default x.source) owners ≡ true))
    ⊎ (Memᴰ o owners × (is_default o.source ≡ false))

mem_skip : (x o a : ResolvedOwner) (os : List ResolvedOwner) → Memᴰ x (o ∷ os) → Memᴰ x (o ∷ a ∷ os)
mem_skip x o a os (Memᴰ.head e) = Memᴰ.head e
mem_skip x o a os (Memᴰ.tail m) = Memᴰ.tail (Memᴰ.tail m)

least_mem : (o : ResolvedOwner) (os : List ResolvedOwner) → Memᴰ (least o os) (o ∷ os)
unfolding least
least_mem o [] = Memᴰ.head refl
least_mem o (a ∷ os) =
    if-holds (λ x. Memᴰ (least x os) (o ∷ a ∷ os)) (precedes a o) (λ _. Memᴰ.tail (least_mem a os))
      (λ _. mem_skip (least o os) o a os (least_mem o os))

source_of_default : (o : OwnerSource) → is_default o ≡ true → o ≡ default
source_of_default o h = ground arith

respelled_kept :
    (team : String) (o : ResolvedOwner)
    → is_default (respelled team o).source ≡ false
    → respelled team o ≡ o
respelled_kept team o h = ground arith

choose_default_mem :
    (team : String) (owners : List ResolvedOwner)
    → is_default (choose_default team owners).source ≡ false
    → Memᴰ (choose_default team owners) owners
choose_default_mem team [] h = cc
choose_default_mem team (o ∷ os) h =
    subst (λ x. Memᴰ x (o ∷ os)) (sym (respelled_kept team (least o os) h)) (least_mem o os)

choose_owner-ok :
    (team : String) (requested : Option String) (owners : List ResolvedOwner) (o : ResolvedOwner)
    → choose_owner team requested owners ≡ ok o
    → ((o.source ≡ explicit) × (o.owner_team ≡ strip (text_or_empty requested)))
      ⊎ (choose_default team owners ≡ o)
unfolding choose_owner
choose_owner-ok team requested owners o h = ground arith

-- The choice of an owner that returned one.
pub choose_owner-Chosen :
    (team : String) (requested : Option String) (owners : List ResolvedOwner) (o : ResolvedOwner)
    → choose_owner team requested owners ≡ ok o
    → Chosen team requested owners o
choose_owner-Chosen team requested owners o h = elim (choose_owner-ok team requested owners o h) [
  | inl asked ↦ inl asked
  | inr same ↦ elim (Bool-cases (is_default o.source)) [
    | inl d ↦
        let (everyone, team_kept) = choose_owner-default team requested owners o h d in
        inr (inl (source_of_default o.source d, team_kept, everyone))
    | inr owned ↦ inr (
        inr (
          subst (λ x. Memᴰ x owners) same
              (choose_default_mem team owners (ap (λ x. is_default x.source) same ∙ owned)),
          owned,
        ))
  ]
]
