-- ===== src/Risk/Simulation.antt =====
-- The policy simulator (`PolicySimulator` of src/vulnops/risk/simulation.py).
use vulnops_hub.Prelude.{
  ℕ, suc, String, Bool, true, not, List, [], ◌∷◌, length, map, ◌≡◌, refl, arith, ◌==◌,
  if◌then◌else◌, str_eq, eq_iff,
}
use vulnops_hub.Db.{Priority, unlisted_priority}
use vulnops_hub.Risk.Policy.{Engine, PolicyInput, PolicyResult, evaluate}
use vulnops_hub.Risk.Policy.Bands.{rank}

pub record Change : Type 0 where
  pub index : ℕ
  pub from : Priority
  pub to : Priority
  pub vuln : String

pub record Comparison : Type 0 where
  pub old_version : String
  pub new_version : String
  pub total : ℕ
  pub changed : ℕ
  pub changes : List Change

-- Python's `==` on two priorities
abbrev priority_eq : Priority → Priority → Bool
priority_eq (unlisted_priority s) (unlisted_priority t) = str_eq s t
priority_eq a b = rank a == rank b

unfoldable pub simulate : Engine → List PolicyInput → List PolicyResult
simulate engine inputs = map (evaluate engine) inputs

-- The loop over `enumerate(zip(old_results, new_results))`, from an index, with the inputs that
-- stand at the same indices.
unfoldable pub changes_from :
    ℕ → List PolicyInput → List PolicyResult → List PolicyResult → List Change
changes_from index (i ∷ inputs) (old ∷ olds) (new ∷ news) =
    let rest = changes_from (suc index) inputs olds news in
    if not (priority_eq old.priority new.priority)
    then record { index = index; from = old.priority; to = new.priority; vuln = i.vulnerability_id }
      ∷ rest
    else rest
changes_from index inputs olds news = []

unfoldable pub compare : Engine → Engine → List PolicyInput → Comparison
unfolding simulate
compare old_engine new_engine inputs =
    let changes = changes_from 0 inputs (simulate old_engine inputs) (simulate new_engine inputs) in
    record {
      old_version = old_engine.policy_version;
      new_version = new_engine.policy_version;
      total = length inputs;
      changed = length changes;
      changes = changes;
    }

priority_eq_self : (p : Priority) → priority_eq p p ≡ true
priority_eq_self (unlisted_priority s) = (eq_iff s s).1 refl
priority_eq_self p = ground arith

same_priority : (a b : Engine) (i : PolicyInput) → (evaluate a i).priority ≡ (evaluate b i).priority
unfolding evaluate
same_priority a b i = ground arith

no_changes :
    (index : ℕ) (a b : Engine) (inputs : List PolicyInput)
    → changes_from index inputs (simulate a inputs) (simulate b inputs) ≡ []
unfolding changes_from simulate
no_changes index a b [] = refl
no_changes index a b (i ∷ inputs) = ground (
  arith,
  no_changes (suc index) a b inputs,
  same_priority a b i,
  priority_eq_self (evaluate b i).priority,
)

-- A comparison of two engines reports no change, whatever their versions are: the version of an
-- engine decides no priority.
pub compare_unchanged :
    (a b : Engine) (inputs : List PolicyInput)
    → ((compare a b inputs).changes ≡ []) × ((compare a b inputs).changed ≡ 0)
unfolding compare
compare_unchanged a b inputs = ground (arith, no_changes 0 a b inputs)
