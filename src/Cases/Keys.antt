-- ===== src/Cases/Keys.antt =====
-- Cases by their primary key.
use vulnops_hub.Prelude.{
  ℕ, String, Bool, true, false, ◌&&◌, some, List, [], ◌∷◌, any, find, update, eq_iff, ◌==◌, ◌≡◌,
  refl, arith,
}
use vulnops_hub.Db.{RemediationCase}
use vulnops_hub.Session.{has_case_id}

-- No two rows have one identifier.
abbrev pub HasKeys : List RemediationCase → Type 0
HasKeys [] = Unit
HasKeys (c ∷ rows) = (any (has_case_id c.id) rows ≡ false) × HasKeys rows

-- `WHERE id = case_id AND version = expected`
abbrev pub has_version : String → ℕ → RemediationCase → Bool
has_version case_id expected row = has_case_id case_id row && row.version == expected

any-has_version :
    (id : String) (v : ℕ) (rows : List RemediationCase)
    → any (has_case_id id) rows ≡ false
    → any (has_version id v) rows ≡ false
any-has_version id v [] h = refl
any-has_version id v (c ∷ rows) h = ground (arith, any-has_version id v rows)

-- Where a row passes the test of an `UPDATE`, the row with the identifier is that row.
pub find-update_version :
    (id : String) (v : ℕ) (f : RemediationCase → RemediationCase) (rows : List RemediationCase)
    (c : RemediationCase)
    → ((x : RemediationCase) → (f x).id ≡ x.id)
    → HasKeys rows
    → find (has_case_id id) rows ≡ some c
    → any (has_version id v) rows ≡ true
    → (c.version ≡ v) × (find (has_case_id id) (update (has_version id v) f rows) ≡ some (f c))
find-update_version id v f [] c keep keys found matched = cc
find-update_version id v f (x ∷ rows) c keep keys found matched = ground (
  arith,
  keep x,
  eq_iff x.id id,
  any-has_version id v rows,
  find-update_version id v f rows c keep keys.1,
)
