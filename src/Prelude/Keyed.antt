-- ===== src/Prelude/Keyed.antt =====
-- Updates of the row of one key, in a table whose rows have a text as their key.
use Prim.Native.String.{String}
use mathlib.Core.Path.{◌≡◌, refl, sym, ◌∙◌}
use mathlib.Core.Logic.{◌≢◌}
use mathlib.Core.Bool.{true}
use mathlib.Core.List.{List, [], ◌∷◌}
use native.Mathlib.Omega.{arith}
use text.Mathlib.TextEquality.{eq_iff}
use vulnops_hub.Prelude.Lists.{find, update}
use vulnops_hub.Prelude.Texts.{str_eq}

module _ {ℓ} {A : Type ℓ} (key : A → String) where
  -- An update of the row of one key leaves what is found at another key as it was.
  pub find-update_other :
      (f : A → A) (a b : String) (xs : List A)
      → ((x : A) → key (f x) ≡ key x)
      → a ≢ b
      → find (λ x. str_eq (key x) a) (update (λ x. str_eq (key x) b) f xs)
        ≡ find (λ x. str_eq (key x) a) xs
  find-update_other f a b [] keep other = refl
  find-update_other f a b (x ∷ xs) keep other =
      let both : str_eq (key x) a ≡ true → str_eq (key x) b ≡ true → a ≡ b =
        λ h k. sym ((eq_iff (key x) a).0 h) ∙ (eq_iff (key x) b).0 k in
      ground (arith, keep x, both, other, find-update_other f a b xs keep other)
