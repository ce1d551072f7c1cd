-- ===== src/Prelude/Counting.antt =====
-- How many rows of a table pass a test, and the members of a list.
use Prim.Native.Nat.{ℕ, zero, suc, ◌+◌, ◌≤◌}
use mathlib.Core.Path.{◌≡◌, refl, subst, ap, ◌∙◌}
use mathlib.Core.Logic.{inl, inr}
use mathlib.Core.Bool.{Bool, true, false, not, ◌&&◌}
use mathlib.Core.Option.{some}
use mathlib.Core.List.{List, [], ◌∷◌, ◌++◌, Memᴰ}
use mathlib.Core.List.Memᴰ
use native.Mathlib.Omega.{arith}
use vulnops_hub.Prelude.Tests.{if◌then◌else◌, Bool-cases, if-holds}
use vulnops_hub.Prelude.Lists.{any, select, take, update}

module _ {ℓ} {A : Type ℓ} where
  abbrev pub count : (A → Bool) → List A → ℕ
  count test [] = 0
  count test (x ∷ xs) = if test x then suc (count test xs) else count test xs

  pub count-append : (p : A → Bool) (xs ys : List A) → count p (xs ++ ys) ≡ count p xs + count p ys
  count-append p [] ys = omega arith
  count-append p (x ∷ xs) ys = ground (arith, count-append p xs ys)

  pub count-split :
      (p q : A → Bool) (xs : List A)
      → count p xs ≡ count (λ x. p x && q x) xs + count (λ x. p x && not (q x)) xs
  count-split p q [] = refl
  count-split p q (x ∷ xs) = ground (arith, count-split p q xs)

  pub count_none : (p : A → Bool) (xs : List A) → any p xs ≡ false → count p xs ≡ 0
  count_none p [] h = refl
  count_none p (x ∷ xs) h = ground (arith, count_none p xs)

  pub none_counted : (p : A → Bool) (xs : List A) → count p xs ≡ 0 → any p xs ≡ false
  none_counted p [] h = refl
  none_counted p (x ∷ xs) h = ground (arith, none_counted p xs)

  -- Rows that fail one test fail a narrower one.
  pub count_narrow :
      (p q : A → Bool) (xs : List A)
      → ((x : A) → q x ≡ false → p x ≡ false)
      → any q xs ≡ false
      → count p xs ≡ 0
  count_narrow p q [] h unmet = refl
  count_narrow p q (x ∷ xs) h unmet = ground (arith, h x, count_narrow p q xs h)

  -- An update whose results fail the test does not add to what passes it.
  pub count-update :
      (p q : A → Bool) (f : A → A) (xs : List A)
      → ((x : A) → p (f x) ≡ false)
      → count p (update q f xs) ≤ count p xs
  count-update p q f [] gone = omega arith
  count-update p q f (x ∷ xs) gone = ground (arith, gone x, count-update p q f xs gone)

  -- What passes the test of the update as well is gone.
  pub count-update_gone :
      (p q : A → Bool) (f : A → A) (xs : List A)
      → ((x : A) → p (f x) ≡ false)
      → count (λ x. p x && q x) (update q f xs) ≡ 0
  count-update_gone p q f [] gone = refl
  count-update_gone p q f (x ∷ xs) gone = ground (arith, gone x, count-update_gone p q f xs gone)

  pub count_mem : (p : A → Bool) (xs : List A) (x : A) → Memᴰ x xs → p x ≡ true → 1 ≤ count p xs
  count_mem p [] x here h = elim here [ ]
  count_mem p (y ∷ ys) x (Memᴰ.head e) h = ground (arith, subst (λ z. p z ≡ true) e h)
  count_mem p (y ∷ ys) x (Memᴰ.tail m) h = ground (arith, count_mem p ys x m h)

  -- What a claim takes stands in the table and passes the test.
  pub select_mem :
      (p : A → Bool) (xs : List A) (x : A) → Memᴰ x (select p xs) → Memᴰ x xs × (p x ≡ true)
  select_mem p [] x here = elim here [ ]
  select_mem p (y ∷ ys) x here =
      if-holds (λ zs. Memᴰ x zs → Memᴰ x (y ∷ ys) × (p x ≡ true)) (p y)
        (λ passes m. elim (Memᴰ.cases_cons m) [
          | inl e ↦ (Memᴰ.head e, ap p e ∙ passes)
          | inr m' ↦ let (k, h) = select_mem p ys x m' in (Memᴰ.tail k, h)
        ])
        (λ fails m. let (k, h) = select_mem p ys x m in (Memᴰ.tail k, h)) here

  pub take_mem : (n : ℕ) (xs : List A) (x : A) → Memᴰ x (take n xs) → Memᴰ x xs
  take_mem zero xs x here = elim here [ ]
  take_mem (suc n) [] x here = elim here [ ]
  take_mem (suc n) (y ∷ ys) x (Memᴰ.head e) = Memᴰ.head e
  take_mem (suc n) (y ∷ ys) x (Memᴰ.tail m) = Memᴰ.tail (take_mem n ys x m)

  pub any→mem : (p : A → Bool) (xs : List A) → any p xs ≡ true → (x : A) × Memᴰ x xs × (p x ≡ true)
  any→mem p [] h = cc
  any→mem p (x ∷ xs) h = elim (Bool-cases (p x)) [
    | inl passes ↦ (x, Memᴰ.head refl, passes)
    | inr fails ↦ let (y, m, k) = any→mem p xs (ground (arith, h, fails)) in (y, Memᴰ.tail m, k)
  ]

pub some-injective : {A : Type 0} {a b : A} → some a ≡ some b → a ≡ b
some-injective h = ground arith
