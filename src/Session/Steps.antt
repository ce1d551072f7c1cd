-- ===== src/Session/Steps.antt =====
-- The steps of a call: how a block that returned went, and how a block goes on from a first call.
use vulnops_hub.Prelude.{Bool, true, false, ◌≡◌, refl, ap, arith, ◌⊎◌, inl, inr}
use vulnops_hub.Db.{Database}
use vulnops_hub.Session.{
  Session, Action, Result, ok, err, Error, ValueError, value_error, pure, gets, modify, raise_if,
  and_then, ◌>>=◌, ◌>>◌,
}

pub ok-injective : {A : Type 0} {a b : A} → ok a ≡ ok b → a ≡ b
ok-injective h = ground arith

pub pure-ok : {A : Type 0} (a b : A) (s t : Session) → pure a s ≡ (ok b, t) → (a ≡ b) × (s ≡ t)
unfolding pure
pure-ok a b s t h = ground arith

module _ {A B : Type 0} where
  and_then-ok :
      (r : Result A) (f : A → Action B) (s t : Session) {b : B}
      → and_then r f s ≡ (ok b, t)
      → (a : A) × (r ≡ ok a) × (f a s ≡ (ok b, t))
  and_then-ok (ok a) f s t h = (a, refl, h)
  and_then-ok (err e) f s t h = cc

  -- A block that returned: its first call returned, and then the rest did.
  pub >>=-ok :
      (m : Action A) (f : A → Action B) (s t : Session) {b : B}
      → (m >>= f) s ≡ (ok b, t)
      → (a : A) × (s' : Session) × (m s ≡ (ok a, s')) × (f a s' ≡ (ok b, t))
  unfolding ◌>>=◌
  >>=-ok m f s t h =
      let (a, e, g) = and_then-ok (m s).0 f (m s).1 t h in (a, (m s).1, λ i. (e i, (m s).1), g)

  pub >>-ok :
      (m : Action A) (k : Action B) (s t : Session) {b : B}
      → (m >> k) s ≡ (ok b, t)
      → (a : A) × (s' : Session) × (m s ≡ (ok a, s')) × (k s' ≡ (ok b, t))
  unfolding ◌>>◌
  >>-ok m k s t h =
      let (a, e, g) = and_then-ok (m s).0 (λ _. k) (m s).1 t h in
      (a, (m s).1, λ i. (e i, (m s).1), g)

-- A guard that let the call pass.
pub guard-ok :
    {A : Type 0} (b : Bool) (e : ValueError) (k : Action A) (s t : Session) {a : A}
    → (raise_if b e >> k) s ≡ (ok a, t)
    → (b ≡ false) × (k s ≡ (ok a, t))
unfolding ◌>>◌ raise_if
guard-ok true e k s t h = cc
guard-ok false e k s t h = (refl, h)

module _ {A B : Type 0} where
  pub >>=-run :
      (m : Action A) (f : A → Action B) (s s' : Session) (a : A)
      → m s ≡ (ok a, s')
      → (m >>= f) s ≡ f a s'
  unfolding ◌>>=◌
  >>=-run m f s s' a h = ap (λ x. and_then x.0 f x.1) h

  pub >>-run :
      (m : Action A) (k : Action B) (s s' : Session) (a : A) → m s ≡ (ok a, s') → (m >> k) s ≡ k s'
  unfolding ◌>>◌
  >>-run m k s s' a h = ap (λ x. and_then x.0 (λ _. k) x.1) h

  pub >>=-err :
      (m : Action A) (f : A → Action B) (s s' : Session) (e : Error)
      → m s ≡ (err e, s')
      → (m >>= f) s ≡ (err e, s')
  unfolding ◌>>=◌
  >>=-err m f s s' e h = ap (λ x. and_then x.0 f x.1) h

pub guard-run :
    {A : Type 0} (b : Bool) (e : ValueError) (k : Action A) (s : Session)
    → b ≡ false
    → (raise_if b e >> k) s ≡ k s
unfolding ◌>>◌ raise_if
guard-run true e k s h = cc
guard-run false e k s h = refl

pub guard-err :
    {A : Type 0} (b : Bool) (e : ValueError) (k : Action A) (s : Session)
    → b ≡ true
    → (raise_if b e >> k) s ≡ (err (value_error e), s)
unfolding ◌>>◌ raise_if
guard-err true e k s h = refl
guard-err false e k s h = cc

pub gets-ok :
    {A : Type 0} (f : Session → A) (s t : Session) (a : A)
    → gets f s ≡ (ok a, t)
    → (a ≡ f s) × (t ≡ s)
unfolding gets
gets-ok f s t a h = ground arith

pub modify-ok :
    (f : Database → Database) (s t : Session)
    → modify f s ≡ (ok tt, t)
    → t ≡ record s { working = f s.working }
unfolding modify
modify-ok f s t h = ground arith

-- A result is a value or an error.
pub Result-cases :
    {A : Type 0} (r : Result A) → ((a : A) × (r ≡ ok a)) ⊎ ((e : Error) × (r ≡ err e))
Result-cases (ok a) = inl (a, refl)
Result-cases (err e) = inr (e, refl)

-- A call that returns a value ends in the session that it leaves.
pub returned : {A : Type 0} (x : Result A × Session) (a : A) → x.0 ≡ ok a → x ≡ (ok a, x.1)
returned x a h = ground (arith, h)
