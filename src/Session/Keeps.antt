-- ===== src/Session/Keeps.antt =====
-- Rules for calls that only read, and for what a call that returns ensures.
use vulnops_hub.Prelude.{
  ℕ, String, Bool, true, false, Option, none, some, ◌≡◌, refl, ◌∙◌, ap, subst, arith,
}
use vulnops_hub.Session.Steps.{ok-injective, >>=-ok, >>-ok}
use vulnops_hub.Session.{
  Session, Action, Result, ok, err, Error, ValueError, pure, raise, gets, lift, utcnow, uuid4,
  generated_id, raise_if, or_raise, and_then, ◌>>=◌, ◌>>◌,
}

-- `s'` has the rows and the world of `s`; the clock and the identifiers may have been read.
pub record SameRows (s s' : Session) : Type 0 where
  pub committed_same : s'.committed ≡ s.committed
  pub working_same : s'.working ≡ s.working
  pub world_same : s'.world ≡ s.world
  pub faults_same : s'.faults ≡ s.faults

pub SameRows-refl : (s : Session) → SameRows s s
SameRows-refl s = record {
  committed_same = refl;
  working_same = refl;
  world_same = refl;
  faults_same = refl;
}

pub SameRows-trans : {s t u : Session} → SameRows s t → SameRows t u → SameRows s u
SameRows-trans h k = record {
  committed_same = k.committed_same ∙ h.committed_same;
  working_same = k.working_same ∙ h.working_same;
  world_same = k.world_same ∙ h.world_same;
  faults_same = k.faults_same ∙ h.faults_same;
}

-- A call that only reads, whether it returns or raises.
pub record ReadsOnly {A : Type 0} (m : Action A) : Type 0 where
  pub at : (s : Session) → SameRows s (m s).1

pub ReadsOnly-eq :
    {A : Type 0} {m : Action A} (s : Session) {x : Result A × Session}
    → ReadsOnly m
    → m s ≡ x
    → SameRows s x.1
ReadsOnly-eq s h e = subst (λ y. SameRows s y.1) e (h.at s)

module _ {A : Type 0} where
  pub ReadsOnly-pure : (a : A) → ReadsOnly (pure a)
  unfolding pure
  ReadsOnly-pure a = record { at = SameRows-refl }

  pub ReadsOnly-raise : (e : Error) → ReadsOnly (raise {A = A} e)
  unfolding raise
  ReadsOnly-raise e = record { at = SameRows-refl }

  pub ReadsOnly-gets : (f : Session → A) → ReadsOnly (gets f)
  unfolding gets
  ReadsOnly-gets f = record { at = SameRows-refl }

  pub ReadsOnly-lift : (r : Result A) → ReadsOnly (lift r)
  unfolding lift
  ReadsOnly-lift r = record { at = SameRows-refl }

  pub ReadsOnly-or_raise : (o : Option A) (e : ValueError) → ReadsOnly (or_raise o e)
  unfolding or_raise
  ReadsOnly-or_raise none e = record { at = SameRows-refl }
  ReadsOnly-or_raise (some a) e = record { at = SameRows-refl }

pub ReadsOnly-raise_if : (b : Bool) (e : ValueError) → ReadsOnly (raise_if b e)
unfolding raise_if
ReadsOnly-raise_if true e = record { at = SameRows-refl }
ReadsOnly-raise_if false e = record { at = SameRows-refl }

pub ReadsOnly-utcnow : ReadsOnly utcnow
unfolding utcnow
ReadsOnly-utcnow = record { at = λ s. ground arith }

pub ReadsOnly-uuid4 : ReadsOnly uuid4
unfolding uuid4
ReadsOnly-uuid4 = record { at = λ s. ground arith }

pub ReadsOnly-generated_id : (p : String) (n : ℕ) → ReadsOnly (generated_id p n)
unfolding generated_id
ReadsOnly-generated_id p n = record { at = λ s. ground arith }

module _ {A B : Type 0} where
  and_then-ReadsOnly :
      (r : Result A) (f : A → Action B) → ((a : A) → ReadsOnly (f a)) → ReadsOnly (and_then r f)
  and_then-ReadsOnly (ok a) f h = record { at = (h a).at }
  and_then-ReadsOnly (err e) f h = record { at = SameRows-refl }

  pub ReadsOnly->>= :
      (m : Action A) (f : A → Action B)
      → ReadsOnly m
      → ((a : A) → ReadsOnly (f a))
      → ReadsOnly (m >>= f)
  unfolding ◌>>=◌
  ReadsOnly->>= m f hm hf = record {
    at = λ s. SameRows-trans (hm.at s) ((and_then-ReadsOnly (m s).0 f hf).at (m s).1);
  }

  pub ReadsOnly->> : (m : Action A) (k : Action B) → ReadsOnly m → ReadsOnly k → ReadsOnly (m >> k)
  unfolding ◌>>◌
  ReadsOnly->> m k hm hk = record {
    at = λ s. SameRows-trans (hm.at s) ((and_then-ReadsOnly (m s).0 (λ _. k) (λ _. hk)).at (m s).1);
  }

-- What a call returns has `Q`, when it returns.
pub record Ensures {A : Type 0} (Q : A → Type 0) (m : Action A) : Type 0 where
  pub at : (s t : Session) (a : A) → m s ≡ (ok a, t) → Q a

module _ {A : Type 0} {Q : A → Type 0} where
  pub Ensures-pure : (a : A) → Q a → Ensures Q (pure a)
  unfolding pure
  Ensures-pure a q = record { at = λ s t b e. subst Q (ok-injective (ap (λ x. x.0) e)) q }

  pub Ensures-raise : (e : Error) → Ensures Q (raise e)
  unfolding raise
  Ensures-raise e = record { at = λ s t b h. cc }

  pub Ensures-guard :
      (b : Bool) (e : ValueError) (k : Action A)
      → (b ≡ false → Ensures Q k)
      → Ensures Q (raise_if b e >> k)
  unfolding ◌>>◌ raise_if
  Ensures-guard true e k h = record { at = λ s t a g. cc }
  Ensures-guard false e k h = record { at = (h refl).at }

module _ {A B : Type 0} {Q : B → Type 0} where
  pub Ensures->>= :
      (m : Action A) (f : A → Action B) → ((a : A) → Ensures Q (f a)) → Ensures Q (m >>= f)
  Ensures->>= m f h = record {
    at = λ s t b e. let (a, s', _, g) = >>=-ok m f s t e in (h a).at s' t b g;
  }

  -- The rest may use what the first call ensures.
  pub Ensures-chain :
      {P : A → Type 0} (m : Action A) (f : A → Action B)
      → Ensures P m
      → ((a : A) → P a → Ensures Q (f a))
      → Ensures Q (m >>= f)
  Ensures-chain m f p h = record {
    at = λ s t b e.
        let (a, s', first, g) = >>=-ok m f s t e in (h a (p.at s s' a first)).at s' t b g;
  }

  pub Ensures->> : (m : Action A) (k : Action B) → Ensures Q k → Ensures Q (m >> k)
  Ensures->> m k h = record { at = λ s t b e. let (_, s', _, g) = >>-ok m k s t e in h.at s' t b g }

pub ruleset reads_only = (
  ReadsOnly-pure, ReadsOnly-raise, ReadsOnly-gets, ReadsOnly-lift, ReadsOnly-or_raise,
  ReadsOnly-raise_if, ReadsOnly-utcnow, ReadsOnly-uuid4, ReadsOnly-generated_id, ReadsOnly->>=,
  ReadsOnly->>,
)
