-- ===== src/Cases/Workflow/Closing.antt =====
-- When coverage closes a case (src/vulnops/cases/verification.py).
use vulnops_hub.Prelude.{
  ℕ, ◌*◌, ◌≤◌, String, true, false, ◌&&◌, Option, none, some, List, [], ◌∷◌, ◌≡◌, ◌≢◌, ◌↔◌, ◌⊎◌,
  inl, inr, refl, ap, ◌∙◌, arith, mem_text, str_eq, eq_iff, truthy, Bool-cases, some-injective,
}
use vulnops_hub.Db.{
  Method, scanner, wazuh_inventory, manual_attestation, vex, unlisted_method, Coverage,
}
use vulnops_hub.Cases.Workflow.{
  evaluate_coverage, evaluate_method, mem_optional, optional_truthy, is_stale,
}

-- An optional text that is there and is not empty.
abbrev pub HasText : Option String → Type 0
HasText x = (s : String) × (x ≡ some s) × (s ≢ "")

-- A status that says the coverage is whole.
abbrev pub IsWhole : Option String → Type 0
IsWhole status = (status ≡ some "complete") ⊎ (status ≡ some "success") ⊎ (status ≡ some "ok")

-- An age that is not known, or at most a day.
abbrev pub IsFresh : Option ℕ → Type 0
IsFresh age = (age ≡ none) ⊎ ((seconds : ℕ) × (age ≡ some seconds) × (seconds ≤ 24 * 60 * 60))

-- What the coverage of a method must say beside its status.
abbrev pub MethodProves : Method → Coverage → Type 0
MethodProves scanner c = HasText c.scope_version ⊎ HasText c.scope
MethodProves wazuh_inventory c = IsFresh c.freshness_seconds
MethodProves manual_attestation c = ⊥
MethodProves vex c = ⊥
MethodProves (unlisted_method _) c = Unit

abbrev pub Proves : Method → Option Coverage → Type 0
Proves method coverage =
    (c : Coverage) × (coverage ≡ some c) × IsWhole c.status × MethodProves method c

failing : List String
failing = "failed" ∷ "partial" ∷ "incomplete" ∷ "error" ∷ []

proving : List String
proving = "complete" ∷ "success" ∷ "ok" ∷ []

at_literal :
    (s t : String) → str_eq t s ≡ true → mem_text s proving ≡ false → mem_text t proving ≡ false
at_literal s t h k = rw ((eq_iff t s).0 h) k

failing_is_no_proof : (s : String) → mem_text s failing ≡ true → mem_text s proving ≡ false
unfolding failing proving
failing_is_no_proof s h =
    let f1 = at_literal "failed" s in
    let f2 = at_literal "partial" s in
    let f3 = at_literal "incomplete" s in
    let f4 = at_literal "error" s in ground (arith, f1, f2, f3, f4)

truthy-nonempty : (s : String) → (truthy s ≡ true) ↔ (s ≢ "")
truthy-nonempty String.[] = (λ h. cc, λ h. elim (h refl) [ ])
truthy-nonempty (String.◌∷◌ c s) = (λ _ e. cc, λ _. refl)

optional_truthy-HasText : (x : Option String) → (optional_truthy x ≡ true) ↔ HasText x
optional_truthy-HasText none = (λ h. cc, λ (s, e, _). cc)
optional_truthy-HasText (some s) = (
  λ h. (s, refl, (truthy-nonempty s).0 h),
  λ (t, e, filled). ap truthy (some-injective e) ∙ (truthy-nonempty t).1 filled,
)

text_cases :
    (s : String) → (mem_text s proving ≡ true) ↔ ((s ≡ "complete") ⊎ (s ≡ "success") ⊎ (s ≡ "ok"))
unfolding proving
text_cases s =
    let (a, a') = eq_iff s "complete" in
    let (b, b') = eq_iff s "success" in
    let (c, c') = eq_iff s "ok" in (ground (arith, a, b, c), ground (arith, a', b', c'))

mem_optional-IsWhole : (x : Option String) → (mem_optional x proving ≡ true) ↔ IsWhole x
mem_optional-IsWhole none = (λ h. cc, λ h. ground (arith, h))
mem_optional-IsWhole (some s) =
    let (to, from) = text_cases s in
    (
      λ h. elim (to h) [
        | inl a ↦ inl (ap some a)
        | inr (inl b) ↦ inr (inl (ap some b))
        | inr (inr c) ↦ inr (inr (ap some c))
      ],
      λ h. elim h [
        | inl a ↦ from (inl (some-injective a))
        | inr (inl b) ↦ from (inr (inl (some-injective b)))
        | inr (inr c) ↦ from (inr (inr (some-injective c)))
      ],
    )

is_stale-IsFresh : (x : Option ℕ) → (is_stale x ≡ false) ↔ IsFresh x
is_stale-IsFresh none = (λ _. inl refl, λ _. refl)
is_stale-IsFresh (some n) = (
  λ h. inr (n, refl, ground (arith, h)),
  λ h. elim h [ inl e ↦ cc | inr (m, e, bound) ↦ ground (arith, some-injective e, bound) ],
)

evaluate_method-MethodProves :
    (method : Method) (c : Coverage) → ((evaluate_method method c).0 ≡ true) ↔ MethodProves method c
unfolding evaluate_method
evaluate_method-MethodProves scanner c =
    let (v, v') = optional_truthy-HasText c.scope_version in
    let (w, w') = optional_truthy-HasText c.scope in
    (
      λ h. elim (Bool-cases (optional_truthy c.scope_version)) [
        | inl given ↦ inl (v given)
        | inr absent ↦ inr (w (ground (arith, h, absent)))
      ],
      λ h. elim h [ inl a ↦ ground (arith, v' a) | inr b ↦ ground (arith, w' b) ],
    )
evaluate_method-MethodProves wazuh_inventory c =
    let (f, f') = is_stale-IsFresh c.freshness_seconds in
    (λ h. f (ground (arith, h)), λ h. ground (arith, f' h))
evaluate_method-MethodProves manual_attestation c = (λ h. cc, λ h. elim h [ ])
evaluate_method-MethodProves vex c = (λ h. cc, λ h. elim h [ ])
evaluate_method-MethodProves (unlisted_method s) c = (λ h. tt, λ h. refl)

-- Coverage with a status that is whole is judged by its method, and no other is accepted.
evaluate_coverage-by_status :
    (method : Method) (c : Coverage) (status : Option String)
    → c.status ≡ status
    → (evaluate_coverage method (some c)).0
      ≡ (mem_optional status proving && (evaluate_method method c).0)
unfolding evaluate_coverage failing proving
evaluate_coverage-by_status method c none h = ground arith
evaluate_coverage-by_status method c (some s) h = ground (arith, failing_is_no_proof s)

-- Coverage lets a verification close a case exactly where it is given, its status is `complete`,
-- `success` or `ok`, and its method proves: for a scan a version of the scope or a scope that is
-- not empty, for an inventory that its age is not given or is at most a day, and nothing more for
-- a method beside the four. An attestation or a VEX statement never does.
pub evaluate_coverage-Proves :
    (method : Method) (coverage : Option Coverage)
    → ((evaluate_coverage method coverage).0 ≡ true) ↔ Proves method coverage
unfolding evaluate_coverage
evaluate_coverage-Proves method none = (λ h. cc, λ (c, e, w, m). cc)
evaluate_coverage-Proves method (some c) =
    let (whole, whole') = mem_optional-IsWhole c.status in
    let (proof, proof') = evaluate_method-MethodProves method c in
    let judged = evaluate_coverage-by_status method c c.status refl in
    (
      λ h. (c, refl, whole (ground (arith, h, judged)), proof (ground (arith, h, judged))),
      λ (d, e, w, m).
          let (_, w') = mem_optional-IsWhole d.status in
          let (_, m') = evaluate_method-MethodProves method d in
          let same = some-injective e in
          ap (λ x. (evaluate_coverage method (some x)).0) same
          ∙ evaluate_coverage-by_status method d d.status refl
          ∙ ground (arith, w' w, m' m),
    )
