-- ===== src/Cases/Workflow/Paths.antt =====
-- The walks of the state machine of a case (src/vulnops/cases/models.py).
use vulnops_hub.Prelude.{Bool, true, false, ◌≡◌, ◌⊎◌, inl, inr, refl, arith}
use vulnops_hub.Db.{
  CaseStatus, new, triage, assigned, in_progress, awaiting_verification, closed, risk_accepted,
  not_applicable,
}
use vulnops_hub.Cases.Workflow.{is_allowed, allowed_transitions}

-- A walk of the state machine, step by step.
pub data Walk : CaseStatus → CaseStatus → Type 0 where
  stay : (a : CaseStatus) → Walk a a
  step : (a b c : CaseStatus) → Walk a b → is_allowed b c ≡ true → Walk a c

-- The statuses that a case can have before its first verification.
abbrev is_open : CaseStatus → Bool
is_open new = true
is_open triage = true
is_open assigned = true
is_open in_progress = true
is_open risk_accepted = true
is_open not_applicable = true
is_open _ = false

-- The walk has the status `x` at some step.
abbrev pub Passes : (x : CaseStatus) {a c : CaseStatus} → Walk a c → Type 0
Passes x (stay a) = a ≡ x
Passes x (step a b c w k) = (c ≡ x) ⊎ Passes x w

impossible : {A : Type 0} → is_open closed ≡ true → A
impossible h = cc

allowed-open :
    (b c : CaseStatus)
    → is_open b ≡ true
    → is_allowed b c ≡ true
    → (is_open c ≡ true) ⊎ (c ≡ awaiting_verification)
unfolding is_allowed allowed_transitions
allowed-open b c h k = ground arith

open_or_waited :
    (a c : CaseStatus) (w : Walk a c)
    → is_open a ≡ true
    → (is_open c ≡ true) ⊎ Passes awaiting_verification w
open_or_waited a c (stay _) h = inl h
open_or_waited a c (step _ b _ w k) h = elim (open_or_waited a b w h) [
  | inr passed ↦ inr (inr passed)
  | inl open_b ↦ elim (allowed-open b c open_b k) [
    | inl open_c ↦ inl open_c
    | inr waits ↦ inr (inl waits)
  ]
]

-- Every walk of the state machine from a new case to a closed one passes `awaiting_verification`.
pub closed_after_verification : (w : Walk new closed) → Passes awaiting_verification w
closed_after_verification w = elim (open_or_waited new closed w refl) [
  | inl open_closed ↦ impossible open_closed
  | inr passed ↦ passed
]
