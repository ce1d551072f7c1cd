-- ===== src/Cases/Workflow.antt =====
-- The states of a case and the transitions between them, the clocks of its priority, and the
-- rules for closing it (src/vulnops/cases/models.py, sla.py and verification.py).
pub mod Paths
pub mod Closing
use vulnops_hub.Prelude.{
  ℕ, ◌+◌, ◌*◌, String, ◌≡◌, Bool, true, false, not, ◌&&◌, ◌||◌, Option, none, some, List, [], ◌∷◌,
  any, ltb, truthy, mem_text, concat, if◌then◌else◌,
}
use vulnops_hub.Db.{
  CaseStatus, new, triage, assigned, in_progress, awaiting_verification, closed, risk_accepted,
  not_applicable, reopened, unlisted_status, status_eq, Priority, p0, p1, p2, p3, p4,
  unlisted_priority, Datetime, utc, Method, scanner, wazuh_inventory, manual_attestation, vex,
  unlisted_method, Coverage,
}

-- `ALLOWED_TRANSITIONS.get(status, [])`
unfoldable pub allowed_transitions : CaseStatus → List CaseStatus
allowed_transitions new = triage ∷ []
allowed_transitions triage = assigned ∷ not_applicable ∷ risk_accepted ∷ []
allowed_transitions assigned = in_progress ∷ triage ∷ []
allowed_transitions in_progress = awaiting_verification ∷ triage ∷ []
allowed_transitions awaiting_verification = closed ∷ in_progress ∷ []
allowed_transitions risk_accepted = triage ∷ []
allowed_transitions not_applicable = triage ∷ []
allowed_transitions closed = reopened ∷ []
allowed_transitions reopened = triage ∷ []
allowed_transitions (unlisted_status _) = []

-- `target in ALLOWED_TRANSITIONS.get(status, [])`
unfoldable pub is_allowed : CaseStatus → CaseStatus → Bool
unfolding allowed_transitions
is_allowed status target = any (λ s. status_eq target s) (allowed_transitions status)

-- `PRIORITY_SLA_DAYS.get(priority, 30)`
unfoldable pub priority_sla_days : Priority → ℕ
priority_sla_days p0 = 1
priority_sla_days p1 = 3
priority_sla_days p2 = 7
priority_sla_days p3 = 30
priority_sla_days p4 = 90
priority_sla_days (unlisted_priority _) = 30

abbrev seconds_per_day : ℕ
seconds_per_day = 86400

unfoldable pub calculate_due_date : Priority → ℕ → Datetime
unfolding priority_sla_days
calculate_due_date priority created_at = record {
  reading = created_at + priority_sla_days priority * seconds_per_day;
  tzinfo = utc;
}

-- `now > due_at`, at the instants of the two
unfoldable pub is_breached : ℕ → ℕ → Bool
is_breached due_at now = ltb due_at now

-- The reasons that `evaluate_coverage` gives.
pub data CoverageReason : Type 0 where
  coverage_missing missing_scope_version stale_inventory inventory_fixed : CoverageReason
  needs_approval vex_needs_review coverage_complete : CoverageReason
  status_cannot_prove unknown_status : Option String → CoverageReason

abbrev reason_or_none : Option String → String
reason_or_none none = "None"
reason_or_none (some s) = s

unfoldable pub reason_text : CoverageReason → String
reason_text coverage_missing = "coverage missing"
reason_text missing_scope_version = "missing scope_version for scanner verification"
reason_text stale_inventory = "stale inventory observation"
reason_text inventory_fixed = "wazuh inventory shows fixed version - recent and complete"
reason_text needs_approval = "manual attestation requires approval"
reason_text vex_needs_review = "vex alone requires review"
reason_text coverage_complete = "coverage complete"
reason_text (status_cannot_prove s) =
    concat "coverage status " (concat (reason_or_none s) " cannot prove remediation")
reason_text (unknown_status s) = concat "unknown coverage status " (reason_or_none s)

abbrev is_given {ℓ} : {A : Type ℓ} → Option A → Bool
is_given none = false
is_given (some _) = true

-- `not coverage`: no dict, or one without keys
abbrev is_missing : Option Coverage → Bool
is_missing none = true
is_missing (some c) = not (
    is_given c.status
    || is_given c.scope_version
    || is_given c.scope
    || is_given c.freshness_seconds
    || c.other_keys)

abbrev pub optional_truthy : Option String → Bool
optional_truthy none = false
optional_truthy (some s) = truthy s

abbrev pub mem_optional : Option String → List String → Bool
mem_optional none xs = false
mem_optional (some s) xs = mem_text s xs

abbrev pub is_stale : Option ℕ → Bool
is_stale none = false
is_stale (some seconds) = ltb (24 * 3600) seconds

-- The part of `evaluate_coverage` behind the tests of the coverage's status.
unfoldable pub evaluate_method : Method → Coverage → Bool × CoverageReason
evaluate_method scanner c =
    if not (optional_truthy c.scope_version) && not (optional_truthy c.scope)
    then (false, missing_scope_version)
    else (true, coverage_complete)
evaluate_method wazuh_inventory c =
    if is_stale c.freshness_seconds then (false, stale_inventory) else (true, inventory_fixed)
evaluate_method manual_attestation c = (false, needs_approval)
evaluate_method vex c = (false, vex_needs_review)
evaluate_method (unlisted_method _) c = (true, coverage_complete)

abbrev pub evaluate_status : Method → Coverage → Bool × CoverageReason
evaluate_status method c =
    if mem_optional c.status ("failed" ∷ "partial" ∷ "incomplete" ∷ "error" ∷ [])
    then (false, status_cannot_prove c.status)
    else if not (mem_optional c.status ("complete" ∷ "success" ∷ "ok" ∷ []))
    then (false, unknown_status c.status)
    else evaluate_method method c

abbrev evaluate_present : Method → Bool → Option Coverage → Bool × CoverageReason
evaluate_present method false (some c) = evaluate_status method c
evaluate_present method _ _ = (false, coverage_missing)

unfoldable pub evaluate_coverage : Method → Option Coverage → Bool × CoverageReason
unfolding evaluate_method
evaluate_coverage method coverage = evaluate_present method (is_missing coverage) coverage
