-- ===== src/Workers/Cases.antt =====
-- The settings and sources of `OutboxOrchestrator`, the priority of a match, and the case that it
-- opens (src/vulnops/workers/orchestration.py).
pub mod Once
pub mod Enriched
use vulnops_hub.Prelude.{
  ℕ, String, Bool, true, false, not, ◌&&◌, ◌||◌, Option, none, some, List, [], ◌∷◌, ◌++◌, any,
  concat, mem_text, str_eq, truthy, if◌then◌else◌,
}
use vulnops_hub.Db.{
  Database, Priority, p2, p3, p4, unlisted_priority, closed, status_eq, legacy_request,
  RemediationCase, AuditEvent, CaseExposure, Exposure,
}
use vulnops_hub.Db.Classes.{MatchClass}
use vulnops_hub.Session.{
  Session, Action, Result, ok, err, pure, gets, lift, modify, generated_id, commit, update_case,
  add_audit, ◌>>=◌, ◌>>◌,
}
use vulnops_hub.Risk.Policy.{Engine, PolicyInput, PolicyResult, medium, internal, evaluate}
use vulnops_hub.Cases.Create.{Request, create_case}
use vulnops_hub.Workers.Advisories.{AdvisoryRecord}
use vulnops_hub.Workers.Exposures.{is_case_class}

-- A record of the EPSS source, in 1/100000.
pub record EpssRecord : Type 0 where
  pub epss_score : Option ℕ
  pub epss_percentile : Option ℕ

pub record Query : Type 0 where
  pub purl : String
  pub version : Option String

-- The lookups, which may depend on the session at the time of the call, and the setting. A source
-- that is not configured is `none`.
pub record Sources : Type 0 where
  pub lookup_batch : List Query → Session → Result (List AdvisoryRecord)
  pub is_kev : Option (String → Session → Result Bool)
  pub get_score : Option (String → Session → Result (Option EpssRecord))
  pub get_status : Option (String → Session → Result (Option String))
  pub policy : Engine
  pub case_auto_create_enabled : Bool

-- The variables of `_priority_for` that the EPSS lookup sets.
pub record Epss : Type 0 where
  pub score : ℕ
  pub percentile : Option ℕ

abbrev no_epss : Epss
no_epss = record { score = 0; percentile = none }

abbrev or_zero : Option ℕ → ℕ
or_zero none = 0
or_zero (some n) = n

-- A lookup that raises counts as none.
abbrev epss_of : Result (Option EpssRecord) → Epss
epss_of (err e) = no_epss
epss_of (ok none) = no_epss
epss_of (ok (some r)) = record { score = or_zero r.epss_score; percentile = r.epss_percentile }

abbrev status_of : Result (Option String) → Option String
status_of (err e) = none
status_of (ok status) = status

abbrev pub is_p4 : Priority → Bool
is_p4 p4 = true
is_p4 (unlisted_priority s) = str_eq s "P4"
is_p4 _ = false

-- The last step of `_priority_for`.
unfoldable pub floored : MatchClass → Priority → Priority
floored c p = if is_p4 p && is_case_class c then p3 else p

abbrev policy_input : String → MatchClass → ℕ → Bool → Epss → PolicyInput
policy_input vulnerability_id c confidence kev epss = record {
  vulnerability_id = vulnerability_id;
  kev = kev;
  epss_score = epss.score;
  epss_percentile = epss.percentile;
  cvss_score = none;
  cvss_vector = none;
  asset_criticality = medium;
  internet_exposure = internal;
  match_confidence = confidence;
  match_class = c;
  age_days = none;
  data_sensitivity = none;
}

-- The priority and the version of the policy that decided it.
pub record Ranked : Type 0 where
  pub priority : Priority
  pub policy_version : String
  pub kev : Bool

unfoldable pub rank : Engine → String → MatchClass → ℕ → Bool → Epss → Ranked
unfolding floored
rank engine vulnerability_id c confidence kev epss =
    let r = evaluate engine (policy_input vulnerability_id c confidence kev epss) in
    record { priority = floored c r.priority; policy_version = r.policy_version; kev = kev }

-- `rc.status != CaseStatus.CLOSED`
abbrev pub is_open : RemediationCase → Bool
is_open c = not (status_eq c.status closed)

abbrev pub has_open_case : Database → String → Bool
has_open_case db case_id = any (λ c. str_eq c.id case_id && is_open c) db.cases

-- The join with the links of the exposure.
unfoldable pub is_linked : Database → String → Bool
is_linked db id = any (λ l. str_eq l.exposure_id id && has_open_case db l.case_id) db.case_exposures

unfoldable pub is_listed : Database → String → String → Bool
is_listed db org id =
    any (λ c. str_eq c.organization_id org && is_open c && mem_text id c.exposures) db.cases

unfoldable pub add_case_exposure : CaseExposure → Database → Database
add_case_exposure row db = record db { case_exposures = db.case_exposures ++ row ∷ [] }

-- `exposure.priority or "P2"`
abbrev priority_or_p2 : Option Priority → Priority
priority_or_p2 none = p2
priority_or_p2 (some (unlisted_priority s)) = if truthy s then unlisted_priority s else p2
priority_or_p2 (some p) = p

abbrev pub case_request : Exposure → String → Option String → Request
case_request e label team = record {
  organization_id = e.organization_id;
  title = concat "Remediate " (concat e.vulnerability_id (concat " in " label));
  owner_team = team;
  priority = priority_or_p2 e.priority;
  exposures = e.id ∷ [];
  policy_version = e.policy_version;
  assignee = none;
  asset_id = e.asset_id;
}

abbrev ticket_row : String → Exposure → String → Option String → AuditEvent
ticket_row id e case_id provenance = record {
  id = id;
  actor = "orchestration";
  action = "case.external_ticket.linked";
  subject_type = "case";
  subject_id = case_id;
  prior_state = none;
  new_state = none;
  reason = some (elim provenance [
    | none ↦ "external ticket linked"
    | some p ↦ if truthy p then p else "external ticket linked"
  ]);
  correlation_id = none;
  request_id = none;
  organization_id = e.organization_id;
  actor_provenance = legacy_request;
  actor_principal_type = none;
  actor_roles = none;
  actor_scopes = none;
}

-- `if external_ticket_id:`, for the ticket and its truth value
unfoldable pub link_by : Bool → Exposure → String → String → Option String → Action (Unit {0})
link_by false e case_id ticket provenance = pure tt
link_by true e case_id ticket provenance = do
  modify (update_case case_id (λ c. record c { external_ticket_id = some ticket }))
  id ← generated_id "aud_" 12
  modify (add_audit (ticket_row id e case_id provenance))

abbrev pub link_ticket : Exposure → String → Option String → Option String → Action (Unit {0})
link_ticket e case_id none provenance = pure tt
link_ticket e case_id (some ticket) provenance = link_by (truthy ticket) e case_id ticket provenance

-- The guards of `_maybe_create_case`.
unfoldable pub skips : Sources → Exposure → Database → Bool
unfolding is_linked is_listed
skips sources e db =
    not sources.case_auto_create_enabled
    || not (is_case_class e.match_class)
    || is_linked db e.id
    || is_listed db e.organization_id e.id

unfoldable pub open_case :
    Exposure → String → Option String → Option String → Action RemediationCase
unfolding link_by
open_case e label ticket provenance = do
  team ← gets (λ s. s.world.default_case_owner_team)
  c ← create_case (case_request e label team)
  id ← generated_id "cx_" 12
  modify (add_case_exposure (record { id = id; case_id = c.id; exposure_id = e.id }))
  link_ticket e c.id ticket provenance
  commit
  pure c

abbrev pub create_unless :
    Bool → Exposure → String → Option String → Option String → Action (Option RemediationCase)
create_unless true e label ticket provenance = pure none
create_unless false e label ticket provenance = do
  c ← open_case e label ticket provenance
  pure (some c)

-- `_is_kev`, for the source
abbrev pub ask_kev : Option (String → Session → Result Bool) → String → Action Bool
ask_kev none vulnerability_id = pure false
ask_kev (some ask) vulnerability_id = do answer ← gets (ask vulnerability_id); lift answer

abbrev pub ask_epss : Option (String → Session → Result (Option EpssRecord)) → String → Action Epss
ask_epss none vulnerability_id = pure no_epss
ask_epss (some ask) vulnerability_id = gets (λ s. epss_of (ask vulnerability_id s))

abbrev pub ask_vex :
    Option (String → Session → Result (Option String)) → String → Action (Option String)
ask_vex none vulnerability_id = pure none
ask_vex (some ask) vulnerability_id = gets (λ s. status_of (ask vulnerability_id s))

module _ (sources : Sources) where
  -- `_priority_for`
  unfoldable pub priority_for : String → MatchClass → ℕ → Action Ranked
  unfolding rank
  priority_for vulnerability_id c confidence = do
    kev ← ask_kev sources.is_kev vulnerability_id
    epss ← ask_epss sources.get_score vulnerability_id
    pure (rank sources.policy vulnerability_id c confidence kev epss)

  -- `_vex_status_for`
  unfoldable pub vex_status_for : String → Action (Option String)
  vex_status_for vulnerability_id = ask_vex sources.get_status vulnerability_id

  -- `_maybe_create_case`
  unfoldable pub maybe_create_case :
      Exposure → String → Option String → Option String → Action (Option RemediationCase)
  unfolding skips open_case
  maybe_create_case e label ticket provenance = do
    skip ← gets (λ s. skips sources e s.working)
    create_unless skip e label ticket provenance
