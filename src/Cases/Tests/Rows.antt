-- ===== src/Cases/Tests/Rows.antt =====
-- The rows of the runs: three cases, two requests of a decision, and their surroundings.
use vulnops_hub.Prelude.{ℕ, ◌+◌, String, false, none, some, [], ◌∷◌}
use vulnops_hub.Db.{
  CaseStatus, triage, awaiting_verification, closed, p1, Database, RemediationCase, RiskDecision,
  authenticated_claim, pending_approval, approved, risk_acceptance, DecisionStatus, evidence_list,
  evidence_text, at_datetime, Expiry, utc, Provenance,
}
use vulnops_hub.Db.{Exposure}
use vulnops_hub.Db.Classes.{deterministic, active_exposure}
use vulnops_hub.Session.{World, Session}
use vulnops_hub.Cases.Actor.{ActorContext}

abbrev pub case_at : String → CaseStatus → RemediationCase
case_at id status = record {
  id = id;
  case_key = "CASE-1";
  title = "upgrade openssl";
  organization_id = "org";
  owner_team = "platform";
  assignee = none;
  priority = p1;
  policy_version = none;
  status = status;
  version = 3;
  due_at = none;
  sla_breached = false;
  ownership_escalated = false;
  closure_reason = none;
  exposures = [];
  external_ticket_id = none;
  updated_at = 5;
}

abbrev pub expiry_at : ℕ → Expiry
expiry_at n = at_datetime (record { reading = n; tzinfo = utc })

abbrev pub decision_at : String → String → DecisionStatus → Expiry → RiskDecision
decision_at id case_id status expires_at = record {
  id = id;
  case_id = case_id;
  type = risk_acceptance;
  status = status;
  scope_exposure_ids = none;
  reason = some "no fix yet";
  compensating_controls = none;
  evidence_ids = evidence_list (evidence_text "ev_1" ∷ []);
  requested_by = "bob";
  requested_by_provenance = authenticated_claim;
  approver = none;
  approver_role = none;
  approver_provenance = none;
  approver_principal_type = none;
  decided_at = none;
  expires_at = expires_at;
  updated_at = 5;
}

abbrev pub exposure_c : Exposure
exposure_c = record {
  id = "exp_c";
  organization_id = "org";
  asset_id = some "asset_c";
  component_occurrence_id = none;
  vulnerability_id = "CVE-2026-1";
  detection_context = "wazuh:001";
  match_class = deterministic;
  confidence = 93;
  priority = some p1;
  policy_version = none;
  state = active_exposure;
  matched_rules = [];
  evidence_refs = [];
  limitations = [];
  last_observed_at = 5;
}

abbrev pub rows : Database
rows = record {
  cases =
      case_at "case_a" triage
      ∷ case_at "case_b" awaiting_verification
      ∷ case_at "case_c" closed
      ∷ [];
  clocks = [];
  decisions =
      decision_at "rdec_a" "case_a" pending_approval (expiry_at 9000)
      ∷ decision_at "rdec_b" "case_a" approved (expiry_at 10)
      ∷ [];
  verifications = [];
  audits = [];
  outbox = [];
  assets =
      record {
        id = "asset_a";
        organization_id = "org";
        owner = some " Web ";
        business_service_id = none;
      }
      ∷ record {
        id = "asset_b";
        organization_id = "org";
        owner = none;
        business_service_id = some "svc";
      }
      ∷ record { id = "asset_c"; organization_id = "org"; owner = none; business_service_id = none }
      ∷ [];
  services = record { id = "svc"; organization_id = "org"; owner_team = "Web" } ∷ [];
  exposures = exposure_c ∷ [];
  aliases = [];
  match_evidence = [];
  case_exposures = [];
  occurrences = [];
  snapshots = [];
}

abbrev pub world : World
world = record {
  clock = λ n. 1000 + n;
  uuid = λ n. "0123456789abcdef0123";
  system_utc = λ n. some n;
  default_case_owner_team = some "Triage";
}

abbrev pub start : Session
start = record {
  committed = rows;
  working = rows;
  world = world;
  ticks = 0;
  draws = 0;
  faults = [];
}

abbrev pub human_context : Provenance → ActorContext
human_context p = record {
  provenance = p;
  principal_type = some "human";
  roles = "risk_approver" ∷ [];
  scopes = [];
  request_id = none;
  correlation_id = some "corr";
}
