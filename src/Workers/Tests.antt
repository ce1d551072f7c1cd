-- ===== src/Workers/Tests.antt =====
-- Concrete events of the outbox, an empty set of sources, and runs of the worker.
use vulnops_hub.Prelude.{
  not, ◌&&◌, ◌||◌, ℕ, String, true, false, none, some, List, [], ◌∷◌, any, sorted_set, strip, lower,
  ◌≡◌, refl, arith,
}
use vulnops_hub.Db.{Database, OutboxEvent, Exposure, RemediationCase, text, dict, p2}
use vulnops_hub.Db.Classes.{deterministic, confirmed}
use vulnops_hub.Session.{Session, Action, ok, err, lookup_error, storage_error, run}
use vulnops_hub.Cases.Tests.Rows.{rows, start, exposure_c}
use vulnops_hub.Matching.Versioning.{Packaging}
use vulnops_hub.Matching.Service.{ExposureResult}
use vulnops_hub.Workers.Outbox.{
  Limits, Progress, is_claimable, is_handled, claim_events, process_event, run_once,
}
use vulnops_hub.Workers.Outbox.Claim.{Claims, claim_events-Claims}
use vulnops_hub.Workers.Outbox.Failure.{Counted, process_event-Fails, process_event-uncounted}
use vulnops_hub.Workers.Exposures.{
  Observation, refreshed, write_exposure, add_support, support_by, update_exposure, add_exposure,
  add_match_evidence, upsert_exposure,
}
use vulnops_hub.Workers.Exposures.Keyed.{IsKeyed, upsert_exposure-IsKeyed}
use vulnops_hub.Workers.Exposures.Table.{IsIdentified, Puts, upsert_exposure-Puts}
use vulnops_hub.Workers.Cases.{
  Sources, Ranked, is_p4, rank, priority_for, skips, is_linked, is_listed, open_case, link_by,
  add_case_exposure, maybe_create_case,
}
use vulnops_hub.Cases.Ownership.{
  choose_owner, linked_assets, default_team, resolve_case_owner, resolve_asset, resolve_service,
}
use vulnops_hub.Cases.Create.{owner_of, case_key, audit_escalation, write, refresh, create_case}
use vulnops_hub.Workers.Cases.Enriched.{priority_for-runs}
use vulnops_hub.Workers.Cases.Once.{maybe_create_case-once}
use vulnops_hub.Workers.Wazuh.{dispatch, wazuh_result, wazuh_limitations, wazuh_write}
use vulnops_hub.Workers.Wazuh.Unbound.{Reviewed, wazuh_write-Reviewed}
use vulnops_hub.Workers.Draining.{run_once-drains}
use vulnops_hub.Workers.Exposures.{is_case_class}

abbrev packaging : Packaging
packaging = record {
  Version = String;
  parse = λ s. none;
  lt = λ a b. false;
  gt = λ a b. false;
  to_text = λ s. s;
}

abbrev sources : Sources
sources = record {
  lookup_batch = λ queries s. ok [];
  is_kev = some (λ id s. ok true);
  get_score = some (λ id s. err lookup_error);
  get_status = none;
  policy = record { policy_version = "policy-1" };
  case_auto_create_enabled = true;
}

abbrev wazuh_event : OutboxEvent
wazuh_event = record {
  id = "evt_w";
  aggregate_type = "evidence";
  aggregate_id = "ev_1";
  event_type = "vulnops.evidence.wazuh.ingested.v1";
  payload =
      ("agent_id", text "001")
      ∷ ("cve", text "CVE-2026-2")
      ∷ (
        "package",
        dict (("purl", some "pkg:deb/debian/openssl@3") ∷ ("name", some "openssl") ∷ []),
      )
      ∷ [];
  correlation_id = "corr";
  delivered_at = none;
  attempts = 0;
}

abbrev queued : Database
queued = record rows { outbox = wazuh_event ∷ [] }

abbrev waiting : Session
waiting = record start { committed = queued; working = queued }

abbrev limits : Limits
limits = record { batch_size = 10; max_attempts = 3 }

run_once-drains_example :
    (fuel : ℕ) × (progress : Progress) × (t : Session) × (run_once limits
        (dispatch packaging sources)
        fuel
        waiting
      ≡ some (progress, t))
    × ((progress.deferred || not (any (is_claimable 3) t.committed.outbox)) ≡ true)
run_once-drains_example = run_once-drains packaging sources limits waiting (omega arith)

claim_events-Claims_example :
    (events : List OutboxEvent) × (t : Session) × (claim_events 10 3 waiting ≡ (ok events, t))
    × Claims 10 3 waiting t events
claim_events-Claims_example = claim_events-Claims 10 3 waiting

-- a handler that raises, and one that returns
abbrev failing : OutboxEvent → Action String
failing event s = (err lookup_error, s)

abbrev passing : OutboxEvent → Action String
passing event s = (ok "done", s)

wazuh-handled : is_handled "vulnops.evidence.wazuh.ingested.v1" ≡ true
unfolding is_handled
wazuh-handled = refl

process_event-Fails_example :
    Counted wazuh_event wazuh_event lookup_error queued
      (process_event limits failing wazuh_event waiting)
process_event-Fails_example =
    process_event-Fails limits failing wazuh_event waiting waiting lookup_error wazuh-handled refl

abbrev faulty : Session
faulty = record waiting { faults = true ∷ [] }

process_event-uncounted_example :
    ((process_event limits passing wazuh_event faulty).0 ≡ err storage_error)
    × ((process_event limits passing wazuh_event faulty).1.committed ≡ queued)
process_event-uncounted_example =
    process_event-uncounted limits passing wazuh_event "done" faulty faulty [] wazuh-handled refl
      refl

abbrev observation : Observation
observation = record {
  organization_id = "org";
  vulnerability_id = "CVE-2026-1";
  match_class = confirmed;
  confidence = 98;
  detection_context = "wazuh:001";
  component_occurrence_id = none;
  asset_id = some "asset_c";
  matched_rules = "vex.affected" ∷ [];
  evidence_refs = "evt_w" ∷ [];
  limitations = [];
  priority = some p2;
  policy_version = some "policy-1";
  evidence_ref = some "evt_w";
  component_purl = none;
}

abbrev row_after : Exposure
row_after = refreshed 1000 observation exposure_c

abbrev observed : Session
observed = record start {
  working = record rows {
    exposures = row_after ∷ [];
    match_evidence =
        record {
          id = "mev_0123456789ab";
          exposure_id = "exp_c";
          component_purl = none;
          vulnerability_id = "CVE-2026-1";
          evidence_ref = "evt_w";
        }
        ∷ [];
  };
  ticks = 1;
  draws = 1;
}

observed_run : upsert_exposure observation start ≡ (ok (row_after, false), observed)
unfolding upsert_exposure write_exposure support_by add_support update_exposure add_match_evidence
    refreshed run
observed_run = refl

rows-IsKeyed : IsKeyed rows.exposures
rows-IsKeyed k = ground arith

rows-IsIdentified : IsIdentified rows.exposures
rows-IsIdentified id = ground arith

upsert_exposure-IsKeyed_example : IsKeyed (row_after ∷ [])
upsert_exposure-IsKeyed_example =
    upsert_exposure-IsKeyed observation start observed (row_after, false) observed_run rows-IsKeyed

upsert_exposure-Puts_example : Puts observation start observed row_after
upsert_exposure-Puts_example =
    upsert_exposure-Puts observation start observed (row_after, false) rows-IsIdentified
      observed_run

priority_for-runs_example :
    (r : Ranked) × (priority_for sources "CVE-2026-1" deterministic 93 start ≡ (ok r, start))
    × (r.kev ≡ true)
    × ((is_case_class deterministic && is_p4 r.priority) ≡ false)
unfolding run
priority_for-runs_example = priority_for-runs sources "CVE-2026-1" deterministic 93 true start refl

-- The exposure of the rows, which no open case lists, opens one.
opened_run :
    (c : RemediationCase) × (t : Session) × (maybe_create_case sources exposure_c "openssl" none
        none start
      ≡ (ok (some c), t))
unfolding maybe_create_case skips is_linked is_listed open_case create_case case_key write refresh
    audit_escalation link_by add_case_exposure owner_of choose_owner linked_assets sorted_set strip
    lower default_team resolve_case_owner resolve_asset resolve_service run
opened_run = (_, _, refl)

maybe_create_case-once_example :
    maybe_create_case sources exposure_c "libssl" (some "OPS-1") none opened_run.1
    ≡ (ok none, opened_run.1)
maybe_create_case-once_example =
    maybe_create_case-once sources exposure_c "openssl" "libssl" none none (some "OPS-1") none start
      opened_run.1 opened_run.0 opened_run.2

abbrev strong_match : ExposureResult
strong_match = record {
  match_class = deterministic;
  confidence = 93;
  should_create_case = true;
  case_id = some "case_01234567";
  matched_rules = "osv.purl-range" ∷ [];
  limitations = [];
  explanation = none;
}

written_run :
    (summary : String) × (t : Session) × (wazuh_write packaging sources wazuh_event "CVE-2026-2"
        false strong_match start
      ≡ (ok summary, t))
unfolding wazuh_write wazuh_result wazuh_limitations priority_for rank upsert_exposure
    write_exposure support_by add_support add_exposure add_match_evidence run
written_run = (_, _, refl)

wazuh_write-Reviewed_example : Reviewed wazuh_event "CVE-2026-2" start written_run.1
wazuh_write-Reviewed_example =
    wazuh_write-Reviewed packaging sources wazuh_event "CVE-2026-2" written_run.0 strong_match start
      written_run.1 refl written_run.2
