-- ===== src/Workers/Wazuh.antt =====
-- `_handle_wazuh_ingested` (src/vulnops/workers/orchestration.py), and the dispatch of an event.
pub mod Unbound
use vulnops_hub.Prelude.{
  ℕ, String, Bool, true, false, not, ◌&&◌, ◌||◌, Option, none, some, List, [], ◌∷◌, ◌++◌, concat,
  str_eq, truthy, min, if◌then◌else◌,
}
use vulnops_hub.Db.{OutboxEvent, Exposure, RemediationCase}
use vulnops_hub.Db.Classes.{candidate}
use vulnops_hub.Session.{Action, pure, commit, ◌>>=◌, ◌>>◌}
use vulnops_hub.Matching.Versioning.{Packaging, given}
use vulnops_hub.Matching.Service.{Advisory, ExposureResult}
use vulnops_hub.Workers.Payload.{Payload, text_at, dict_at, entry_at, or_default, class_text}
use vulnops_hub.Workers.Advisories.{
  AdvisoryRecord, bare_advisory, with_id, advisory_from_record, select_osv_record_for_cve,
  component_from_fields,
}
use vulnops_hub.Workers.Exposures.{Observation, is_case_class, upsert_exposure}
use vulnops_hub.Workers.Cases.{
  Query, Sources, Ranked, priority_for, vex_status_for, maybe_create_case,
}
use vulnops_hub.Workers.Handlers.Shared.{lookup, evaluate_match}
use vulnops_hub.Workers.Handlers.Sbom.{handle_sbom_processed}
use vulnops_hub.Workers.Handlers.DefectDojo.{organization, handle_defectdojo_ingested}

abbrev pub agent_id : Payload → String
agent_id payload = or_default (text_at "agent_id" payload) "unknown"

-- The keys of `payload["package"]`.
abbrev pub package_at : String → Payload → Option String
package_at key payload = entry_at key (dict_at "package" payload)

abbrev component_name : Payload → String
component_name payload = or_default (package_at "name" payload) "unknown"

abbrev is_derived : Payload → Bool
is_derived payload = elim (entry_at "status" (dict_at "purl_derivation" payload)) [
  | none ↦ false
  | some status ↦ str_eq status "derived"
]

-- The first `if` that adds a limitation, and its `elif`.
abbrev purl_limitation : Payload → List String
purl_limitation payload =
    if not (given (package_at "purl" payload))
    then "package inventory without purl; review required" ∷ []
    else if is_derived payload
    then "purl derived from Wazuh package metadata (best-effort)" ∷ []
    else []

abbrev pub is_unbound : Payload → Bool → Bool
is_unbound payload osv_cve_bound = given (package_at "purl" payload) && not osv_cve_bound

abbrev unbound_limitation : String
unbound_limitation =
    "osv lookup did not confirm the Wazuh CVE; package-version match alone is insufficient"

unfoldable pub wazuh_limitations : Payload → Bool → ExposureResult → List String
wazuh_limitations payload osv_cve_bound r =
    r.limitations
    ++ purl_limitation payload
    ++ (if is_unbound payload osv_cve_bound then unbound_limitation ∷ [] else [])

-- What a match counts for where the lookup has not confirmed the CVE.
unfoldable pub wazuh_result : Payload → Bool → ExposureResult → ExposureResult
unfolding wazuh_limitations
wazuh_result payload osv_cve_bound r =
    if is_unbound payload osv_cve_bound && is_case_class r.match_class
    then record {
      match_class = candidate;
      confidence = min r.confidence 40;
      should_create_case = false;
      case_id = none;
      matched_rules = "wazuh.osv-cve-unbound" ∷ [];
      limitations = wazuh_limitations payload osv_cve_bound r;
      explanation = r.explanation;
    }
    else r

abbrev pub wazuh_observation :
    OutboxEvent → String → List String → ExposureResult → Ranked → Observation
wazuh_observation event cve limitations result ranked = record {
  organization_id = organization event.payload;
  vulnerability_id = cve;
  match_class = result.match_class;
  confidence = result.confidence;
  detection_context = concat "wazuh:" (agent_id event.payload);
  component_occurrence_id = none;
  asset_id = entry_at "asset_id" (dict_at "mapping" event.payload);
  matched_rules = result.matched_rules;
  evidence_refs = event.id ∷ [];
  limitations = limitations;
  priority = some ranked.priority;
  policy_version = some ranked.policy_version;
  evidence_ref = some event.id;
  component_purl = none;
}

-- `advisory`, and `osv_cve_bound`
abbrev pub bound_advisory : String → Option AdvisoryRecord → Advisory × Bool
bound_advisory cve none = (bare_advisory cve, false)
bound_advisory cve (some r) = (with_id cve (advisory_from_record r), true)

abbrev pub wazuh_summary : Payload → String → String
wazuh_summary payload rest = concat "wazuh=" (concat (agent_id payload) rest)

module _ (p : Packaging) (sources : Sources) where
  -- `if purl:`, for the purl and its truth value
  unfoldable pub wazuh_advisory : Bool → String → String → Option String → Action (Advisory × Bool)
  wazuh_advisory false cve purl version = pure (bound_advisory cve none)
  wazuh_advisory true cve purl version = do
    records ← lookup p sources (record { purl = purl; version = version } ∷ [])
    pure (bound_advisory cve (select_osv_record_for_cve records cve))

  abbrev pub bound_for : String → Option String → Option String → Action (Advisory × Bool)
  bound_for cve none version = pure (bound_advisory cve none)
  bound_for cve (some purl) version = wazuh_advisory (truthy purl) cve purl version

  abbrev pub case_if_bound : Bool → Exposure → Payload → Action (Option RemediationCase)
  case_if_bound false e payload = pure none
  case_if_bound true e payload = maybe_create_case sources e (component_name payload) none none

  -- From the result of the match on.
  unfoldable pub wazuh_write : OutboxEvent → String → Bool → ExposureResult → Action String
  unfolding wazuh_result
  wazuh_write event cve osv_cve_bound matched =
      let payload = event.payload in
      let result = wazuh_result payload osv_cve_bound matched in
      let limitations = wazuh_limitations payload osv_cve_bound matched in
      do
        ranked ← priority_for sources cve result.match_class result.confidence
        written ← upsert_exposure (wazuh_observation event cve limitations result ranked)
        commit
        opened ←
            case_if_bound (given (package_at "purl" payload) && osv_cve_bound) written.0 payload
        pure (
            wazuh_summary payload (
              concat " match="
                (concat (class_text result.match_class) (concat " exposure=" (written.0).id))))

  unfoldable pub wazuh_match : OutboxEvent → String → Action String
  unfolding wazuh_advisory wazuh_write
  wazuh_match event cve =
      let payload = event.payload in
      let purl = package_at "purl" payload in
      let version = package_at "version" payload in
      do
        found ← bound_for cve purl version
        vex ← vex_status_for sources cve
        matched ←
            evaluate_match p sources (component_from_fields (component_name payload) version purl)
              found.0 none vex
        wazuh_write event cve found.1 matched

  abbrev pub wazuh_cve : OutboxEvent → Option String → Action String
  wazuh_cve event none = pure (wazuh_summary event.payload " no-cve")
  wazuh_cve event (some cve) =
      if not (truthy cve) || str_eq cve "unknown"
      then pure (wazuh_summary event.payload " no-cve")
      else wazuh_match event cve

  unfoldable pub handle_wazuh_ingested : OutboxEvent → Action String
  unfolding wazuh_match
  handle_wazuh_ingested event = wazuh_cve event (text_at "cve" event.payload)

  -- `getattr(self, self._HANDLERS[event.event_type])`, for the types that `_HANDLERS` has
  unfoldable pub dispatch : OutboxEvent → Action String
  unfolding handle_sbom_processed handle_defectdojo_ingested handle_wazuh_ingested
  dispatch event =
      if str_eq event.event_type "vulnops.sbom.processed.v1"
      then handle_sbom_processed p sources event
      else if str_eq event.event_type "vulnops.evidence.defectdojo.ingested.v1"
      then handle_defectdojo_ingested p sources event
      else handle_wazuh_ingested event
