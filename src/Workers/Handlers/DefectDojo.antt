-- ===== src/Workers/Handlers/DefectDojo.antt =====
-- `_handle_defectdojo_ingested` (src/vulnops/workers/orchestration.py). The scanner and the type of
-- the scan, which the matching does not read, are left out of the scanner's evidence.
use vulnops_hub.Prelude.{
  String, Bool, true, false, not, ◌||◌, Option, none, some, List, [], ◌∷◌, concat, str_eq, truthy,
  if◌then◌else◌,
}
use vulnops_hub.Db.{OutboxEvent}
use vulnops_hub.Session.{Action, pure, commit, ◌>>=◌, ◌>>◌}
use vulnops_hub.Matching.Versioning.{Packaging, given}
use vulnops_hub.Matching.Service.{Advisory, ScannerEvidence, ExposureResult}
use vulnops_hub.Workers.Payload.{
  Payload, text_at, dict_at, entry_at, or_default, str_of, truth_at, class_text,
}
use vulnops_hub.Workers.Advisories.{
  AdvisoryRecord, bare_advisory, with_id, advisory_from_record, component_from_fields,
}
use vulnops_hub.Workers.Exposures.{Observation, upsert_exposure}
use vulnops_hub.Workers.Cases.{Sources, Ranked, priority_for, vex_status_for, maybe_create_case}
use vulnops_hub.Workers.Handlers.Shared.{lookup, evaluate_match}
use vulnops_hub.Db.{Exposure, RemediationCase}

abbrev pub is_ambiguous : Payload → Bool
is_ambiguous payload = elim (entry_at "status" (dict_at "mapping" payload)) [
  | none ↦ false
  | some status ↦ str_eq status "ambiguous"
]

abbrev pub finding_id : Payload → String
finding_id payload = str_of (text_at "finding_id" payload)

abbrev pub organization : Payload → String
organization payload = or_default (text_at "organization_id" payload) "default"

abbrev component_name : Payload → String
component_name payload = or_default (text_at "component_name" payload) "unknown"

abbrev scanner_evidence : Payload → Option ScannerEvidence
scanner_evidence payload =
    if truth_at "verified" payload
    then some (record { scanner_confirmed = true; finding_id = some (finding_id payload) })
    else none

abbrev pub dojo_observation : OutboxEvent → String → ExposureResult → Ranked → Observation
dojo_observation event cve result ranked = record {
  organization_id = organization event.payload;
  vulnerability_id = cve;
  match_class = result.match_class;
  confidence = result.confidence;
  detection_context = concat "defectdojo:" (finding_id event.payload);
  component_occurrence_id = none;
  asset_id = entry_at "asset_id" (dict_at "mapping" event.payload);
  matched_rules = result.matched_rules;
  evidence_refs = event.id ∷ [];
  limitations = result.limitations;
  priority = some ranked.priority;
  policy_version = some ranked.policy_version;
  evidence_ref = some event.id;
  component_purl = text_at "purl" event.payload;
}

-- `if records: advisory = ...`
abbrev first_advisory : String → List AdvisoryRecord → Advisory
first_advisory cve [] = bare_advisory cve
first_advisory cve (r ∷ _) = with_id cve (advisory_from_record r)

abbrev ticket_provenance : Payload → Option String → Option String
ticket_provenance payload jira_key =
    if given jira_key
    then some (concat "jira via defectdojo finding " (finding_id payload))
    else none

abbrev pub summary : Payload → String → String
summary payload rest = concat "dojo=" (concat (finding_id payload) rest)

module _ (p : Packaging) (sources : Sources) where
  -- `if purl:`, for the purl and its truth value
  unfoldable pub dojo_advisory : Bool → String → String → Option String → Action Advisory
  dojo_advisory false cve purl version = pure (bare_advisory cve)
  dojo_advisory true cve purl version = do
    records ← lookup p sources (record { purl = purl; version = version } ∷ [])
    pure (first_advisory cve records)

  abbrev pub advisory_for : String → Option String → Option String → Action Advisory
  advisory_for cve none version = pure (bare_advisory cve)
  advisory_for cve (some purl) version = dojo_advisory (truthy purl) cve purl version

  abbrev pub vex_unless : Bool → String → Action (Option String)
  vex_unless true cve = pure none
  vex_unless false cve = vex_status_for sources cve

  abbrev pub case_if : Bool → Exposure → Payload → Action (Option RemediationCase)
  case_if false e payload = pure none
  case_if true e payload =
      let jira_key = text_at "jira_key" payload in
      maybe_create_case sources e (component_name payload) jira_key
        (ticket_provenance payload jira_key)

  unfoldable pub dojo_match : OutboxEvent → String → Action String
  unfolding dojo_advisory
  dojo_match event cve =
      let payload = event.payload in
      let purl = text_at "purl" payload in
      let version = text_at "component_version" payload in
      do
        adv ← advisory_for cve purl version
        vex ← vex_unless (truth_at "verified" payload) cve
        result ←
            evaluate_match p sources (component_from_fields (component_name payload) version purl)
              adv (scanner_evidence payload) vex
        ranked ← priority_for sources cve result.match_class result.confidence
        written ← upsert_exposure (dojo_observation event cve result ranked)
        commit
        opened ← case_if (given purl) written.0 payload
        pure (summary payload (concat " match=" (class_text result.match_class)))

  -- `if not cve or cve == "unknown"`
  abbrev pub dojo_cve : OutboxEvent → Option String → Action String
  dojo_cve event none = pure (summary event.payload " skipped-no-cve")
  dojo_cve event (some cve) =
      if not (truthy cve) || str_eq cve "unknown"
      then pure (summary event.payload " skipped-no-cve")
      else dojo_match event cve

  unfoldable pub handle_defectdojo_ingested : OutboxEvent → Action String
  unfolding dojo_match
  handle_defectdojo_ingested event =
      if is_ambiguous event.payload
      then pure (summary event.payload " skipped-ambiguous")
      else dojo_cve event (text_at "cve" event.payload)
