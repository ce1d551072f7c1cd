-- ===== src/Workers/Handlers/Sbom.antt =====
-- `_handle_sbom_processed` (src/vulnops/workers/orchestration.py).
use vulnops_hub.Prelude.{
  ℕ, suc, ◌+◌, String, Bool, false, ◌&&◌, Option, none, some, List, [], ◌∷◌, map, select, concat,
  str_eq, ◌==◌,
}
use vulnops_hub.Db.{OutboxEvent, ComponentOccurrence}
use vulnops_hub.Session.{Session, Action, missing_key, pure, raise, gets, commit, ◌>>=◌, ◌>>◌}
use vulnops_hub.Matching.Versioning.{Packaging, given}
use vulnops_hub.Matching.Service.{ExposureResult}
use vulnops_hub.Workers.Payload.{text_at, or_default, decimal}
use vulnops_hub.Workers.Advisories.{AdvisoryRecord, advisory_from_record, component_from_occurrence}
use vulnops_hub.Workers.Exposures.{Observation, upsert_exposure}
use vulnops_hub.Workers.Cases.{
  Query, Sources, Ranked, priority_for, vex_status_for, maybe_create_case,
}
use vulnops_hub.Workers.Handlers.Shared.{lookup, evaluate_match}

abbrev pub is_queried : ComponentOccurrence → Bool
is_queried o = given o.purl && given o.raw_version

abbrev of_sbom : String → ComponentOccurrence → Bool
of_sbom sbom_id o = str_eq o.sbom_id sbom_id

-- The occurrences that the batch asks for, in the order of the query.
abbrev pub ordered : String → Session → List ComponentOccurrence
ordered sbom_id s = select is_queried (select (of_sbom sbom_id) s.working.occurrences)

abbrev text_or_empty : Option String → String
text_or_empty none = ""
text_or_empty (some s) = s

abbrev query_of : ComponentOccurrence → Query
query_of o = record { purl = text_or_empty o.purl; version = o.raw_version }

-- `by_index.get(idx, [])`
abbrev answers : ℕ → AdvisoryRecord → Bool
answers idx r = elim r.query_index [ none ↦ false | some i ↦ i == idx ]

abbrev sbom_observation :
    OutboxEvent
    → String
    → String
    → ComponentOccurrence
    → AdvisoryRecord
    → ExposureResult
    → Ranked
    → Observation
sbom_observation event sbom_id org o rec result ranked = record {
  organization_id = org;
  vulnerability_id = rec.vulnerability_id;
  match_class = result.match_class;
  confidence = result.confidence;
  detection_context = concat "sbom:" sbom_id;
  component_occurrence_id = some o.id;
  asset_id = o.asset_id;
  matched_rules = result.matched_rules;
  evidence_refs = event.id ∷ [];
  limitations = result.limitations;
  priority = some ranked.priority;
  policy_version = some ranked.policy_version;
  evidence_ref = some event.id;
  component_purl = o.purl;
}

-- `occurrence.normalized_name or occurrence.raw_name`
abbrev label_of : ComponentOccurrence → String
label_of o = or_default o.normalized_name o.raw_name

module _ (p : Packaging) (sources : Sources) where
  -- One round of the inner loop.
  unfoldable pub sbom_match :
      OutboxEvent → String → String → ComponentOccurrence → AdvisoryRecord → Action (Unit {0})
  sbom_match event sbom_id org o rec = do
    vex ← vex_status_for sources rec.vulnerability_id
    result ←
        evaluate_match p sources (component_from_occurrence o) (advisory_from_record rec) none vex
    ranked ← priority_for sources rec.vulnerability_id result.match_class result.confidence
    written ← upsert_exposure (sbom_observation event sbom_id org o rec result ranked)
    commit
    opened ← maybe_create_case sources written.0 (label_of o) none none
    pure tt

  unfoldable pub sbom_records :
      OutboxEvent → String → String → ComponentOccurrence → List AdvisoryRecord → Action ℕ
  sbom_records event sbom_id org o [] = pure 0
  sbom_records event sbom_id org o (rec ∷ recs) = do
    sbom_match event sbom_id org o rec
    n ← sbom_records event sbom_id org o recs
    pure (suc n)

  -- The loops, from an index on, and how many exposures they wrote.
  unfoldable pub sbom_occurrences :
      OutboxEvent → String → String → List AdvisoryRecord → ℕ → List ComponentOccurrence → Action ℕ
  unfolding sbom_records
  sbom_occurrences event sbom_id org records idx [] = pure 0
  sbom_occurrences event sbom_id org records idx (o ∷ os) = do
    m ← sbom_records event sbom_id org o (select (answers idx) records)
    n ← sbom_occurrences event sbom_id org records (suc idx) os
    pure (m + n)

  -- No lookup is made where nothing is to be asked.
  abbrev pub lookup_unless_empty : List ComponentOccurrence → Action (List AdvisoryRecord)
  lookup_unless_empty [] = pure []
  lookup_unless_empty (o ∷ os) = lookup p sources (map query_of (o ∷ os))

  abbrev pub handle_sbom : OutboxEvent → String → Action String
  handle_sbom event sbom_id = do
    occurrences ← gets (ordered sbom_id)
    records ← lookup_unless_empty occurrences
    n ←
        sbom_occurrences event sbom_id
          (or_default (text_at "organization_id" event.payload) "default") records 0 occurrences
    pure (concat "sbom=" (concat sbom_id (concat " exposures=" (decimal n))))

  -- `payload["sbom_id"]`, which raises where the key is missing
  abbrev pub sbom_by : OutboxEvent → Option String → Action String
  sbom_by event none = raise missing_key
  sbom_by event (some sbom_id) = handle_sbom event sbom_id

  unfoldable pub handle_sbom_processed : OutboxEvent → Action String
  unfolding sbom_match sbom_occurrences
  handle_sbom_processed event = sbom_by event (text_at "sbom_id" event.payload)
