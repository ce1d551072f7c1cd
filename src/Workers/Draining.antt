-- ===== src/Workers/Draining.antt =====
-- The handlers of src/vulnops/workers/orchestration.py add only follow-up rows to the outbox, and
-- so the drain of the queue ends.
use vulnops_hub.Prelude.{
  ℕ, suc, ◌≤◌, String, Bool, true, false, not, ◌||◌, Option, none, some, List, [], ◌∷◌, any, truthy,
  str_eq, if-holds, ◌≡◌, refl, ap,
}
use vulnops_hub.Db.{OutboxEvent, Exposure, ComponentOccurrence}
use vulnops_hub.Session.{Session}
use vulnops_hub.Matching.Versioning.{Packaging}
use vulnops_hub.Matching.Identity.{Component}
use vulnops_hub.Matching.Service.{Advisory, ScannerEvidence, ExposureResult}
use vulnops_hub.Workers.Outbox.{Limits, Progress, is_claimable, run_once}
use vulnops_hub.Workers.Outbox.Emits.{Emits, Emits-pure, Emits->>=, Emits->>, emits}
use vulnops_hub.Workers.Outbox.Drain.{run_once-ends}
use vulnops_hub.Workers.Advisories.{AdvisoryRecord}
use vulnops_hub.Workers.Emitting.{
  upsert_exposure-Emits, drawing-Emits, priority_for-Emits, vex_status_for-Emits,
  maybe_create_case-Emits,
}
use vulnops_hub.Workers.Cases.{Query, Sources}
use vulnops_hub.Workers.Handlers.Shared.{lookup, evaluate_match}
use vulnops_hub.Workers.Handlers.Sbom.{
  sbom_match, sbom_records, sbom_occurrences, lookup_unless_empty, sbom_by, handle_sbom_processed,
}
use vulnops_hub.Workers.Handlers.DefectDojo.{
  is_ambiguous, dojo_advisory, advisory_for, vex_unless, case_if, dojo_match, dojo_cve,
  handle_defectdojo_ingested,
}
use vulnops_hub.Workers.Payload.{Payload, text_at}
use vulnops_hub.Workers.Wazuh.{
  wazuh_advisory, bound_for, case_if_bound, wazuh_write, wazuh_match, wazuh_cve,
  handle_wazuh_ingested, dispatch,
}

module _ (p : Packaging) (sources : Sources) where
  lookup-Emits : (queries : List Query) → Emits (lookup p sources queries)
  unfolding lookup
  lookup-Emits queries = search emits depth 8

  evaluate_match-Emits :
      (c : Component) (adv : Advisory) (evidence : Option ScannerEvidence) (vex : Option String)
      → Emits (evaluate_match p sources c adv evidence vex)
  unfolding evaluate_match
  evaluate_match-Emits c adv evidence vex = search (emits, drawing-Emits) depth 8

  ruleset matching = (
    emits, lookup-Emits, evaluate_match-Emits, priority_for-Emits, vex_status_for-Emits,
    upsert_exposure-Emits, maybe_create_case-Emits,
  )

  sbom_match-Emits :
      (event : OutboxEvent) (sbom_id org : String) (o : ComponentOccurrence) (rec : AdvisoryRecord)
      → Emits (sbom_match p sources event sbom_id org o rec)
  unfolding sbom_match
  sbom_match-Emits event sbom_id org o rec = search matching depth 20

  sbom_records-Emits :
      (event : OutboxEvent) (sbom_id org : String) (o : ComponentOccurrence)
      (recs : List AdvisoryRecord)
      → Emits (sbom_records p sources event sbom_id org o recs)
  unfolding sbom_records
  sbom_records-Emits event sbom_id org o [] = search emits depth 8
  sbom_records-Emits event sbom_id org o (rec ∷ recs) =
      Emits->> _ _ (sbom_match-Emits event sbom_id org o rec)
        (Emits->>= _ _ (sbom_records-Emits event sbom_id org o recs) (λ n. Emits-pure _))

  sbom_occurrences-Emits :
      (event : OutboxEvent) (sbom_id org : String) (records : List AdvisoryRecord) (idx : ℕ)
      (os : List ComponentOccurrence)
      → Emits (sbom_occurrences p sources event sbom_id org records idx os)
  unfolding sbom_occurrences
  sbom_occurrences-Emits event sbom_id org records idx [] = search emits depth 8
  sbom_occurrences-Emits event sbom_id org records idx (o ∷ os) =
      Emits->>= _ _ (sbom_records-Emits event sbom_id org o _) (λ m.
        Emits->>= _ _ (sbom_occurrences-Emits event sbom_id org records (suc idx) os)
          (λ n. Emits-pure _))

  lookup_unless_empty-Emits :
      (os : List ComponentOccurrence) → Emits (lookup_unless_empty p sources os)
  lookup_unless_empty-Emits [] = search emits depth 8
  lookup_unless_empty-Emits (o ∷ os) = lookup-Emits _

  sbom_by-Emits : (event : OutboxEvent) (id : Option String) → Emits (sbom_by p sources event id)
  sbom_by-Emits event none = search emits depth 8
  sbom_by-Emits event (some id) =
      search (emits, lookup_unless_empty-Emits, sbom_occurrences-Emits) depth 12

  dojo_advisory-Emits :
      (b : Bool) (cve purl : String) (version : Option String)
      → Emits (dojo_advisory p sources b cve purl version)
  unfolding dojo_advisory
  dojo_advisory-Emits false cve purl version = search emits depth 8
  dojo_advisory-Emits true cve purl version = search matching depth 8

  advisory_for-Emits :
      (cve : String) (purl version : Option String)
      → Emits (advisory_for p sources cve purl version)
  advisory_for-Emits cve none version = search emits depth 8
  advisory_for-Emits cve (some purl) version = dojo_advisory-Emits (truthy purl) cve purl version

  vex_unless-Emits : (b : Bool) (cve : String) → Emits (vex_unless p sources b cve)
  vex_unless-Emits true cve = search emits depth 8
  vex_unless-Emits false cve = search matching depth 8

  case_if-Emits :
      (b : Bool) (e : Exposure) (payload : Payload) → Emits (case_if p sources b e payload)
  case_if-Emits false e payload = search emits depth 8
  case_if-Emits true e payload = search matching depth 8

  dojo_match-Emits : (event : OutboxEvent) (cve : String) → Emits (dojo_match p sources event cve)
  unfolding dojo_match
  dojo_match-Emits event cve =
      search (matching, advisory_for-Emits, vex_unless-Emits, case_if-Emits) depth 20

  dojo_cve-Emits :
      (event : OutboxEvent) (cve : Option String) → Emits (dojo_cve p sources event cve)
  dojo_cve-Emits event none = search emits depth 8
  dojo_cve-Emits event (some cve) =
      if-holds Emits (not (truthy cve) || str_eq cve "unknown") (λ _. Emits-pure _)
        (λ _. dojo_match-Emits event cve)

  wazuh_advisory-Emits :
      (b : Bool) (cve purl : String) (version : Option String)
      → Emits (wazuh_advisory p sources b cve purl version)
  unfolding wazuh_advisory
  wazuh_advisory-Emits false cve purl version = search emits depth 8
  wazuh_advisory-Emits true cve purl version = search matching depth 8

  bound_for-Emits :
      (cve : String) (purl version : Option String) → Emits (bound_for p sources cve purl version)
  bound_for-Emits cve none version = search emits depth 8
  bound_for-Emits cve (some purl) version = wazuh_advisory-Emits (truthy purl) cve purl version

  case_if_bound-Emits :
      (b : Bool) (e : Exposure) (payload : Payload) → Emits (case_if_bound p sources b e payload)
  case_if_bound-Emits false e payload = search emits depth 8
  case_if_bound-Emits true e payload = search matching depth 8

  wazuh_write-Emits :
      (event : OutboxEvent) (cve : String) (bound : Bool) (r : ExposureResult)
      → Emits (wazuh_write p sources event cve bound r)
  unfolding wazuh_write
  wazuh_write-Emits event cve bound r = search (matching, case_if_bound-Emits) depth 20

  wazuh_match-Emits : (event : OutboxEvent) (cve : String) → Emits (wazuh_match p sources event cve)
  unfolding wazuh_match
  wazuh_match-Emits event cve = search (matching, bound_for-Emits, wazuh_write-Emits) depth 20

  wazuh_cve-Emits :
      (event : OutboxEvent) (cve : Option String) → Emits (wazuh_cve p sources event cve)
  wazuh_cve-Emits event none = search emits depth 8
  wazuh_cve-Emits event (some cve) =
      if-holds Emits (not (truthy cve) || str_eq cve "unknown") (λ _. Emits-pure _)
        (λ _. wazuh_match-Emits event cve)

  -- Each handler adds only rows that no handler takes.
  pub dispatch-Emits : (event : OutboxEvent) → Emits (dispatch p sources event)
  unfolding dispatch handle_sbom_processed handle_defectdojo_ingested handle_wazuh_ingested
  dispatch-Emits event =
      if-holds Emits (str_eq event.event_type "vulnops.sbom.processed.v1")
        (λ _. sbom_by-Emits event (text_at "sbom_id" event.payload))
        (λ _.
          if-holds Emits (str_eq event.event_type "vulnops.evidence.defectdojo.ingested.v1")
            (λ _.
              if-holds Emits (is_ambiguous event.payload) (λ _. Emits-pure _)
                (λ _. dojo_cve-Emits event (text_at "cve" event.payload)))
            (λ _. wazuh_cve-Emits event (text_at "cve" event.payload)))

emptied : (deferred left : Bool) → (deferred ≡ false → left ≡ false) → (deferred || not left) ≡ true
emptied true left h = refl
emptied false left h = ap not (h refl)

-- The drain of the outbox, with the handlers of the orchestrator, ends from any session: some
-- fuel suffices. What it leaves committed has no row that the worker may claim, unless a failure
-- has deferred the rest; a batch holds at least one row.
pub run_once-drains :
    (p : Packaging) (sources : Sources) (limits : Limits) (s : Session)
    → 1 ≤ limits.batch_size
    → (fuel : ℕ) × (progress : Progress) × (t : Session) × (run_once limits
          (dispatch p sources)
          fuel
          s
        ≡ some (progress, t))
      × ((progress.deferred || not (any (is_claimable limits.max_attempts) t.committed.outbox))
          ≡ true)
run_once-drains p sources limits s holds_one =
    let (fuel, progress, t, ran, left) =
      run_once-ends limits (dispatch p sources) (dispatch-Emits p sources) s in
    (fuel, progress, t, ran, emptied progress.deferred _ (λ calm. left calm holds_one))
