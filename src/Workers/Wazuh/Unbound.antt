-- ===== src/Workers/Wazuh/Unbound.antt =====
-- A Wazuh finding whose CVE the lookup has not confirmed (`_handle_wazuh_ingested` of
-- src/vulnops/workers/orchestration.py).
use vulnops_hub.Prelude.{
  String, Bool, true, false, ◌&&◌, Option, none, some, ◌≡◌, refl, sym, ap, ◌∙◌, find, truthy,
  concat, arith,
}
use vulnops_hub.Db.{OutboxEvent, Exposure, MatchEvidence}
use vulnops_hub.Session.{Session, ok, pure, commit, run, ◌>>=◌}
use vulnops_hub.Session.Keeps.{ReadsOnly-eq}
use vulnops_hub.Session.Steps.{>>=-ok, >>-ok, gets-ok, pure-ok}
use vulnops_hub.Matching.Versioning.{Packaging, given}
use vulnops_hub.Matching.Service.{ExposureResult}
use vulnops_hub.Workers.Payload.{Payload}
use vulnops_hub.Workers.Exposures.{
  Observation, Key, has_key, is_case_class, add_support, support_by, support, add_match_evidence,
  write_exposure, add_exposure, update_exposure, upsert_exposure,
}
use vulnops_hub.Workers.Exposures.Upsert.{upsert_exposure-Holds}
use vulnops_hub.Workers.Cases.{Sources}
use vulnops_hub.Workers.Cases.Enriched.{priority_for-ReadsOnly}
use vulnops_hub.Workers.Handlers.DefectDojo.{organization}
use vulnops_hub.Workers.Wazuh.{
  agent_id, package_at, is_unbound, wazuh_result, wazuh_limitations, wazuh_observation,
  case_if_bound, wazuh_write,
}

-- What the exposure of a finding is kept by.
abbrev pub finding_key : OutboxEvent → String → Key
finding_key event cve = record {
  organization_id = organization event.payload;
  vulnerability_id = cve;
  detection_context = concat "wazuh:" (agent_id event.payload);
  component_occurrence_id = none;
}

wazuh_result_unbound :
    (payload : Payload) (r : ExposureResult)
    → is_unbound payload false ≡ true
    → is_case_class (wazuh_result payload false r).match_class ≡ false
unfolding wazuh_result
wazuh_result_unbound payload r unbound = ground arith

add_support_cases :
    (o : Observation) (id ref : String) (seen : Option MatchEvidence) (s t : Session)
    → add_support o id ref seen s ≡ (ok tt, t)
    → t.working.cases ≡ s.working.cases
unfolding add_support add_match_evidence run
add_support_cases o id ref (some m) s t h = ground (arith, h)
add_support_cases o id ref none s t h = ground (arith, h)

support_by_cases :
    (b : Bool) (o : Observation) (id ref : String) (s t : Session)
    → support_by b o id ref s ≡ (ok tt, t)
    → t.working.cases ≡ s.working.cases
unfolding support_by run
support_by_cases false o id ref s t h = ground (arith, h)
support_by_cases true o id ref s t h = add_support_cases o id ref _ s t h

write_exposure_cases :
    (o : Observation) (found : Option Exposure) (s t : Session) (w : Exposure × Bool)
    → write_exposure o found s ≡ (ok w, t)
    → t.working.cases ≡ s.working.cases
unfolding write_exposure add_exposure update_exposure run
write_exposure_cases o none s t w h = ap (λ x. x.1.working.cases) (sym h)
write_exposure_cases o (some e) s t w h = ap (λ x. x.1.working.cases) (sym h)

-- The write of an exposure leaves the cases as they are.
upsert_exposure_cases :
    (o : Observation) (ref : String) (s t : Session) (w : Exposure × Bool)
    → o.evidence_ref ≡ some ref
    → upsert_exposure o s ≡ (ok w, t)
    → t.working.cases ≡ s.working.cases
unfolding upsert_exposure
upsert_exposure_cases o ref s t w given_ref h =
    let (found, s1, looked, h1) = >>=-ok _ _ s t h in
    let (w', s2, wrote, h2) = >>=-ok _ _ s1 t h1 in
    let (_, s3, supported, h3) = >>-ok _ _ s2 t h2 in
    let kept = ap (λ r. support o (w'.0).id r s2) (sym given_ref) ∙ supported in
    ap (λ x. x.working.cases) (sym (pure-ok w' w s3 t h3).1)
    ∙ support_by_cases (truthy ref) o (w'.0).id ref s2 s3 kept
    ∙ write_exposure_cases o found s1 s2 w' wrote
    ∙ ap (λ x. x.working.cases) (gets-ok _ s s1 found looked).1

and_false : (b : Bool) → (b && false) ≡ false
and_false b = ground arith

commit_rows : (s t : Session) → commit s ≡ (ok tt, t) → t.working ≡ s.working
unfolding run
commit_rows s t h = ground (arith, h)

case_not_opened :
    (p : Packaging) (sources : Sources) (b : Bool) (e : Exposure) (payload : Payload)
    (s t : Session) (summary text : String)
    → b ≡ false
    → (case_if_bound p sources b e payload >>= (λ opened. pure text)) s ≡ (ok summary, t)
    → t ≡ s
unfolding run
case_not_opened p sources true e payload s t summary text off h = cc
case_not_opened p sources false e payload s t summary text off h = ground (arith, h)

-- What a finding leaves: its exposure, which is not of a class that opens cases, and the cases as
-- they were.
pub record Reviewed (event : OutboxEvent) (cve : String) (s t : Session) : Type 0 where
  pub cases_kept : t.working.cases ≡ s.working.cases
  pub exposure : Exposure
  pub found : find (has_key (finding_key event cve)) t.working.exposures ≡ some exposure
  pub weak : is_case_class exposure.match_class ≡ false

-- Of a Wazuh finding with a purl whose CVE the lookup has not confirmed, the handler that
-- returned has changed no case, and the exposure at the key of the finding is of a class that
-- opens none, whatever the match was.
pub wazuh_write-Reviewed :
    (p : Packaging) (sources : Sources) (event : OutboxEvent) (cve summary : String)
    (matched : ExposureResult) (s t : Session)
    → is_unbound event.payload false ≡ true
    → wazuh_write p sources event cve false matched s ≡ (ok summary, t)
    → Reviewed event cve s t
unfolding wazuh_write
wazuh_write-Reviewed p sources event cve summary matched s t unbound h =
    let (ranked, s1, asked, h1) = >>=-ok _ _ s t h in
    let (w, s2, wrote, h2) = >>=-ok _ _ s1 t h1 in
    let (_, s3, committed, h3) = >>-ok _ _ s2 t h2 in
    let none_opened =
      case_not_opened p sources _ w.0 event.payload s3 t summary _
        (and_false (given (package_at "purl" event.payload))) h3 in
    let result = wazuh_result event.payload false matched in
    let o =
      wazuh_observation event cve (wazuh_limitations event.payload false matched) result ranked in
    let held = upsert_exposure-Holds o s1 s2 w wrote in
    let rows = ap (λ x. x.working) none_opened ∙ commit_rows s2 s3 committed in
    let weak = wazuh_result_unbound event.payload matched unbound in
    record {
      cases_kept =
          ap (λ db. db.cases) rows
          ∙ upsert_exposure_cases o event.id s1 s2 w refl wrote
          ∙ ap (λ db. db.cases)
              (ReadsOnly-eq s
                (priority_for-ReadsOnly sources cve result.match_class result.confidence)
                asked).working_same;
      exposure = w.0;
      found = ap (λ db. find (has_key (finding_key event cve)) db.exposures) rows ∙ held.found;
      weak = ap is_case_class held.observed.0 ∙ weak;
    }
