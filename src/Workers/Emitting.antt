-- ===== src/Workers/Emitting.antt =====
-- What the handlers of src/vulnops/workers/orchestration.py call adds only follow-up rows to the
-- outbox: the write of an exposure, the opening of a case, and the lookups.
use vulnops_hub.Prelude.{ℕ, String, Bool, true, false, Option, none, some, truthy, ◌≡◌, refl}
use vulnops_hub.Db.{RemediationCase, Exposure, MatchEvidence, CaseExposure, Datetime}
use vulnops_hub.Db.Classes.{MatchClass}
use vulnops_hub.Session.{Session, Action, Result, storage_error, pure, raise}
use vulnops_hub.Matching.Service.{ExposureResult}
use vulnops_hub.Cases.Create.{
  Request, audit_escalation, write, refresh, case_key, create_case, created_event,
}
use vulnops_hub.Workers.Outbox.{is_handled}
use vulnops_hub.Workers.Outbox.Emits.{
  is_work, Emits, Emits-pure, Emits-raise, Emits-gets, Emits->>=, Quiet, emits,
}
use vulnops_hub.Workers.Exposures.{
  Observation, update_exposure, add_exposure, add_match_evidence, write_exposure, add_support,
  support_by, support, upsert_exposure,
}
use vulnops_hub.Workers.Cases.{
  Sources, add_case_exposure, link_by, link_ticket, open_case, create_unless, EpssRecord, ask_kev,
  ask_epss, ask_vex, priority_for, vex_status_for, maybe_create_case,
}
use vulnops_hub.Workers.Handlers.Shared.{drawing}

audit_escalation-Emits :
    (b : Bool) (c : RemediationCase) (correlation : String)
    → Emits (audit_escalation b c correlation)
unfolding audit_escalation
audit_escalation-Emits false c correlation = search emits depth 8
audit_escalation-Emits true c correlation = search emits depth 8

created_quiet :
    (c : RemediationCase) (correlation id : String)
    → is_work (created_event c correlation id) ≡ false
unfolding is_handled
created_quiet c correlation id = refl

write-Emits : (c : RemediationCase) (due : Datetime) → Emits (write c due)
unfolding write
write-Emits c due = search (emits, audit_escalation-Emits, created_quiet) depth 24

refresh-Emits : (id : String) → Emits (refresh id)
unfolding refresh
refresh-Emits id = Emits->>= _ _ (Emits-gets _) (λ row.
    elim row
      as (λ r. Emits (elim r as (λ _. Action RemediationCase) [
        | none ↦ raise storage_error
        | some c ↦ pure c
      ])) [ none ↦ Emits-raise storage_error | some c ↦ Emits-pure c ])

case_key-Emits : Emits case_key
unfolding case_key
case_key-Emits = search emits depth 8

create_case-Emits : (r : Request) → Emits (create_case r)
unfolding create_case
create_case-Emits r = search (emits, write-Emits, refresh-Emits, case_key-Emits) depth 20

Quiet-update_exposure : (id : String) (f : Exposure → Exposure) → Quiet (update_exposure id f)
unfolding update_exposure
Quiet-update_exposure id f = record { at = λ db. refl }

Quiet-add_exposure : (row : Exposure) → Quiet (add_exposure row)
unfolding add_exposure
Quiet-add_exposure row = record { at = λ db. refl }

Quiet-add_match_evidence : (row : MatchEvidence) → Quiet (add_match_evidence row)
unfolding add_match_evidence
Quiet-add_match_evidence row = record { at = λ db. refl }

Quiet-add_case_exposure : (row : CaseExposure) → Quiet (add_case_exposure row)
unfolding add_case_exposure
Quiet-add_case_exposure row = record { at = λ db. refl }

write_exposure-Emits : (o : Observation) (e : Option Exposure) → Emits (write_exposure o e)
unfolding write_exposure
write_exposure-Emits o none = search (emits, Quiet-add_exposure) depth 12
write_exposure-Emits o (some e) = search (emits, Quiet-update_exposure) depth 12

add_support-Emits :
    (o : Observation) (id ref : String) (seen : Option MatchEvidence)
    → Emits (add_support o id ref seen)
unfolding add_support
add_support-Emits o id ref (some m) = search emits depth 8
add_support-Emits o id ref none = search (emits, Quiet-add_match_evidence) depth 8

support_by-Emits : (b : Bool) (o : Observation) (id ref : String) → Emits (support_by b o id ref)
unfolding support_by
support_by-Emits false o id ref = search emits depth 8
support_by-Emits true o id ref = search (emits, add_support-Emits) depth 8

support-Emits : (o : Observation) (id : String) (ref : Option String) → Emits (support o id ref)
support-Emits o id none = search emits depth 8
support-Emits o id (some ref) = support_by-Emits (truthy ref) o id ref

pub upsert_exposure-Emits : (o : Observation) → Emits (upsert_exposure o)
unfolding upsert_exposure
upsert_exposure-Emits o = search (emits, write_exposure-Emits, support-Emits) depth 12

link_by-Emits :
    (b : Bool) (e : Exposure) (id ticket : String) (provenance : Option String)
    → Emits (link_by b e id ticket provenance)
unfolding link_by
link_by-Emits false e id ticket provenance = search emits depth 8
link_by-Emits true e id ticket provenance = search emits depth 12

link_ticket-Emits :
    (e : Exposure) (id : String) (ticket provenance : Option String)
    → Emits (link_ticket e id ticket provenance)
link_ticket-Emits e id none provenance = search emits depth 8
link_ticket-Emits e id (some ticket) provenance =
    link_by-Emits (truthy ticket) e id ticket provenance

open_case-Emits :
    (e : Exposure) (label : String) (ticket provenance : Option String)
    → Emits (open_case e label ticket provenance)
unfolding open_case
open_case-Emits e label ticket provenance =
    search (emits, create_case-Emits, Quiet-add_case_exposure, link_ticket-Emits) depth 16

create_unless-Emits :
    (b : Bool) (e : Exposure) (label : String) (ticket provenance : Option String)
    → Emits (create_unless b e label ticket provenance)
create_unless-Emits true e label ticket provenance = search emits depth 8
create_unless-Emits false e label ticket provenance = search (emits, open_case-Emits) depth 8

pub drawing-Emits : (r : ExposureResult) (b : Bool) → Emits (drawing r b)
drawing-Emits r false = search emits depth 8
drawing-Emits r true = search emits depth 8

ask_kev-Emits :
    (ask : Option (String → Session → Result Bool)) (id : String) → Emits (ask_kev ask id)
ask_kev-Emits none id = search emits depth 8
ask_kev-Emits (some ask) id = search emits depth 8

ask_epss-Emits :
    (ask : Option (String → Session → Result (Option EpssRecord))) (id : String)
    → Emits (ask_epss ask id)
ask_epss-Emits none id = search emits depth 8
ask_epss-Emits (some ask) id = search emits depth 8

ask_vex-Emits :
    (ask : Option (String → Session → Result (Option String))) (id : String)
    → Emits (ask_vex ask id)
ask_vex-Emits none id = search emits depth 8
ask_vex-Emits (some ask) id = search emits depth 8

module _ (sources : Sources) where
  pub priority_for-Emits :
      (id : String) (c : MatchClass) (confidence : ℕ) → Emits (priority_for sources id c confidence)
  unfolding priority_for
  priority_for-Emits id c confidence = search (emits, ask_kev-Emits, ask_epss-Emits) depth 12

  pub vex_status_for-Emits : (id : String) → Emits (vex_status_for sources id)
  unfolding vex_status_for
  vex_status_for-Emits id = ask_vex-Emits sources.get_status id

  pub maybe_create_case-Emits :
      (e : Exposure) (label : String) (ticket provenance : Option String)
      → Emits (maybe_create_case sources e label ticket provenance)
  unfolding maybe_create_case
  maybe_create_case-Emits e label ticket provenance = search (emits, create_unless-Emits) depth 8
