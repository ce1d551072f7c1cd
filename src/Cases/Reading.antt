-- ===== src/Cases/Reading.antt =====
-- The helpers of the workflow that only read (those of src/vulnops/cases/service.py that load a
-- row, check an argument or describe the actor).
use vulnops_hub.Prelude.{String, Option, none, some, ◌≡◌, find, arith, Option-cases, inl, inr}
use vulnops_hub.Db.{
  DecisionType, Datetime, EvidenceIds, not_list, evidence_list, Expiry, no_expiry, not_datetime,
  at_datetime, RemediationCase, RiskDecision, unlisted_provenance,
}
use vulnops_hub.Session.{
  Session, ok, err, has_case_id, has_decision_id, or_raise, gets, ◌>>=◌, ◌>>◌, raise_if,
  value_error, bad_provenance,
}
use vulnops_hub.Session.Keeps.{ReadsOnly, reads_only}
use vulnops_hub.Cases.Actor.{ActorContext, actor_audit_fields, correlation_or_new}
use vulnops_hub.Cases.Expiry.{
  validate_evidence_ids, require_future, validate_request_expiry, validate_risk_decision_request,
  validate_risk_decision_expiry,
}
use vulnops_hub.Cases.Load.{get_case, get_risk_decision, canonicalize}

pub get_case-ReadsOnly : (id : String) → ReadsOnly (get_case id)
unfolding get_case
get_case-ReadsOnly id = search reads_only

pub get_risk_decision-ReadsOnly : (id : String) → ReadsOnly (get_risk_decision id)
unfolding get_risk_decision
get_risk_decision-ReadsOnly id = search reads_only

pub actor_audit_fields-ReadsOnly : (c : ActorContext) → ReadsOnly (actor_audit_fields c)
unfolding actor_audit_fields
actor_audit_fields-ReadsOnly c = search reads_only

pub correlation_or_new-ReadsOnly : (c : Option String) → ReadsOnly (correlation_or_new c)
unfolding correlation_or_new
correlation_or_new-ReadsOnly none = search reads_only
correlation_or_new-ReadsOnly (some String.[]) = search reads_only
correlation_or_new-ReadsOnly (some (String.◌∷◌ c s)) = search reads_only

pub validate_evidence_ids-ReadsOnly : (ids : EvidenceIds) → ReadsOnly (validate_evidence_ids ids)
unfolding validate_evidence_ids
validate_evidence_ids-ReadsOnly not_list = search reads_only
validate_evidence_ids-ReadsOnly (evidence_list ids) = search reads_only

pub require_future-ReadsOnly : (d : Datetime) → ReadsOnly (require_future d)
unfolding require_future
require_future-ReadsOnly d = search reads_only

pub validate_request_expiry-ReadsOnly : (e : Expiry) → ReadsOnly (validate_request_expiry e)
unfolding validate_request_expiry
validate_request_expiry-ReadsOnly no_expiry = search reads_only
validate_request_expiry-ReadsOnly not_datetime = search reads_only
validate_request_expiry-ReadsOnly (at_datetime d) = search (reads_only, require_future-ReadsOnly)

pub validate_risk_decision_request-ReadsOnly :
    (type : DecisionType) (reason : Option String) (ids : EvidenceIds) (e : Expiry)
    → ReadsOnly (validate_risk_decision_request type reason ids e)
unfolding validate_risk_decision_request
validate_risk_decision_request-ReadsOnly type reason ids e =
    search (reads_only, validate_evidence_ids-ReadsOnly, validate_request_expiry-ReadsOnly)

pub validate_risk_decision_expiry-ReadsOnly :
    (e : Expiry) → ReadsOnly (validate_risk_decision_expiry e)
unfolding validate_risk_decision_expiry
validate_risk_decision_expiry-ReadsOnly no_expiry = search reads_only
validate_risk_decision_expiry-ReadsOnly not_datetime = search reads_only
validate_risk_decision_expiry-ReadsOnly (at_datetime d) =
    search (reads_only, require_future-ReadsOnly)

pub ruleset reading = (
  reads_only, get_case-ReadsOnly, get_risk_decision-ReadsOnly, actor_audit_fields-ReadsOnly,
  correlation_or_new-ReadsOnly, validate_evidence_ids-ReadsOnly,
  validate_risk_decision_request-ReadsOnly, validate_risk_decision_expiry-ReadsOnly,
)

-- What a load returns stands in the table.
pub get_case-ok :
    (id : String) (s t : Session) (c : RemediationCase)
    → get_case id s ≡ (ok c, t)
    → (find (has_case_id id) s.working.cases ≡ some c) × (t ≡ s)
unfolding get_case or_raise gets ◌>>=◌
get_case-ok id s t c h = elim (Option-cases (find (has_case_id id) s.working.cases)) [
  | inl e ↦ ground (arith, e)
  | inr (row, e) ↦ ground (arith, e)
]

pub get_case-run :
    (id : String) (s : Session) (c : RemediationCase)
    → find (has_case_id id) s.working.cases ≡ some c
    → get_case id s ≡ (ok c, s)
unfolding get_case or_raise gets ◌>>=◌
get_case-run id s c h = ground (arith, h)

pub actor_audit_fields-err :
    (context : ActorContext) (p : String) (s : Session)
    → context.provenance ≡ unlisted_provenance p
    → actor_audit_fields context s ≡ (err (value_error bad_provenance), s)
unfolding actor_audit_fields raise_if ◌>>◌
actor_audit_fields-err context p s h = ground (arith, h)

pub get_risk_decision-ok :
    (id : String) (s t : Session) (d : RiskDecision)
    → get_risk_decision id s ≡ (ok d, t)
    → (row : RiskDecision) × (find (has_decision_id id) s.working.decisions ≡ some row)
      × (d ≡ canonicalize s.world row)
      × (t ≡ s)
unfolding get_risk_decision or_raise gets ◌>>=◌
get_risk_decision-ok id s t d h =
    elim (Option-cases (find (has_decision_id id) s.working.decisions)) [
      | inl e ↦ ground (arith, e)
      | inr (row, e) ↦ (row, e, ground (arith, e), ground (arith, e))
    ]
