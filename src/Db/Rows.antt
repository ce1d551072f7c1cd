-- ===== src/Db/Rows.antt =====
-- The rows of src/vulnops/cases/models.py, src/vulnops/db/models, src/vulnops/assets/models.py and
-- src/vulnops/services/models.py, by the columns that the workflow reads or writes.
use vulnops_hub.Prelude.{ℕ, String, Bool, Option, List}
use vulnops_hub.Db.Values.{
  CaseStatus, Priority, DecisionType, DecisionStatus, Provenance, Datetime, Expiry, EvidenceIds,
  Method, Coverage, VerificationStatus, Json,
}
use vulnops_hub.Db.Classes.{MatchClass, ExposureState}

pub record RemediationCase : Type 0 where
  pub id : String
  pub case_key : String
  pub title : String
  pub organization_id : String
  pub owner_team : String
  pub assignee : Option String
  pub priority : Priority
  pub policy_version : Option String
  pub status : CaseStatus
  pub version : ℕ
  pub due_at : Option Datetime
  pub sla_breached : Bool
  pub ownership_escalated : Bool
  pub closure_reason : Option String
  pub exposures : List String
  pub external_ticket_id : Option String
  pub updated_at : ℕ

pub record SlaClock : Type 0 where
  pub id : String
  pub case_id : String
  pub phase : String
  pub due_at : Datetime

-- `reason` is `none` where the column holds no text.
pub record RiskDecision : Type 0 where
  pub id : String
  pub case_id : String
  pub type : DecisionType
  pub status : DecisionStatus
  pub scope_exposure_ids : Option (List String)
  pub reason : Option String
  pub compensating_controls : Option (List String)
  pub evidence_ids : EvidenceIds
  pub requested_by : String
  pub requested_by_provenance : Provenance
  pub approver : Option String
  pub approver_role : Option String
  pub approver_provenance : Option Provenance
  pub approver_principal_type : Option String
  pub decided_at : Option ℕ
  pub expires_at : Expiry
  pub updated_at : ℕ

pub record Verification : Type 0 where
  pub id : String
  pub case_id : String
  pub method : Method
  pub asserted_result : Option String
  pub evidence_ids : List String
  pub coverage : Option Coverage
  pub status : VerificationStatus

pub record AuditEvent : Type 0 where
  pub id : String
  pub actor : String
  pub action : String
  pub subject_type : String
  pub subject_id : String
  pub prior_state : Option String
  pub new_state : Option String
  pub reason : Option String
  pub correlation_id : Option String
  pub request_id : Option String
  pub organization_id : String
  pub actor_provenance : Provenance
  pub actor_principal_type : Option String
  pub actor_roles : Option (List String)
  pub actor_scopes : Option (List String)

pub record OutboxEvent : Type 0 where
  pub id : String
  pub aggregate_type : String
  pub aggregate_id : String
  pub event_type : String
  pub payload : List (String × Json)
  pub correlation_id : String
  pub delivered_at : Option ℕ
  pub attempts : ℕ

pub record Asset : Type 0 where
  pub id : String
  pub organization_id : String
  pub owner : Option String
  pub business_service_id : Option String

pub record BusinessService : Type 0 where
  pub id : String
  pub organization_id : String
  pub owner_team : String

pub record AssetAlias : Type 0 where
  pub id : String
  pub asset_id : String
  pub namespace : String
  pub value : String
  pub organization_id : String

-- `confidence` counts hundredths. An absent list of rules is an empty one.
pub record Exposure : Type 0 where
  pub id : String
  pub organization_id : String
  pub asset_id : Option String
  pub component_occurrence_id : Option String
  pub vulnerability_id : String
  pub detection_context : String
  pub match_class : MatchClass
  pub confidence : ℕ
  pub priority : Option Priority
  pub policy_version : Option String
  pub state : ExposureState
  pub matched_rules : List String
  pub evidence_refs : List String
  pub limitations : List String
  pub last_observed_at : ℕ

pub record MatchEvidence : Type 0 where
  pub id : String
  pub exposure_id : String
  pub component_purl : Option String
  pub vulnerability_id : String
  pub evidence_ref : String

pub record CaseExposure : Type 0 where
  pub id : String
  pub case_id : String
  pub exposure_id : String

pub record ComponentOccurrence : Type 0 where
  pub id : String
  pub sbom_id : String
  pub asset_id : Option String
  pub purl : Option String
  pub ecosystem : Option String
  pub normalized_name : Option String
  pub raw_name : String
  pub raw_version : Option String
  pub cpe : Option String

pub record SourceSnapshot : Type 0 where
  pub id : String
  pub source : String
  pub source_record_id : String
  pub content_sha256 : String
  pub object_uri : String
  pub correlation_id : Option String

-- The tables, each in the order in which its rows were inserted.
pub record Database : Type 0 where
  pub cases : List RemediationCase
  pub clocks : List SlaClock
  pub decisions : List RiskDecision
  pub verifications : List Verification
  pub audits : List AuditEvent
  pub outbox : List OutboxEvent
  pub assets : List Asset
  pub services : List BusinessService
  pub exposures : List Exposure
  pub aliases : List AssetAlias
  pub match_evidence : List MatchEvidence
  pub case_exposures : List CaseExposure
  pub occurrences : List ComponentOccurrence
  pub snapshots : List SourceSnapshot
