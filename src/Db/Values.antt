-- ===== src/Db/Values.antt =====
-- The values that the columns hold. A column that holds one of a few names is a data type, with
-- a constructor for any other text that the database may hold.
use vulnops_hub.Prelude.{ℕ, String, Bool, Option, none, some, List, ◌==◌, str_eq}

-- `CaseStatus`
pub data CaseStatus : Type 0 where
  new triage assigned in_progress awaiting_verification closed : CaseStatus
  risk_accepted not_applicable reopened : CaseStatus
  unlisted_status : String → CaseStatus

abbrev pub status_text : CaseStatus → String
status_text new = "new"
status_text triage = "triage"
status_text assigned = "assigned"
status_text in_progress = "in_progress"
status_text awaiting_verification = "awaiting_verification"
status_text closed = "closed"
status_text risk_accepted = "risk_accepted"
status_text not_applicable = "not_applicable"
status_text reopened = "reopened"
status_text (unlisted_status s) = s

abbrev status_index : CaseStatus → ℕ
status_index new = 0
status_index triage = 1
status_index assigned = 2
status_index in_progress = 3
status_index awaiting_verification = 4
status_index closed = 5
status_index risk_accepted = 6
status_index not_applicable = 7
status_index reopened = 8
status_index (unlisted_status _) = 9

-- Python's `==` on two statuses
abbrev pub status_eq : CaseStatus → CaseStatus → Bool
status_eq (unlisted_status s) (unlisted_status t) = str_eq s t
status_eq a b = status_index a == status_index b

-- `RemediationCase.priority`
pub data Priority : Type 0 where
  p0 p1 p2 p3 p4 : Priority
  unlisted_priority : String → Priority

-- `RiskDecision.type`
pub data DecisionType : Type 0 where
  risk_acceptance waiver compensating_control false_positive not_affected : DecisionType
  unlisted_type : String → DecisionType

-- `RiskDecision.status`
pub data DecisionStatus : Type 0 where
  pending_approval approved rejected revoked expired : DecisionStatus
  unlisted_decision_status : String → DecisionStatus

-- `actor_provenance`
pub data Provenance : Type 0 where
  legacy_request authenticated_claim : Provenance
  unlisted_provenance : String → Provenance

-- What `tzinfo.utcoffset` answers: it may raise, and it may answer `None`.
pub data Offset : Type 0 where
  raises missing : Offset
  east west : ℕ → Offset

-- A `tzinfo` that is not `UTC`: its offset, and whether `astimezone` and `<=` raise with it.
pub record Zone : Type 0 where
  pub utcoffset : Offset
  pub astimezone_raises : Bool
  pub compare_raises : Bool

pub data TzInfo : Type 0 where
  naive utc : TzInfo
  zone : Zone → TzInfo

-- A `datetime`: the reading of its clock, in seconds since `datetime.min`, and its `tzinfo`.
pub record Datetime : Type 0 where
  pub reading : ℕ
  pub tzinfo : TzInfo

-- What a caller, or a row that the model types do not bind, has as an expiry.
pub data Expiry : Type 0 where
  no_expiry not_datetime : Expiry
  at_datetime : Datetime → Expiry

-- One entry of `evidence_ids`, and the value as a whole.
pub data EvidenceId : Type 0 where
  evidence_text : String → EvidenceId
  not_text : EvidenceId

pub data EvidenceIds : Type 0 where
  not_list : EvidenceIds
  evidence_list : List EvidenceId → EvidenceIds

-- How a verification was made.
pub data Method : Type 0 where
  scanner wazuh_inventory manual_attestation vex : Method
  unlisted_method : String → Method

-- The dict `coverage`, by the keys that are read; `other_keys` says that it has more.
pub record Coverage : Type 0 where
  pub status : Option String
  pub scope_version : Option String
  pub scope : Option String
  pub freshness_seconds : Option ℕ
  pub other_keys : Bool

-- `Verification.status`
pub data VerificationStatus : Type 0 where
  verified_closed requires_approval insufficient_evidence : VerificationStatus

-- The values of an event's payload.
pub data Json : Type 0 where
  null : Json
  text : String → Json
  number : ℕ → Json
  flag : Bool → Json
  texts : List String → Json
  expiry : Expiry → Json
  coverage_dict : Coverage → Json
  dict : List (String × Option String) → Json

abbrev pub optional_text : Option String → Json
optional_text none = null
optional_text (some s) = text s
