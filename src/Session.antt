-- ===== src/Session.antt =====
-- A SQLAlchemy session as the case workflow uses it: the state of the database that is committed,
-- the state that the session sees, and the world outside (clock, identifiers, settings).
pub mod Steps
pub mod Keeps
use vulnops_hub.Prelude.{
  ℕ, suc, String, Bool, true, false, Option, none, some, List, [], ◌∷◌, ◌++◌, find, update, str_eq,
  if◌then◌else◌, concat, first_chars,
}
use vulnops_hub.Db.{
  Database, RemediationCase, RiskDecision, SlaClock, Verification, AuditEvent, OutboxEvent,
  CaseStatus, DecisionType,
}

-- The messages of `ValueError`.
pub data ValueError : Type 0 where
  case_not_found decision_not_found : String → ValueError
  transition_not_allowed : CaseStatus → CaseStatus → ValueError
  decision_transition_not_allowed : CaseStatus → CaseStatus → DecisionType → ValueError
  version_conflict : (expected current : ℕ) → ValueError
  verification_not_allowed : CaseStatus → ValueError
  bad_provenance conflicting_owners : ValueError
  approval_by_request requester_mismatch : ValueError
  unsupported_type reason_required no_evidence blank_evidence : ValueError
  expiry_required expiry_timezone expiry_past : ValueError
  no_longer_pending not_human no_capability self_approval : ValueError
  bad_outcome approval_reason_required no_approver_role : ValueError
  not_closed : ValueError
  event_type_required action_required : ValueError

-- What a call raises: beside `ValueError`, what the database raises when a commit fails, what
-- comparing a `datetime` raises, what an external lookup raises, and what a missing key of a payload
-- and an attribute of a missing row raise.
pub data Error : Type 0 where
  value_error : ValueError → Error
  storage_error datetime_error lookup_error missing_key missing_row : Error

pub data Result {ℓ} (A : Type ℓ) : Type ℓ where
  ok : A → Result A
  err : Error → Result A

-- What the workflow takes from outside: the readings of the clock, the hexadecimal texts of the
-- identifiers, the system's zone (`none` where the conversion raises) and the configured team.
pub record World : Type 0 where
  pub clock : ℕ → ℕ
  pub uuid : ℕ → String
  pub system_utc : ℕ → Option ℕ
  pub default_case_owner_team : Option String

-- `faults` says of each commit to come whether it fails; when it runs out, none does.
pub record Session : Type 0 where
  pub committed : Database
  pub working : Database
  pub world : World
  pub ticks : ℕ
  pub draws : ℕ
  pub faults : List Bool

abbrev pub Action : Type 0 → Type 0
Action A = Session → Result A × Session

module _ {A : Type 0} where
  unfoldable pub pure : A → Action A
  pure a s = (ok a, s)

  unfoldable pub raise : Error → Action A
  raise e s = (err e, s)

  unfoldable pub gets : (Session → A) → Action A
  gets f s = (ok (f s), s)

  unfoldable pub lift : Result A → Action A
  lift r s = (r, s)

unfoldable pub modify : (Database → Database) → Action (Unit {0})
modify f s = (ok tt, record s { working = f s.working })

-- `datetime.now(UTC)`, in seconds since `datetime.min`
unfoldable pub utcnow : Action ℕ
utcnow s = (ok (s.world.clock s.ticks), record s { ticks = suc s.ticks })

-- `uuid.uuid4()`, as its text
unfoldable pub uuid4 : Action String
uuid4 s = (ok (s.world.uuid s.draws), record s { draws = suc s.draws })

-- `f"{prefix}{uuid.uuid4().hex[:digits]}"`
unfoldable pub generated_id : String → ℕ → Action String
generated_id prefix digits s = (
  ok (concat prefix (first_chars digits (s.world.uuid s.draws))),
  record s { draws = suc s.draws },
)

unfoldable pub rollback : Action (Unit {0})
rollback s = (ok tt, record s { working = s.committed })

-- A commit that fails is rolled back by the database.
commit_by : List Bool → Action (Unit {0})
commit_by (true ∷ rest) s = (err storage_error, record s { working = s.committed; faults = rest })
commit_by (false ∷ rest) s = (ok tt, record s { committed = s.working; faults = rest })
commit_by [] s = (ok tt, record s { committed = s.working })

unfoldable pub commit : Action (Unit {0})
unfolding commit_by
commit s = commit_by s.faults s

module _ {A B : Type 0} where
  abbrev pub and_then : Result A → (A → Action B) → Action B
  and_then (ok a) f s = f a s
  and_then (err e) f s = (err e, s)

  infixl 5 ◌>>=◌ ◌>>◌
  unfoldable pub ◌>>=◌ : Action A → (A → Action B) → Action B
  ◌>>=◌ m f s = let (r, s') = m s in and_then r f s'

  unfoldable pub ◌>>◌ : Action A → Action B → Action B
  ◌>>◌ m k s = let (r, s') = m s in and_then r (λ _. k) s'

abbrev rolled_back : {A : Type 0} → Result A → Session → Result A × Session
rolled_back (ok a) s = (ok a, s)
rolled_back (err e) s = (err e, record s { working = s.committed })

-- `try: body` / `except Exception: session.rollback(); raise`
unfoldable pub rollback_on_error : {A : Type 0} → Action A → Action A
rollback_on_error body s = let (r, s') = body s in rolled_back r s'

abbrev rolled_back_storage : {A : Type 0} → Result A → Session → Result A × Session
rolled_back_storage (ok a) s = (ok a, s)
rolled_back_storage (err (value_error e)) s = (err (value_error e), s)
rolled_back_storage (err e) s = (err e, record s { working = s.committed })

-- `try: body` / `except ValueError: raise` / `except Exception: session.rollback(); raise`
unfoldable pub rollback_on_storage_error : {A : Type 0} → Action A → Action A
rollback_on_storage_error body s = let (r, s') = body s in rolled_back_storage r s'

-- `if test: raise ValueError(...)`
unfoldable pub raise_if : Bool → ValueError → Action (Unit {0})
raise_if true e s = (err (value_error e), s)
raise_if false e s = (ok tt, s)

unfoldable pub or_raise : {A : Type 0} → Option A → ValueError → Action A
or_raise none e s = (err (value_error e), s)
or_raise (some a) e s = (ok a, s)

abbrev pub has_case_id : String → RemediationCase → Bool
has_case_id id row = str_eq row.id id

abbrev pub has_decision_id : String → RiskDecision → Bool
has_decision_id id row = str_eq row.id id

-- `session.add`, for the rows of each table
unfoldable pub add_case : RemediationCase → Database → Database
add_case row db = record db { cases = db.cases ++ row ∷ [] }

unfoldable pub add_clock : SlaClock → Database → Database
add_clock row db = record db { clocks = db.clocks ++ row ∷ [] }

unfoldable pub add_decision : RiskDecision → Database → Database
add_decision row db = record db { decisions = db.decisions ++ row ∷ [] }

unfoldable pub add_verification : Verification → Database → Database
add_verification row db = record db { verifications = db.verifications ++ row ∷ [] }

unfoldable pub add_audit : AuditEvent → Database → Database
add_audit row db = record db { audits = db.audits ++ row ∷ [] }

unfoldable pub add_outbox : OutboxEvent → Database → Database
add_outbox row db = record db { outbox = db.outbox ++ row ∷ [] }

-- the assignments to the attributes of a loaded row, by its primary key
unfoldable pub update_case : String → (RemediationCase → RemediationCase) → Database → Database
update_case id f db = record db { cases = update (has_case_id id) f db.cases }

unfoldable pub update_decision : String → (RiskDecision → RiskDecision) → Database → Database
update_decision id f db = record db { decisions = update (has_decision_id id) f db.decisions }

-- All of the operations, for a proof that runs a call step by step.
unfoldable pub run : Unit {0}
unfolding pure raise gets lift modify utcnow uuid4 generated_id rollback commit ◌>>=◌ ◌>>◌
    rollback_on_error rollback_on_storage_error raise_if or_raise add_case add_clock add_decision
    add_verification add_audit add_outbox update_case update_decision
run = tt
