-- ===== src/Cases/Reopen/Effect.antt =====
-- What a reopening does to the rows (`CaseService.reopen_on_evidence` of
-- src/vulnops/cases/service.py).
use vulnops_hub.Prelude.{◌+◌, String, some, [], ◌∷◌, ◌++◌, find, ◌≡◌}
use vulnops_hub.Db.{closed, reopened, RemediationCase}
use vulnops_hub.Session.{Session, has_case_id}
use vulnops_hub.Cases.Events.{Events}
use vulnops_hub.Cases.Reopen.{restated}

-- The rows before and after a reopening that returned `c'`.
pub record Reopens (case_id : String) (s t : Session) (c' : RemediationCase) : Type 0 where
  pub before : RemediationCase
  pub loaded : find (has_case_id case_id) s.working.cases ≡ some before
  pub was_closed : before.status ≡ closed
  pub returned : c' ≡ restated before reopened before
  pub is_reopened : c'.status ≡ reopened
  pub counted : c'.version ≡ before.version + 1
  pub kept : record c' { status = before.status; version = before.version } ≡ before
  pub stored : find (has_case_id case_id) t.committed.cases ≡ some c'
  pub durable : t.committed ≡ t.working
  pub events : Events
  pub audited : t.committed.audits ≡ s.working.audits ++ events.audit ∷ []
  pub announced : t.committed.outbox ≡ s.working.outbox ++ events.outbox ∷ []
