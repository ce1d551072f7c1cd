-- ===== src/Cases/Events.antt =====
-- The pair of rows that each call of the workflow records: one of the audit trail and one of the
-- outbox, written in the transaction of the change (src/vulnops/cases/service.py).
use vulnops_hub.Prelude.{String, Option, [], ◌∷◌, ◌++◌, ◌≡◌, arith}
use vulnops_hub.Db.{AuditEvent, OutboxEvent}
use vulnops_hub.Session.{
  Session, Action, ok, err, Error, pure, modify, generated_id, uuid4, commit, ◌>>=◌, ◌>>◌,
  add_audit, add_outbox, run,
}
use vulnops_hub.Session.Keeps.{ReadsOnly, Ensures, Ensures->>=, Ensures-pure}
use vulnops_hub.Cases.Actor.{correlation_or_new}
use vulnops_hub.Cases.Reading.{reading}

pub record Events : Type 0 where
  pub audit : AuditEvent
  pub outbox : OutboxEvent

-- The identifiers of the two rows and the correlation that they share.
unfoldable pub describe : Option String → (String → String → String → Events) → Action Events
describe correlation_id build = do
  correlation ← correlation_or_new correlation_id
  audit_id ← generated_id "aud_" 12
  outbox_id ← generated_id "evt_" 12
  pure (build correlation audit_id outbox_id)

-- The same for a call with no actor context: the audit row draws its identifiers first.
unfoldable pub describe_system : (String → String → String → Events) → Action Events
describe_system build = do
  audit_id ← generated_id "aud_" 12
  correlation ← uuid4
  outbox_id ← generated_id "evt_" 12
  pure (build correlation audit_id outbox_id)

unfoldable pub add_events : Events → Action (Unit {0})
add_events e = do modify (add_audit e.audit); modify (add_outbox e.outbox)

unfoldable pub commit_events : Events → Action (Unit {0})
unfolding add_events
commit_events e = add_events e >> commit

pub describe-ReadsOnly :
    (correlation_id : Option String) (build : String → String → String → Events)
    → ReadsOnly (describe correlation_id build)
unfolding describe
describe-ReadsOnly correlation_id build = search reading depth 8

pub describe_system-ReadsOnly :
    (build : String → String → String → Events) → ReadsOnly (describe_system build)
unfolding describe_system
describe_system-ReadsOnly build = search reading depth 8

pub describe-Ensures :
    {Q : Events → Type 0} (correlation_id : Option String)
    (build : String → String → String → Events)
    → ((correlation audit_id outbox_id : String) → Q (build correlation audit_id outbox_id))
    → Ensures Q (describe correlation_id build)
unfolding describe
describe-Ensures correlation_id build h = Ensures->>= _ _ λ correlation.
    Ensures->>= _ _
      λ audit_id. Ensures->>= _ _ λ outbox_id. Ensures-pure _ (h correlation audit_id outbox_id)

-- What a commit of two events has made of a session: what was pending is committed with them.
pub record Commits (e : Events) (s t : Session) : Type 0 where
  pub durable : t.committed ≡ t.working
  pub rows : t.working ≡ record (s.working) {
    audits = s.working.audits ++ e.audit ∷ [];
    outbox = s.working.outbox ++ e.outbox ∷ [];
  }

pub commit_events-ok : (e : Events) (s t : Session) → commit_events e s ≡ (ok tt, t) → Commits e s t
unfolding commit_events run
commit_events-ok e s t h = ground arith

pub commit_events-atomic :
    (events : Events) (s : Session) (e : Error)
    → (commit_events events s).0 ≡ err e
    → (commit_events events s).1.committed ≡ s.committed
unfolding commit_events run
commit_events-atomic events s e h = ground arith

-- Only the rows that the session sees before count.
pub Commits-same :
    {e : Events} {s s' t : Session} → s'.working ≡ s.working → Commits e s' t → Commits e s t
Commits-same same c = record { durable = c.durable; rows = ground (arith, c.rows) }
