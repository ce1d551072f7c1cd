-- ===== src/Workers/Outbox/Failure.antt =====
-- The failure of an event (`fail_event` and `process_event` of
-- src/vulnops/workers/orchestration.py).
use vulnops_hub.Prelude.{
  ◌+◌, String, Bool, true, false, Option, none, some, List, [], ◌∷◌, find, find-update_self,
  find-update_other, ◌≡◌, ◌≢◌, refl,
}
use vulnops_hub.Db.{Database, OutboxEvent}
use vulnops_hub.Session.{
  Session, Action, Result, ok, err, Error, storage_error, missing_row, raise, ◌>>◌, run,
}
use vulnops_hub.Workers.Outbox.{
  Limits, has_event_id, failed_row, update_event, fail_event, complete_event, is_handled,
  process_by, process_event,
}

-- An attempt that was counted: the stored row has one attempt more and is otherwise as the handler
-- left it, and so are the other events and the other tables.
pub record Counted (event stored : OutboxEvent) (e : Error) (db : Database)
    (x : Result (Option String) × Session) : Type 0 where
  pub raised : x.0 ≡ err e
  pub row : OutboxEvent
  pub found : find (has_event_id event.id) x.1.committed.outbox ≡ some row
  pub attempts : row.attempts ≡ stored.attempts + 1
  pub kept : record row { attempts = stored.attempts } ≡ stored
  pub others :
      (id : String)
      → id ≢ event.id
      → find (has_event_id id) x.1.committed.outbox ≡ find (has_event_id id) db.outbox
  pub elsewhere : record (x.1.committed) { outbox = db.outbox } ≡ db
  pub settled : x.1.working ≡ x.1.committed

-- What is left where no attempt could be counted: the rows that the handler had committed.
abbrev pub Lost : Error → Database → Result (Option String) × Session → Type 0
Lost e db x = (x.0 ≡ err e) × (x.1.committed ≡ db) × (x.1.working ≡ db)

-- By the stored row and by whether the next commit fails.
abbrev pub Fails :
    OutboxEvent
    → Error
    → Database
    → Option OutboxEvent
    → List Bool
    → Result (Option String) × Session
    → Type 0
Fails event e db none faults x = Lost missing_row db x
Fails event e db (some stored) (true ∷ _) x = Lost storage_error db x
Fails event e db (some stored) (false ∷ _) x = Counted event stored e db x
Fails event e db (some stored) [] x = Counted event stored e db x

-- The session after an attempt was counted, with the faults that are left.
abbrev after_count : OutboxEvent → Session → List Bool → Session
after_count event t rest = record t {
  committed = update_event event.id failed_row t.committed;
  working = update_event event.id failed_row t.committed;
  faults = rest;
}

Counted-update :
    (event stored : OutboxEvent) (e : Error) (t : Session) (rest : List Bool)
    → find (has_event_id event.id) t.committed.outbox ≡ some stored
    → Counted event stored e t.committed (err e, after_count event t rest)
unfolding update_event
Counted-update event stored e t rest found = record {
  raised = refl;
  row = failed_row stored;
  found = find-update_self (has_event_id event.id) failed_row t.committed.outbox (λ x. refl) found;
  attempts = refl;
  kept = refl;
  others = λ id other.
      find-update_other (λ x. x.id) failed_row id event.id t.committed.outbox (λ x. refl) other;
  elsewhere = refl;
  settled = refl;
}

fail_then_raise :
    (event : OutboxEvent) (e : Error) (t : Session) (stored : Option OutboxEvent)
    (faults : List Bool)
    → find (has_event_id event.id) t.committed.outbox ≡ stored
    → t.faults ≡ faults
    → Fails event e t.committed stored faults ((fail_event event >> raise e) t)
unfolding fail_event run
fail_then_raise event e t none faults found next = rw found (refl, refl, refl)
fail_then_raise event e t (some stored) (true ∷ rest) found next =
    rw (found, next) (refl, refl, refl)
fail_then_raise event e t (some stored) (false ∷ rest) found next =
    rw (found, next) (Counted-update event stored e t rest found)
fail_then_raise event e t (some stored) [] found next =
    rw (found, next) (Counted-update event stored e t [] found)

-- Where the handler of an event raises, nothing of what it had pending stays, whatever comes
-- next. If the stored row exists and the next commit does not fail, the event raises the same
-- error, and what is committed is what the handler had committed with one attempt more on the row
-- of the event and no other change. If the row is gone, `missing_row` is raised, and if the
-- commit fails, `storage_error`; then what is committed is what the handler had committed.
pub process_event-Fails :
    (limits : Limits) (handler : OutboxEvent → Action String) (event : OutboxEvent) (s t : Session)
    (e : Error)
    → is_handled event.event_type ≡ true
    → handler event s ≡ (err e, t)
    → Fails event e t.committed
        (find (has_event_id event.id) t.committed.outbox)
        t.faults
        (process_event limits handler event s)
unfolding process_event process_by
process_event-Fails limits handler event s t e handled failed =
    rw (handled, failed) (fail_then_raise event e t _ t.faults refl refl)

-- Where the handler of an event returns and the next commit fails, the event raises, and what is
-- committed is what the handler had committed: no attempt is counted.
pub process_event-uncounted :
    (limits : Limits) (handler : OutboxEvent → Action String) (event : OutboxEvent)
    (summary : String) (s t : Session) (rest : List Bool)
    → is_handled event.event_type ≡ true
    → handler event s ≡ (ok summary, t)
    → t.faults ≡ true ∷ rest
    → ((process_event limits handler event s).0 ≡ err storage_error)
      × ((process_event limits handler event s).1.committed ≡ t.committed)
unfolding process_event process_by complete_event update_event run
process_event-uncounted limits handler event summary s t rest handled done faulty =
    rw (handled, done, faulty) (refl, refl)
