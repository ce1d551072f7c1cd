-- ===== src/Workers/Outbox.antt =====
-- The outbox queue (src/vulnops/workers/orchestration.py): the claims, the delivery and failure of an
-- event, its dispatch, and the drain of the queue. Rows stand in the order of `created_at`.
pub mod Emits
pub mod Counts
pub mod Batch
pub mod Drain
pub mod Claim
pub mod Failure
use vulnops_hub.Prelude.{
  ℕ, zero, suc, ◌+◌, String, Bool, true, false, not, ◌&&◌, Option, none, some, List, [], ◌∷◌, find,
  select, update, take, str_eq, ltb, mem_text, if◌then◌else◌,
}
use vulnops_hub.Db.{Database, OutboxEvent}
use vulnops_hub.Session.{
  Session, Action, Result, ok, err, Error, missing_row, pure, raise, gets, modify, utcnow, commit,
  rollback, ◌>>=◌, ◌>>◌,
}

abbrev pub is_undelivered : OutboxEvent → Bool
is_undelivered e = elim e.delivered_at [ none ↦ true | some _ ↦ false ]

-- `delivered_at IS NULL AND attempts < max_attempts`
abbrev pub is_claimable : ℕ → OutboxEvent → Bool
is_claimable max_attempts e = is_undelivered e && ltb e.attempts max_attempts

abbrev pub has_event_id : String → OutboxEvent → Bool
has_event_id id e = str_eq e.id id

unfoldable pub claim_events : (batch_size max_attempts : ℕ) → Action (List OutboxEvent)
claim_events batch_size max_attempts =
    gets (λ s. take batch_size (select (is_claimable max_attempts) s.working.outbox))

unfoldable pub update_event : String → (OutboxEvent → OutboxEvent) → Database → Database
update_event id f db = record db { outbox = update (has_event_id id) f db.outbox }

abbrev pub delivered_row : ℕ → OutboxEvent → OutboxEvent
delivered_row now e = record e { delivered_at = some now }

unfoldable pub complete_event : OutboxEvent → Action (Unit {0})
complete_event event = do now ← utcnow; modify (update_event event.id (delivered_row now)); commit

abbrev pub failed_row : OutboxEvent → OutboxEvent
failed_row e = record e { attempts = e.attempts + 1 }

-- `stored` is `None` where the row is gone, and then its attribute raises.
abbrev count_attempt : String → Option OutboxEvent → Action (Unit {0})
count_attempt id none = raise missing_row
count_attempt id (some stored) = modify (update_event id failed_row)

unfoldable pub fail_event : OutboxEvent → Action (Unit {0})
fail_event event = do
  rollback
  stored ← gets (λ s. find (has_event_id event.id) s.working.outbox)
  count_attempt event.id stored
  commit

unfoldable pub handled_types : List String
handled_types =
    "vulnops.sbom.processed.v1" ∷ "vulnops.evidence.defectdojo.ingested.v1"
    ∷ "vulnops.evidence.wazuh.ingested.v1" ∷ []

unfoldable pub is_handled : String → Bool
unfolding handled_types
is_handled event_type = mem_text event_type handled_types

-- The settings of the drain.
pub record Limits : Type 0 where
  pub batch_size : ℕ
  pub max_attempts : ℕ

-- What a drain has counted, and whether a failure has deferred the rest.
pub record Progress : Type 0 where
  pub delivered : ℕ
  pub deferred : Bool

abbrev pub counted : Option String → Progress → Progress
counted none p = p
counted (some _) p = record p { delivered = suc p.delivered }

abbrev pub idle : Progress
idle = record { delivered = 0; deferred = false }

abbrev pub stopped : Progress
stopped = record { delivered = 0; deferred = true }

module _ (limits : Limits) (handler : OutboxEvent → Action String) where
  -- After the handler: a failure is counted and raised again.
  abbrev pub after_handler : OutboxEvent → Result String → Action (Option String)
  after_handler event (ok summary) = complete_event event >> pure (some summary)
  after_handler event (err e) = fail_event event >> raise e

  abbrev run_handler : OutboxEvent → Action (Option String)
  run_handler event s = let (r, s') = handler event s in after_handler event r s'

  unfoldable pub process_by : Bool → OutboxEvent → Action (Option String)
  process_by true event = run_handler event
  process_by false event = complete_event event >> pure none

  unfoldable pub process_event : OutboxEvent → Action (Option String)
  unfolding process_by
  process_event event = process_by (is_handled event.event_type) event

  abbrev pub after_event :
      Result (Option String) → (Session → Progress × Session) → Session → Progress × Session
  after_event (ok summary) rest s = let (p, t) = rest s in (counted summary p, t)
  after_event (err e) rest s = (stopped, s)

  -- The loop over the claimed events; what `process_event` raises is caught.
  unfoldable pub process_batch : List OutboxEvent → Session → Progress × Session
  unfolding process_event
  process_batch [] s = (idle, s)
  process_batch (event ∷ events) s =
      let (r, s') = process_event event s in after_event r (process_batch events) s'

  abbrev pub added : ℕ → Option (Progress × Session) → Option (Progress × Session)
  added n none = none
  added n (some (q, u)) = some (record q { delivered = n + q.delivered }, u)

  -- `if stop_claiming: break`
  abbrev pub after_batch :
      Bool → ℕ → (Session → Option (Progress × Session)) → Session → Option (Progress × Session)
  after_batch true n rest t = some (record { delivered = n; deferred = true }, t)
  after_batch false n rest t = added n (rest t)

  abbrev pub after_claim :
      Result (List OutboxEvent)
      → (Session → Option (Progress × Session))
      → Session
      → Option (Progress × Session)
  after_claim (err e) rest s = some (stopped, s)
  after_claim (ok []) rest s = some (idle, s)
  after_claim (ok (event ∷ events)) rest s =
      let (p, t) = process_batch (event ∷ events) s in after_batch p.deferred p.delivered rest t

  -- The `while` loop, on fuel; `none` means that the fuel ran out.
  unfoldable pub drain : ℕ → Session → Option (Progress × Session)
  unfolding process_batch claim_events
  drain zero s = none
  drain (suc fuel) s =
      let (r, s') = claim_events limits.batch_size limits.max_attempts s in
      after_claim r (drain fuel) s'

  abbrev closed_session : Option (Progress × Session) → Option (Progress × Session)
  closed_session none = none
  closed_session (some (p, t)) = some (p, record t { working = t.committed })

  -- `run_once`: a new session sees what is committed, and closing it drops what is pending.
  unfoldable pub run_once : ℕ → Session → Option (Progress × Session)
  unfolding drain
  run_once fuel s = closed_session (drain fuel (record s { working = s.committed }))
