-- ===== src/Domain/Provenance.antt =====
-- `persist_snapshot_with_event` and `create_audit_event` (src/vulnops/domain/provenance.py). The query
-- begins a transaction, so the branch for a session without one is never taken; a flush fails where
-- the commit does.
use vulnops_hub.Prelude.{
  String, Bool, true, false, not, ◌&&◌, Option, none, some, List, [], ◌∷◌, ◌++◌, find, str_eq,
  truthy, is_empty, if◌then◌else◌,
}
use vulnops_hub.Db.{Database, SourceSnapshot, OutboxEvent, AuditEvent, Json, text, legacy_request}
use vulnops_hub.Session.{
  Action, event_type_required, action_required, pure, gets, modify, uuid4, generated_id, commit,
  raise_if, rollback_on_error, add_audit, add_outbox, ◌>>=◌, ◌>>◌,
}

-- `filter_by` on the natural key
abbrev pub same_content : SourceSnapshot → SourceSnapshot → Bool
same_content a b =
    str_eq b.source a.source
    && str_eq b.source_record_id a.source_record_id
    && str_eq b.content_sha256 a.content_sha256

abbrev pub or_text : Option String → String → String
or_text none default = default
or_text (some s) default = if truthy s then s else default

abbrev is_given : Option String → Bool
is_given none = false
is_given (some s) = truthy s

-- `if not snapshot.correlation_id`
abbrev pub correlation_or_new : Bool → Option String → Action String
correlation_or_new true correlation = pure (or_text correlation "")
correlation_or_new false correlation = uuid4

abbrev snapshot_payload : SourceSnapshot → List (String × Json)
snapshot_payload s =
    ("source", text s.source)
    ∷ ("source_record_id", text s.source_record_id)
    ∷ ("content_sha256", text s.content_sha256)
    ∷ ("object_uri", text s.object_uri)
    ∷ []

-- `payload or {...}`
abbrev payload_or : List (String × Json) → SourceSnapshot → List (String × Json)
payload_or payload s = if is_empty payload then snapshot_payload s else payload

abbrev pub snapshot_event :
    SourceSnapshot → String → List (String × Json) → String → String → OutboxEvent
snapshot_event s event_type payload correlation id = record {
  id = id;
  aggregate_type = "source_snapshot";
  aggregate_id = s.id;
  event_type = event_type;
  payload = payload_or payload s;
  correlation_id = correlation;
  delivered_at = none;
  attempts = 0;
}

unfoldable pub add_snapshot : SourceSnapshot → Database → Database
add_snapshot row db = record db { snapshots = db.snapshots ++ row ∷ [] }

-- `if audit_event is not None`
unfoldable pub add_optional_audit : Option AuditEvent → Action (Unit {0})
add_optional_audit none = pure tt
add_optional_audit (some e) = do
  raise_if (not (truthy e.action)) action_required
  modify (add_audit e)

-- The `try` block.
unfoldable pub write_snapshot : SourceSnapshot → OutboxEvent → Option AuditEvent → Action (Unit {0})
unfolding add_snapshot add_optional_audit
write_snapshot row event audit =
    rollback_on_error
      (do modify (add_snapshot row); modify (add_outbox event); add_optional_audit audit; commit)

unfoldable pub persist_new :
    SourceSnapshot → String → Option AuditEvent → List (String × Json) → Action SourceSnapshot
unfolding write_snapshot
persist_new s event_type audit payload = do
  correlation ← correlation_or_new (is_given s.correlation_id) s.correlation_id
  id ← generated_id "evt_" 12
  write_snapshot (record s { correlation_id = some correlation })
      (snapshot_event s event_type payload correlation id) audit
  pure (record s { correlation_id = some correlation })

abbrev pub persist_by :
    Option SourceSnapshot
    → SourceSnapshot
    → String
    → Option AuditEvent
    → List (String × Json)
    → Action SourceSnapshot
persist_by (some existing) s event_type audit payload = pure existing
persist_by none s event_type audit payload = persist_new s event_type audit payload

unfoldable pub persist_snapshot_with_event :
    SourceSnapshot → String → Option AuditEvent → List (String × Json) → Action SourceSnapshot
unfolding persist_new
persist_snapshot_with_event s event_type audit payload = do
  raise_if (not (truthy event_type)) event_type_required
  existing ← gets (λ t. find (same_content s) t.working.snapshots)
  persist_by existing s event_type audit payload

-- The audit row of a call that names no provenance; `correlation_id or str(uuid.uuid4())` is drawn
-- after the identifier.
unfoldable pub create_audit_event :
    (actor action subject_type subject_id : String)
    (correlation_id reason prior_state new_state : Option String) (organization_id : String)
    → Action AuditEvent
create_audit_event actor action subject_type subject_id correlation_id reason prior_state new_state
      organization_id =
    do
      id ← generated_id "aud_" 12
      correlation ← correlation_or_new (is_given correlation_id) correlation_id
      pure (record {
        id = id;
        actor = actor;
        action = action;
        subject_type = subject_type;
        subject_id = subject_id;
        prior_state = prior_state;
        new_state = new_state;
        reason = reason;
        correlation_id = some correlation;
        request_id = none;
        organization_id = organization_id;
        actor_provenance = legacy_request;
        actor_principal_type = none;
        actor_roles = none;
        actor_scopes = none;
      })
