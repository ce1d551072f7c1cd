-- ===== src/Domain/Once.antt =====
-- A record of evidence is written once, with its event (src/vulnops/domain/provenance.py).
use vulnops_hub.Prelude.{
  String, Bool, true, false, not, Option, none, some, List, [], ◌∷◌, ◌++◌, find, find-append,
  truthy, eq_iff, ◌≡◌, refl, sym, ap, subst, ◌∙◌, arith,
}
use vulnops_hub.Db.{SourceSnapshot, OutboxEvent, AuditEvent, Json}
use vulnops_hub.Session.{Session, ok, event_type_required, run}
use vulnops_hub.Session.Steps.{>>=-ok, >>-ok, gets-ok, pure-ok, guard-ok}
use vulnops_hub.Session.Keeps.{ReadsOnly, ReadsOnly-eq, ReadsOnly-generated_id, reads_only}
use vulnops_hub.Domain.Provenance.{
  same_content, correlation_or_new, snapshot_event, add_snapshot, add_optional_audit,
  write_snapshot, persist_new, persist_by, persist_snapshot_with_event,
}

-- What the write of a new snapshot has made of the tables.
pub record Wrote (row : SourceSnapshot) (event : OutboxEvent) (s t : Session) : Type 0 where
  pub durable : t.committed ≡ t.working
  pub snapshot_added : t.working.snapshots ≡ s.working.snapshots ++ row ∷ []
  pub event_added : t.working.outbox ≡ s.working.outbox ++ event ∷ []

write_snapshot-Wrote :
    (row : SourceSnapshot) (event : OutboxEvent) (audit : Option AuditEvent) (s t : Session)
    → write_snapshot row event audit s ≡ (ok tt, t)
    → Wrote row event s t
unfolding write_snapshot add_snapshot add_optional_audit run
write_snapshot-Wrote row event none s t h = record {
  durable = ground (arith, h);
  snapshot_added = ground (arith, h);
  event_added = ground (arith, h);
}
write_snapshot-Wrote row event (some e) s t h = record {
  durable = ground (arith, h);
  snapshot_added = ground (arith, h);
  event_added = ground (arith, h);
}

-- The two ways in which a call returns: the content was known, and nothing has changed, or its row
-- and its event have been committed together.
pub data Outcome (snapshot : SourceSnapshot) (event_type : String) (row : SourceSnapshot)
    (s t : Session) : Type 0 where
  known :
      find (same_content snapshot) s.working.snapshots ≡ some row
      → t ≡ s
      → Outcome snapshot event_type row s t
  recorded :
      find (same_content snapshot) s.working.snapshots ≡ none
      → (event : OutboxEvent) → event.event_type ≡ event_type
      → event.aggregate_id ≡ snapshot.id
      → Wrote row event s t
      → same_content snapshot row ≡ true
      → Outcome snapshot event_type row s t

own_content : (s : SourceSnapshot) → same_content s s ≡ true
own_content s = ground (
  arith,
  (eq_iff s.source s.source).1 refl,
  (eq_iff s.source_record_id s.source_record_id).1 refl,
  (eq_iff s.content_sha256 s.content_sha256).1 refl,
)

correlation-ReadsOnly : (b : Bool) (c : Option String) → ReadsOnly (correlation_or_new b c)
correlation-ReadsOnly true c = search reads_only depth 4
correlation-ReadsOnly false c = search reads_only depth 4

persist_new-Outcome :
    (snapshot : SourceSnapshot) (event_type : String) (audit : Option AuditEvent)
    (payload : List (String × Json)) (s t : Session) (row : SourceSnapshot)
    → find (same_content snapshot) s.working.snapshots ≡ none
    → persist_new snapshot event_type audit payload s ≡ (ok row, t)
    → Outcome snapshot event_type row s t
unfolding persist_new
persist_new-Outcome snapshot event_type audit payload s t row fresh h =
    let (c, s1, drawn, h1) = >>=-ok _ _ s t h in
    let (id, s2, named, h2) = >>=-ok _ _ s1 t h1 in
    let (_, s3, wrote, h3) = >>-ok _ _ s2 t h2 in
    let (same, last) = pure-ok _ row s3 t h3 in
    let new = record snapshot { correlation_id = some c } in
    let event = snapshot_event snapshot event_type payload c id in
    let w = write_snapshot-Wrote new event audit s2 s3 wrote in
    let unread =
      (ReadsOnly-eq s1 (ReadsOnly-generated_id "evt_" 12) named).working_same
      ∙ (ReadsOnly-eq s (correlation-ReadsOnly _ snapshot.correlation_id) drawn).working_same in
    recorded fresh event refl refl
      (record {
        durable = subst (λ x. x.committed ≡ x.working) last w.durable;
        snapshot_added =
            ap (λ x. x.working.snapshots) (sym last)
            ∙ w.snapshot_added
            ∙ (λ i. (unread i).snapshots ++ same i ∷ []);
        event_added =
            ap (λ x. x.working.outbox) (sym last)
            ∙ w.event_added
            ∙ ap (λ db. db.outbox ++ event ∷ []) unread;
      })
      (subst (λ r. same_content snapshot r ≡ true) same (own_content snapshot))

persist_by-Outcome :
    (found : Option SourceSnapshot) (snapshot : SourceSnapshot) (event_type : String)
    (audit : Option AuditEvent) (payload : List (String × Json)) (s t : Session)
    (row : SourceSnapshot)
    → find (same_content snapshot) s.working.snapshots ≡ found
    → persist_by found snapshot event_type audit payload s ≡ (ok row, t)
    → Outcome snapshot event_type row s t
persist_by-Outcome (some existing) snapshot event_type audit payload s t row looked h =
    let (same, last) = pure-ok existing row s t h in known (looked ∙ ap some same) (sym last)
persist_by-Outcome none snapshot event_type audit payload s t row looked h =
    persist_new-Outcome snapshot event_type audit payload s t row looked h

persist-Outcome :
    (snapshot : SourceSnapshot) (event_type : String) (audit : Option AuditEvent)
    (payload : List (String × Json)) (s t : Session) (row : SourceSnapshot)
    → persist_snapshot_with_event snapshot event_type audit payload s ≡ (ok row, t)
    → Outcome snapshot event_type row s t
unfolding persist_snapshot_with_event
persist-Outcome snapshot event_type audit payload s t row h =
    let (_, h1) = guard-ok (not (truthy event_type)) event_type_required _ s t h in
    let (found, s1, looked, h2) = >>=-ok _ _ s t h1 in
    let (is_found, start) = gets-ok _ s s1 found looked in
    persist_by-Outcome found snapshot event_type audit payload s t row (sym is_found)
      (ap (persist_by found snapshot event_type audit payload) (sym start) ∙ h2)

-- The row is found afterwards.
outcome_found :
    (snapshot : SourceSnapshot) (event_type : String) (row : SourceSnapshot) (s t : Session)
    → Outcome snapshot event_type row s t
    → find (same_content snapshot) t.working.snapshots ≡ some row
outcome_found snapshot event_type row s t (known found same) =
    ap (λ x. find (same_content snapshot) x.working.snapshots) same ∙ found
outcome_found snapshot event_type row s t (recorded fresh event _ _ w own) =
    ap (find (same_content snapshot)) w.snapshot_added
    ∙ find-append (same_content snapshot) s.working.snapshots row fresh own

known_returns :
    (snapshot : SourceSnapshot) (event_type : String) (audit : Option AuditEvent)
    (payload : List (String × Json)) (t : Session) (row : SourceSnapshot)
    → truthy event_type ≡ true
    → find (same_content snapshot) t.working.snapshots ≡ some row
    → persist_snapshot_with_event snapshot event_type audit payload t ≡ (ok row, t)
unfolding persist_snapshot_with_event run
known_returns snapshot event_type audit payload t row named found = rw (named, found) refl

-- A call that returned found the content of the snapshot known, returned its row and changed
-- nothing, or it committed the row together with one event of the given type for it. A further
-- call for the same natural key, with any event type that is not empty, returns that row and
-- changes nothing.
pub persist_once :
    (snapshot other : SourceSnapshot) (event_type other_type : String)
    (audit audit' : Option AuditEvent) (payload payload' : List (String × Json)) (s t : Session)
    (row : SourceSnapshot)
    → same_content other ≡ same_content snapshot
    → truthy other_type ≡ true
    → persist_snapshot_with_event snapshot event_type audit payload s ≡ (ok row, t)
    → Outcome snapshot event_type row s t
      × (persist_snapshot_with_event other other_type audit' payload' t ≡ (ok row, t))
persist_once snapshot other event_type other_type audit audit' payload payload' s t row same named
      h =
    let outcome = persist-Outcome snapshot event_type audit payload s t row h in
    (
      outcome,
      known_returns other other_type audit' payload' t row named (
          ap (λ p. find p t.working.snapshots) same
          ∙ outcome_found snapshot event_type row s t outcome),
    )
