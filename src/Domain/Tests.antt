-- ===== src/Domain/Tests.antt =====
-- A concrete record of evidence (src/vulnops/domain/provenance.py).
use vulnops_hub.Prelude.{none, some, [], ◌≡◌, refl}
use vulnops_hub.Db.{SourceSnapshot}
use vulnops_hub.Session.{Session, ok, run}
use vulnops_hub.Cases.Tests.Rows.{start}
use vulnops_hub.Domain.Provenance.{
  add_snapshot, add_optional_audit, write_snapshot, persist_new, persist_snapshot_with_event,
}
use vulnops_hub.Domain.Once.{Outcome, persist_once}

abbrev snapshot : SourceSnapshot
snapshot = record {
  id = "snap_1";
  source = "wazuh";
  source_record_id = "001:CVE-2026-1";
  content_sha256 = "ab12";
  object_uri = "wazuh://agent/001";
  correlation_id = some "corr";
}

abbrev relisted : SourceSnapshot
relisted = record snapshot { id = "snap_2"; correlation_id = none }

persisted :
    (t : Session) × (persist_snapshot_with_event snapshot "evidence.ingested" none [] start
      ≡ (ok snapshot, t))
unfolding persist_snapshot_with_event persist_new write_snapshot add_snapshot add_optional_audit run
persisted = (_, refl)

persist_once_example :
    Outcome snapshot "evidence.ingested" snapshot start persisted.0
    × (persist_snapshot_with_event relisted "evidence.ingested" none [] persisted.0
        ≡ (ok snapshot, persisted.0))
persist_once_example =
    persist_once snapshot relisted "evidence.ingested" "evidence.ingested" none none [] [] start
      persisted.0 snapshot refl refl persisted.1
