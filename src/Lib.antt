-- ===== src/Lib.antt =====
-- VulnOps Hub: the remediation cases, the matching of components, the risk policy, the worker of
-- the outbox, and who may call them.
--
-- The program is a vulnerability-management service in Python. Components from inventories are
-- matched against advisories (matching), a match gets a priority (risk), and a case is opened and
-- worked on until its remediation is verified (cases). Every step of a case is written in one
-- transaction with a row of the audit trail and a row of an outbox. A worker drains the outbox
-- (workers): it turns the events of imported SBOMs and findings into exposures, by the matching and
-- the policy, and opens cases for the strong matches, which adds events to the outbox again.
--
-- Parts and files:
--   Prelude       the shared names, Boolean tests, tables as lists, Python's operations on texts
--   Db            the values and rows of the tables, by the columns that are read or written:
--                 src/vulnops/cases/models.py, db/models, assets/models.py, services/models.py and
--                 matching/models.py under src/vulnops
--   Session       a database session: what is committed, what the session sees, the clock, the
--                 identifiers and the settings; `add`, `commit`, `rollback` and the `try` blocks of
--                 the service as a monad. Session/Steps and Session/Keeps are its rules of proof
--   Cases         src/vulnops/cases. Workflow is models.py, sla.py and verification.py; Ownership is
--                 ownership.py; the others are service.py: Actor, Expiry and Load its helpers, Events
--                 the pairs of audit and outbox rows, Create `create_case`, Transition `transition`,
--                 Verify `verify`, Request `create_risk_decision`, Approve `approve_risk_decision`,
--                 Reopen `reopen_on_evidence` and `revoke_decision`, Expire `process_expirations`
--   Risk          src/vulnops/risk: Policy is policy.py, Simulation is simulation.py
--   Matching      src/vulnops/matching: Versioning is versioning.py, Identity and Service service.py
--   Workers       src/vulnops/workers/orchestration.py: Outbox is `claim_events`, `complete_event`,
--                 `fail_event`, `process_event` and `run_once`; Exposures is `upsert_exposure`;
--                 Advisories is the functions of the module on records and components; Cases is
--                 `_priority_for`, `_vex_status_for` and `_maybe_create_case`; Payload is how the
--                 handlers read a payload; Handlers/Sbom, Handlers/DefectDojo and Wazuh are the
--                 handlers, and Wazuh has the dispatch. Outbox/Emits, Emitting and Draining show
--                 that the handlers add follow-up rows only, on which the end of the drain rests
--   Assets        src/vulnops/assets/reconciliation.py is Reconciliation,
--                 src/vulnops/integrations/mapping.py is Mapping
--   Auth          src/vulnops/auth: Principals and the claims of Claims are models.py, the rest of
--                 Claims and Boundary are dependencies.py
--   Domain        src/vulnops/domain/provenance.py
--   Integrations  src/vulnops/integrations/wazuh_purl.py
--   The files Effect, Writing, Pending, Returns, Atomic, Loaded, Conflict, Decided, Once,
--   Revoke, Paths, Closing, Choice, Source, Bands, Scan, Decision, Emits, Counts, Batch, Drain, Claim, Failure,
--   Upsert, Keyed, Table, Enriched, Unbound, Lookup, Grants, Entry and Derived hold proofs, the files
--   Tests hold runs on concrete data.
--
-- How the code is read:
--   A call of `CaseService` is a function from a session to a result and a session. A call that
--   writes is cut into a part that reads and checks (`prepare`) and its `try` block (`write`), so
--   that two callers which have read the same row can be put in any order. A commit makes the rows of
--   the session durable; which commits fail is a list in the session, and a failed commit discards
--   what was pending. A text column with known values is a data type with a constructor for any
--   other text. A time is a number of seconds since `datetime.min` and a `datetime` carries its
--   zone, whose operations may raise. The identifiers are what the world answers; nothing is assumed
--   of them but what a theorem says. The scores of the policy are floats in the source and exact
--   multiples of 1/100000 of a point here; confidences of the matching count hundredths.
--   `packaging.version` is a record of operations that Matching/Versioning takes as a parameter.
--   All recursion is structural, but for the loop of `run_once`, which runs on fuel: a handler adds
--   rows, so no bound is known beforehand, and a theorem gives a fuel that is enough for any session.
--   The lookups of the worker (OSV, KEV, EPSS, VEX) are a record of functions of the session; one
--   that is not configured is `none`, and one that raises answers an error. A KEV source is asked
--   with a session. The outbox stands in the order of its creation times.
--
-- Not modelled: the columns that the database fills in by itself (creation times, and `updated_at`
-- where the code does not set it), case folding and lower case beyond ASCII, the wording of error
-- messages and explanations, fractions of a second, the default time of `process_expirations`,
-- which is given a time in UTC, the queries `list_cases`, `list_risk_decisions` and
-- `list_verifications`; row locks, the cache of advisories and the refresh of the KEV catalogue
-- that the worker keeps on sessions of their own, its endless loop, the version of the matcher, which
-- is a constant; the HTTP interface, the verification of tokens, migrations, the polling workers,
-- intelligence adapters, SBOM import, the bridges of integrations and object storage, and the user
-- interface.
pub mod Prelude
pub mod Db
pub mod Session
pub mod Cases
pub mod Risk
pub mod Matching
pub mod Workers
pub mod Assets
pub mod Auth
pub mod Domain
pub mod Integrations
