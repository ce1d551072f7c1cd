-- ===== src/Workers/Advisories.antt =====
-- The records of the OSV lookup, and the advisories and components that the matching takes
-- (the module's functions of src/vulnops/workers/orchestration.py). The case of a text is that of
-- ASCII.
use vulnops_hub.Prelude.{
  ℕ, String, Bool, ◌||◌, Option, none, some, List, [], ◌∷◌, ◌++◌, any, find, str_eq, upper, lower,
  before, starts_with, drop_chars, is_empty, if◌then◌else◌,
}
use vulnops_hub.Db.{ComponentOccurrence}
use vulnops_hub.Matching.Versioning.{given}
use vulnops_hub.Matching.Identity.{Component}
use vulnops_hub.Matching.Service.{Advisory, Affected, RangeEvent}

-- An entry of `AdvisoryRecord.affected_ranges`; a missing key reads as `None`.
pub record AffectedRange : Type 0 where
  pub introduced : Option String
  pub fixed : Option String
  pub ecosystem : Option String
  pub purl : Option String

-- An `AdvisoryRecord`; `query_index` stands in its `retrieval_metadata`.
pub record AdvisoryRecord : Type 0 where
  pub vulnerability_id : String
  pub aliases : List String
  pub affected_ranges : List AffectedRange
  pub query_index : Option ℕ

abbrev introduced_event : Option String → List RangeEvent
introduced_event v =
    if given v then record { introduced = some v; fixed = none; last_affected = none } ∷ [] else []

abbrev fixed_event : Option String → List RangeEvent
fixed_event v =
    if given v then record { introduced = none; fixed = some v; last_affected = none } ∷ [] else []

unfoldable pub events_of : AffectedRange → List RangeEvent
events_of rng = introduced_event rng.introduced ++ fixed_event rng.fixed

abbrev entry_of : AffectedRange → Affected
entry_of rng = record {
  pkg = record { purl = rng.purl; name = none; ecosystem = rng.ecosystem };
  ranges = events_of rng ∷ [];
  versions = [];
}

-- `if not events: continue`
unfoldable pub affected_of : List AffectedRange → List Affected
unfolding events_of
affected_of [] = []
affected_of (rng ∷ rest) =
    if is_empty (events_of rng) then affected_of rest else entry_of rng ∷ affected_of rest

-- `_advisory_from_record`
unfoldable pub advisory_from_record : AdvisoryRecord → Advisory
unfolding affected_of
advisory_from_record r = record {
  id = some r.vulnerability_id;
  vulnerability_id = none;
  affected = affected_of r.affected_ranges;
}

-- `{"id": cve, "affected": []}`
abbrev pub bare_advisory : String → Advisory
bare_advisory cve = record { id = some cve; vulnerability_id = none; affected = [] }

-- `advisory["id"] = advisory.get("id") or cve`
abbrev pub with_id : String → Advisory → Advisory
with_id cve adv = record adv { id = if given adv.id then adv.id else some cve }

-- `_osv_record_matches_cve`
unfoldable pub osv_record_matches_cve : AdvisoryRecord → String → Bool
osv_record_matches_cve r cve =
    str_eq (upper r.vulnerability_id) (upper cve)
    || any (λ alias. str_eq (upper alias) (upper cve)) r.aliases

-- `_select_osv_record_for_cve`
unfoldable pub select_osv_record_for_cve : List AdvisoryRecord → String → Option AdvisoryRecord
unfolding osv_record_matches_cve
select_osv_record_for_cve records cve = find (λ r. osv_record_matches_cve r cve) records

-- `_component_from_occurrence`
abbrev pub component_from_occurrence : ComponentOccurrence → Component
component_from_occurrence o = record {
  raw_name = o.raw_name;
  raw_version = o.raw_version;
  purl = o.purl;
  ecosystem = o.ecosystem;
  normalized_name = o.normalized_name;
  cpe = o.cpe;
}

-- `purl[4:].split("/")[0].lower()`, where the text has the prefix
unfoldable pub purl_ecosystem : Option String → Option String
purl_ecosystem none = none
purl_ecosystem (some p) =
    if starts_with "pkg:" p then some (lower (before b'/' (drop_chars 4 p))) else none

-- `_component_from_fields`
unfoldable pub component_from_fields : String → Option String → Option String → Component
unfolding purl_ecosystem
component_from_fields raw_name raw_version purl = record {
  raw_name = raw_name;
  raw_version = raw_version;
  purl = purl;
  ecosystem = purl_ecosystem purl;
  normalized_name = some raw_name;
  cpe = none;
}
