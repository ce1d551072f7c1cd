-- ===== src/Workers/Exposures.antt =====
-- `upsert_exposure` (src/vulnops/workers/orchestration.py): one row per organisation, vulnerability,
-- context and component. The version of the matcher is a constant and is left out of the rows.
pub mod Keyed
pub mod Upsert
pub mod Table
use vulnops_hub.Prelude.{
  ℕ, String, Bool, true, false, ◌&&◌, Option, none, some, List, [], ◌∷◌, ◌++◌, find, update, str_eq,
  truthy, is_empty, if◌then◌else◌,
}
use vulnops_hub.Db.{Database, Priority, unlisted_priority, Exposure, MatchEvidence}
use vulnops_hub.Db.Classes.{
  MatchClass, confirmed, deterministic, not_affected, ExposureState, active_exposure,
  candidate_exposure, not_affected_exposure,
}
use vulnops_hub.Session.{Action, pure, gets, modify, utcnow, generated_id, ◌>>=◌, ◌>>◌}

-- The keyword arguments.
pub record Observation : Type 0 where
  pub organization_id : String
  pub vulnerability_id : String
  pub match_class : MatchClass
  pub confidence : ℕ
  pub detection_context : String
  pub component_occurrence_id : Option String
  pub asset_id : Option String
  pub matched_rules : List String
  pub evidence_refs : List String
  pub limitations : List String
  pub priority : Option Priority
  pub policy_version : Option String
  pub evidence_ref : Option String
  pub component_purl : Option String

-- `None` stands for itself only, by the two forms of the filter.
abbrev pub same_text : Option String → Option String → Bool
same_text none none = true
same_text (some a) (some b) = str_eq a b
same_text _ _ = false

-- What the query filters by.
pub record Key : Type 0 where
  pub organization_id : String
  pub vulnerability_id : String
  pub detection_context : String
  pub component_occurrence_id : Option String

abbrev pub key_of : Observation → Key
key_of o = record {
  organization_id = o.organization_id;
  vulnerability_id = o.vulnerability_id;
  detection_context = o.detection_context;
  component_occurrence_id = o.component_occurrence_id;
}

abbrev pub has_key : Key → Exposure → Bool
has_key k e =
    str_eq e.organization_id k.organization_id
    && str_eq e.vulnerability_id k.vulnerability_id
    && str_eq e.detection_context k.detection_context
    && same_text e.component_occurrence_id k.component_occurrence_id

-- `match_class in _CASE_CLASSES`
abbrev pub is_case_class : MatchClass → Bool
is_case_class confirmed = true
is_case_class deterministic = true
is_case_class _ = false

abbrev pub state_of : MatchClass → ExposureState
state_of not_affected = not_affected_exposure
state_of confirmed = active_exposure
state_of deterministic = active_exposure
state_of _ = candidate_exposure

-- `if kwargs.get("priority")`, and the other two
abbrev pub priority_or : Option Priority → Option Priority → Option Priority
priority_or none old = old
priority_or (some (unlisted_priority s)) old = if truthy s then some (unlisted_priority s) else old
priority_or (some p) old = some p

abbrev pub text_or : Option String → Option String → Option String
text_or none old = old
text_or (some s) old = if truthy s then some s else old

abbrev pub rules_or : List String → List String → List String
rules_or xs old = if is_empty xs then old else xs

unfoldable pub refreshed : ℕ → Observation → Exposure → Exposure
refreshed now o e = record e {
  last_observed_at = now;
  match_class = o.match_class;
  confidence = o.confidence;
  state = state_of o.match_class;
  matched_rules = rules_or o.matched_rules e.matched_rules;
  priority = priority_or o.priority e.priority;
  policy_version = text_or o.policy_version e.policy_version;
}

abbrev pub new_exposure : Observation → String → ℕ → Exposure
new_exposure o id now = record {
  id = id;
  organization_id = o.organization_id;
  asset_id = o.asset_id;
  component_occurrence_id = o.component_occurrence_id;
  vulnerability_id = o.vulnerability_id;
  detection_context = o.detection_context;
  match_class = o.match_class;
  confidence = o.confidence;
  priority = o.priority;
  policy_version = o.policy_version;
  state = state_of o.match_class;
  matched_rules = o.matched_rules;
  evidence_refs = o.evidence_refs;
  limitations = o.limitations;
  last_observed_at = now;
}

abbrev pub has_exposure_id : String → Exposure → Bool
has_exposure_id id e = str_eq e.id id

unfoldable pub update_exposure : String → (Exposure → Exposure) → Database → Database
update_exposure id f db = record db { exposures = update (has_exposure_id id) f db.exposures }

unfoldable pub add_exposure : Exposure → Database → Database
add_exposure row db = record db { exposures = db.exposures ++ row ∷ [] }

unfoldable pub add_match_evidence : MatchEvidence → Database → Database
add_match_evidence row db = record db { match_evidence = db.match_evidence ++ row ∷ [] }

-- The exposure of the call, and whether the call has created it.
unfoldable pub write_exposure : Observation → Option Exposure → Action (Exposure × Bool)
write_exposure o (some e) = do
  now ← utcnow
  modify (update_exposure e.id (refreshed now o))
  pure (refreshed now o e, false)
write_exposure o none = do
  id ← generated_id "exp_" 12
  now ← utcnow
  modify (add_exposure (new_exposure o id now))
  pure (new_exposure o id now, true)

abbrev pub supports : String → String → MatchEvidence → Bool
supports exposure_id ref m = str_eq m.exposure_id exposure_id && str_eq m.evidence_ref ref

unfoldable pub add_support :
    Observation → String → String → Option MatchEvidence → Action (Unit {0})
add_support o exposure_id ref (some seen) = pure tt
add_support o exposure_id ref none = do
  id ← generated_id "mev_" 12
  modify (
      add_match_evidence (record {
        id = id;
        exposure_id = exposure_id;
        component_purl = o.component_purl;
        vulnerability_id = o.vulnerability_id;
        evidence_ref = ref;
      }))

-- `if evidence_ref:`, for the reference and its truth value
unfoldable pub support_by : Bool → Observation → String → String → Action (Unit {0})
unfolding add_support
support_by false o exposure_id ref = pure tt
support_by true o exposure_id ref = do
  seen ← gets (λ s. find (supports exposure_id ref) s.working.match_evidence)
  add_support o exposure_id ref seen

abbrev pub support : Observation → String → Option String → Action (Unit {0})
support o exposure_id none = pure tt
support o exposure_id (some ref) = support_by (truthy ref) o exposure_id ref

unfoldable pub upsert_exposure : Observation → Action (Exposure × Bool)
unfolding write_exposure support_by
upsert_exposure o = do
  existing ← gets (λ s. find (has_key (key_of o)) s.working.exposures)
  written ← write_exposure o existing
  support o (written.0).id o.evidence_ref
  pure written
