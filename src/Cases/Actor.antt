-- ===== src/Cases/Actor.antt =====
-- Who acts, and what audit and outbox rows say of it (the helpers `_actor_audit_fields`,
-- `_approval_role` and `_trace_payload` of src/vulnops/cases/service.py).
use vulnops_hub.Prelude.{
  String, Bool, true, false, not, Option, none, some, List, [], ◌∷◌, map, find, mem_text, strip,
  lower, sorted_set,
}
use vulnops_hub.Db.{Provenance, unlisted_provenance, Json, text, texts, optional_text}
use vulnops_hub.Session.{Action, pure, raise_if, bad_provenance, uuid4, ◌>>◌}

-- The keyword arguments by which a call says who acts.
pub record ActorContext : Type 0 where
  pub provenance : Provenance
  pub principal_type : Option String
  pub roles : List String
  pub scopes : List String
  pub request_id : Option String
  pub correlation_id : Option String

-- What `_actor_audit_fields` returns.
pub record ActorFields : Type 0 where
  pub provenance : Provenance
  pub principal_type : Option String
  pub roles : List String
  pub scopes : List String

abbrev pub is_known : Provenance → Bool
is_known (unlisted_provenance _) = false
is_known _ = true

unfoldable pub actor_audit_fields : ActorContext → Action ActorFields
actor_audit_fields c = do
  raise_if (not (is_known c.provenance)) bad_provenance
  pure (record {
    provenance = c.provenance;
    principal_type = c.principal_type;
    roles = sorted_set c.roles;
    scopes = sorted_set c.scopes;
  })

abbrev approver_role_order : List String
approver_role_order = "risk_approver" ∷ "security_lead" ∷ "policy_admin" ∷ "admin" ∷ []

-- `{item.strip().lower() for item in items}`, as the list that it is made from
abbrev normalized : List String → List String
normalized items = map (λ item. lower (strip item)) items

unfoldable pub approval_role : List String → Option String
approval_role roles = find (λ role. mem_text role (normalized roles)) approver_role_order

-- `"risk:approve" in capabilities`
unfoldable pub can_approve : List String → Bool
can_approve capabilities = mem_text "risk:approve" (normalized capabilities)

-- `correlation_id or str(uuid.uuid4())`
unfoldable pub correlation_or_new : Option String → Action String
unfolding pure
correlation_or_new none = uuid4
correlation_or_new (some String.[]) = uuid4
correlation_or_new (some (String.◌∷◌ c s)) = pure (String.◌∷◌ c s)

unfoldable pub trace_payload :
    ActorFields → String → String → Option String → String → List (String × Json)
trace_payload fields actor organization_id request_id correlation_id =
    ("actor", text actor)
    ∷ ("actor_subject", text actor)
    ∷ ("organization_id", text organization_id)
    ∷ ("request_id", optional_text request_id)
    ∷ ("correlation_id", text correlation_id)
    ∷ ("principal_type", optional_text fields.principal_type)
    ∷ ("roles", texts fields.roles)
    ∷ ("scopes", texts fields.scopes)
    ∷ ("actor_principal_type", optional_text fields.principal_type)
    ∷ ("actor_roles", texts fields.roles)
    ∷ ("actor_scopes", texts fields.scopes)
    ∷ []
