-- ===== src/Cases/Tests/Owners.antt =====
-- Owners, creations and coverage of concrete cases (src/vulnops/cases).
use vulnops_hub.Prelude.{
  true, false, none, some, [], ◌∷◌, ◌≡◌, ◌↔◌, refl, all, lower, strip, upper, sorted_set,
}
use vulnops_hub.Db.{
  new, triage, assigned, in_progress, awaiting_verification, closed, p1, wazuh_inventory, Coverage,
  RemediationCase,
}
use vulnops_hub.Session.{Session, ok, err, value_error, conflicting_owners, run}
use vulnops_hub.Session.Steps.{returned}
use vulnops_hub.Cases.Workflow.{is_allowed, evaluate_coverage}
use vulnops_hub.Cases.Workflow.Paths.{Walk, Passes, stay, step, closed_after_verification}
use vulnops_hub.Cases.Workflow.Closing.{Proves, evaluate_coverage-Proves}
use vulnops_hub.Cases.Ownership.{
  ResolvedOwner, is_default, default, default_team, default_owner_team, resolve_case_owner,
  resolve_asset, resolve_service, linked_assets, conflicting, choose_owner,
}
use vulnops_hub.Cases.Ownership.Choice.{choose_owner-conflict, choose_owner-default}
use vulnops_hub.Cases.Create.{
  Request, owner_of, case_key, audit_escalation, write, refresh, create_case, new_case,
}
use vulnops_hub.Cases.Create.Effect.{Creates, create_case-Creates}
use vulnops_hub.Cases.Create.Returns.{create_case-returns}
use vulnops_hub.Cases.Tests.Rows.{start}

abbrev unowned : ResolvedOwner
unowned = record { owner_team = "Triage"; source = default }

choose_owner-conflict_example :
    (choose_owner "Triage" none (unowned ∷ []) ≡ err (value_error conflicting_owners))
    ↔ (conflicting (unowned ∷ []) ≡ true)
choose_owner-conflict_example = choose_owner-conflict "Triage" none (unowned ∷ [])

unowned_chosen : choose_owner "Triage" none (unowned ∷ []) ≡ ok unowned
unfolding choose_owner strip lower
unowned_chosen = refl

choose_owner-default_example :
    (all (λ x. is_default x.source) (unowned ∷ []) ≡ true) × (unowned.owner_team ≡ "Triage")
choose_owner-default_example =
    choose_owner-default "Triage" none (unowned ∷ []) unowned unowned_chosen refl

abbrev request : Request
request = record {
  organization_id = "org";
  title = "upgrade openssl";
  owner_team = none;
  priority = p1;
  exposures = "exp_c" ∷ [];
  policy_version = none;
  assignee = none;
  asset_id = none;
}

abbrev created : RemediationCase
created = new_case request unowned "case_0123456789ab" "CASE-01234567" 1000

creation_returns : (create_case request start).0 ≡ ok created
unfolding create_case owner_of case_key audit_escalation write refresh run default_team
    default_owner_team resolve_case_owner resolve_asset resolve_service linked_assets choose_owner
    strip lower upper sorted_set
creation_returns = refl

create_case-Creates_example : Creates request start (create_case request start).1 created
create_case-Creates_example =
    create_case-Creates request start (create_case request start).1 created refl
      (returned (create_case request start) created creation_returns)

-- an inventory that does not say how old it is
abbrev undated : Coverage
undated = record {
  status = some "complete";
  scope_version = none;
  scope = none;
  freshness_seconds = none;
  other_keys = false;
}

evaluate_coverage-Proves_example :
    ((evaluate_coverage wazuh_inventory (some undated)).0 ≡ true)
    ↔ Proves wazuh_inventory (some undated)
evaluate_coverage-Proves_example = evaluate_coverage-Proves wazuh_inventory (some undated)

walk_to_closed : Walk new closed
unfolding is_allowed
walk_to_closed =
    step new awaiting_verification closed
      (step new in_progress awaiting_verification
        (step new assigned in_progress
          (step new triage assigned (step new new triage (stay new) refl) refl) refl)
        refl)
      refl

closed_after_verification_example : Passes awaiting_verification walk_to_closed
closed_after_verification_example = closed_after_verification walk_to_closed

owner_found : owner_of request start ≡ ok unowned
unfolding owner_of default_team default_owner_team resolve_case_owner resolve_asset resolve_service
    linked_assets choose_owner strip lower sorted_set
owner_found = refl

create_case-returns_example :
    (c : RemediationCase) × (t : Session) × (create_case request start ≡ (ok c, t))
create_case-returns_example = create_case-returns request start unowned owner_found refl refl
