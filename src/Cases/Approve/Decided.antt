-- ===== src/Cases/Approve/Decided.antt =====
-- The row of a decision and of its case once it is decided (`CaseService.approve_risk_decision` of
-- src/vulnops/cases/service.py).
use vulnops_hub.Prelude.{
  ◌+◌, String, some, List, find, update, find-update_self, find_passes, eq_iff, ◌≡◌, refl, ap, ◌∙◌,
}
use vulnops_hub.Db.{DecisionStatus, approved, rejected, RiskDecision, RemediationCase}
use vulnops_hub.Session.{has_case_id}
use vulnops_hub.Cases.Approve.{
  Approval, Outcome, approves, rejects, Plan, decided_row, approved_case, target_state,
}
use vulnops_hub.Cases.Approve.Effect.{CasesAfter}

-- The status of a decision, by the outcome that was named.
abbrev pub Resolves : Outcome → DecisionStatus → Type 0
Resolves approves status = status ≡ approved
Resolves rejects status = status ≡ rejected

-- A request once it is decided: who has decided it, and nothing else changed but its times.
pub record IsDecided (a : Approval) (outcome : Outcome) (before after : RiskDecision) : Type 0 where
  pub resolved : Resolves outcome after.status
  pub by_actor : after.approver ≡ some a.actor
  pub principal : after.approver_principal_type ≡ some a.principal_type
  pub provenance : after.approver_provenance ≡ some a.context.provenance
  pub kept :
      record after {
        status = before.status;
        approver = before.approver;
        approver_role = before.approver_role;
        approver_provenance = before.approver_provenance;
        approver_principal_type = before.approver_principal_type;
        decided_at = before.decided_at;
        updated_at = before.updated_at;
      }
      ≡ before

Resolves-next :
    (a : Approval) (p : Plan) (o : Outcome) (row : RiskDecision)
    → p.outcome ≡ o
    → Resolves o (decided_row a p row).status
Resolves-next a p approves row h = rw h refl
Resolves-next a p rejects row h = rw h refl

pub decided_row-IsDecided :
    (a : Approval) (p : Plan) (row : RiskDecision) → IsDecided a p.outcome row (decided_row a p row)
decided_row-IsDecided a p row = record {
  resolved = Resolves-next a p p.outcome row refl;
  by_actor = refl;
  principal = refl;
  provenance = refl;
  kept = refl;
}

-- A case once its decision is approved: at the status of the decision, one version on, and
-- otherwise as before but for its time of update.
pub record IsMoved (p : Plan) (after : RemediationCase) : Type 0 where
  pub at_target : after.status ≡ target_state p.decision.type
  pub counted : after.version ≡ p.loaded.version + 1
  pub kept :
      record after {
        status = p.loaded.status;
        version = p.loaded.version;
        updated_at = p.loaded.updated_at;
      }
      ≡ p.loaded

-- The case of a decision after the call: moved by an approval, as before after a rejection.
abbrev pub CaseAfter : Outcome → Plan → String → List RemediationCase → Type 0
CaseAfter rejects p id cases = find (has_case_id id) cases ≡ some p.loaded
CaseAfter approves p id cases =
    (after : RemediationCase) × (find (has_case_id id) cases ≡ some after) × IsMoved p after

pub CasesAfter-CaseAfter :
    (o : Outcome) (p : Plan) (id : String) (before after : List RemediationCase)
    → find (has_case_id id) before ≡ some p.loaded
    → CasesAfter o p before after
    → CaseAfter o p id after
CasesAfter-CaseAfter rejects p id before after loaded same =
    ap (find (has_case_id id)) same ∙ loaded
CasesAfter-CaseAfter approves p id before after loaded (_, moved) =
    let own = (eq_iff p.loaded.id id).0 (find_passes (has_case_id id) before loaded) in
    (
      approved_case p p.loaded,
      ap (find (has_case_id id)) moved
          ∙ (ap (λ i. find (has_case_id id) (update (has_case_id i) (approved_case p) before)) own
              ∙ find-update_self (has_case_id id) (approved_case p) before (λ x. refl) loaded),
      record { at_target = refl; counted = refl; kept = refl },
    )
