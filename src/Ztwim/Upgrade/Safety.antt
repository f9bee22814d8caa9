-- ===== src/Ztwim/Upgrade/Safety.antt =====
-- When the operator says that it may be upgraded.
use ocp_spire_operator.Prelude.{
  ◌≡◌, ◌≢◌, ◌⊎◌, ◌↔◌, refl, Bool, true, false, String, List, [], ◌∷◌, none, arith, eq_iff, All,
}
use ocp_spire_operator.Kube.{condition_true, ApiErrors}
use ocp_spire_operator.Status.Health.{Got, got, get_failed}
use ocp_spire_operator.Ztwim.Operand.{OperandStatus, cr_not_found}
use ocp_spire_operator.Ztwim.Upgrade.{
  OperatorCondition, found, find_operator_condition, not_ready_operands, verdict_of,
  upgrade_verdict,
}

-- An operand that is ready, or whose custom resource does not exist.
abbrev AllowsUpgrade : OperandStatus → Type 0
AllowsUpgrade o = (o.ready ≡ "true") ⊎ (o.message ≡ cr_not_found)

not_ready_operands_iff :
    (os : List OperandStatus) → (not_ready_operands os ≡ []) ↔ All AllowsUpgrade os
unfolding not_ready_operands
not_ready_operands_iff [] = (λ _. tt, λ _. refl)
not_ready_operands_iff (o ∷ os) = ground (
  arith,
  eq_iff o.ready "true",
  eq_iff o.message cr_not_found,
  (not_ready_operands_iff os).0,
  (not_ready_operands_iff os).1,
)

verdict_of_iff : (ks : List String) → ((verdict_of ks).status ≡ condition_true) ↔ (ks ≡ [])
verdict_of_iff [] = (λ _. refl, λ _. refl)
verdict_of_iff (k ∷ ks) = (λ h. cc, λ h. cc)

-- Upgradeable is True exactly when create-only mode is off and every operand is ready or has no custom
-- resource.
pub upgrade_verdict_iff :
    (create_only : Bool) (os : List OperandStatus)
    → ((upgrade_verdict create_only os).status ≡ condition_true)
      ↔ ((create_only ≡ false) × All AllowsUpgrade os)
unfolding upgrade_verdict
upgrade_verdict_iff true os = (λ h. cc, λ h. cc h.0)
upgrade_verdict_iff false os =
    let a = verdict_of_iff (not_ready_operands os) in
    let b = not_ready_operands_iff os in (λ h. (refl, b.0 (a.0 h)), λ h. a.1 (b.1 h.1))

-- `find_operator_condition` never returns a nil pointer without an error, so that the branch of
-- `update_operator_condition` which skips the update silently is never taken.
pub find_operator_condition-ne-nil :
    (errors : ApiErrors) (name : String) (g : Got OperatorCondition)
    → find_operator_condition errors name g ≢ found none
unfolding find_operator_condition
find_operator_condition-ne-nil errors name (got oc) h = ground arith
find_operator_condition-ne-nil errors name (get_failed e) h = ground arith
