-- ===== src/Ztwim/Upgrade.antt =====
-- The OperatorCondition that tells OLM whether the operator may be upgraded: `findOperatorCondition`
-- and `updateOperatorCondition`.
pub mod Safety
use ocp_spire_operator.Prelude.{
  ℕ, Bool, true, false, ◌||◌, ◌&&◌, String, List, [], ◌∷◌, Option, none, some, ◌==◌, not,
  if◌then◌else◌,
}
use ocp_spire_operator.Prelude.Int.{ℤ}
use ocp_spire_operator.Prelude.Text.{print_list}
use ocp_spire_operator.Kube.{
  ConditionStatus, condition_true, condition_false, MetaCondition, Error, text_error, wrapped_error,
  error_text, ApiErrors, ConditionsApi,
}
use ocp_spire_operator.Status.{reason_ready}
use ocp_spire_operator.Status.Health.{Got, got, get_failed}
use ocp_spire_operator.Ztwim.Operand.{OperandStatus, string_to_bool, cr_not_found}
use Prim.Native.String.{◌++◌}

abbrev upgradeable : String
upgradeable = "Upgradeable"

abbrev reason_operands_not_ready : String
reason_operands_not_ready = "OperandsNotReady"

-- operators.coreos.com OperatorCondition, as far as it is read and written.
pub record OperatorCondition : Type 0 where
  pub generation : ℤ
  pub conditions : List MetaCondition

-- A pointer and an error; the source returns one of them as nil.
pub data Found : Type 0 where
  found : Option OperatorCondition → Found
  find_failed : Error → Found

-- `name` is the reconciler's `operatorConditionName`, and `get` what the API server returns for it.
unfoldable pub find_operator_condition : ApiErrors → String → Got OperatorCondition → Found
find_operator_condition errors name (got oc) =
    if name == "" then find_failed (text_error "OperatorCondition not found") else found (some oc)
find_operator_condition errors name (get_failed e) =
    if name == ""
    then find_failed (text_error "OperatorCondition not found")
    else if not (errors.is_not_found e)
    then find_failed
        (wrapped_error ("failed to get OperatorCondition " ++ (name ++ (": " ++ error_text e))) e)
    else find_failed (text_error "OperatorCondition not found")

unfoldable pub not_ready_operands : List OperandStatus → List String
not_ready_operands [] = []
not_ready_operands (o ∷ os) =
    let rest = not_ready_operands os in
    if not (string_to_bool o.ready) && not (o.message == cr_not_found) then o.kind ∷ rest else rest

-- The three variables that the branches of `updateOperatorCondition` set.
pub record Verdict : Type 0 where
  pub status : ConditionStatus
  pub reason : String
  pub message : String

abbrev is_upgradeable : Verdict
is_upgradeable = record {
  status = condition_true;
  reason = reason_ready;
  message = "Operator is Upgradeable";
}

abbrev pub verdict_of : List String → Verdict
verdict_of [] = is_upgradeable
verdict_of (k ∷ ks) = record {
  status = condition_false;
  reason = reason_operands_not_ready;
  message = "Not safe to upgrade - existing operands are not ready: " ++ print_list (k ∷ ks);
}

unfoldable pub upgrade_verdict : Bool → List OperandStatus → Verdict
upgrade_verdict create_only operands =
    if create_only
    then record {
      status = condition_false;
      reason = reason_operands_not_ready;
      message = "Not safe to upgrade - create-only mode is enabled on one or more operands";
    }
    else verdict_of (not_ready_operands operands)

abbrev upgrade_condition : ℕ → OperatorCondition → Verdict → MetaCondition
upgrade_condition now oc v = record {
  type = upgradeable;
  status = v.status;
  observed_generation = oc.generation;
  last_transition_time = now;
  reason = v.reason;
  message = v.message;
}

abbrev update_error : Option Error → Option Error
update_error none = none
update_error (some e) =
    some (wrapped_error ("failed to update OperatorCondition status: " ++ error_text e) e)

module _ {W : Type 0} (api : ConditionsApi)
    (status_update : OperatorCondition → W → Option Error × W) where
  -- `updateOperatorCondition`, given what `findOperatorCondition` returned.
  unfoldable pub update_operator_condition :
      ℕ → Found → Bool → List OperandStatus → W → Option Error × W
  update_operator_condition now (find_failed e) create_only operands w =
      (some (wrapped_error ("failed to find OperatorCondition: " ++ error_text e) e), w)
  update_operator_condition now (found none) create_only operands w = (none, w)
  update_operator_condition now (found (some oc)) create_only operands w =
      let c = upgrade_condition now oc (upgrade_verdict create_only operands) in
      let (e, w') = status_update (record oc { conditions = api.set oc.conditions c }) w in
      (update_error e, w')
