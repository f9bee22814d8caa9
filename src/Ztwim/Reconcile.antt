-- ===== src/Ztwim/Reconcile.antt =====
-- `Reconcile` of the aggregating controller, with the status that it publishes at the start and, by its
-- deferred call, at the end. Logging is left out: errors that the source only logs are dropped.
pub mod Persists
use ocp_spire_operator.Prelude.{
  ℕ, Bool, true, false, String, List, [], Option, none, some, if◌then◌else◌,
}
use ocp_spire_operator.Kube.{
  condition_true, condition_false, is_true, MetaCondition, Error, ApiErrors, ConditionsApi,
}
use ocp_spire_operator.Env.{is_in_create_only_mode}
use ocp_spire_operator.Status.{
  Manager, new_manager, add_condition, create_only_mode, Applied, Ranges, StatusUpdate,
  apply_status, set_initial_reconciliation_status,
}
use ocp_spire_operator.Status.Health.{Got, got, get_failed}
use ocp_spire_operator.Ztwim.Operand.{OperandStatus, is_condition_true}
use ocp_spire_operator.Ztwim.Aggregate.{
  AggregateResult, Reads, add_operand_conditions, aggregate_operand_status,
}
use ocp_spire_operator.Ztwim.Upgrade.{
  OperatorCondition, find_operator_condition, update_operator_condition,
}

-- The status of the ZTWIM resource.
pub record ZtwimStatus : Type 0 where
  pub operands : List OperandStatus
  pub conditions : List MetaCondition

-- The API server, as this controller calls it; `W` is the state of the cluster.
pub record Client (W : Type 0) : Type 0 where
  pub get_ztwim : W → Got ZtwimStatus
  pub get_operands : W → Reads
  pub get_operator_condition : W → Got OperatorCondition
  pub update_ztwim_status : List OperandStatus → StatusUpdate W
  pub update_operator_condition_status : OperatorCondition → W → Option Error × W

-- The clock's readings in the three steps that stamp conditions.
pub record Clock : Type 0 where
  pub initial : String → ℕ
  pub operator : ℕ
  pub final : String → ℕ

unfoldable pub set_create_only_mode_condition : Bool → Option MetaCondition → Manager → Manager
set_create_only_mode_condition create_only existing m =
    if create_only
    then add_condition create_only_mode "CreateOnlyModeEnabled"
        "Create-only mode is enabled: Updates are not reconciled to existing resources"
        condition_true m
    else if is_condition_true existing
    then add_condition create_only_mode "CreateOnlyModeDisabled" "Create-only mode is disabled"
        condition_false m
    else m

-- What happens where the ZTWIM resource exists.
pub record Run (W : Type 0) : Type 0 where
  pub started : Applied W
  pub result : AggregateResult
  pub manager : Manager
  pub before_final : W
  pub finished : Applied W

module _ {W : Type 0} (errors : ApiErrors) (api : ConditionsApi) (r : Ranges) (client : Client W)
    (clock : Clock) (create_only_env operator_condition_name : String) where
  abbrev sync_operator_condition : List OperandStatus → W → W
  sync_operator_condition operands w =
      (update_operator_condition api client.update_operator_condition_status clock.operator
        (find_operator_condition errors operator_condition_name (client.get_operator_condition w))
        (is_in_create_only_mode create_only_env) operands w).1

  unfoldable pub run : ZtwimStatus → W → Run W
  run config w =
      let started =
        set_initial_reconciliation_status api r (client.update_ztwim_status config.operands)
          clock.initial "ZeroTrustWorkloadIdentityManager" config.conditions w in
      let result = aggregate_operand_status errors api (client.get_operands started.cluster) in
      let manager =
        set_create_only_mode_condition (is_in_create_only_mode create_only_env)
          (api.find started.conditions create_only_mode)
          (add_operand_conditions api result new_manager) in
      let w' = sync_operator_condition result.operand_statuses started.cluster in
      record {
        started = started;
        result = result;
        manager = manager;
        before_final = w';
        finished =
            apply_status api r (client.update_ztwim_status result.operand_statuses) clock.final
              manager started.conditions w';
      }

  -- The error that is returned, and the cluster afterwards.
  unfoldable pub reconcile : W → Option Error × W
  reconcile w = elim (client.get_ztwim w) [
    | get_failed e ↦
        if errors.is_not_found e then (none, sync_operator_condition [] w) else (some e, w)
    | got config ↦ (none, (run config w).finished.cluster)
  ]
