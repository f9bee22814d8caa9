-- ===== src/Examples/Conditions.antt =====
-- Runs of the status manager, of the aggregation of the operands and of the steps on one object.
use ocp_spire_operator.Prelude.{
  ℕ, false, String, List, [], ◌∷◌, none, some, ◌==◌, arith, ◌≡◌, ◌≢◌, ◌↔◌, refl, inl, eq_iff,
}
use ocp_spire_operator.Prelude.Int.{pos}
use ocp_spire_operator.Prelude.Dict.{lookup, insert}
use ocp_spire_operator.Kube.{condition_true, condition_false, MetaCondition}
use ocp_spire_operator.Status.{
  Condition, Manager, new_manager, ready, add_condition, set_ready_condition, scan_conditions,
  scan_condition, StatusUpdate, apply_status,
}
use ocp_spire_operator.Status.Ready.{ready_condition}
use ocp_spire_operator.Status.Verdict.{IsVerdict, IsOperational, set_ready_condition-IsVerdict}
use ocp_spire_operator.Status.Publish.{
  IsKeyed, new_manager-IsKeyed, add_condition-IsKeyed, published, find-apply_status,
}
use ocp_spire_operator.Status.Health.{
  StatefulSet, got, get_failed, is_stateful_set_healthy, check_stateful_set_health,
}
use ocp_spire_operator.Status.Health.Conditions.{Reports, check_stateful_set_health-Reports}
use ocp_spire_operator.Ztwim.Operand.{
  OperandStatus, get_operand_status, classify_operand_state, extract_key_conditions, other_failed,
  classify_reason, classify_message,
}
use ocp_spire_operator.Ztwim.Operand.Laws.{IsWellReported, state_of, classify-get_operand_status}
use ocp_spire_operator.Ztwim.Aggregate.{
  Reads, process_operands, process_operand_status, pending_operands, classification,
  add_operand_conditions, aggregate_operand_status,
}
use ocp_spire_operator.Ztwim.Aggregate.Verdict.{AllUp, ready-aggregate_operand_status}
use ocp_spire_operator.Ztwim.Reconcile.{Client, Clock, reconcile, run}
use ocp_spire_operator.Ztwim.Reconcile.Persists.{reconcile_persists_operands}
use ocp_spire_operator.Examples.Api.{
  list_api, find_condition, list_api-IsConditionsApi, distinct, in_order, in_order-IsRanges,
  api_errors, not_found,
}

abbrev collected : Manager
collected =
    add_condition "ServiceAvailable" "Failed" "no service" condition_false
      (add_condition "StatefulSetAvailable" "StatefulSetNotReady" "0/1" condition_false new_manager)

set_ready_condition-IsVerdict_example :
    IsVerdict collected (ready_condition "Failed" condition_false "ServiceAvailable: no service")
unfolding add_condition insert distinct set_ready_condition lookup scan_conditions scan_condition
set_ready_condition-IsVerdict_example =
    set_ready_condition-IsVerdict {visited = distinct collected.conditions} {m = collected}
      (in_order-IsRanges.scan_range collected.conditions)
      (ready_condition "Failed" condition_false "ServiceAvailable: no service") refl

collected-IsKeyed : IsKeyed collected.conditions
collected-IsKeyed =
    add_condition-IsKeyed "ServiceAvailable" "Failed" "no service" condition_false
      (add_condition "StatefulSetAvailable" "StatefulSetNotReady" "0/1" condition_false new_manager)
      (add_condition-IsKeyed "StatefulSetAvailable" "StatefulSetNotReady" "0/1" condition_false
        new_manager new_manager-IsKeyed)

abbrev at_five : String → ℕ
at_five t = 5

-- The cluster holds the conditions of the object.
abbrev store_conditions : StatusUpdate (List MetaCondition)
store_conditions cs w = (none, cs)

find-apply_status_example :
    let applied = apply_status list_api in_order store_conditions at_five collected [] [] in
    list_api.find applied.conditions "ServiceAvailable"
    ≡ published at_five
        (lookup "ServiceAvailable" applied.manager.conditions)
        (list_api.find [] "ServiceAvailable")
find-apply_status_example =
    find-apply_status list_api list_api-IsConditionsApi in_order in_order-IsRanges store_conditions
      at_five collected [] [] "ServiceAvailable" collected-IsKeyed

abbrev sts : StatefulSet
sts = record {
  generation = pos 2;
  replicas = some (pos 3);
  ready_replicas = pos 1;
  updated_replicas = pos 3;
  observed_generation = pos 2;
}

differ : (a b : String) → (a == b) ≡ false → a ≢ b
differ a b h k = ground (arith, eq_iff a b, h, k)

stateful_set-IsOperational : IsOperational "StatefulSetAvailable"
stateful_set-IsOperational = (
  differ "StatefulSetAvailable" "Ready" refl,
  differ "StatefulSetAvailable" "Degraded" refl,
  differ "StatefulSetAvailable" "CreateOnlyMode" refl,
)

check_stateful_set_health-Reports_example :
    (c : Condition) × (lookup "StatefulSetAvailable"
        (check_stateful_set_health
          (got sts)
          "spire-server"
          "ztwim"
          "StatefulSetAvailable"
          new_manager).conditions
      ≡ some c)
    × Reports is_stateful_set_healthy (got sts) "StatefulSetAvailable" c
check_stateful_set_health-Reports_example =
    check_stateful_set_health-Reports (got sts) "spire-server" "ztwim" "StatefulSetAvailable"
      new_manager stateful_set-IsOperational

abbrev up : MetaCondition
up = record {
  type = ready;
  status = condition_true;
  observed_generation = pos 0;
  last_transition_time = 1;
  reason = "Ready";
  message = "All components are ready";
}

abbrev reads : Reads
reads = record {
  spire_server = got (up ∷ []);
  spire_agent = got (up ∷ []);
  spiffe_csi_driver = got (up ∷ []);
  spire_oidc_discovery_provider = get_failed not_found;
}

up-IsWellReported : IsWellReported list_api (up ∷ [])
unfolding list_api find_condition
up-IsWellReported c h = inl (ground (arith, h))

classify-get_operand_status_example :
    let operand = get_operand_status api_errors list_api "SpireServer" (got (up ∷ [])) in
    classify_operand_state operand (list_api.find operand.conditions ready)
    ≡ state_of (list_api.find (up ∷ []) ready)
classify-get_operand_status_example =
    classify-get_operand_status api_errors list_api list_api-IsConditionsApi "SpireServer" (up ∷ [])
      up-IsWellReported

abbrev waiting : Condition
waiting =
    ready_condition "Progressing" condition_false
      "Waiting for operands: [SpireOIDCDiscoveryProvider(not created)]"

waiting_found :
    lookup ready
      (add_operand_conditions list_api
        (aggregate_operand_status api_errors list_api reads)
        new_manager).conditions
    ≡ some waiting
unfolding lookup insert add_condition list_api find_condition add_operand_conditions
    aggregate_operand_status process_operands process_operand_status pending_operands classification
    get_operand_status extract_key_conditions other_failed classify_operand_state classify_reason
    classify_message
waiting_found = refl

ready-aggregate_operand_status_example :
    (waiting.status ≡ condition_true) ↔ AllUp api_errors list_api list_api-IsConditionsApi reads
ready-aggregate_operand_status_example =
    ready-aggregate_operand_status api_errors list_api list_api-IsConditionsApi reads new_manager
      waiting waiting_found

abbrev Cluster : Type 0
Cluster = List OperandStatus

abbrev client : Client Cluster
client = record {
  get_ztwim = λ w. got (record { operands = w; conditions = [] });
  get_operands = λ w. reads;
  get_operator_condition = λ w. get_failed not_found;
  update_ztwim_status = λ operands conditions w. (none, operands);
  update_operator_condition_status = λ oc w. (none, w);
}

abbrev clock : Clock
clock = record { initial = λ t. 1; operator = 2; final = λ t. 3 }

reconcile_persists_operands_example :
    let r =
      run api_errors list_api in_order client clock "" ""
        (record { operands = []; conditions = [] })
        [] in
    reconcile api_errors list_api in_order client clock "" "" [] ≡ (none, r.result.operand_statuses)
reconcile_persists_operands_example =
    reconcile_persists_operands api_errors list_api list_api-IsConditionsApi in_order
      in_order-IsRanges client clock "" "" (record { operands = []; conditions = [] }) [] refl
