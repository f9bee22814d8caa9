-- ===== src/Ztwim/Aggregate.antt =====
-- The aggregation of the operands' statuses: `processOperandStatus`, `aggregateOperandStatus`, and the
-- conditions that `Reconcile` derives from the result.
pub mod Counts
pub mod Verdict
use ocp_spire_operator.Prelude.{
  ℕ, suc, ◌+◌, ◌<◌, Bool, true, false, ◌&&◌, String, List, [], ◌∷◌, Option, none, some, ◌==◌, not,
  ltb, nat_eq, if◌then◌else◌,
}
use ocp_spire_operator.Prelude.Text.{print_list}
use ocp_spire_operator.Kube.{
  MetaCondition, condition_true, condition_false, ApiErrors, ConditionsApi,
}
use ocp_spire_operator.Status.{
  Manager, ready, reason_ready, reason_in_progress, reason_failed, add_condition,
}
use ocp_spire_operator.Status.Health.{Got}
use ocp_spire_operator.Ztwim.Operand.{
  OperandStatus, Classification, progressing, failed, is_ready, string_to_bool, cr_not_found,
  classify_operand_state, get_operand_status,
}
use Prim.Native.String.{◌++◌ as concat}

abbrev operands_available : String
operands_available = "OperandsAvailable"

pub record AggregateState : Type 0 where
  pub all_ready : Bool
  pub not_created_count : ℕ
  pub failed_count : ℕ
  pub any_operand_exists : Bool

abbrev pub is_progressing : Classification → Bool
is_progressing progressing = true
is_progressing failed = false
is_progressing is_ready = false

abbrev is_failed : Classification → Bool
is_failed progressing = false
is_failed failed = true
is_failed is_ready = false

-- The four answers of the API server to the reads of the operands.
pub record Reads : Type 0 where
  pub spire_server : Got (List MetaCondition)
  pub spire_agent : Got (List MetaCondition)
  pub spiffe_csi_driver : Got (List MetaCondition)
  pub spire_oidc_discovery_provider : Got (List MetaCondition)

pub record AggregateResult : Type 0 where
  pub operand_statuses : List OperandStatus
  pub state : AggregateState
  pub open state use *

abbrev pub initial_state : AggregateState
initial_state = record {
  all_ready = true;
  not_created_count = 0;
  failed_count = 0;
  any_operand_exists = false;
}

module _ (api : ConditionsApi) where
  -- The classification of an operand by the conditions that were kept of it.
  unfoldable pub classification : OperandStatus → Classification
  classification operand = classify_operand_state operand (api.find operand.conditions ready)

  -- `state.anyOperandExists = true` where the operand exists.
  abbrev note_existence : OperandStatus → AggregateState → AggregateState
  note_existence operand s =
      if operand.message == cr_not_found then s else record s { any_operand_exists = true }

  unfoldable pub process_operand_status : OperandStatus → AggregateState → AggregateState
  process_operand_status operand state =
      let s = note_existence operand state in
      if string_to_bool operand.ready
      then s
      else if is_progressing (classification operand)
      then record s { all_ready = false; not_created_count = s.not_created_count + 1 }
      else record s { all_ready = false; failed_count = s.failed_count + 1 }

  unfoldable pub process_operands : List OperandStatus → AggregateState → AggregateState
  process_operands [] s = s
  process_operands (o ∷ os) s = process_operands os (process_operand_status o s)

  unfoldable pub pending_operands : List OperandStatus → List String
  pending_operands [] = []
  pending_operands (o ∷ os) =
      let rest = pending_operands os in
      if is_progressing (classification o)
      then concat o.kind (if o.message == cr_not_found then "(not created)" else "(reconciling)")
        ∷ rest
      else rest

  unfoldable pub unhealthy_operands : List OperandStatus → List String
  unhealthy_operands [] = []
  unhealthy_operands (o ∷ os) =
      let rest = unhealthy_operands os in
      if is_failed (classification o) then concat o.kind (concat "/" o.name) ∷ rest else rest

  -- The conditions that `Reconcile` adds for an aggregated result.
  unfoldable pub add_operand_conditions : AggregateResult → Manager → Manager
  add_operand_conditions result m =
      if result.all_ready
      then add_condition ready reason_ready "All components are ready" condition_true (
          add_condition operands_available reason_ready "All operand CRs are ready" condition_true
            m)
      else if ltb 0 result.not_created_count && nat_eq result.failed_count 0
      then (let message =
            concat "Waiting for operands: "
              (print_list (pending_operands result.operand_statuses)) in
          add_condition ready reason_in_progress message condition_false
            (add_condition operands_available reason_in_progress message condition_false m))
      else (let message =
            concat "Some operands not ready: "
              (print_list (unhealthy_operands result.operand_statuses)) in
          add_condition ready reason_failed message condition_false
            (add_condition operands_available reason_failed message condition_false m))

module _ (errors : ApiErrors) (api : ConditionsApi) where
  abbrev pub operand_statuses : Reads → List OperandStatus
  operand_statuses r =
      get_operand_status errors api "SpireServer" r.spire_server
      ∷ get_operand_status errors api "SpireAgent" r.spire_agent
      ∷ get_operand_status errors api "SpiffeCSIDriver" r.spiffe_csi_driver
      ∷ get_operand_status errors api "SpireOIDCDiscoveryProvider" r.spire_oidc_discovery_provider
      ∷ []

  unfoldable pub aggregate_operand_status : Reads → AggregateResult
  aggregate_operand_status r =
      let statuses = operand_statuses r in
      record { operand_statuses = statuses; state = process_operands api statuses initial_state }
