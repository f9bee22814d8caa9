-- ===== src/Status.antt =====
-- pkg/controller/status/status.go: the manager that collects the conditions of one reconciliation,
-- derives the Ready condition and publishes them.
pub mod Ready
pub mod Verdict
pub mod Publish
pub mod Replay
pub mod Health
use ocp_spire_operator.Prelude.{
  ℕ, Bool, true, false, ◌||◌, String, List, [], ◌∷◌, ◌++◌, Option, none, some, ◌==◌, is_some,
  if◌then◌else◌,
}
use ocp_spire_operator.Prelude.Int.{ℤ, pos}
use ocp_spire_operator.Prelude.Dict.{Dict, lookup, insert, IsRange}
use ocp_spire_operator.Kube.{
  ConditionStatus, condition_true, condition_false, is_false, MetaCondition, Error, wrapped_error,
  error_text, ConditionsApi,
}
use Prim.Native.String.{◌++◌ as concat}

abbrev pub ready : String
ready = "Ready"

abbrev pub degraded : String
degraded = "Degraded"

abbrev pub create_only_mode : String
create_only_mode = "CreateOnlyMode"

abbrev pub reason_failed : String
reason_failed = "Failed"

abbrev pub reason_ready : String
reason_ready = "Ready"

abbrev pub reason_in_progress : String
reason_in_progress = "Progressing"

pub record Condition : Type 0 where
  pub type : String
  pub status : ConditionStatus
  pub reason : String
  pub message : String

-- The client of the source's manager is an argument of the operations that call it.
pub record Manager : Type 0 where
  pub conditions : Dict Condition

abbrev pub new_manager : Manager
new_manager = record { conditions = [] }

unfoldable pub add_condition : String → String → String → ConditionStatus → Manager → Manager
add_condition condition_type reason message status m = record m {
  conditions =
      insert condition_type
        (record { type = condition_type; status = status; reason = reason; message = message })
        m.conditions;
}

-- The reasons of a normal rollout.
abbrev pub progressing_reasons : String → Bool
progressing_reasons r =
    r == "StatefulSetNotReady" || r == "DaemonSetNotReady" || r == "DeploymentNotReady"

-- The variables of the loop in `set_ready_condition`.
pub record Scan : Type 0 where
  pub has_progressing : Bool
  pub has_failure : Bool
  pub failure_messages : List String
  pub progressing_messages : List String

abbrev pub is_skipped : String → Bool
is_skipped t = t == ready || t == degraded || t == create_only_mode

unfoldable pub scan_condition : String → Condition → Scan → Scan
scan_condition t c s =
    if is_skipped t
    then s
    else if is_false c.status
    then if progressing_reasons c.reason
      then record s {
        has_progressing = true;
        progressing_messages = s.progressing_messages ++ concat t (concat ": " c.message) ∷ [];
      }
      else record s {
        has_failure = true;
        failure_messages = s.failure_messages ++ concat t (concat ": " c.message) ∷ [];
      }
    else s

unfoldable pub scan_conditions : Dict Condition → Scan → Scan
scan_conditions [] s = s
scan_conditions ((t, c) ∷ visited) s = scan_conditions visited (scan_condition t c s)

-- `if len(messages) > 0 { message = messages[0] }`.
abbrev pub first_or : String → List String → String
first_or message [] = message
first_or message (m ∷ ms) = m

abbrev pub no_scan : Scan
no_scan = record {
  has_progressing = false;
  has_failure = false;
  failure_messages = [];
  progressing_messages = [];
}

-- `visited` lists the conditions in the order in which the loop meets them.
unfoldable pub set_ready_condition : Dict Condition → Manager → Manager
set_ready_condition visited m =
    let s = scan_conditions visited no_scan in
    if s.has_failure
    then add_condition ready reason_failed
        (first_or "One or more components are not ready" s.failure_messages) condition_false m
    else if s.has_progressing
    then add_condition ready reason_in_progress
        (first_or "Components are starting up or rolling out" s.progressing_messages)
        condition_false m
    else add_condition ready reason_ready "All components are ready" condition_true m

-- The manager after the step that sets Ready unless a controller did.
unfoldable pub with_ready : Dict Condition → Manager → Manager
with_ready visited m =
    if is_some (lookup ready m.conditions) then m else set_ready_condition visited m

-- The condition that is published for a collected one; `now` is the clock's reading for it.
abbrev pub new_condition : (String → ℕ) → Condition → MetaCondition
new_condition now c = record {
  type = c.type;
  status = c.status;
  observed_generation = pos 0;
  last_transition_time = now c.type;
  reason = c.reason;
  message = c.message;
}

module _ (api : ConditionsApi) where
  unfoldable pub set_conditions :
      (String → ℕ) → Dict Condition → List MetaCondition → List MetaCondition
  set_conditions now [] cs = cs
  set_conditions now ((t, c) ∷ visited) cs =
      set_conditions now visited (api.set cs (new_condition now c))

-- What `apply_status` leaves: the manager with its Ready condition, the conditions of the object,
-- the error and the cluster.
pub record Applied (W : Type 0) : Type 0 where
  pub manager : Manager
  pub conditions : List MetaCondition
  pub error : Option Error
  pub cluster : W

-- The orders in which the two loops over the map meet its entries.
pub record Ranges : Type 0 where
  pub scan : Dict Condition → Dict Condition
  pub set : Dict Condition → Dict Condition

pub record IsRanges (r : Ranges) : Type 0 where
  pub scan_range : (m : Dict Condition) → IsRange (r.scan m) m
  pub set_range : (m : Dict Condition) → IsRange (r.set m) m

-- `StatusUpdateWithRetry` of the object with the given conditions.
abbrev pub StatusUpdate : Type 0 → Type 0
StatusUpdate W = List MetaCondition → W → Option Error × W

abbrev pub update_failed : Option Error → Option Error
update_failed none = none
update_failed (some e) = some (wrapped_error (concat "failed to update status: " (error_text e)) e)

module _ {W : Type 0} (api : ConditionsApi) (r : Ranges) (status_update : StatusUpdate W) where
  unfoldable pub apply_status : (String → ℕ) → Manager → List MetaCondition → W → Applied W
  apply_status now m original w =
      let m' = with_ready (r.scan m.conditions) m in
      let status = set_conditions api now (r.set m'.conditions) original in
      if api.same original status
      then record { manager = m'; conditions = status; error = none; cluster = w }
      else (let (e, w') = status_update status w in
          record { manager = m'; conditions = status; error = update_failed e; cluster = w' })

  -- The error of the update is only printed.
  unfoldable pub set_initial_reconciliation_status :
      (String → ℕ) → String → List MetaCondition → W → Applied W
  set_initial_reconciliation_status now resource_name original w =
      apply_status now
        (add_condition ready reason_in_progress (concat "Reconciling " resource_name)
          condition_false new_manager)
        original w
