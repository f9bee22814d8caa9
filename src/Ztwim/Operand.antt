-- ===== src/Ztwim/Operand.antt =====
-- One operand's status: how it is read from the custom resource, which of its conditions are kept
-- and how its state is classified.
pub mod Laws
use ocp_spire_operator.Prelude.{
  ℕ, zero, suc, Bool, true, false, ◌||◌, ◌&&◌, String, List, [], ◌∷◌, ◌++◌, Option, none, some,
  ◌==◌, not, if◌then◌else◌,
}
use ocp_spire_operator.Prelude.Text.{codes, to_lower, contains_codes}
use ocp_spire_operator.Kube.{
  MetaCondition, is_true, is_false, Error, error_text, ApiErrors, ConditionsApi,
}
use ocp_spire_operator.Status.{
  ready, create_only_mode, reason_in_progress, reason_failed, reason_ready,
}
use ocp_spire_operator.Status.Health.{Got, got, get_failed}
use Prim.Native.String.{◌++◌ as concat}

abbrev pub cr_not_found : String
cr_not_found = "CR not found"

abbrev waiting_initial_recon : String
waiting_initial_recon = "Waiting for initial reconciliation"

abbrev pub reconciling : String
reconciling = "Reconciling"

pub record OperandStatus : Type 0 where
  pub name : String
  pub kind : String
  pub ready : String
  pub message : String
  pub conditions : List MetaCondition

pub data Classification : Type 0 where
  progressing failed is_ready : Classification

abbrev pub string_to_bool : String → Bool
string_to_bool s = s == "true"

abbrev contains : String → String → Bool
contains s sub = contains_codes (to_lower (codes s)) (to_lower (codes sub))

-- The switch on the reason of the Ready condition; `none` goes on to the message.
unfoldable pub classify_reason : String → Option Classification
classify_reason reason =
    if reason == ""
    then none
    else if reason == reason_in_progress
        || reason == "NotFound"
        || reason == "InitialReconcile"
        || reason == "Reconciling"
    then some progressing
    else if reason == reason_failed || reason == "Unhealthy"
    then some failed
    else if reason == reason_ready
    then some is_ready
    else none

unfoldable pub classify_message : String → Classification
classify_message message =
    if message == cr_not_found || message == waiting_initial_recon || message == reconciling
    then progressing
    else if contains message "not found"
        || contains message "initial"
        || contains message "reconciling"
        || contains message "progressing"
    then progressing
    else failed

abbrev or_classify : Option Classification → String → Classification
or_classify none message = classify_message message
or_classify (some c) message = c

abbrev reason_class : Option MetaCondition → Option Classification
reason_class none = none
reason_class (some c) = classify_reason c.reason

unfoldable pub classify_operand_state : OperandStatus → Option MetaCondition → Classification
classify_operand_state operand ready_condition =
    if string_to_bool operand.ready
    then is_ready
    else or_classify (reason_class ready_condition) operand.message

module _ (api : ConditionsApi) where
  abbrev keep_if : Bool → MetaCondition → List MetaCondition
  keep_if true c = c ∷ []
  keep_if false c = []

  abbrev keep_found : Option MetaCondition → List MetaCondition
  keep_found none = []
  keep_found (some c) = c ∷ []

  abbrev keep_true : Option MetaCondition → List MetaCondition
  keep_true none = []
  keep_true (some c) = keep_if (is_true c.status) c

  -- The loop over the other conditions.
  unfoldable pub other_failed : List MetaCondition → List MetaCondition
  other_failed [] = []
  other_failed (c ∷ cs) =
      let rest = other_failed cs in
      if c.type == ready || c.type == create_only_mode
      then rest
      else if is_false c.status
      then c ∷ rest
      else rest

  unfoldable pub extract_key_conditions : List MetaCondition → Bool → List MetaCondition
  extract_key_conditions cs is_ready' =
      let key = keep_true (api.find cs create_only_mode) in
      if is_ready' then key else key ++ (keep_found (api.find cs ready) ++ other_failed cs)

abbrev pub unread : String → String → OperandStatus
unread kind message = record {
  name = "cluster";
  kind = kind;
  ready = "false";
  message = message;
  conditions = [];
}

abbrev pub is_condition_true : Option MetaCondition → Bool
is_condition_true none = false
is_condition_true (some c) = is_true c.status

abbrev not_ready_message : Option MetaCondition → String
not_ready_message none = reconciling
not_ready_message (some c) = c.message

module _ (errors : ApiErrors) (api : ConditionsApi) where
  unfoldable summarise : String → List MetaCondition → OperandStatus
  summarise kind [] = unread kind waiting_initial_recon
  summarise kind (c ∷ cs) =
      let found = api.find (c ∷ cs) ready in
      if is_condition_true found
      then record {
        name = "cluster";
        kind = kind;
        ready = "true";
        message = "Ready";
        conditions = extract_key_conditions api (c ∷ cs) true;
      }
      else record {
        name = "cluster";
        kind = kind;
        ready = "false";
        message = not_ready_message found;
        conditions = extract_key_conditions api (c ∷ cs) false;
      }

  -- The argument is what `Get` of the custom resource returns: its conditions, or an error.
  unfoldable pub get_operand_status : String → Got (List MetaCondition) → OperandStatus
  unfolding summarise
  get_operand_status kind (get_failed e) =
      if errors.is_not_found e
      then unread kind cr_not_found
      else unread kind (concat "Failed to get CR: " (error_text e))
  get_operand_status kind (got conditions) = summarise kind conditions
