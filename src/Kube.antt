-- ===== src/Kube.antt =====
-- What the operator takes from the Kubernetes libraries: the condition type of
-- k8s.io/apimachinery/pkg/apis/meta/v1, and the functions of its error and condition packages, which
-- are parameters with their documented behaviour as laws.
use ocp_spire_operator.Prelude.{
  ℕ, ◌↔◌, arith, ◌≡◌, ◌≢◌, Bool, true, false, String, List, [], ◌∷◌, Option, none, some, ◌==◌,
  if◌then◌else◌,
}
use Prim.Native.String.{◌++◌}
use ocp_spire_operator.Prelude.Int.{ℤ}

pub data ConditionStatus : Type 0 where
  condition_true condition_false condition_unknown : ConditionStatus

abbrev pub is_true : ConditionStatus → Bool
is_true condition_true = true
is_true condition_false = false
is_true condition_unknown = false

abbrev pub is_false : ConditionStatus → Bool
is_false condition_true = false
is_false condition_false = true
is_false condition_unknown = false

pub is_true_iff : (s : ConditionStatus) → (is_true s ≡ true) ↔ (s ≡ condition_true)
is_true_iff s = ground arith

is_false_iff : (s : ConditionStatus) → (is_false s ≡ true) ↔ (s ≡ condition_false)
is_false_iff s = ground arith

abbrev pub same_status : ConditionStatus → ConditionStatus → Bool
same_status condition_true t = is_true t
same_status condition_false t = is_false t
same_status condition_unknown condition_unknown = true
same_status condition_unknown condition_true = false
same_status condition_unknown condition_false = false

-- metav1.Condition.
pub record MetaCondition : Type 0 where
  pub type : String
  pub status : ConditionStatus
  pub observed_generation : ℤ
  pub last_transition_time : ℕ
  pub reason : String
  pub message : String

-- Go's `error`, as far as the operator looks into one: a text, an error of the API server with a
-- machine readable reason, a wrapped cause with the whole message, or the operator's own error.
pub data ErrorReason : Type 0 where
  irrecoverable retry_required multiple_instance : ErrorReason

pub data Error : Type 0 where
  text_error : String → Error
  api_error : String → String → Error
  wrapped_error : String → Error → Error
  reconcile_error : ErrorReason → String → Error → Error

abbrev reason_text : ErrorReason → String
reason_text irrecoverable = "IrrecoverableError"
reason_text retry_required = "RetryRequiredError"
reason_text multiple_instance = "MultipleInstanceError"

-- `err.Error()`.
abbrev pub error_text : Error → String
error_text (text_error m) = m
error_text (api_error reason m) = m
error_text (wrapped_error m e) = m
error_text (reconcile_error reason m e) = m ++ (": " ++ error_text e)

-- The tests of k8s.io/apimachinery/pkg/api/errors.
pub record ApiErrors : Type 0 where
  pub is_not_found : Error → Bool
  pub is_already_exists : Error → Bool
  pub is_unauthorized : Error → Bool
  pub is_forbidden : Error → Bool
  pub is_invalid : Error → Bool
  pub is_bad_request : Error → Bool
  pub is_service_unavailable : Error → Bool

-- The functions of k8s.io/apimachinery/pkg/api/meta on a list of conditions, and the semantic
-- equality of two such lists. A nil list and an empty one are the same to all three.
pub record ConditionsApi : Type 0 where
  pub find : List MetaCondition → String → Option MetaCondition
  pub set : List MetaCondition → MetaCondition → List MetaCondition
  pub same : List MetaCondition → List MetaCondition → Bool

-- A condition that is set over an older one keeps the older transition time if the status is the
-- same.
abbrev pub merged : Option MetaCondition → MetaCondition → MetaCondition
merged none new = new
merged (some old) new = record new {
  last_transition_time =
      if same_status old.status new.status
      then old.last_transition_time
      else new.last_transition_time;
}

pub record IsConditionsApi (api : ConditionsApi) : Type 0 where
  pub find-nil : (t : String) → api.find [] t ≡ none
  pub find-cons :
      (c : MetaCondition) (cs : List MetaCondition) (t : String)
      → api.find (c ∷ cs) t ≡ (if c.type == t then some c else api.find cs t)
  pub find-set_self :
      (cs : List MetaCondition) (c : MetaCondition)
      → api.find (api.set cs c) c.type ≡ some (merged (api.find cs c.type) c)
  pub find-set_ne :
      (cs : List MetaCondition) (c : MetaCondition) (t : String)
      → t ≢ c.type
      → api.find (api.set cs c) t ≡ api.find cs t
  pub same_refl : (cs : List MetaCondition) → api.same cs cs ≡ true
  pub same_eq : (cs ds : List MetaCondition) → api.same cs ds ≡ true → cs ≡ ds
