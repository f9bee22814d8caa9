-- ===== src/Objects.antt =====
-- How a controller brings one object of the cluster to the wanted state. The operand controllers repeat
-- the same text for each kind of object; it is written here once, with the texts of the kind as
-- arguments. `W` is the state of the cluster and `O` an object. Logging is left out.
pub mod CreateOnly
pub mod Errors
pub mod Again
pub mod Kinds
pub mod Comparable
pub mod Apply
pub mod Sync
pub mod Routing
pub mod Sound
pub mod Reach
use ocp_spire_operator.Prelude.{
  Bool, true, false, not, ◌≡◌, ◌⊎◌, String, Option, none, some, if◌then◌else◌,
}
use ocp_spire_operator.Kube.{
  ConditionStatus, condition_true, condition_false, Error, wrapped_error, error_text, ApiErrors,
}
use ocp_spire_operator.Status.{Manager, add_condition, reason_failed, reason_ready}
use ocp_spire_operator.Status.Health.{Got, got, get_failed}
use Prim.Native.String.{◌++◌}

-- A result or an error.
pub data Attempt (A : Type 0) : Type 0 where
  done : A → Attempt A
  failed : Error → Attempt A

-- What a step leaves: the error that it returns, the collected conditions and the cluster.
pub record Outcome (W : Type 0) : Type 0 where
  pub error : Option Error
  pub manager : Manager
  pub cluster : W

abbrev pub Action : Type 0 → Type 0
Action W = Manager → W → Outcome W

-- The calls on objects: of the Kubernetes libraries, `SetControllerReference`, `Get` by the name and
-- namespace of the wanted object, `Create` and `Update`.
pub record ObjectClient (W O : Type 0) : Type 0 where
  pub set_controller_reference : O → Attempt O
  pub get : O → W → Got O
  pub create : O → W → Option Error × W
  pub update : O → W → Option Error × W

-- What differs between the kinds: the type of the condition, the name of the kind in its messages, the
-- condition of success if the step adds one, what the wanted object takes over from the existing one
-- before and after the two are compared, and the comparison.
pub record Kind (O : Type 0) : Type 0 where
  pub condition_type : String
  pub label : String
  pub success : Option String
  pub prepare : O → O → O
  pub needs_update : O → O → Bool
  pub finish : O → O → O

module _ {W : Type 0} where
  abbrev pub succeeded : Manager → W → Outcome W
  succeeded m w = record { error = none; manager = m; cluster = w }

  -- Add a condition that is False, and return the error.
  abbrev pub fails : String → String → String → Error → Manager → W → Outcome W
  fails condition_type reason message e m w = record {
    error = some e;
    manager = add_condition condition_type reason message condition_false m;
    cluster = w;
  }

  abbrev pub proceed : Option Error → Outcome W → Action W → Outcome W
  proceed none o rest = rest o.manager o.cluster
  proceed (some e) o rest = o

  -- `if err := first(); err != nil { return err }` before the rest.
  infixr 20 ◌andthen◌
  abbrev pub ◌andthen◌ : Action W → Action W → Action W
  (first andthen rest) m w = proceed (first m w).error (first m w) rest

module _ {W O : Type 0} (errors : ApiErrors) (client : ObjectClient W O) (kind : Kind O) where
  abbrev pub announce : Option String → Manager → Manager
  announce none m = m
  announce (some message) m =
      add_condition kind.condition_type reason_ready message condition_true m

  abbrev pub blame : String → Error → Manager → W → Outcome W
  blame what e m w =
      fails kind.condition_type reason_failed (what ++ (kind.label ++ (": " ++ error_text e))) e m w

  -- The result of a call that writes.
  abbrev pub written : String → Option Error × W → Manager → Outcome W
  written what (none, w) m = succeeded (announce kind.success m) w
  written what (some e, w) m = blame what e m w

  abbrev pub ensure_existing : Bool → O → O → Action W
  ensure_existing create_only desired existing m w =
      if create_only
      then succeeded (announce kind.success m) w
      else if not (kind.needs_update existing (kind.prepare existing desired))
      then succeeded (announce kind.success m) w
      else written "Failed to update "
          (client.update (kind.finish existing (kind.prepare existing desired)) w) m

  abbrev pub ensure_got : Bool → O → Got O → Action W
  ensure_got create_only desired (get_failed e) m w =
      if not (errors.is_not_found e)
      then blame "Failed to get " e m w
      else written "Failed to create " (client.create desired w) m
  ensure_got create_only desired (got existing) m w =
      ensure_existing create_only desired existing m w

  abbrev pub ensure_owned : Bool → Attempt O → Action W
  ensure_owned create_only (failed e) m w = blame "Failed to set owner reference on " e m w
  ensure_owned create_only (done desired) m w =
      ensure_got create_only desired (client.get desired w) m w

  unfoldable pub ensure : Bool → O → Action W
  ensure create_only desired m w =
      ensure_owned create_only (client.set_controller_reference desired) m w
