-- ===== src/Objects/Apply.antt =====
-- The second form of a step on one object: the controllers write it for the objects that they generate
-- from the configuration, the ConfigMaps and the workloads. Its conditions have reasons of their own, and
-- what follows the write is the rest of the function.
use ocp_spire_operator.Prelude.{Bool, String, Option, none, some, if◌then◌else◌}
use ocp_spire_operator.Kube.{condition_true, Error, wrapped_error, error_text, ApiErrors}
use ocp_spire_operator.Status.{Manager, add_condition}
use ocp_spire_operator.Status.Health.{Got, got, get_failed}
use ocp_spire_operator.Objects.{
  Attempt, done, failed, Outcome, Action, succeeded, fails, proceed, ObjectClient,
}
use Prim.Native.String.{◌++◌}

-- An outcome with the hash that the step returns.
pub record Hashed (W : Type 0) : Type 0 where
  pub hash : String
  pub outcome : Outcome W

-- `x, err := first(); if err != nil { return err }` before the rest.
abbrev pub with_hash : {W : Type 0} → Hashed W → (String → Action W) → Outcome W
with_hash h rest = proceed h.outcome.error h.outcome (rest h.hash)

-- `fmt.Errorf(prefix + "%w", err)`, or the error itself where there is no prefix.
abbrev pub wrapped : Option String → Error → Error
wrapped none e = e
wrapped (some prefix) e = wrapped_error (prefix ++ error_text e) e

-- A condition that is False with the text of the error, and the error that is returned.
abbrev pub refuses : {W : Type 0} → String → String → Error → Error → Manager → W → Outcome W
refuses condition_type reason e returned m w =
    fails condition_type reason (error_text e) returned m w

abbrev pub say : {W : Type 0} → String → String → String → Action W
say condition_type reason message m w =
    succeeded (add_condition condition_type reason message condition_true m) w

-- How a step treats the object that it generated: the type and the reasons of its conditions, the
-- prefixes of the errors that it returns, whether a failed read adds a condition, and the comparison.
pub record Applying (O : Type 0) : Type 0 where
  pub condition_type : String
  pub owner_reason : String
  pub create_reason : String
  pub create_prefix : Option String
  pub update_reason : String
  pub update_prefix : Option String
  pub get_reason : Option String
  pub differs : O → O → Bool
  pub keep_version : O → O → O

-- The result of a call that writes; a failure is returned with a prefix, if there is one.
abbrev pub stored :
    {W : Type 0}
    → String
    → String
    → Option String
    → Option Error × W
    → Action W
    → Manager
    → Outcome W
stored condition_type reason prefix (none, w) rest m = rest m w
stored condition_type reason prefix (some e, w) rest m =
    refuses condition_type reason e (wrapped prefix e) m w

abbrev pub get_refuses : {W : Type 0} → String → Option String → Error → Manager → W → Outcome W
get_refuses condition_type none e m w = record { error = some e; manager = m; cluster = w }
get_refuses condition_type (some reason) e m w = refuses condition_type reason e e m w

module _ {W O : Type 0} (errors : ApiErrors) (client : ObjectClient W O) (create_only : Bool)
    (a : Applying O) where
  abbrev pub apply_got : O → Got O → Action W → Action W
  apply_got desired (get_failed e) rest m w =
      if errors.is_not_found e
      then stored a.condition_type a.create_reason a.create_prefix (client.create desired w) rest m
      else get_refuses a.condition_type a.get_reason e m w
  apply_got desired (got existing) rest m w =
      if a.differs existing desired
      then (if create_only
          then rest m w
          else stored a.condition_type a.update_reason a.update_prefix
              (client.update (a.keep_version existing desired) w) rest m)
      else rest m w

  abbrev pub apply_owned : Attempt O → Action W → Action W
  apply_owned (failed e) rest m w = refuses a.condition_type a.owner_reason e e m w
  apply_owned (done desired) rest m w = apply_got desired (client.get desired w) rest m w

  -- Set the owner, then create or update, then the rest.
  unfoldable pub apply_object : O → Action W → Action W
  apply_object desired rest m w = apply_owned (client.set_controller_reference desired) rest m w

  -- The object could not be generated.
  abbrev pub apply_generated : Attempt O → Action W → Action W
  apply_generated (failed e) rest m w = refuses a.condition_type a.owner_reason e e m w
  apply_generated (done desired) rest m w = apply_object desired rest m w

abbrev pub fails_late : {W : Type 0} → Option Error → Error → Outcome W → Outcome W
fails_late none e o = record o { error = some e }
fails_late (some x) e o = o

abbrev hash_unless : Option Error → String → String
hash_unless none hash = hash
hash_unless (some e) hash = ""

-- The hash of the configuration, or the error of marshalling it, where the step returned no error.
abbrev pub hashed_with : {W : Type 0} → Attempt String → Outcome W → Hashed W
hashed_with (done hash) o = record { hash = hash_unless o.error hash; outcome = o }
hashed_with (failed e) o = record { hash = ""; outcome = fails_late o.error e o }
