-- ===== src/Objects/Routing.antt =====
-- The step on a managed route, which pkg/controller/spire-server/routes.go and
-- spire-oidc-discovery-provider/routes.go have with texts of their own. A route gets no owner.
use ocp_spire_operator.Prelude.{Bool, not, String, Option, none, some, if◌then◌else◌}
use ocp_spire_operator.Kube.{condition_false, MetaCondition, Error, ApiErrors}
use ocp_spire_operator.Status.{Manager, add_condition}
use ocp_spire_operator.Status.Health.{Got, got, get_failed}
use ocp_spire_operator.Ztwim.Operand.{string_to_bool, is_condition_true}
use ocp_spire_operator.Objects.{Attempt, done, failed, Outcome, Action, succeeded, ObjectClient}
use ocp_spire_operator.Objects.Apply.{refuses, say}

abbrev pub route_available : String
route_available = "RouteAvailable"

-- A reason and a message.
pub record Text : Type 0 where
  pub reason : String
  pub message : String

-- The reasons of the failures, and the texts of the other conditions.
pub record Routing : Type 0 where
  pub create_reason : String
  pub created : Text
  pub get_reason : String
  pub update_reason : String
  pub updated : Text
  pub up_to_date : Text
  pub disabled : Text

abbrev pub route_stored : {W : Type 0} → String → Text → Option Error × W → Manager → Outcome W
route_stored reason ok (none, w) m = say route_available ok.reason ok.message m w
route_stored reason ok (some e, w) m = refuses route_available reason e e m w

module _ {W O : Type 0} (errors : ApiErrors) (client : ObjectClient W O) (create_only : Bool)
    (t : Routing) (conflict : O → O → Bool) (keep_version : O → O → O) where
  -- `was_true`: the published condition is True.
  abbrev pub route_got : Bool → O → Got O → Action W
  route_got was_true desired (get_failed e) m w =
      if errors.is_not_found e
      then route_stored t.create_reason t.created (client.create desired w) m
      else refuses route_available t.get_reason e e m w
  route_got was_true desired (got existing) m w =
      if conflict existing desired
      then (if create_only
          then succeeded m w
          else route_stored t.update_reason t.updated
              (client.update (keep_version existing desired) w) m)
      else if not was_true
      then say route_available t.up_to_date.reason t.up_to_date.message m w
      else succeeded m w

  abbrev pub route_generated : Bool → Attempt O → Action W
  route_generated was_true (failed e) m w = refuses route_available t.create_reason e e m w
  route_generated was_true (done desired) m w =
      route_got was_true desired (client.get desired w) m w

  abbrev route_disabled : Action W
  route_disabled m w =
      succeeded
        (add_condition route_available t.disabled.reason t.disabled.message condition_false m) w

  -- `managed` is the setting, and `published` the RouteAvailable condition that the object has.
  unfoldable pub manage_route : String → Option MetaCondition → Attempt O → Action W
  manage_route managed published generated m w =
      if string_to_bool managed
      then route_generated (is_condition_true published) generated m w
      else route_disabled m w
