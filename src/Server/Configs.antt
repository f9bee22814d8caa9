-- ===== src/Server/Configs.antt =====
-- The steps of the SpireServer controller on its ConfigMaps, its StatefulSet and its route, in
-- pkg/controller/spire-server/{configmap,statefulset,routes}.go. What the generated objects and hashes
-- are is an argument.
use ocp_spire_operator.Prelude.{Bool, String, Option, none, some, if◌then◌else◌}
use ocp_spire_operator.Kube.{MetaCondition, Error, ApiErrors}
use ocp_spire_operator.Status.{Manager}
use ocp_spire_operator.Status.Health.{Got, StatefulSet, check_stateful_set_health}
use ocp_spire_operator.Objects.{Attempt, done, failed, Outcome, Action, succeeded, ObjectClient}
use ocp_spire_operator.Objects.Apply.{
  Hashed, wrapped, refuses, say, Applying, apply_object, apply_generated, hashed_with,
}
use ocp_spire_operator.Objects.Routing.{Routing, manage_route}
use ocp_spire_operator.Server.Federation.{FederationConfig}

abbrev server_config_map_available : String
server_config_map_available = "ServerConfigMapAvailable"

abbrev controller_manager_config_available : String
controller_manager_config_available = "ControllerManagerConfigAvailable"

abbrev pub bundle_config_available : String
bundle_config_available = "BundleConfigAvailable"

abbrev stateful_set_available : String
stateful_set_available = "StatefulSetAvailable"

abbrev pub server_config_map : {O : Type 0} → (O → O → Bool) → (O → O → O) → Applying O
server_config_map differs keep_version = record {
  condition_type = server_config_map_available;
  owner_reason = "SpireServerConfigMapGenerationFailed";
  create_reason = "SpireServerConfigMapGenerationFailed";
  create_prefix = some "failed to create ConfigMap: ";
  update_reason = "SpireServerConfigMapGenerationFailed";
  update_prefix = some "failed to update ConfigMap: ";
  get_reason = some "SpireServerConfigMapGenerationFailed";
  differs = differs;
  keep_version = keep_version;
}

abbrev pub controller_manager_config_map : {O : Type 0} → (O → O → Bool) → (O → O → O) → Applying O
controller_manager_config_map differs keep_version = record {
  condition_type = controller_manager_config_available;
  owner_reason = "SpireControllerManagerConfigMapGenerationFailed";
  create_reason = "SpireControllerManagerConfigMapGenerationFailed";
  create_prefix = some "failed to create ConfigMap: ";
  update_reason = "SpireControllerManagerConfigMapGenerationFailed";
  update_prefix = some "failed to update ConfigMap: ";
  get_reason = none;
  differs = differs;
  keep_version = keep_version;
}

abbrev pub stateful_set : {O : Type 0} → (O → O → Bool) → (O → O → O) → Applying O
stateful_set needs_update keep_version = record {
  condition_type = stateful_set_available;
  owner_reason = "SpireServerStatefulSetGenerationFailed";
  create_reason = "SpireServerStatefulSetCreationFailed";
  create_prefix = some "failed to create StatefulSet: ";
  update_reason = "SpireServerStatefulSetUpdateFailed";
  update_prefix = some "failed to update StatefulSet: ";
  get_reason = some "SpireServerStatefulSetGetFailed";
  differs = needs_update;
  keep_version = keep_version;
}

abbrev pub federation_route : Routing
federation_route = record {
  create_reason = "FederationRouteCreationFailed";
  created = record { reason = "FederationRouteCreated"; message = "Federation route created" };
  get_reason = "FederationRouteRetrievalFailed";
  update_reason = "FederationRouteUpdateFailed";
  updated = record { reason = "FederationRouteUpdated"; message = "Federation route updated" };
  up_to_date = record { reason = "RouteAvailable"; message = "Federation route is ready" };
  disabled = record {
    reason = "FederationRouteDisabled";
    message = "Federation managed route disabled";
  };
}

module _ {W O : Type 0} (errors : ApiErrors) (client : ObjectClient W O) (create_only : Bool) where
  -- `json_hash` is the hash of the configuration, which is marshalled a second time for it.
  unfoldable pub reconcile_spire_server_config_map :
      (O → O → Bool) → (O → O → O) → Attempt O → Attempt String → Manager → W → Hashed W
  reconcile_spire_server_config_map differs keep_version generated json_hash m w =
      hashed_with json_hash (
        apply_generated errors client create_only (server_config_map differs keep_version) generated
          (say server_config_map_available "SpireConfigMapResourceCreated"
            "SpireServer config map resources applied")
          m w)

  unfoldable pub reconcile_spire_controller_manager_config_map :
      (O → O → Bool) → (O → O → O) → Attempt O → String → Manager → W → Hashed W
  reconcile_spire_controller_manager_config_map differs keep_version generated hash m w =
      hashed_with (done hash) (
        apply_generated errors client create_only
          (controller_manager_config_map differs keep_version) generated
          (say controller_manager_config_available "SpireControllerManagerConfigMapCreated"
            "spire controller manager config map resources applied")
          m w)

  abbrev bundle_refuses : Error → Error → Action W
  bundle_refuses = refuses bundle_config_available "SpireBundleConfigMapGenerationFailed"

  abbrev pub bundle_created : Option Error × W → Manager → Outcome W
  bundle_created (r, w) m =
      let done_with =
        say bundle_config_available "SpireBundleConfigMapCreated"
          "spire bundle config map resources applied" m w in
      elim r [
        | none ↦ done_with
        | some e ↦
            if errors.is_already_exists e
            then done_with
            else bundle_refuses e (wrapped (some "failed to create spire-bundle ConfigMap: ") e) m w
      ]

  abbrev pub bundle_owned : Attempt O → Action W
  bundle_owned (failed e) m w = bundle_refuses e e m w
  bundle_owned (done desired) m w = bundle_created (client.create desired w) m

  abbrev bundle_generated : Attempt O → Action W
  bundle_generated (failed e) m w = bundle_refuses e e m w
  bundle_generated (done desired) m w = bundle_owned (client.set_controller_reference desired) m w

  -- The ConfigMap of the bundle is created only; SPIRE fills it.
  unfoldable pub reconcile_spire_bundle_config_map : Attempt O → Action W
  reconcile_spire_bundle_config_map generated m w = bundle_generated generated m w

  -- `read` is the `Get` of the health check, after the step.
  unfoldable pub reconcile_stateful_set :
      (O → O → Bool) → (O → O → O) → O → (W → Got StatefulSet) → String → Action W
  reconcile_stateful_set needs_update keep_version desired read namespace m w =
      apply_object errors client create_only (stateful_set needs_update keep_version) desired
        (λ m' w'.
          succeeded
            (check_stateful_set_health (read w') "spire-server" namespace stateful_set_available m')
            w')
        m w

  -- `published` is the RouteAvailable condition that the object has.
  unfoldable pub reconcile_route :
      (O → O → Bool) → (O → O → O) → Option MetaCondition → Option FederationConfig → O → Action W
  reconcile_route conflict keep_version published none desired m w = succeeded m w
  reconcile_route conflict keep_version published (some federation) desired m w =
      manage_route errors client create_only federation_route conflict keep_version
        federation.managed_route published (done desired) m w
