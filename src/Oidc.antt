-- ===== src/Oidc.antt =====
-- pkg/controller/spire-oidc-discovery-provider: the controller of the SPIRE OIDC discovery provider, in the
-- frame of `Reconciler`. What the wanted objects are is an argument.
pub mod Sound
pub mod Published
pub mod CreateOnly
pub mod Contents
use ocp_spire_operator.Prelude.{Bool, String, List, Option, none, some, ◌==◌, if◌then◌else◌}
use ocp_spire_operator.Kube.{MetaCondition, Error, ApiErrors, ConditionsApi}
use ocp_spire_operator.Status.{Manager, Ranges, create_only_mode}
use ocp_spire_operator.Status.Health.{Got, Deployment, check_deployment_health}
use ocp_spire_operator.Owners.{OwnerReference}
use ocp_spire_operator.Objects.{Attempt, done, Action, succeeded, ◌andthen◌, ObjectClient, ensure}
use ocp_spire_operator.Objects.Kinds.{
  Fields, rbac_available, config_map_available, all_available, service_account_kind, service_kind,
  rbac_kind,
}
use ocp_spire_operator.Objects.Apply.{
  Hashed, with_hash, say, Applying, apply_object, apply_generated, hashed_with,
}
use ocp_spire_operator.Objects.Sync.{Syncing, Rest, sync_object}
use ocp_spire_operator.Objects.Routing.{Routing, route_available, manage_route}
use ocp_spire_operator.Validation.{CommonConfig, configuration_valid, validate_and_update_status}
use ocp_spire_operator.Reconciler.{Ztwim, Resource, ResourceCalls, Clocks, unless_invalid, Run, run}
use ocp_spire_operator.Reconciler.Checks.{
  Surroundings, handle_create_only_mode, checked, checked_proxy, passed, invalid_url,
}
use Prim.Native.String.{◌++◌}

abbrev pub deployment_available : String
deployment_available = "DeploymentAvailable"

abbrev pub cluster_spiffe_id_available : String
cluster_spiffe_id_available = "ClusterSPIFFEIDAvailable"

-- The SpireOIDCDiscoveryProvider resource, as far as the controller reads it itself.
pub record OidcProvider (V : Type 0) : Type 0 where
  pub name : String
  pub owners : List OwnerReference
  pub conditions : List MetaCondition
  pub common : CommonConfig V
  pub jwt_issuer : String
  pub external_secret_ref : String
  pub managed_route : String

-- What the controller generates; the Role has the name of the secret among its rules. The ConfigMap and
-- the route are not generated where the issuer is not a URL.
pub record Generated (O : Type 0) : Type 0 where
  pub service_account : O
  pub service : O
  pub oidc_spiffe_id : O
  pub default_spiffe_id : O
  pub config_map : Attempt O
  pub config_hash : String
  pub deployment : String → O
  pub external_cert_role : String → O
  pub external_cert_role_binding : O
  pub route : Attempt O

pub record Comparisons (O : Type 0) : Type 0 where
  pub fields : Fields O
  pub config_map_differs : O → O → Bool
  pub deployment_needs_update : O → O → Bool
  pub route_conflict : O → O → Bool

pub record Calls (W O V : Type 0) : Type 0 where
  pub resource : ResourceCalls W (OidcProvider V)
  pub objects : ObjectClient W O
  pub get_deployment : W → Got Deployment

-- The two titles spell the kind differently.
abbrev pub oidc_provider : {V : Type 0} → Resource (OidcProvider V)
oidc_provider = record {
  kind = "SpireOIDCDiscoveryProvider";
  owner_title = "Failed to set owner reference on SpireOidcDiscoveryProvider: ";
  update_title = "Failed to update SpireOIDCDiscoveryProvider with owner reference: ";
  owners = λ s. s.owners;
  conditions = λ s. s.conditions;
  with_conditions = λ cs s. record s { conditions = cs };
}

-- `which` is OIDC or Default.
abbrev pub spiffe_id : {O : Type 0} → Fields O → String → Syncing O
spiffe_id fields which = record {
  condition_type = cluster_spiffe_id_available;
  owner_reason = "SpireClusterSpiffeIDGenerationFailed";
  get_reason = "SpireClusterSpiffeIDGetFailed";
  get_title = "Failed to get " ++ (which ++ " ClusterSPIFFEID: ");
  create_reason = "SpireClusterSpiffeIDCreationFailed";
  update_reason = "SpireClusterSpiffeIDUpdateFailed";
  update_title = "Failed to update " ++ (which ++ " ClusterSPIFFEID: ");
  prepare = λ existing desired. desired;
  needs_update = fields.resource_needs_update;
  finish = fields.keep_version;
}

-- What follows is the same whatever was done.
abbrev pub always : {W : Type 0} → Action W → Rest W
always rest = record { created = rest; unchanged = rest; updated = rest }

abbrev pub oidc_config_map : {O : Type 0} → (O → O → Bool) → (O → O → O) → Applying O
oidc_config_map differs keep_version = record {
  condition_type = config_map_available;
  owner_reason = "SpireOIDCConfigMapCreationFailed";
  create_reason = "SpireOIDCConfigMapCreationFailed";
  create_prefix = none;
  update_reason = "SpireOIDCConfigMapCreationFailed";
  update_prefix = none;
  get_reason = some "SpireOIDCConfigMapCreationFailed";
  differs = differs;
  keep_version = keep_version;
}

abbrev pub oidc_deployment : {O : Type 0} → (O → O → Bool) → (O → O → O) → Applying O
oidc_deployment needs_update keep_version = record {
  condition_type = deployment_available;
  owner_reason = "SpireOIDCDeploymentCreationFailed";
  create_reason = "SpireOIDCDeploymentCreationFailed";
  create_prefix = none;
  update_reason = "SpireOIDCDeploymentUpdateFailed";
  update_prefix = none;
  get_reason = some "SpireOIDCDeploymentGetFailed";
  differs = needs_update;
  keep_version = keep_version;
}

abbrev pub managed_route : Routing
managed_route = record {
  create_reason = "ManagedRouteCreationFailed";
  created = record { reason = "ManagedRouteCreated"; message = "Spire OIDC Managed Route created" };
  get_reason = "ManagedRouteRetrievalFailed";
  update_reason = "ManagedRouteUpdateFailed";
  updated = record { reason = "ManagedRouteUpdated"; message = "Spire OIDC Managed Route updated" };
  up_to_date = record {
    reason = "ManagedRouteReady";
    message = "Spire OIDC Managed Route is ready";
  };
  disabled = record {
    reason = "ManagedRouteDisabled";
    message = "Spire OIDC Managed Route disabled";
  };
}

module _ {W O V : Type 0} (errors : ApiErrors) (api : ConditionsApi) (calls : Calls W O V)
    (s : Surroundings V) (generate : OidcProvider V → Ztwim → Generated O)
    (compare : Comparisons O) where
  unfoldable pub reconcile_oidc_service_account : O → Action W
  reconcile_oidc_service_account =
      ensure errors calls.objects (service_account_kind compare.fields) s.create_only

  unfoldable pub reconcile_oidc_service : O → Action W
  reconcile_oidc_service =
      ensure errors calls.objects
        (service_kind compare.fields "Service" (some "All Service resources available"))
        s.create_only

  abbrev pub spiffe_ids_ready : Action W
  spiffe_ids_ready =
      say cluster_spiffe_id_available "SpireClusterSpiffeIDResourcesReady"
        "Spire OIDC and default ClusterSpiffeID resources are ready"

  abbrev pub default_spiffe_id_step : O → Action W
  default_spiffe_id_step =
      sync_object errors calls.objects s.create_only (spiffe_id compare.fields "Default")
        (always spiffe_ids_ready)

  -- The one of the provider, then the default one.
  unfoldable pub reconcile_cluster_spiffe_ids : O → O → Action W
  reconcile_cluster_spiffe_ids oidc default =
      sync_object errors calls.objects s.create_only (spiffe_id compare.fields "OIDC")
        (always (default_spiffe_id_step default)) oidc

  unfoldable pub reconcile_oidc_config_map : Attempt O → String → Manager → W → Hashed W
  reconcile_oidc_config_map generated hash m w = hashed_with (done hash) (
      apply_generated errors calls.objects s.create_only
        (oidc_config_map compare.config_map_differs compare.fields.keep_version) generated
        (say config_map_available "SpireOIDCConfigMapCreationSucceeded"
          "Spire OIDC ConfigMap created")
        m w)

  unfoldable pub reconcile_deployment : O → Action W
  reconcile_deployment desired m w =
      apply_object errors calls.objects s.create_only
        (oidc_deployment compare.deployment_needs_update compare.fields.keep_version) desired
        (λ m' w'.
          succeeded
            (check_deployment_health (calls.get_deployment w')
              "spire-spiffe-oidc-discovery-provider" s.environment.operator_namespace
              deployment_available m')
            w')
        m w

  unfoldable pub reconcile_oidc_cert_role : O → Action W
  reconcile_oidc_cert_role =
      ensure errors calls.objects (rbac_kind compare.fields "external cert Role") s.create_only

  unfoldable pub reconcile_oidc_cert_role_binding : O → Action W
  reconcile_oidc_cert_role_binding =
      ensure errors calls.objects (rbac_kind compare.fields "external cert RoleBinding")
        s.create_only

  -- Only where the name of a secret is given.
  unfoldable pub reconcile_oidc_cert_rbac : OidcProvider V → Generated O → Action W
  reconcile_oidc_cert_rbac oidc g =
      if oidc.external_secret_ref == ""
      then succeeded
      else reconcile_oidc_cert_role (g.external_cert_role oidc.external_secret_ref)
        andthen reconcile_oidc_cert_role_binding g.external_cert_role_binding
        andthen all_available rbac_available "RBAC resources available"

  unfoldable pub reconcile_oidc_route : OidcProvider V → Attempt O → Action W
  reconcile_oidc_route oidc generated =
      manage_route errors calls.objects s.create_only managed_route compare.route_conflict
        compare.fields.keep_version oidc.managed_route (api.find oidc.conditions route_available)
        generated

  abbrev pub after_oidc_proxy : OidcProvider V → Manager → Option Error × Manager
  after_oidc_proxy oidc m =
      checked (invalid_url s.parse_url oidc.jwt_issuer m)
        (passed (api.find oidc.conditions configuration_valid))

  abbrev pub after_oidc_common : OidcProvider V → Manager → Option Error × Manager
  after_oidc_common oidc m = checked (checked_proxy s.environment m) (after_oidc_proxy oidc)

  -- The shared fields, the proxy, the issuer's URL, each where the ones before it are valid.
  unfoldable pub validate_oidc_configuration : OidcProvider V → Manager → Option Error × Manager
  validate_oidc_configuration oidc m =
      checked
        (validate_and_update_status s.validators "SpireOIDCDiscoveryProvider" oidc.name oidc.common
          m)
        (after_oidc_common oidc)

  -- From the Deployment to the route, with the hash of the ConfigMap.
  abbrev pub oidc_last_steps : OidcProvider V → Generated O → String → Action W
  oidc_last_steps oidc g hash =
      reconcile_deployment (g.deployment hash)
      andthen reconcile_oidc_cert_rbac oidc g
      andthen reconcile_oidc_route oidc g.route

  abbrev pub from_oidc_config_map : OidcProvider V → Generated O → Action W
  from_oidc_config_map oidc g m w =
      with_hash (reconcile_oidc_config_map g.config_map g.config_hash m w) (oidc_last_steps oidc g)

  -- The steps from the service account to the route.
  unfoldable pub reconcile_oidc_objects : OidcProvider V → Generated O → Action W
  reconcile_oidc_objects oidc g =
      reconcile_oidc_service_account g.service_account
      andthen reconcile_oidc_service g.service
      andthen reconcile_cluster_spiffe_ids g.oidc_spiffe_id g.default_spiffe_id
      andthen from_oidc_config_map oidc g

  -- From the create-only mode on, the owner being settled.
  unfoldable pub reconcile_oidc : OidcProvider V → Ztwim → Action W
  reconcile_oidc oidc ztwim m w =
      let m1 =
        handle_create_only_mode s.create_only (api.find oidc.conditions create_only_mode) m in
      let (e, m2) = validate_oidc_configuration oidc m1 in
      unless_invalid (record { error = e; manager = m2; cluster = w })
        (reconcile_oidc_objects oidc (generate oidc ztwim))

  -- A reconciliation of a provider that was read.
  abbrev pub oidc_run : Ranges → Clocks → OidcProvider V → W → Run W (OidcProvider V)
  oidc_run r clocks = run errors api r oidc_provider calls.resource clocks reconcile_oidc
