-- ===== src/Oidc/Sound.antt =====
-- The steps of the controller of the OIDC discovery provider are sound.
use ocp_spire_operator.Prelude.{refl, inl, String, some, if_cases, ◌==◌}
use ocp_spire_operator.Kube.{ApiErrors, ConditionsApi}
use ocp_spire_operator.Status.{Manager}
use ocp_spire_operator.Objects.{Attempt, Action}
use ocp_spire_operator.Objects.Kinds.{
  rbac_available, config_map_available, service_account_kind, service_kind, rbac_kind,
}
use ocp_spire_operator.Objects.Sync.{sync_object}
use ocp_spire_operator.Objects.Routing.{route_available}
use ocp_spire_operator.Objects.Sound.{
  IsClean, IsSound, AlwaysSound, succeeded-IsSound, said-IsSound, andthen-AlwaysSound,
  ensure-AlwaysSound,
}
use ocp_spire_operator.Objects.Sound.Steps.{
  with_hash-IsSound, apply_object-IsSound, apply_generated-IsSound, sync_object-AlwaysSound,
  manage_route-AlwaysSound,
}
use ocp_spire_operator.Objects.Sound.Health.{deployment_health-IsClean}
use ocp_spire_operator.Reconciler.{Ztwim}
use ocp_spire_operator.Reconciler.Checks.{Surroundings}
use ocp_spire_operator.Oidc.{
  deployment_available, cluster_spiffe_id_available, OidcProvider, Generated, Comparisons, Calls,
  spiffe_id, always, oidc_config_map, oidc_deployment, managed_route,
  reconcile_oidc_service_account, reconcile_oidc_service, spiffe_ids_ready, default_spiffe_id_step,
  reconcile_cluster_spiffe_ids, reconcile_oidc_config_map, reconcile_deployment,
  reconcile_oidc_cert_role, reconcile_oidc_cert_role_binding, reconcile_oidc_cert_rbac,
  reconcile_oidc_route, oidc_last_steps, from_oidc_config_map, reconcile_oidc_objects,
}

module _ {W O V : Type 0} (errors : ApiErrors) (api : ConditionsApi) (calls : Calls W O V)
    (s : Surroundings V) (generate : OidcProvider V → Ztwim → Generated O)
    (compare : Comparisons O) where
  service_account-AlwaysSound :
      (d : O) → AlwaysSound (reconcile_oidc_service_account errors api calls s generate compare d)
  unfolding reconcile_oidc_service_account
  service_account-AlwaysSound =
      ensure-AlwaysSound errors calls.objects (service_account_kind compare.fields) refl
        s.create_only

  service-AlwaysSound :
      (d : O) → AlwaysSound (reconcile_oidc_service errors api calls s generate compare d)
  unfolding reconcile_oidc_service
  service-AlwaysSound =
      ensure-AlwaysSound errors calls.objects
        (service_kind compare.fields "Service" (some "All Service resources available")) refl
        s.create_only

  spiffe_id-AlwaysSound :
      (which : String) (rest : Action W)
      → AlwaysSound rest
      → (d : O)
      → AlwaysSound (
          sync_object errors calls.objects s.create_only
            (spiffe_id compare.fields which)
            (always rest)
            d)
  spiffe_id-AlwaysSound which rest k =
      sync_object-AlwaysSound errors calls.objects s.create_only (spiffe_id compare.fields which)
        (always rest) (refl, refl, refl, refl, refl) k k k

  spiffe_ids-AlwaysSound :
      (d d' : O)
      → AlwaysSound (reconcile_cluster_spiffe_ids errors api calls s generate compare d d')
  unfolding reconcile_cluster_spiffe_ids
  spiffe_ids-AlwaysSound d d' =
      spiffe_id-AlwaysSound "OIDC" (default_spiffe_id_step errors api calls s generate compare d')
        (spiffe_id-AlwaysSound "Default" (spiffe_ids_ready errors api calls s generate compare)
          (λ m w. said-IsSound cluster_spiffe_id_available _ _ _ m w refl) d')
        d

  config_map-IsSound :
      (g : Attempt O) (hash : String) (m : Manager) (w : W)
      → IsClean m
      → IsSound (reconcile_oidc_config_map errors api calls s generate compare g hash m w).outcome
  unfolding reconcile_oidc_config_map
  config_map-IsSound g hash m w =
      apply_generated-IsSound errors calls.objects s.create_only
        (oidc_config_map compare.config_map_differs compare.fields.keep_version)
        (refl, refl, refl, refl) g _ m w (λ d d' p q. refl)
        (λ m' w'. said-IsSound config_map_available _ _ _ m' w' refl)

  deployment-AlwaysSound :
      (d : O) → AlwaysSound (reconcile_deployment errors api calls s generate compare d)
  unfolding reconcile_deployment
  deployment-AlwaysSound d m w =
      apply_object-IsSound errors calls.objects s.create_only
        (oidc_deployment compare.deployment_needs_update compare.fields.keep_version)
        (refl, refl, refl, refl) d _ m w (λ d' q. refl)
        (λ m' w' c. (
          deployment_health-IsClean (calls.get_deployment w') "spire-spiffe-oidc-discovery-provider"
              _ deployment_available m' refl c,
          inl refl,
        ))

  cert_rbac-AlwaysSound :
      (oidc : OidcProvider V) (g : Generated O)
      → AlwaysSound (reconcile_oidc_cert_rbac errors api calls s generate compare oidc g)
  unfolding reconcile_oidc_cert_rbac reconcile_oidc_cert_role reconcile_oidc_cert_role_binding
  cert_rbac-AlwaysSound oidc g =
      if_cases (λ (a : Action W). AlwaysSound a) (oidc.external_secret_ref == "") _ _
        succeeded-IsSound
        (andthen-AlwaysSound _ _
          (ensure-AlwaysSound errors calls.objects (rbac_kind compare.fields "external cert Role")
            refl s.create_only (g.external_cert_role oidc.external_secret_ref))
          (andthen-AlwaysSound _ _
            (ensure-AlwaysSound errors calls.objects
              (rbac_kind compare.fields "external cert RoleBinding") refl s.create_only
              g.external_cert_role_binding)
            (λ m w. said-IsSound rbac_available _ _ _ m w refl)))

  route-AlwaysSound :
      (oidc : OidcProvider V) (g : Attempt O)
      → AlwaysSound (reconcile_oidc_route errors api calls s generate compare oidc g)
  unfolding reconcile_oidc_route
  route-AlwaysSound oidc =
      manage_route-AlwaysSound errors calls.objects s.create_only managed_route (refl, refl, refl)
        compare.route_conflict compare.fields.keep_version oidc.managed_route
        (api.find oidc.conditions route_available)

  from_config_map-AlwaysSound :
      (oidc : OidcProvider V) (g : Generated O)
      → AlwaysSound (from_oidc_config_map errors api calls s generate compare oidc g)
  from_config_map-AlwaysSound oidc g m w c =
      with_hash-IsSound
        (reconcile_oidc_config_map errors api calls s generate compare g.config_map g.config_hash m
          w)
        (oidc_last_steps errors api calls s generate compare oidc g)
        (config_map-IsSound g.config_map g.config_hash m w c)
        (λ hash.
          andthen-AlwaysSound _ _ (deployment-AlwaysSound (g.deployment hash)) (
            andthen-AlwaysSound _ _ (cert_rbac-AlwaysSound oidc g)
              (route-AlwaysSound oidc g.route)))

  pub oidc_objects-AlwaysSound :
      (oidc : OidcProvider V) (g : Generated O)
      → AlwaysSound (reconcile_oidc_objects errors api calls s generate compare oidc g)
  unfolding reconcile_oidc_objects
  oidc_objects-AlwaysSound oidc g =
      andthen-AlwaysSound _ _ (service_account-AlwaysSound g.service_account) (
        andthen-AlwaysSound _ _ (service-AlwaysSound g.service) (
          andthen-AlwaysSound _ _ (spiffe_ids-AlwaysSound g.oidc_spiffe_id g.default_spiffe_id)
            (from_config_map-AlwaysSound oidc g)))
