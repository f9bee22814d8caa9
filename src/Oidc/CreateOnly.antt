-- ===== src/Oidc/CreateOnly.antt =====
-- The steps of the controller of the OIDC discovery provider on its objects in create-only mode.
use ocp_spire_operator.Prelude.{true, ◌≡◌, refl, String, some, if_cases, ◌==◌}
use ocp_spire_operator.Kube.{ApiErrors, ConditionsApi}
use ocp_spire_operator.Status.{Manager}
use ocp_spire_operator.Objects.{Attempt, Action, ensure}
use ocp_spire_operator.Objects.Kinds.{service_account_kind, service_kind, rbac_kind}
use ocp_spire_operator.Objects.Routing.{route_available}
use ocp_spire_operator.Objects.Sync.{sync_object}
use ocp_spire_operator.Objects.Reach.{
  Reach, idle, Reach-keeps, Creates, andthen-Creates, with_hash-Creates, ensure-Creates,
  apply_object-Reach, apply_generated-Reach, sync_object-Creates, manage_route-Creates,
}
use ocp_spire_operator.Reconciler.{Ztwim}
use ocp_spire_operator.Reconciler.Checks.{Surroundings}
use ocp_spire_operator.Oidc.{
  OidcProvider, Generated, Comparisons, Calls, spiffe_id, always, oidc_config_map, oidc_deployment,
  managed_route, reconcile_oidc_service_account, reconcile_oidc_service, spiffe_ids_ready,
  default_spiffe_id_step, reconcile_cluster_spiffe_ids, reconcile_oidc_config_map,
  reconcile_deployment, reconcile_oidc_cert_role, reconcile_oidc_cert_role_binding,
  reconcile_oidc_cert_rbac, reconcile_oidc_route, oidc_last_steps, from_oidc_config_map,
  reconcile_oidc_objects,
}

module _ {W O V : Type 0} (errors : ApiErrors) (api : ConditionsApi) (calls : Calls W O V)
    (s : Surroundings V) (generate : OidcProvider V → Ztwim → Generated O) (compare : Comparisons O)
    (only : s.create_only ≡ true) where
  service_account-Creates :
      (d : O)
      → Creates calls.objects (reconcile_oidc_service_account errors api calls s generate compare d)
  unfolding reconcile_oidc_service_account
  service_account-Creates =
      rw only (ensure-Creates errors calls.objects (service_account_kind compare.fields))

  service-Creates :
      (d : O) → Creates calls.objects (reconcile_oidc_service errors api calls s generate compare d)
  unfolding reconcile_oidc_service
  service-Creates = rw only (
      ensure-Creates errors calls.objects
        (service_kind compare.fields "Service" (some "All Service resources available")))

  spiffe_id-Creates :
      (which : String) (rest : Action W)
      → Creates calls.objects rest
      → (d : O)
      → Creates calls.objects (
          sync_object errors calls.objects s.create_only
            (spiffe_id compare.fields which)
            (always rest)
            d)
  spiffe_id-Creates which rest k =
      rw only (
        sync_object-Creates errors calls.objects (spiffe_id compare.fields which) (always rest) k k)

  spiffe_ids-Creates :
      (d d' : O)
      → Creates calls.objects
          (reconcile_cluster_spiffe_ids errors api calls s generate compare d d')
  unfolding reconcile_cluster_spiffe_ids
  spiffe_ids-Creates d d' =
      spiffe_id-Creates "OIDC" (default_spiffe_id_step errors api calls s generate compare d')
        (spiffe_id-Creates "Default" (spiffe_ids_ready errors api calls s generate compare)
          (idle calls.objects (λ m w. refl)) d')
        d

  config_map-Creates :
      (g : Attempt O) (hash : String) (m : Manager) (w : W)
      → Reach calls.objects w
          (reconcile_oidc_config_map errors api calls s generate compare g hash m w).outcome.cluster
  unfolding reconcile_oidc_config_map
  config_map-Creates g hash m w = rw only (
      apply_generated-Reach errors calls.objects
        (oidc_config_map compare.config_map_differs compare.fields.keep_version) g _ m w
        (idle calls.objects (λ m' w'. refl)))

  deployment-Creates :
      (d : O) → Creates calls.objects (reconcile_deployment errors api calls s generate compare d)
  unfolding reconcile_deployment
  deployment-Creates d = record {
    creates = λ m w. rw only (
        apply_object-Reach errors calls.objects
          (oidc_deployment compare.deployment_needs_update compare.fields.keep_version) d _ m w
          (idle calls.objects (λ m' w'. refl)));
  }

  role :
      (label : String) (d : O)
      → Creates calls.objects
          (ensure errors calls.objects (rbac_kind compare.fields label) s.create_only d)
  role label = rw only (ensure-Creates errors calls.objects (rbac_kind compare.fields label))

  cert_rbac-Creates :
      (oidc : OidcProvider V) (g : Generated O)
      → Creates calls.objects (reconcile_oidc_cert_rbac errors api calls s generate compare oidc g)
  unfolding reconcile_oidc_cert_rbac reconcile_oidc_cert_role reconcile_oidc_cert_role_binding
  cert_rbac-Creates oidc g =
      if_cases (λ (a : Action W). Creates calls.objects a) (oidc.external_secret_ref == "") _ _
        (idle calls.objects (λ m w. refl))
        (andthen-Creates calls.objects _ _
          (role "external cert Role" (g.external_cert_role oidc.external_secret_ref))
          (andthen-Creates calls.objects _ _
            (role "external cert RoleBinding" g.external_cert_role_binding)
            (idle calls.objects (λ m w. refl))))

  route-Creates :
      (oidc : OidcProvider V) (g : Attempt O)
      → Creates calls.objects (reconcile_oidc_route errors api calls s generate compare oidc g)
  unfolding reconcile_oidc_route
  route-Creates oidc = rw only (
      manage_route-Creates errors calls.objects managed_route compare.route_conflict
        compare.fields.keep_version oidc.managed_route (api.find oidc.conditions route_available))

  from_config_map-Creates :
      (oidc : OidcProvider V) (g : Generated O)
      → Creates calls.objects (from_oidc_config_map errors api calls s generate compare oidc g)
  from_config_map-Creates oidc g = record {
    creates = λ m w.
        with_hash-Creates calls.objects w
          (reconcile_oidc_config_map errors api calls s generate compare g.config_map g.config_hash
            m w)
          (oidc_last_steps errors api calls s generate compare oidc g)
          (config_map-Creates g.config_map g.config_hash m w)
          (λ hash. andthen-Creates calls.objects _ _ (deployment-Creates (g.deployment hash)) (
            andthen-Creates calls.objects _ _ (cert_rbac-Creates oidc g)
              (route-Creates oidc g.route)));
  }

  objects-Creates :
      (oidc : OidcProvider V) (g : Generated O)
      → Creates calls.objects (reconcile_oidc_objects errors api calls s generate compare oidc g)
  unfolding reconcile_oidc_objects
  objects-Creates oidc g =
      andthen-Creates calls.objects _ _ (service_account-Creates g.service_account) (
        andthen-Creates calls.objects _ _ (service-Creates g.service) (
          andthen-Creates calls.objects _ _
            (spiffe_ids-Creates g.oidc_spiffe_id g.default_spiffe_id)
            (from_config_map-Creates oidc g)))

  -- In create-only mode, what holds of the cluster and every `Create` keeps, a run of the steps of the
  -- OIDC discovery provider's controller keeps, whatever it finds and whichever step fails.
  pub reconcile_oidc_objects-keeps :
      (P : W → Type 0)
      → ((d : O) (v : W) → P v → P (calls.objects.create d v).1)
      → (oidc : OidcProvider V) (g : Generated O) (m : Manager) (w : W) → P w
      → P (reconcile_oidc_objects errors api calls s generate compare oidc g m w).cluster
  reconcile_oidc_objects-keeps P closed oidc g m w =
      Reach-keeps calls.objects P closed ((objects-Creates oidc g).creates m w)
