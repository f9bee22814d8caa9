-- ===== src/Server/Controller/CreateOnly.antt =====
-- The steps of the SpireServer controller on its objects in create-only mode.
use ocp_spire_operator.Prelude.{Bool, true, ◌≡◌, refl, String, Option, none, some, if_cases, ◌==◌}
use ocp_spire_operator.Kube.{MetaCondition, Error, ApiErrors, ConditionsApi}
use ocp_spire_operator.Status.{Manager}
use ocp_spire_operator.Status.Health.{Got, StatefulSet}
use ocp_spire_operator.Objects.{
  Attempt, done, failed, Outcome, Action, ◌andthen◌, ObjectClient, ensure,
}
use ocp_spire_operator.Objects.Kinds.{Fields, service_account_kind, service_kind, rbac_kind}
use ocp_spire_operator.Objects.Apply.{fails_late, hashed_with}
use ocp_spire_operator.Objects.Routing.{route_available}
use ocp_spire_operator.Objects.Reach.{
  Reach, here, idle, creating, Creates, andthen-Creates, with_hash-Creates, ensure-Creates,
  apply_object-Reach, apply_generated-Reach, manage_route-Creates,
}
use ocp_spire_operator.Reconciler.{Ztwim}
use ocp_spire_operator.Reconciler.Checks.{Surroundings}
use ocp_spire_operator.Server.Federation.{FederationConfig}
use ocp_spire_operator.Server.Resources.{
  Wanted, reconcile_service_account, reconcile_spire_server_service,
  reconcile_spire_controller_manager_service, reconcile_service, reconcile_cluster_role,
  reconcile_cluster_role_binding, reconcile_spire_bundle_role, reconcile_spire_bundle_role_binding,
  reconcile_controller_manager_cluster_role, reconcile_controller_manager_cluster_role_binding,
  reconcile_leader_election_role, reconcile_leader_election_role_binding,
  reconcile_external_cert_role, reconcile_external_cert_role_binding, reconcile_external_cert_rbac,
  reconcile_rbac, reconcile_webhook, webhook_kind, get_external_secret_ref_from_server,
}
use ocp_spire_operator.Server.Configs.{
  stateful_set, server_config_map, controller_manager_config_map, federation_route,
  reconcile_spire_server_config_map, reconcile_spire_controller_manager_config_map, bundle_created,
  bundle_owned, reconcile_spire_bundle_config_map, reconcile_stateful_set, reconcile_route,
}
use ocp_spire_operator.Server.Checks.{SpireServer}
use ocp_spire_operator.Server.Controller.{
  Generated, Comparisons, Calls, server_map, manager_map, last_steps, from_manager_map,
  from_server_map, reconcile_objects,
}

hashed-Reach :
    {W O : Type 0} (client : ObjectClient W O) (w : W) (hash : Attempt String) (o : Outcome W)
    → Reach client w o.cluster
    → Reach client w (hashed_with hash o).outcome.cluster
hashed-Reach client w (done hash) o h = h
hashed-Reach client w (failed e) o h = late o.error
  where
    late : (x : Option Error) → Reach client w (fails_late x e o).cluster
    late none = h
    late (some y) = h

module _ {W O : Type 0} (errors : ApiErrors) (client : ObjectClient W O) where
  module _ (fields : Fields O) (wanted : Wanted O) where
    service-Creates : Creates client (reconcile_service errors client fields wanted true)
    unfolding reconcile_service reconcile_spire_server_service
        reconcile_spire_controller_manager_service
    service-Creates =
        andthen-Creates client _ _
          (ensure-Creates errors client (service_kind fields "Service" none) wanted.server_service)
          (andthen-Creates client _ _
            (ensure-Creates errors client (service_kind fields "Controller Manager Service" none)
              wanted.manager_service)
            (idle client (λ m w. refl)))

    role :
        (label : String) (desired : O)
        → Creates client (ensure errors client (rbac_kind fields label) true desired)
    role label = ensure-Creates errors client (rbac_kind fields label)

    external_cert-Creates :
        (federation : Option FederationConfig)
        → Creates client (reconcile_external_cert_rbac errors client fields wanted true federation)
    unfolding reconcile_external_cert_rbac reconcile_external_cert_role
        reconcile_external_cert_role_binding
    external_cert-Creates federation =
        if_cases (λ (a : Action W). Creates client a)
          (get_external_secret_ref_from_server federation == "") _ _ (idle client (λ m w. refl))
          (andthen-Creates client _ _
            (role "external cert Role"
              (wanted.external_cert_role (get_external_secret_ref_from_server federation)))
            (role "external cert RoleBinding" wanted.external_cert_role_binding))

    -- The roles of the controller manager and of the leader election, and what follows them.
    manager_roles-Creates :
        (rest : Action W)
        → Creates client rest
        → Creates client (
            reconcile_controller_manager_cluster_role errors client fields wanted true
            andthen reconcile_controller_manager_cluster_role_binding errors client fields wanted
                true
            andthen reconcile_leader_election_role errors client fields wanted true
            andthen reconcile_leader_election_role_binding errors client fields wanted true
            andthen rest)
    unfolding reconcile_controller_manager_cluster_role
        reconcile_controller_manager_cluster_role_binding reconcile_leader_election_role
        reconcile_leader_election_role_binding
    manager_roles-Creates rest k =
        andthen-Creates client _ _
          (role "Controller Manager ClusterRole" wanted.manager_cluster_role)
          (andthen-Creates client _ _
            (role "Controller Manager ClusterRoleBinding" wanted.manager_cluster_role_binding)
            (andthen-Creates client _ _ (role "Leader Election Role" wanted.leader_election_role) (
              andthen-Creates client _ _
                (role "Leader Election RoleBinding" wanted.leader_election_role_binding) k)))

    rbac-Creates :
        (federation : Option FederationConfig)
        → Creates client (reconcile_rbac errors client fields wanted true federation)
    unfolding reconcile_rbac reconcile_cluster_role reconcile_cluster_role_binding
        reconcile_spire_bundle_role reconcile_spire_bundle_role_binding
    rbac-Creates federation = andthen-Creates client _ _ (role "ClusterRole" wanted.cluster_role) (
        andthen-Creates client _ _ (role "ClusterRoleBinding" wanted.cluster_role_binding) (
          andthen-Creates client _ _ (role "Bundle Role" wanted.bundle_role) (
            andthen-Creates client _ _ (role "Bundle RoleBinding" wanted.bundle_role_binding) (
              manager_roles-Creates _ (
                andthen-Creates client _ _ (external_cert-Creates federation)
                  (idle client (λ m w. refl)))))))

    -- The steps before the ConfigMaps.
    static-Creates :
        (b : Bool) (federation : Option FederationConfig) (rest : Action W)
        → b ≡ true
        → Creates client rest
        → Creates client (
            reconcile_service_account errors client fields wanted b
            andthen reconcile_service errors client fields wanted b
            andthen reconcile_rbac errors client fields wanted b federation
            andthen reconcile_webhook errors client fields wanted b
            andthen rest)
    unfolding reconcile_service_account reconcile_webhook
    static-Creates b federation rest q k = rw q (
        andthen-Creates client _ _
          (ensure-Creates errors client (service_account_kind fields) wanted.service_account)
          (andthen-Creates client _ _ service-Creates (
            andthen-Creates client _ _ (rbac-Creates federation) (
              andthen-Creates client _ _
                (ensure-Creates errors client (webhook_kind errors client fields wanted true)
                  wanted.webhook)
                k))))

  bundle_created-Reach :
      (w : W) (r : Option Error × W) (m : Manager)
      → Reach client w r.1
      → Reach client w (bundle_created errors client true r m).cluster
  bundle_created-Reach w (none, v) m h = h
  bundle_created-Reach w (some e, v) m h =
      if_cases (λ (o : Outcome W). Reach client w o.cluster) (errors.is_already_exists e) _ _ h h

  bundle-Reach :
      (g : Attempt O) (m : Manager) (w : W)
      → Reach client w (reconcile_spire_bundle_config_map errors client true g m w).cluster
  unfolding reconcile_spire_bundle_config_map
  bundle-Reach (failed e) m w = here
  bundle-Reach (done d) m w = owned (client.set_controller_reference d)
    where
      owned : (x : Attempt O) → Reach client w (bundle_owned errors client true x m w).cluster
      owned (failed e) = here
      owned (done x) = bundle_created-Reach w (client.create x w) m (creating here x)

  bundle-Creates :
      (g : Attempt O) → Creates client (reconcile_spire_bundle_config_map errors client true g)
  bundle-Creates g = record { creates = bundle-Reach g }

  module _ (differs : O → O → Bool) (keep : O → O → O) where
    server_map-Creates :
        (g : Attempt O) (hash : Attempt String) (m : Manager) (w : W)
        → Reach client w
            (reconcile_spire_server_config_map errors client true differs keep g hash m
              w).outcome.cluster
    unfolding reconcile_spire_server_config_map
    server_map-Creates g hash m w = hashed-Reach client w hash _ (
        apply_generated-Reach errors client (server_config_map differs keep) g _ m w
          (idle client (λ m' w'. refl)))

    manager_map-Creates :
        (g : Attempt O) (hash : String) (m : Manager) (w : W)
        → Reach client w
            (reconcile_spire_controller_manager_config_map errors client true differs keep g hash m
              w).outcome.cluster
    unfolding reconcile_spire_controller_manager_config_map
    manager_map-Creates g hash m w =
        apply_generated-Reach errors client (controller_manager_config_map differs keep) g _ m w
          (idle client (λ m' w'. refl))

    stateful_set-Reach :
        (d : O) (read : W → Got StatefulSet) (ns : String) (m : Manager) (w : W)
        → Reach client w
            (reconcile_stateful_set errors client true differs keep d read ns m w).cluster
    unfolding reconcile_stateful_set
    stateful_set-Reach d read ns m w =
        apply_object-Reach errors client (stateful_set differs keep) d _ m w
          (idle client (λ m' w'. refl))

    stateful_set-Creates :
        (d : O) (read : W → Got StatefulSet) (ns : String)
        → Creates client (reconcile_stateful_set errors client true differs keep d read ns)
    stateful_set-Creates d read ns = record { creates = stateful_set-Reach d read ns }

    route-Creates :
        (published : Option MetaCondition) (f : Option FederationConfig) (d : O)
        → Creates client (reconcile_route errors client true differs keep published f d)
    unfolding reconcile_route
    route-Creates published none d = idle client (λ m w. refl)
    route-Creates published (some f) d = record {
      creates = λ m w.
          (manage_route-Creates errors client federation_route differs keep f.managed_route
              published (done d)).creates
            m w;
    }

module _ {W O V : Type 0} (errors : ApiErrors) (api : ConditionsApi) (calls : Calls W O V)
    (s : Surroundings V) (generate : SpireServer V → Ztwim → Generated O) (compare : Comparisons O)
    (only : s.create_only ≡ true) where
  last_steps-Creates :
      (server : SpireServer V) (ztwim : Ztwim) (server_hash manager_hash : String)
      → Creates calls.objects
          (last_steps errors api calls s generate compare server ztwim server_hash manager_hash)
  last_steps-Creates server ztwim server_hash manager_hash =
      let g = generate server ztwim in
      let keep = compare.fields.keep_version in
      rw only (
        andthen-Creates calls.objects _ _ (bundle-Creates errors calls.objects g.bundle_config_map)
          (andthen-Creates calls.objects _ _
            (stateful_set-Creates errors calls.objects compare.stateful_set_needs_update keep
              (g.stateful_set server_hash manager_hash) calls.get_stateful_set
              s.environment.operator_namespace)
            (route-Creates errors calls.objects compare.route_conflict keep
              (api.find server.conditions route_available) server.federation g.route)))

  from_manager_map-Creates :
      (server : SpireServer V) (ztwim : Ztwim) (server_hash : String)
      → Creates calls.objects
          (from_manager_map errors api calls s generate compare server ztwim server_hash)
  from_manager_map-Creates server ztwim server_hash = record {
    creates = λ m w.
        let g = generate server ztwim in
        with_hash-Creates calls.objects w
          (manager_map errors api calls s generate compare server ztwim m w)
          (last_steps errors api calls s generate compare server ztwim server_hash)
          (rw only (
            manager_map-Creates errors calls.objects compare.manager_config_differs
              compare.fields.keep_version g.manager_config_map g.manager_config_hash m w))
          (last_steps-Creates server ztwim server_hash);
  }

  from_server_map-Creates :
      (server : SpireServer V) (ztwim : Ztwim)
      → Creates calls.objects (from_server_map errors api calls s generate compare server ztwim)
  from_server_map-Creates server ztwim = record {
    creates = λ m w.
        let g = generate server ztwim in
        with_hash-Creates calls.objects w
          (server_map errors api calls s generate compare server ztwim m w)
          (from_manager_map errors api calls s generate compare server ztwim)
          (rw only (
            server_map-Creates errors calls.objects compare.server_config_differs
              compare.fields.keep_version g.server_config_map g.server_config_hash m w))
          (from_manager_map-Creates server ztwim);
  }

  -- In create-only mode, the steps of the SpireServer controller from the service account to the route
  -- change the cluster by calls of `Create` alone, whatever they find and whichever of them fails.
  pub reconcile_objects-Reach :
      (server : SpireServer V) (ztwim : Ztwim) (m : Manager) (w : W)
      → Reach calls.objects w
          (reconcile_objects errors api calls s generate compare server ztwim m w).cluster
  unfolding reconcile_objects
  reconcile_objects-Reach server ztwim m w =
      (static-Creates errors calls.objects compare.fields (generate server ztwim).wanted
          s.create_only server.federation
          (from_server_map errors api calls s generate compare server ztwim) only
          (from_server_map-Creates server ztwim)).creates
        m w
