-- ===== src/Server/Controller/Sound.antt =====
-- The steps of the SpireServer controller on its objects are sound.
use ocp_spire_operator.Prelude.{
  Bool, true, ◌≡◌, refl, inl, String, Option, none, some, if_cases, ◌==◌,
}
use ocp_spire_operator.Kube.{MetaCondition, Error, ApiErrors}
use ocp_spire_operator.Status.{Manager}
use ocp_spire_operator.Status.Health.{Got, get_failed, StatefulSet}
use ocp_spire_operator.Objects.{
  Attempt, done, failed, Outcome, Action, ◌andthen◌, ObjectClient, ensure,
}
use ocp_spire_operator.Objects.Kinds.{
  Fields, service_account_kind, service_kind, rbac_kind, service_available, rbac_available,
}
use ocp_spire_operator.Objects.Sound.{
  IsClean, IsSound, AlwaysSound, succeeded-IsSound, said-IsSound, fails-IsSound,
  andthen-AlwaysSound, ensure-AlwaysSound,
}
use ocp_spire_operator.Objects.Sound.Steps.{
  apply_object-IsSound, apply_generated-IsSound, manage_route-AlwaysSound,
}
use ocp_spire_operator.Objects.Sound.Health.{stateful_set_health-IsClean}
use ocp_spire_operator.Server.Federation.{FederationConfig}
use ocp_spire_operator.Server.Resources.{
  Wanted, reconcile_service_account, reconcile_spire_server_service,
  reconcile_spire_controller_manager_service, reconcile_service, reconcile_cluster_role,
  reconcile_cluster_role_binding, reconcile_spire_bundle_role, reconcile_spire_bundle_role_binding,
  reconcile_controller_manager_cluster_role, reconcile_controller_manager_cluster_role_binding,
  reconcile_leader_election_role, reconcile_leader_election_role_binding,
  reconcile_external_cert_role, reconcile_external_cert_role_binding, reconcile_external_cert_rbac,
  reconcile_rbac, reconcile_webhook, webhook_kind, get_external_secret_ref_from_server,
}
use ocp_spire_operator.Server.Configs.{
  bundle_config_available, stateful_set, server_config_map, controller_manager_config_map,
  federation_route, reconcile_spire_server_config_map,
  reconcile_spire_controller_manager_config_map, bundle_created, bundle_owned,
  reconcile_spire_bundle_config_map, reconcile_stateful_set, reconcile_route,
}

module _ {W O : Type 0} (errors : ApiErrors) (client : ObjectClient W O) (create_only : Bool) where
  module _ (fields : Fields O) (wanted : Wanted O) where
    pub service_account-AlwaysSound :
        AlwaysSound (reconcile_service_account errors client fields wanted create_only)
    unfolding reconcile_service_account
    service_account-AlwaysSound =
        ensure-AlwaysSound errors client (service_account_kind fields) refl create_only
          wanted.service_account

    pub service-AlwaysSound :
        AlwaysSound (reconcile_service errors client fields wanted create_only)
    unfolding reconcile_service reconcile_spire_server_service
        reconcile_spire_controller_manager_service
    service-AlwaysSound =
        andthen-AlwaysSound _ _
          (ensure-AlwaysSound errors client (service_kind fields "Service" none) refl create_only
            wanted.server_service)
          (andthen-AlwaysSound _ _
            (ensure-AlwaysSound errors client
              (service_kind fields "Controller Manager Service" none) refl create_only
              wanted.manager_service)
            (λ m w. said-IsSound service_available _ _ _ m w refl))

    role :
        (label : String) (desired : O)
        → AlwaysSound (ensure errors client (rbac_kind fields label) create_only desired)
    role label = ensure-AlwaysSound errors client (rbac_kind fields label) refl create_only

    external_cert-AlwaysSound :
        (federation : Option FederationConfig)
        → AlwaysSound
            (reconcile_external_cert_rbac errors client fields wanted create_only federation)
    unfolding reconcile_external_cert_rbac reconcile_external_cert_role
        reconcile_external_cert_role_binding
    external_cert-AlwaysSound federation =
        if_cases (λ (a : Action W). AlwaysSound a)
          (get_external_secret_ref_from_server federation == "") _ _ succeeded-IsSound
          (andthen-AlwaysSound _ _
            (role "external cert Role"
              (wanted.external_cert_role (get_external_secret_ref_from_server federation)))
            (role "external cert RoleBinding" wanted.external_cert_role_binding))

    -- The roles of the controller manager and of the leader election, and what follows them.
    manager_roles-AlwaysSound :
        (rest : Action W)
        → AlwaysSound rest
        → AlwaysSound (
            reconcile_controller_manager_cluster_role errors client fields wanted create_only
            andthen reconcile_controller_manager_cluster_role_binding errors client fields wanted
                create_only
            andthen reconcile_leader_election_role errors client fields wanted create_only
            andthen reconcile_leader_election_role_binding errors client fields wanted create_only
            andthen rest)
    unfolding reconcile_controller_manager_cluster_role
        reconcile_controller_manager_cluster_role_binding reconcile_leader_election_role
        reconcile_leader_election_role_binding
    manager_roles-AlwaysSound rest k =
        andthen-AlwaysSound _ _ (role "Controller Manager ClusterRole" wanted.manager_cluster_role)
          (andthen-AlwaysSound _ _
            (role "Controller Manager ClusterRoleBinding" wanted.manager_cluster_role_binding)
            (andthen-AlwaysSound _ _ (role "Leader Election Role" wanted.leader_election_role) (
              andthen-AlwaysSound _ _
                (role "Leader Election RoleBinding" wanted.leader_election_role_binding) k)))

    pub rbac-AlwaysSound :
        (federation : Option FederationConfig)
        → AlwaysSound (reconcile_rbac errors client fields wanted create_only federation)
    unfolding reconcile_rbac reconcile_cluster_role reconcile_cluster_role_binding
        reconcile_spire_bundle_role reconcile_spire_bundle_role_binding
    rbac-AlwaysSound federation = andthen-AlwaysSound _ _ (role "ClusterRole" wanted.cluster_role) (
        andthen-AlwaysSound _ _ (role "ClusterRoleBinding" wanted.cluster_role_binding) (
          andthen-AlwaysSound _ _ (role "Bundle Role" wanted.bundle_role) (
            andthen-AlwaysSound _ _ (role "Bundle RoleBinding" wanted.bundle_role_binding) (
              manager_roles-AlwaysSound _ (
                andthen-AlwaysSound _ _ (external_cert-AlwaysSound federation)
                  (λ m w. said-IsSound rbac_available _ _ _ m w refl))))))

    pub webhook-AlwaysSound :
        AlwaysSound (reconcile_webhook errors client fields wanted create_only)
    unfolding reconcile_webhook
    webhook-AlwaysSound =
        ensure-AlwaysSound errors client (webhook_kind errors client fields wanted create_only) refl
          create_only wanted.webhook

  module _ (differs : O → O → Bool) (keep : O → O → O) where
    pub server_config_map-IsSound :
        (g : Attempt O) (json_hash : Attempt String) (m : Manager) (w : W)
        → ((h : String) × (json_hash ≡ done h))
        → IsClean m
        → IsSound
            (reconcile_spire_server_config_map errors client create_only differs keep g json_hash m
              w).outcome
    unfolding reconcile_spire_server_config_map
    server_config_map-IsSound g json_hash m w (h, q) = rw q (
        apply_generated-IsSound errors client create_only (server_config_map differs keep)
          (refl, refl, refl, refl) g _ m w (λ d d' p q. refl)
          (λ m' w'. said-IsSound "ServerConfigMapAvailable" _ _ _ m' w' refl))

    pub manager_config_map-IsSound :
        (g : Attempt O) (hash : String) (m : Manager) (w : W)
        → ((d d' : O) (e : Error)
            → g ≡ done d
            → client.set_controller_reference d ≡ done d'
            → client.get d' w ≡ get_failed e
            → errors.is_not_found e ≡ true)
        → IsClean m
        → IsSound
            (reconcile_spire_controller_manager_config_map errors client create_only differs keep g
              hash m w).outcome
    unfolding reconcile_spire_controller_manager_config_map
    manager_config_map-IsSound g hash m w reads =
        apply_generated-IsSound errors client create_only
          (controller_manager_config_map differs keep) (refl, refl, refl, refl) g _ m w
          (λ d d' p q e l. reads d d' e p q l)
          (λ m' w'. said-IsSound "ControllerManagerConfigAvailable" _ _ _ m' w' refl)

  bundle_created-IsSound :
      (r : Option Error × W) (m : Manager)
      → IsClean m
      → IsSound (bundle_created errors client create_only r m)
  bundle_created-IsSound (none, w) m c = said-IsSound bundle_config_available _ _ _ m w refl c
  bundle_created-IsSound (some e, w) m c =
      if_cases (λ (x : Outcome W). IsSound x) (errors.is_already_exists e) _ _
        (said-IsSound bundle_config_available _ _ _ m w refl c)
        (fails-IsSound bundle_config_available _ _ _ m w refl refl c)

  pub bundle-AlwaysSound :
      (g : Attempt O) → AlwaysSound (reconcile_spire_bundle_config_map errors client create_only g)
  unfolding reconcile_spire_bundle_config_map
  bundle-AlwaysSound (failed e) m w = fails-IsSound bundle_config_available _ _ e m w refl refl
  bundle-AlwaysSound (done d) m w = owned (client.set_controller_reference d)
    where
      owned : (x : Attempt O) → IsClean m → IsSound (bundle_owned errors client create_only x m w)
      owned (failed e) = fails-IsSound bundle_config_available _ _ e m w refl refl
      owned (done d') = bundle_created-IsSound (client.create d' w) m

  pub route-AlwaysSound :
      (conflict : O → O → Bool) (keep : O → O → O) (published : Option MetaCondition)
      (f : Option FederationConfig) (d : O)
      → AlwaysSound (reconcile_route errors client create_only conflict keep published f d)
  unfolding reconcile_route
  route-AlwaysSound conflict keep published none d m w = succeeded-IsSound m w
  route-AlwaysSound conflict keep published (some f) d m w =
      manage_route-AlwaysSound errors client create_only federation_route (refl, refl, refl)
        conflict keep f.managed_route published (done d) m w

  pub stateful_set-AlwaysSound :
      (differs : O → O → Bool) (keep : O → O → O) (d : O) (read : W → Got StatefulSet) (ns : String)
      → AlwaysSound (reconcile_stateful_set errors client create_only differs keep d read ns)
  unfolding reconcile_stateful_set
  stateful_set-AlwaysSound differs keep d read ns m w =
      apply_object-IsSound errors client create_only (stateful_set differs keep)
        (refl, refl, refl, refl) d _ m w (λ d' q. refl)
        (λ m' w' c. (stateful_set_health-IsClean (read w') "spire-server" ns _ m' refl c, inl refl))
