-- ===== src/Server/Resources.antt =====
-- The steps of the SpireServer controller on its service account, services, roles and webhook, in
-- pkg/controller/spire-server/{service_account,service,rbac,webhook}.go. Each is the step of `Objects`
-- with the texts of its kind. What the wanted objects are is an argument.
use ocp_spire_operator.Prelude.{Bool, String, Option, none, some, ◌==◌, if◌then◌else◌}
use ocp_spire_operator.Kube.{ApiErrors}
use ocp_spire_operator.Objects.{Action, succeeded, ◌andthen◌, ObjectClient, Kind, ensure}
use ocp_spire_operator.Objects.Kinds.{
  Fields, service_available, rbac_available, all_available, kept, service_account_kind,
  service_kind, rbac_kind,
}
use ocp_spire_operator.Server.Federation.{FederationConfig}

abbrev validating_webhook_available : String
validating_webhook_available = "ValidatingWebhookAvailable"

-- The objects that the controller wants.
pub record Wanted (O : Type 0) : Type 0 where
  pub service_account : O
  pub server_service : O
  pub manager_service : O
  pub cluster_role : O
  pub cluster_role_binding : O
  pub bundle_role : O
  pub bundle_role_binding : O
  pub manager_cluster_role : O
  pub manager_cluster_role_binding : O
  pub leader_election_role : O
  pub leader_election_role_binding : O
  -- With the name of the secret among its rules.
  pub external_cert_role : String → O
  pub external_cert_role_binding : O
  pub webhook : O

unfoldable pub get_external_secret_ref_from_server : Option FederationConfig → String
get_external_secret_ref_from_server none = ""
get_external_secret_ref_from_server (some f) = elim f.bundle_endpoint.https_web [
  | none ↦ ""
  | some web ↦ elim web.serving_cert [ none ↦ "" | some cert ↦ cert.external_secret_ref ]
]

module _ {W O : Type 0} (errors : ApiErrors) (client : ObjectClient W O) (fields : Fields O)
    (wanted : Wanted O) (create_only : Bool) where
  unfoldable pub reconcile_service_account : Action W
  reconcile_service_account =
      ensure errors client (service_account_kind fields) create_only wanted.service_account

  unfoldable pub reconcile_spire_server_service : Action W
  reconcile_spire_server_service =
      ensure errors client (service_kind fields "Service" none) create_only wanted.server_service

  unfoldable pub reconcile_spire_controller_manager_service : Action W
  reconcile_spire_controller_manager_service =
      ensure errors client (service_kind fields "Controller Manager Service" none) create_only
        wanted.manager_service

  unfoldable pub reconcile_service : Action W
  reconcile_service =
      reconcile_spire_server_service
      andthen reconcile_spire_controller_manager_service
      andthen all_available service_available "All Service resources available"

  unfoldable pub reconcile_cluster_role : Action W
  reconcile_cluster_role =
      ensure errors client (rbac_kind fields "ClusterRole") create_only wanted.cluster_role

  unfoldable pub reconcile_cluster_role_binding : Action W
  reconcile_cluster_role_binding =
      ensure errors client (rbac_kind fields "ClusterRoleBinding") create_only
        wanted.cluster_role_binding

  unfoldable pub reconcile_spire_bundle_role : Action W
  reconcile_spire_bundle_role =
      ensure errors client (rbac_kind fields "Bundle Role") create_only wanted.bundle_role

  unfoldable pub reconcile_spire_bundle_role_binding : Action W
  reconcile_spire_bundle_role_binding =
      ensure errors client (rbac_kind fields "Bundle RoleBinding") create_only
        wanted.bundle_role_binding

  unfoldable pub reconcile_controller_manager_cluster_role : Action W
  reconcile_controller_manager_cluster_role =
      ensure errors client (rbac_kind fields "Controller Manager ClusterRole") create_only
        wanted.manager_cluster_role

  unfoldable pub reconcile_controller_manager_cluster_role_binding : Action W
  reconcile_controller_manager_cluster_role_binding =
      ensure errors client (rbac_kind fields "Controller Manager ClusterRoleBinding") create_only
        wanted.manager_cluster_role_binding

  unfoldable pub reconcile_leader_election_role : Action W
  reconcile_leader_election_role =
      ensure errors client (rbac_kind fields "Leader Election Role") create_only
        wanted.leader_election_role

  unfoldable pub reconcile_leader_election_role_binding : Action W
  reconcile_leader_election_role_binding =
      ensure errors client (rbac_kind fields "Leader Election RoleBinding") create_only
        wanted.leader_election_role_binding

  unfoldable pub reconcile_external_cert_role : String → Action W
  reconcile_external_cert_role external_secret_ref =
      ensure errors client (rbac_kind fields "external cert Role") create_only
        (wanted.external_cert_role external_secret_ref)

  unfoldable pub reconcile_external_cert_role_binding : Action W
  reconcile_external_cert_role_binding =
      ensure errors client (rbac_kind fields "external cert RoleBinding") create_only
        wanted.external_cert_role_binding

  unfoldable pub reconcile_external_cert_rbac : Option FederationConfig → Action W
  reconcile_external_cert_rbac federation =
      if get_external_secret_ref_from_server federation == ""
      then succeeded
      else reconcile_external_cert_role (get_external_secret_ref_from_server federation)
        andthen reconcile_external_cert_role_binding

  unfoldable pub reconcile_rbac : Option FederationConfig → Action W
  reconcile_rbac federation =
      reconcile_cluster_role
      andthen reconcile_cluster_role_binding
      andthen reconcile_spire_bundle_role
      andthen reconcile_spire_bundle_role_binding
      andthen reconcile_controller_manager_cluster_role
      andthen reconcile_controller_manager_cluster_role_binding
      andthen reconcile_leader_election_role
      andthen reconcile_leader_election_role_binding
      andthen reconcile_external_cert_rbac federation
      andthen all_available rbac_available "All RBAC resources available"

  abbrev pub webhook_kind : Kind O
  webhook_kind =
      kept fields fields.keep_webhook_fields validating_webhook_available
        "ValidatingWebhookConfiguration"
        (some "All ValidatingWebhookConfiguration resources available")

  unfoldable pub reconcile_webhook : Action W
  reconcile_webhook = ensure errors client webhook_kind create_only wanted.webhook
