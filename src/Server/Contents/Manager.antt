-- ===== src/Server/Contents/Manager.antt =====
-- The configuration of the SPIRE controller manager, in pkg/controller/spire-server/configmap.go.
use ocp_spire_operator.Prelude.{Bool, true, false, String, List, [], ◌∷◌, ◌==◌, if◌then◌else◌}
use ocp_spire_operator.Prelude.Dict.{Dict}
use ocp_spire_operator.Kube.{text_error}
use ocp_spire_operator.Objects.{Attempt, done, failed}
use ocp_spire_operator.Labels.{spire_controller_manager_labels}
use ocp_spire_operator.Server.Contents.{Environs, ServerSpec, ZtwimSpec, ConfigMap}

-- The configuration of the controller manager, its nested structures spread out.
pub record ControllerManagerConfig : Type 0 where
  pub kind : String
  pub api_version : String
  pub name : String
  pub namespace : String
  pub labels : Dict String
  pub cluster_name : String
  pub trust_domain : String
  pub metrics_bind_address : String
  pub health_probe_bind_address : String
  pub entry_id_prefix : String
  pub watch_classless : Bool
  pub class_name : String
  pub parent_id_template : String
  pub cluster_spiffe_ids : Bool
  pub cluster_federated_trust_domains : Bool
  pub cluster_static_entries : Bool
  pub validating_webhook_configuration_name : String
  pub spire_server_socket_path : String
  pub ignore_namespaces : List String

module _ (v : Environs) (config : ServerSpec) (ztwim : ZtwimSpec) where
  unfoldable generate_controller_manager_config : Attempt ControllerManagerConfig
  generate_controller_manager_config =
      if ztwim.trust_domain == ""
      then failed (text_error "trust_domain is empty")
      else if ztwim.cluster_name == ""
      then failed (text_error "cluster name is empty")
      else done (record {
        kind = "ControllerManagerConfig";
        api_version = "spire.spiffe.io/v1alpha1";
        name = "spire-controller-manager";
        namespace = v.namespace;
        labels = spire_controller_manager_labels v.versions config.labels;
        cluster_name = ztwim.cluster_name;
        trust_domain = ztwim.trust_domain;
        metrics_bind_address = "0.0.0.0:8082";
        health_probe_bind_address = "0.0.0.0:8083";
        entry_id_prefix = ztwim.cluster_name;
        watch_classless = false;
        class_name = "zero-trust-workload-identity-manager-spire";
        parent_id_template =
            "spiffe://{{ .TrustDomain }}/spire/agent/k8s_psat/{{ .ClusterName }}/{{ .NodeMeta.UID }}";
        cluster_spiffe_ids = true;
        cluster_federated_trust_domains = true;
        cluster_static_entries = true;
        validating_webhook_configuration_name = "spire-controller-manager-webhook";
        spire_server_socket_path = "/tmp/spire-server/private/api.sock";
        ignore_namespaces =
            "kube-system" ∷ "kube-public" ∷ "local-path-storage" ∷ "openshift-*" ∷ [];
      })

  unfoldable generate_spire_controller_manager_config_yaml :
      (ControllerManagerConfig → Attempt String) → Attempt String
  generate_spire_controller_manager_config_yaml marshal_yaml =
      elim generate_controller_manager_config [ failed e ↦ failed e | done c ↦ marshal_yaml c ]

unfoldable generate_controller_manager_config_map : Environs → String → ConfigMap
generate_controller_manager_config_map v yaml = record {
  name = "spire-controller-manager";
  namespace = v.namespace;
  labels = spire_controller_manager_labels v.versions [];
  entries = ("controller-manager-config.yaml", yaml) ∷ [];
}
