-- ===== src/Labels.antt =====
-- pkg/controller/utils/labels.go: the labels of the operator's objects, and which objects a controller
-- watches by them. The versions are set when the operator is built. A map without entries stands for a
-- nil map too.
pub mod Watched
use ocp_spire_operator.Prelude.{Bool, false, ◌&&◌, String, [], ◌∷◌, Option, none, some, ◌==◌}
use ocp_spire_operator.Prelude.Dict.{Dict, insert, lookup}

abbrev pub standard_managed_by_value : String
standard_managed_by_value = "zero-trust-workload-identity-manager"

abbrev pub standard_part_of_value : String
standard_part_of_value = "zero-trust-workload-identity-manager"

abbrev pub standard_instance : String
standard_instance = "cluster-zero-trust-workload-identity-manager"

abbrev pub app_managed_by_label_key : String
app_managed_by_label_key = "app.kubernetes.io/managed-by"

abbrev pub app_managed_by_label_value : String
app_managed_by_label_value = "zero-trust-workload-identity-manager"

abbrev app_component_label_key : String
app_component_label_key = "app.kubernetes.io/component"

abbrev pub component_csi : String
component_csi = "csi"

abbrev pub component_control_plane : String
component_control_plane = "control-plane"

abbrev pub component_node_agent : String
component_node_agent = "node-agent"

abbrev pub component_discovery : String
component_discovery = "discovery"

-- The entries, in the order in which the loop visits them, into a map.
abbrev pub add_labels : Dict String → Dict String → Dict String
add_labels [] labels = labels
add_labels ((k, v) ∷ custom) labels = add_labels custom (insert k v labels)

unfoldable pub standardized_labels : String → String → String → Dict String → Dict String
standardized_labels name component version custom = insert "app.kubernetes.io/version" version (
    insert "app.kubernetes.io/managed-by" standard_managed_by_value (
      insert "app.kubernetes.io/component" component (
        insert "app.kubernetes.io/part-of" standard_part_of_value (
          insert "app.kubernetes.io/instance" standard_instance
            (insert "app.kubernetes.io/name" name (add_labels custom []))))))

-- The versions of the components.
pub record Versions : Type 0 where
  pub spire_server : String
  pub spire_agent : String
  pub spire_oidc_discovery_provider : String
  pub spiffe_csi : String
  pub spire_controller_manager : String

module _ (v : Versions) where
  unfoldable pub spire_server_labels : Dict String → Dict String
  spire_server_labels = standardized_labels "spire-server" component_control_plane v.spire_server

  unfoldable pub spire_agent_labels : Dict String → Dict String
  spire_agent_labels = standardized_labels "spire-agent" component_node_agent v.spire_agent

  unfoldable pub spire_oidc_discovery_provider_labels : Dict String → Dict String
  spire_oidc_discovery_provider_labels =
      standardized_labels "spiffe-oidc-discovery-provider" component_discovery
        v.spire_oidc_discovery_provider

  unfoldable pub spiffe_csi_driver_labels : Dict String → Dict String
  spiffe_csi_driver_labels = standardized_labels "spiffe-csi-driver" component_csi v.spiffe_csi

  unfoldable pub spire_controller_manager_labels : Dict String → Dict String
  spire_controller_manager_labels =
      standardized_labels "spire-controller-manager" component_control_plane
        v.spire_controller_manager

-- `value, ok := labels[key]; ok && value == wanted`.
abbrev has_value : String → Option String → Bool
has_value wanted none = false
has_value wanted (some value) = value == wanted

unfoldable pub has_controller_managed_label_with_component : Dict String → String → Bool
has_controller_managed_label_with_component labels component =
    has_value app_managed_by_label_value (lookup app_managed_by_label_key labels)
    && has_value component (lookup app_component_label_key labels)
