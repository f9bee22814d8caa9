-- ===== src/Labels/Watched.antt =====
-- What the labels of the operator's objects are, whatever labels a user adds.
use ocp_spire_operator.Prelude.{
  true, ◌≡◌, ◌↔◌, refl, String, [], ◌∷◌, Option, none, some, ◌==◌, arith, eq_iff, if◌then◌else◌,
}
use ocp_spire_operator.Prelude.Dict.{Dict, insert, lookup, lookup-insert, HasDistinctKeys}
use ocp_spire_operator.Labels.{
  add_labels, standardized_labels, has_controller_managed_label_with_component,
  standard_managed_by_value, standard_part_of_value, standard_instance, Versions,
  spire_server_labels, spire_agent_labels, spire_oidc_discovery_provider_labels,
  spiffe_csi_driver_labels, spire_controller_manager_labels, component_csi, component_control_plane,
  component_node_agent, component_discovery,
}

-- The first of the two that is there.
abbrev or_else : Option String → Option String → Option String
or_else none o = o
or_else (some v) o = some v

lookup-add_labels :
    (k : String) (custom labels : Dict String)
    → HasDistinctKeys custom
    → lookup k (add_labels custom labels) ≡ or_else (lookup k custom) (lookup k labels)
unfolding lookup
lookup-add_labels k [] labels d = refl
lookup-add_labels k ((i, v) ∷ custom) labels (f, d) = ground (
  arith,
  lookup-add_labels k custom (insert i v labels) d,
  lookup-insert i k v labels,
  eq_iff i k,
  f,
)

-- The label that the operator sets itself, if it sets one.
abbrev standard : String → String → String → String → Option String
standard name component version k =
    if "app.kubernetes.io/version" == k
    then some version
    else if "app.kubernetes.io/managed-by" == k
    then some standard_managed_by_value
    else if "app.kubernetes.io/component" == k
    then some component
    else if "app.kubernetes.io/part-of" == k
    then some standard_part_of_value
    else if "app.kubernetes.io/instance" == k
    then some standard_instance
    else if "app.kubernetes.io/name" == k
    then some name
    else none

lookup-insert_custom :
    (k : String) (custom : Dict String)
    → HasDistinctKeys custom
    → lookup k (add_labels custom []) ≡ lookup k custom
unfolding lookup
lookup-insert_custom k custom d = ground (arith, lookup-add_labels k custom [] d)

-- An object has the labels that the operator sets, over those that the user asks for: for every key the
-- operator's value where it has one, and the user's otherwise.
lookup-standardized_labels :
    (name component version : String) (custom : Dict String)
    → HasDistinctKeys custom
    → (k : String)
    → lookup k (standardized_labels name component version custom)
      ≡ or_else (standard name component version k) (lookup k custom)
unfolding standardized_labels
lookup-standardized_labels name component version custom d k =
    rw
      (
        lookup-insert,
        lookup-insert,
        lookup-insert,
        lookup-insert,
        lookup-insert,
        lookup-insert,
        lookup-insert_custom k custom d,
      )
      (ground arith)

managed_by-standardized_labels :
    (name component version : String) (custom : Dict String)
    → lookup "app.kubernetes.io/managed-by" (standardized_labels name component version custom)
      ≡ some standard_managed_by_value
unfolding standardized_labels
managed_by-standardized_labels name component version custom =
    rw (lookup-insert, lookup-insert) refl

component-standardized_labels :
    (name component version : String) (custom : Dict String)
    → lookup "app.kubernetes.io/component" (standardized_labels name component version custom)
      ≡ some component
unfolding standardized_labels
component-standardized_labels name component version custom =
    rw (lookup-insert, lookup-insert, lookup-insert) refl

watched :
    (name component version : String) (custom : Dict String) (c : String)
    → (has_controller_managed_label_with_component
          (standardized_labels name component version custom)
          c
        ≡ true)
      ↔ (component ≡ c)
unfolding has_controller_managed_label_with_component
watched name component version custom c =
    rw
      (
        managed_by-standardized_labels name component version custom,
        component-standardized_labels name component version custom,
      )
      (eq_iff component c)

-- The controller of the component watches objects with these labels.
abbrev pub IsWatched : String → Dict String → Type 0
IsWatched component labels = has_controller_managed_label_with_component labels component ≡ true

-- Whatever labels a user adds, and overlapping keys among them, an object of the operator is watched by
-- the controller of its own component, and by no other.
pub labels-IsWatched :
    (v : Versions) (custom : Dict String) (c : String)
    → (IsWatched c (spire_server_labels v custom) ↔ (component_control_plane ≡ c))
      × (IsWatched c (spire_controller_manager_labels v custom) ↔ (component_control_plane ≡ c))
      × (IsWatched c (spire_agent_labels v custom) ↔ (component_node_agent ≡ c))
      × (IsWatched c (spiffe_csi_driver_labels v custom) ↔ (component_csi ≡ c))
      × (IsWatched c (spire_oidc_discovery_provider_labels v custom) ↔ (component_discovery ≡ c))
unfolding spire_server_labels spire_controller_manager_labels spire_agent_labels
    spiffe_csi_driver_labels spire_oidc_discovery_provider_labels
labels-IsWatched v custom c = (
  watched "spire-server" component_control_plane v.spire_server custom c,
  watched "spire-controller-manager" component_control_plane v.spire_controller_manager custom c,
  watched "spire-agent" component_node_agent v.spire_agent custom c,
  watched "spiffe-csi-driver" component_csi v.spiffe_csi custom c,
  watched "spiffe-oidc-discovery-provider" component_discovery v.spire_oidc_discovery_provider
      custom c,
)
