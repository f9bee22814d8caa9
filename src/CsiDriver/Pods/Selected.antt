-- ===== src/CsiDriver/Pods/Selected.antt =====
-- The pods of the SPIFFE CSI driver are selected, and have what they mount.
use ocp_spire_operator.Prelude.{
  ◌≡◌, refl, true, String, List, [], ◌∷◌, some, ◌==◌, All, any_of, ◌++◌,
}
use ocp_spire_operator.Prelude.Dict.{Dict, lookup, lookup-insert}
use ocp_spire_operator.Labels.{
  Versions, standardized_labels, spiffe_csi_driver_labels, standard_instance, component_csi,
}
use ocp_spire_operator.Agent.Volumes.{Volume}
use ocp_spire_operator.CsiDriver.Pods.{
  Container, CsiSpec, Images, selector_labels, generate_spiffe_csi_driver_daemon_set,
}

name-standardized_labels :
    (name component version : String) (custom : Dict String)
    → lookup "app.kubernetes.io/name" (standardized_labels name component version custom)
      ≡ some name
unfolding standardized_labels
name-standardized_labels name component version custom =
    rw (lookup-insert, lookup-insert, lookup-insert, lookup-insert, lookup-insert, lookup-insert)
      refl

instance-standardized_labels :
    (name component version : String) (custom : Dict String)
    → lookup "app.kubernetes.io/instance" (standardized_labels name component version custom)
      ≡ some standard_instance
unfolding standardized_labels
instance-standardized_labels name component version custom =
    rw (lookup-insert, lookup-insert, lookup-insert, lookup-insert, lookup-insert) refl

component-standardized_labels :
    (name component version : String) (custom : Dict String)
    → lookup "app.kubernetes.io/component" (standardized_labels name component version custom)
      ≡ some component
unfolding standardized_labels
component-standardized_labels name component version custom =
    rw (lookup-insert, lookup-insert, lookup-insert) refl

selector_labels-standardized_labels :
    (name component version : String) (custom : Dict String)
    → selector_labels (standardized_labels name component version custom)
      ≡ ("app.kubernetes.io/name", name)
        ∷ ("app.kubernetes.io/instance", standard_instance)
        ∷ ("app.kubernetes.io/component", component)
        ∷ []
unfolding selector_labels
selector_labels-standardized_labels name component version custom =
    rw
      (
        name-standardized_labels name component version custom,
        instance-standardized_labels name component version custom,
        component-standardized_labels name component version custom,
      )
      refl

-- The labels have every entry of the selector.
abbrev pub Matches : Dict String → Dict String → Type 0
Matches selector labels = All (λ (k, v). lookup k labels ≡ some v) selector

-- Every mount of the container names a volume.
abbrev pub FindsVolumes : {R : Type 0} → List Volume → Container R → Type 0
FindsVolumes volumes c = All (λ m. any_of (λ v. v.name == m.name) volumes ≡ true) c.mounts

module _ {R S : Type 0} (namespace : String) (images : Images) (versions : Versions) where
  -- Whatever the specification is, and the labels in it, the DaemonSet of the CSI driver has the same
  -- selector, its pods have the labels of the selector, and every mount of their containers names a volume.
  pub generate_spiffe_csi_driver_daemon_set-Matches :
      (config : CsiSpec R S)
      → let ds = generate_spiffe_csi_driver_daemon_set namespace images versions config in
        (ds.selector
          ≡ ("app.kubernetes.io/name", "spiffe-csi-driver")
            ∷ ("app.kubernetes.io/instance", standard_instance)
            ∷ ("app.kubernetes.io/component", component_csi)
            ∷ [])
        × Matches ds.selector ds.template_labels
        × All (FindsVolumes ds.volumes) (ds.init_containers ++ ds.containers)
  unfolding generate_spiffe_csi_driver_daemon_set spiffe_csi_driver_labels
  generate_spiffe_csi_driver_daemon_set-Matches config =
      let e =
        selector_labels-standardized_labels "spiffe-csi-driver" component_csi versions.spiffe_csi
          config.labels in
      (
        e,
        rw e (
          name-standardized_labels "spiffe-csi-driver" component_csi versions.spiffe_csi
              config.labels,
          (
            instance-standardized_labels "spiffe-csi-driver" component_csi versions.spiffe_csi
                config.labels,
            (
              component-standardized_labels "spiffe-csi-driver" component_csi versions.spiffe_csi
                  config.labels,
              tt,
            ),
          ),
        ),
        ((refl, tt), ((refl, (refl, (refl, tt))), ((refl, (refl, tt)), tt))),
      )
