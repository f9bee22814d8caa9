-- ===== src/Compare/Workload.antt =====
-- StatefulSets, Deployments and DaemonSets in pkg/controller/utils/resource_comparison.go.
pub mod Same
pub mod Drift
use ocp_spire_operator.Prelude.{
  ℕ, Bool, true, false, ◌||◌, ◌&&◌, not, String, List, [], ◌∷◌, Option, none, some, ◌==◌, nat_eq,
  length, any_of, if◌then◌else◌,
}
use ocp_spire_operator.Prelude.Int.{ℤ, eq_ℤ}
use ocp_spire_operator.Prelude.Dict.{Dict, lookup}
use ocp_spire_operator.Compare.{bool_ptrs_equal}
use ocp_spire_operator.Compare.Container.{Container, Volume, volumes_equal, containers_modified}

-- A selector or a list that is compared by its length first: the length, and the value.
pub record Sized (V : Type 0) : Type 0 where
  pub size : ℕ
  pub value : V

pub record PodSpec (V : Type 0) : Type 0 where
  pub service_account_name : String
  pub share_process_namespace : Option Bool
  pub dns_policy : String
  pub node_selector : Sized V
  pub affinity : V
  pub tolerations : Sized V
  pub volumes : List (Volume V)
  pub containers : List (Container V)
  pub init_containers : List (Container V)

pub record VolumeClaim (V : Type 0) : Type 0 where
  pub name : String
  pub access_modes : V
  pub requests : V

-- The spec of a workload. A Deployment has no service name and no claims, a DaemonSet no replicas.
pub record StatefulSetSpec (V : Type 0) : Type 0 where
  pub replicas : Option ℤ
  pub service_name : String
  pub selector : V
  pub template_labels : V
  pub template_annotations : Dict String
  pub pod : PodSpec V
  pub volume_claim_templates : List (VolumeClaim V)

pub record DeploymentSpec (V : Type 0) : Type 0 where
  pub replicas : Option ℤ
  pub selector : V
  pub template_labels : V
  pub pod : PodSpec V

pub record DaemonSetSpec (V : Type 0) : Type 0 where
  pub selector : V
  pub template_labels : V
  pub pod : PodSpec V

-- `m[k]`, which is empty where the key is missing.
abbrev pub value_at : Dict String → String → String
value_at m k = elim (lookup k m) [ none ↦ "" | some v ↦ v ]

-- Both numbers of replicas are set and differ.
abbrev pub replicas_differ : Option ℤ → Option ℤ → Bool
replicas_differ none f = false
replicas_differ (some d) none = false
replicas_differ (some d) (some f) = not (eq_ℤ d f)

abbrev compared_annotations : List String
compared_annotations =
    "kubectl.kubernetes.io/default-container" ∷ "ztwim.openshift.io/spire-server-config-hash"
    ∷ "ztwim.openshift.io/spire-controller-manager-config-hash" ∷ []

module _ {V : Type 0} (deep_equal : V → V → Bool) where
  -- The lengths differ, or the desired one is not empty and the values differ.
  abbrev pub sized_differ : Sized V → Sized V → Bool
  sized_differ d f =
      not (nat_eq d.size f.size) || (not (nat_eq d.size 0) && not (deep_equal d.value f.value))

  -- The part on the pod, the same text in the three functions below.
  unfoldable pub pod_needs_update : PodSpec V → PodSpec V → Bool
  pod_needs_update f d =
      not (d.service_account_name == f.service_account_name)
      || not (bool_ptrs_equal d.share_process_namespace f.share_process_namespace)
      || (not (d.dns_policy == "") && not (d.dns_policy == f.dns_policy))
      || sized_differ d.node_selector f.node_selector
      || not (deep_equal d.affinity f.affinity)
      || sized_differ d.tolerations f.tolerations
      || not (volumes_equal deep_equal f.volumes d.volumes)
      || containers_modified deep_equal f.containers d.containers
      || containers_modified deep_equal f.init_containers d.init_containers

  -- The loop over the indices of the desired templates, the lists being of equal length.
  unfoldable pub claims_differ : List (VolumeClaim V) → List (VolumeClaim V) → Bool
  claims_differ [] [] = false
  claims_differ [] (d ∷ ds) = true
  claims_differ (f ∷ fs) [] = true
  claims_differ (f ∷ fs) (d ∷ ds) =
      not (d.name == f.name)
      || not (deep_equal d.access_modes f.access_modes)
      || not (deep_equal d.requests f.requests)
      || claims_differ fs ds

  -- `none` is a nil pointer.
  unfoldable pub stateful_set_needs_update :
      Option (StatefulSetSpec V) → Option (StatefulSetSpec V) → Bool
  stateful_set_needs_update none d = true
  stateful_set_needs_update (some f) none = true
  stateful_set_needs_update (some f) (some d) =
      replicas_differ d.replicas f.replicas
      || not (d.service_name == f.service_name)
      || not (deep_equal d.selector f.selector)
      || not (deep_equal d.template_labels f.template_labels)
      || any_of (λ k. not (value_at d.template_annotations k == value_at f.template_annotations k))
          compared_annotations
      || pod_needs_update f.pod d.pod
      || claims_differ f.volume_claim_templates d.volume_claim_templates

  unfoldable pub deployment_needs_update :
      Option (DeploymentSpec V) → Option (DeploymentSpec V) → Bool
  deployment_needs_update none d = true
  deployment_needs_update (some f) none = true
  deployment_needs_update (some f) (some d) =
      replicas_differ d.replicas f.replicas
      || not (deep_equal d.selector f.selector)
      || not (deep_equal d.template_labels f.template_labels)
      || pod_needs_update f.pod d.pod

  unfoldable pub daemon_set_needs_update :
      Option (DaemonSetSpec V) → Option (DaemonSetSpec V) → Bool
  daemon_set_needs_update none d = true
  daemon_set_needs_update (some f) none = true
  daemon_set_needs_update (some f) (some d) =
      not (deep_equal d.selector f.selector)
      || not (deep_equal d.template_labels f.template_labels)
      || pod_needs_update f.pod d.pod
