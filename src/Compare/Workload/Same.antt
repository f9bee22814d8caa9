-- ===== src/Compare/Workload/Same.antt =====
-- A workload that agrees with itself.
use ocp_spire_operator.Prelude.{
  Bool, true, false, List, [], ◌∷◌, Option, none, some, arith, ◌≡◌, refl, eq_refl, All,
}
use ocp_spire_operator.Prelude.Int.{ℤ, eq_ℤ_iff}
use ocp_spire_operator.Compare.{bool_ptrs_equal}
use ocp_spire_operator.Compare.Container.{volume_name}
use ocp_spire_operator.Compare.Container.Same.{
  HasDistinct, HasDistinctPorts, volumes_equal_refl, containers_modified_refl,
}
use ocp_spire_operator.Compare.Workload.{
  Sized, PodSpec, VolumeClaim, StatefulSetSpec, DeploymentSpec, DaemonSetSpec, value_at,
  replicas_differ, sized_differ, pod_needs_update, claims_differ, stateful_set_needs_update,
  deployment_needs_update, daemon_set_needs_update,
}

pub bool_ptrs_equal_refl : (o : Option Bool) → bool_ptrs_equal o o ≡ true
unfolding bool_ptrs_equal
bool_ptrs_equal_refl none = refl
bool_ptrs_equal_refl (some b) = ground arith

-- What the API server demands of a pod: its volumes have distinct names, and no container lists a port
-- of one protocol twice.
abbrev pub IsWellFormed : {V : Type 0} → PodSpec V → Type 0
IsWellFormed pod =
    HasDistinct volume_name pod.volumes
    × All HasDistinctPorts pod.containers
    × All HasDistinctPorts pod.init_containers

module _ {V : Type 0} (deep_equal : V → V → Bool)
    (deep_equal_refl : (v : V) → deep_equal v v ≡ true) where
  sized_differ_refl : (s : Sized V) → sized_differ deep_equal s s ≡ false
  sized_differ_refl s = ground (arith, deep_equal_refl s.value)

  pod_needs_update_refl :
      (pod : PodSpec V) → IsWellFormed pod → pod_needs_update deep_equal pod pod ≡ false
  unfolding pod_needs_update
  pod_needs_update_refl pod (v, c, i) =
      rw
        (
          eq_refl pod.service_account_name,
          bool_ptrs_equal_refl pod.share_process_namespace,
          eq_refl pod.dns_policy,
          sized_differ_refl pod.node_selector,
          deep_equal_refl pod.affinity,
          sized_differ_refl pod.tolerations,
          volumes_equal_refl deep_equal deep_equal_refl pod.volumes v,
          containers_modified_refl deep_equal deep_equal_refl pod.containers c,
          containers_modified_refl deep_equal deep_equal_refl pod.init_containers i,
        )
        ground arith

  claims_differ_refl : (cs : List (VolumeClaim V)) → claims_differ deep_equal cs cs ≡ false
  unfolding claims_differ
  claims_differ_refl [] = refl
  claims_differ_refl (c ∷ cs) =
      rw
        (
          eq_refl c.name,
          deep_equal_refl c.access_modes,
          deep_equal_refl c.requests,
          claims_differ_refl cs,
        )
        refl

  replicas_differ_refl : (o : Option ℤ) → replicas_differ o o ≡ false
  replicas_differ_refl none = refl
  replicas_differ_refl (some z) = ground (arith, eq_ℤ_iff z z)

  pub stateful_set_needs_update_refl :
      (s : StatefulSetSpec V)
      → IsWellFormed s.pod
      → stateful_set_needs_update deep_equal (some s) (some s) ≡ false
  unfolding stateful_set_needs_update
  stateful_set_needs_update_refl s h =
      rw
        (
          replicas_differ_refl s.replicas,
          eq_refl s.service_name,
          deep_equal_refl s.selector,
          deep_equal_refl s.template_labels,
          eq_refl (value_at s.template_annotations "kubectl.kubernetes.io/default-container"),
          eq_refl (value_at s.template_annotations "ztwim.openshift.io/spire-server-config-hash"),
          eq_refl (
              value_at s.template_annotations
                "ztwim.openshift.io/spire-controller-manager-config-hash"),
          pod_needs_update_refl s.pod h,
          claims_differ_refl s.volume_claim_templates,
        )
        refl

  pub deployment_needs_update_refl :
      (s : DeploymentSpec V)
      → IsWellFormed s.pod
      → deployment_needs_update deep_equal (some s) (some s) ≡ false
  unfolding deployment_needs_update
  deployment_needs_update_refl s h =
      rw
        (
          replicas_differ_refl s.replicas,
          deep_equal_refl s.selector,
          deep_equal_refl s.template_labels,
          pod_needs_update_refl s.pod h,
        )
        refl

  pub daemon_set_needs_update_refl :
      (s : DaemonSetSpec V)
      → IsWellFormed s.pod
      → daemon_set_needs_update deep_equal (some s) (some s) ≡ false
  unfolding daemon_set_needs_update
  daemon_set_needs_update_refl s h =
      rw
        (
          deep_equal_refl s.selector,
          deep_equal_refl s.template_labels,
          pod_needs_update_refl s.pod h,
        )
        refl
