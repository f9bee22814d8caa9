-- ===== src/Compare/Workload/Drift.antt =====
-- What a workload that is not updated shares with the wanted one.
use ocp_spire_operator.Prelude.{
  Bool, true, false, String, List, [], ◌∷◌, Option, none, some, ◌==◌, arith, ◌≡◌, refl, sym, eq_iff,
  Bool-cases, inl, inr,
}
use ocp_spire_operator.Prelude.Dict.{Dict, lookup}
use ocp_spire_operator.Compare.Container.{
  Container, container_name, keyed, container_spec_modified, modified_in, any_modified,
  containers_modified,
}
use ocp_spire_operator.Compare.Workload.{
  PodSpec, StatefulSetSpec, value_at, pod_needs_update, stateful_set_needs_update,
}

module _ {V : Type 0} (deep_equal : V → V → Bool) where
  -- The container in the cluster agrees with the wanted one: name, image and pull policy are equal, and
  -- the command, the arguments, the variables, the mounts and the resources are deeply equal.
  pub record Agrees (fetched desired : Container V) : Type 0 where
    pub name : desired.name ≡ fetched.name
    pub image : desired.image ≡ fetched.image
    pub image_pull_policy : desired.image_pull_policy ≡ fetched.image_pull_policy
    pub command : deep_equal desired.command fetched.command ≡ true
    pub args : deep_equal desired.args fetched.args ≡ true
    pub env : deep_equal desired.env fetched.env ≡ true
    pub volume_mounts : deep_equal desired.volume_mounts fetched.volume_mounts ≡ true
    pub resources : deep_equal desired.resources fetched.resources ≡ true

  container_spec_modified-Agrees :
      (fetched desired : Container V)
      → container_spec_modified deep_equal fetched desired ≡ false
      → Agrees fetched desired
  unfolding container_spec_modified
  container_spec_modified-Agrees fetched desired h = record {
    name = ground (arith, h, eq_iff desired.name fetched.name);
    image = ground (arith, h, eq_iff desired.image fetched.image);
    image_pull_policy =
        ground (arith, h, eq_iff desired.image_pull_policy fetched.image_pull_policy);
    command = ground (arith, h);
    args = ground (arith, h);
    env = ground (arith, h);
    volume_mounts = ground (arith, h);
    resources = ground (arith, h);
  }

  -- Each wanted container, the last of its name, has one in the cluster that agrees with it.
  abbrev pub AllAgree : List (Container V) → List (Container V) → Type 0
  AllAgree fetched desired =
      (k : String) (d : Container V)
      → lookup k (keyed container_name desired) ≡ some d
      → (f : Container V) × (lookup k (keyed container_name fetched) ≡ some f) × Agrees f d

  modified_in-Agrees :
      (d : Container V) (o : Option (Container V))
      → modified_in deep_equal d o ≡ false
      → (f : Container V) × (o ≡ some f) × Agrees f d
  modified_in-Agrees d none h = absurd (ground (arith, h))
  modified_in-Agrees d (some f) h = (f, refl, container_spec_modified-Agrees f d h)

  any_modified-Agrees :
      (m ds : Dict (Container V))
      → any_modified deep_equal m ds ≡ false
      → (k : String) (d : Container V) → lookup k ds ≡ some d
      → (f : Container V) × (lookup k m ≡ some f) × Agrees f d
  unfolding lookup
  any_modified-Agrees m [] h k d found = absurd (ground (arith, found))
  any_modified-Agrees m ((j, e) ∷ ds) h k d found =
      let here : modified_in deep_equal e (lookup j m) ≡ false = ground (arith, h) in
      elim (Bool-cases (j == k)) [
        | inl q ↦
            let same : e ≡ d = ground (arith, q, found) in
            rw (sym ((eq_iff j k).0 q), sym same) (modified_in-Agrees e (lookup j m) here)
        | inr q ↦ any_modified-Agrees m ds (ground (arith, h)) k d (ground (arith, q, found))
      ]

  containers_modified-AllAgree :
      (fetched desired : List (Container V))
      → containers_modified deep_equal fetched desired ≡ false
      → AllAgree fetched desired
  unfolding containers_modified
  containers_modified-AllAgree fetched desired h k d found =
      any_modified-Agrees (keyed container_name fetched) (keyed container_name desired)
        (ground (arith, h)) k d found

  pod_needs_update-AllAgree :
      (f d : PodSpec V)
      → pod_needs_update deep_equal f d ≡ false
      → AllAgree f.containers d.containers × AllAgree f.init_containers d.init_containers
  unfolding pod_needs_update
  pod_needs_update-AllAgree f d h = (
    containers_modified-AllAgree f.containers d.containers (ground (arith, h)),
    containers_modified-AllAgree f.init_containers d.init_containers (ground (arith, h)),
  )

  -- A StatefulSet that is not updated carries the wanted hashes of both configurations, and each wanted
  -- container and init container has one of its name in the cluster with the wanted name, image and
  -- pull policy and with a deeply equal command, arguments, variables, mounts and resources.
  pub stateful_set_needs_update-AllAgree :
      (f d : StatefulSetSpec V)
      → stateful_set_needs_update deep_equal (some f) (some d) ≡ false
      → (value_at d.template_annotations "ztwim.openshift.io/spire-server-config-hash"
          ≡ value_at f.template_annotations "ztwim.openshift.io/spire-server-config-hash")
        × (value_at d.template_annotations "ztwim.openshift.io/spire-controller-manager-config-hash"
            ≡ value_at f.template_annotations
                "ztwim.openshift.io/spire-controller-manager-config-hash")
        × AllAgree f.pod.containers d.pod.containers
        × AllAgree f.pod.init_containers d.pod.init_containers
  unfolding stateful_set_needs_update
  stateful_set_needs_update-AllAgree f d h =
      let (c, i) = pod_needs_update-AllAgree f.pod d.pod (ground (arith, h)) in
      let server : String = "ztwim.openshift.io/spire-server-config-hash" in
      let manager : String = "ztwim.openshift.io/spire-controller-manager-config-hash" in
      (
        ground (
          arith,
          h,
          eq_iff (value_at d.template_annotations server) (value_at f.template_annotations server),
        ),
        ground (
          arith,
          h,
          eq_iff (value_at d.template_annotations manager)
              (value_at f.template_annotations manager),
        ),
        c,
        i,
      )
