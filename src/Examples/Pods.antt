-- ===== src/Examples/Pods.antt =====
-- Runs of the proxy configuration and of the comparison of objects.
use ocp_spire_operator.Prelude.{
  ℕ, true, false, String, [], ◌∷◌, none, some, nat_eq, arith, ◌≡◌, refl,
}
use ocp_spire_operator.Prelude.Int.{pos}
use ocp_spire_operator.Prelude.Dict.{Dict, lookup, HasDistinctKeys}
use ocp_spire_operator.Proxy.{
  Environment, Container, PodSpec, add_proxy_config_to_pod_with_no_proxy_additions,
}
use ocp_spire_operator.Proxy.Again.{add_proxy_config_to_pod-twice}
use ocp_spire_operator.Proxy.Again.Mounting.{IsMounted, add_proxy_config_to_pod-IsMounted}
use ocp_spire_operator.Compare.{labels_match}
use ocp_spire_operator.Compare.Workload.{
  Sized, StatefulSetSpec, value_at, stateful_set_needs_update,
}
use ocp_spire_operator.Compare.Workload.Same.{stateful_set_needs_update_refl}
use ocp_spire_operator.Compare.Container as C
use ocp_spire_operator.Compare.Workload.Drift.{stateful_set_needs_update-AllAgree, AllAgree}
use ocp_spire_operator.Compare.Rules.{Metadata, stateful_sets, resource_needs_update}
use ocp_spire_operator.Compare.Metadata.{
  IsIncluded, labels_match_iff, resource_needs_update-AreSame,
}

abbrev proxied : Environment
proxied = record {
  http_proxy = "http://proxy:3128";
  https_proxy = "";
  no_proxy = ".svc";
  trusted_ca_bundle_configmap = "bundle";
  operator_namespace = "ztwim";
}

abbrev agent : Container
agent = record {
  name = "spire-agent";
  env = record { name = "NO_PROXY"; value = "localhost" } ∷ [];
  volume_mounts =
      record { name = "spire-config"; mount_path = "/opt/spire/conf/agent"; read_only = true } ∷ [];
}

abbrev pod : PodSpec
pod = record {
  containers = agent ∷ [];
  init_containers = [];
  volumes = record { name = "spire-config"; config_map = none } ∷ [];
}

add_proxy_config_to_pod-twice_example :
    add_proxy_config_to_pod_with_no_proxy_additions proxied []
      (add_proxy_config_to_pod_with_no_proxy_additions proxied [] pod)
    ≡ add_proxy_config_to_pod_with_no_proxy_additions proxied [] pod
add_proxy_config_to_pod-twice_example = add_proxy_config_to_pod-twice proxied [] pod

add_proxy_config_to_pod-IsMounted_example :
    IsMounted (add_proxy_config_to_pod_with_no_proxy_additions proxied [] pod)
add_proxy_config_to_pod-IsMounted_example =
    add_proxy_config_to_pod-IsMounted proxied [] pod (((refl, tt), tt), tt)

abbrev wanted_labels : Dict String
wanted_labels = ("app", "spire") ∷ ("part-of", "ztwim") ∷ []

abbrev found_labels : Dict String
found_labels = ("part-of", "ztwim") ∷ ("owner", "me") ∷ ("app", "spire") ∷ []

abbrev wanted : Metadata
wanted = record { labels = wanted_labels; annotations = [] }

abbrev existing : Metadata
existing = record { labels = found_labels; annotations = ("note", "x") ∷ [] }

labels_distinct : HasDistinctKeys wanted_labels
unfolding lookup
labels_distinct = (refl, (refl, tt))

labels_matched : labels_match found_labels wanted_labels ≡ true
unfolding labels_match lookup
labels_matched = refl

labels-IsIncluded : IsIncluded found_labels wanted_labels
labels-IsIncluded = (labels_match_iff found_labels wanted_labels labels_distinct).0 labels_matched

abbrev container : C.Container ℕ
container = record {
  name = "spire-server";
  image = "spire-server:1.12";
  image_pull_policy = "IfNotPresent";
  command = 0;
  args = 1;
  env = 2;
  ports = record { container_port = pos 8081; protocol = "TCP"; whole = 3 } ∷ [];
  readiness_probe = some 4;
  liveness_probe = none;
  security_context = none;
  volume_mounts = 5;
  resources = 6;
}

abbrev none_given : Sized ℕ
none_given = record { size = 0; value = 0 }

abbrev spec : StatefulSetSpec ℕ
spec = record {
  replicas = some (pos 1);
  service_name = "spire-server";
  selector = 1;
  template_labels = 2;
  template_annotations = ("ztwim.openshift.io/spire-server-config-hash", "abc") ∷ [];
  pod = record {
    service_account_name = "spire-server";
    share_process_namespace = some true;
    dns_policy = "";
    node_selector = none_given;
    affinity = 0;
    tolerations = none_given;
    volumes = [];
    containers = container ∷ [];
    init_containers = [];
  };
  volume_claim_templates = [];
}

nat_eq_refl : (n : ℕ) → nat_eq n n ≡ true
nat_eq_refl n = ground arith

no_annotations : HasDistinctKeys {V = String} []
no_annotations = tt

none-IsIncluded : IsIncluded existing.annotations []
unfolding lookup
none-IsIncluded k v h = absurd (ground (arith, h))

resource_needs_update-AreSame_example :
    resource_needs_update nat_eq existing wanted (stateful_sets spec spec) ≡ false
resource_needs_update-AreSame_example =
    resource_needs_update-AreSame nat_eq nat_eq_refl existing wanted (stateful_sets spec spec)
      labels_distinct no_annotations labels-IsIncluded none-IsIncluded
      (refl, (tt, ((tt, tt), tt), tt))

spec_unchanged : stateful_set_needs_update nat_eq (some spec) (some spec) ≡ false
spec_unchanged = stateful_set_needs_update_refl nat_eq nat_eq_refl spec (tt, ((tt, tt), tt), tt)

stateful_set_needs_update-AllAgree_example :
    (value_at spec.template_annotations "ztwim.openshift.io/spire-server-config-hash"
      ≡ value_at spec.template_annotations "ztwim.openshift.io/spire-server-config-hash")
    × (value_at spec.template_annotations "ztwim.openshift.io/spire-controller-manager-config-hash"
        ≡ value_at spec.template_annotations
            "ztwim.openshift.io/spire-controller-manager-config-hash")
    × AllAgree nat_eq spec.pod.containers spec.pod.containers
    × AllAgree nat_eq spec.pod.init_containers spec.pod.init_containers
stateful_set_needs_update-AllAgree_example =
    stateful_set_needs_update-AllAgree nat_eq spec spec spec_unchanged
