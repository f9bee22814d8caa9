-- ===== src/Agent/Contents.antt =====
-- The contents of the ConfigMap that pkg/controller/spire-agent/configmap.go generates: the configuration
-- of the SPIRE agents, with the verification of the kubelet.
pub mod Kubelet
use ocp_spire_operator.Prelude.{
  ℕ, Bool, true, false, not, String, List, [], ◌∷◌, Option, none, some, ◌==◌, ◌||◌, if◌then◌else◌,
  ◌&&◌,
}
use ocp_spire_operator.Prelude.Int.{pos}
use ocp_spire_operator.Prelude.Text.{codes}
use ocp_spire_operator.Prelude.Dict.{Dict, insert}
use ocp_spire_operator.Kube.{wrapped_error, error_text}
use ocp_spire_operator.Ztwim.Operand.{string_to_bool}
use ocp_spire_operator.Objects.{Attempt, done, failed}
use ocp_spire_operator.Labels.{
  Versions, spire_agent_labels, app_managed_by_label_key, app_managed_by_label_value,
}
use ocp_spire_operator.Json.{Json, null, flag, number, text, object_of, single}
use ocp_spire_operator.Hashes.{generate_config_hash}
use ocp_spire_operator.Settings.{get_log_level_from_string, get_log_format_from_string}
use Prim.Native.String.{◌++◌}

abbrev pub skip : String
skip = "skip"

abbrev pub auto : String
auto = "auto"

abbrev pub host_cert : String
host_cert = "hostCert"

pub record WorkloadAttestorsVerification : Type 0 where
  pub type : String
  pub host_cert_base_path : String
  pub host_cert_file_name : String

pub record WorkloadAttestors : Type 0 where
  pub k8s_enabled : String
  pub verification : Option WorkloadAttestorsVerification
  pub disable_container_selectors : String
  pub use_new_container_locator : String

-- SpireAgentSpec, as far as the contents depend on it; a node attestor is the setting `k8sPSATEnabled`.
pub record AgentSpec : Type 0 where
  pub log_level : String
  pub log_format : String
  pub node_attestor : Option String
  pub workload_attestors : Option WorkloadAttestors
  pub labels : Dict String

-- The generated map, with the hash of its contents.
pub record AgentConfigMap : Type 0 where
  pub name : String
  pub namespace : String
  pub labels : Dict String
  pub annotations : Dict String
  pub entries : Dict String
  pub hash : String

-- The namespace of the operator, what the libraries compute, SHA-256 and the versions.
pub record Environs : Type 0 where
  pub namespace : String
  pub path_join : String → String → String
  pub marshal_json : Json → Attempt String
  pub sha256 : List ℕ → String
  pub versions : Versions

-- The pointer is not nil where the function is called.
unfoldable pub build_host_cert_path :
    (String → String → String) → WorkloadAttestorsVerification → String
build_host_cert_path join v =
    if v.host_cert_base_path == "" || v.host_cert_file_name == ""
    then ""
    else join v.host_cert_base_path v.host_cert_file_name

abbrev pub default_ca_path : (String → String → String) → String
default_ca_path join = join "/etc/kubernetes" "kubelet-ca.crt"

abbrev pub or_default_path : String → String → String
or_default_path default path = if not (path == "") then path else default

unfoldable pub configure_kubelet_verification :
    (String → String → String) → Option WorkloadAttestorsVerification → Dict Json → Dict Json
configure_kubelet_verification join none plugin =
    insert "skip_kubelet_verification" (flag true) plugin
configure_kubelet_verification join (some v) plugin =
    let skipped = insert "skip_kubelet_verification" (flag true) plugin in
    let verified = insert "skip_kubelet_verification" (flag false) plugin in
    if v.type == "" || v.type == skip
    then skipped
    else if v.type == host_cert
    then insert "kubelet_ca_path" (text (build_host_cert_path join v)) verified
    else if v.type == auto
    then insert "kubelet_ca_path"
        (text (or_default_path (default_ca_path join) (build_host_cert_path join v))) verified
    else skipped

-- A list with one plugin.
abbrev pub plugin : String → Json → Json
plugin name settings = single ((name, object_of (("plugin_data", settings) ∷ [])) ∷ [])

abbrev add_node_attestor : Option String → String → Dict Json → Dict Json
add_node_attestor none cluster m = m
add_node_attestor (some enabled) cluster m =
    if enabled == "true"
    then insert "NodeAttestor" (plugin "k8s_psat" (object_of (("cluster", text cluster) ∷ []))) m
    else m

abbrev attestor_settings : WorkloadAttestors → Dict Json
attestor_settings a =
    ("disable_container_selectors", flag (string_to_bool a.disable_container_selectors))
    ∷ ("node_name_env", text "MY_NODE_NAME")
    ∷ ("use_new_container_locator", flag (string_to_bool a.use_new_container_locator))
    ∷ ("verbose_container_locator_logs", flag false)
    ∷ []

abbrev add_workload_attestor :
    (String → String → String) → Option WorkloadAttestors → Dict Json → Dict Json
add_workload_attestor join none m = m
add_workload_attestor join (some a) m =
    if a.k8s_enabled == "true"
    then insert "WorkloadAttestor"
        (plugin "k8s"
          (object_of (configure_kubelet_verification join a.verification (attestor_settings a))))
        m
    else m

module _ (v : Environs) (spec : AgentSpec) (trust_domain cluster_name : String) where
  unfoldable generate_agent_config : Dict Json
  generate_agent_config =
      (
        "agent",
        object_of (
            ("data_dir", text "/var/lib/spire")
            ∷ ("log_level", text (get_log_level_from_string spec.log_level))
            ∷ ("log_format", text (get_log_format_from_string spec.log_format))
            ∷ ("retry_bootstrap", flag true)
            ∷ ("server_address", text ("spire-server." ++ v.namespace))
            ∷ ("server_port", text "443")
            ∷ ("socket_path", text "/tmp/spire-agent/public/spire-agent.sock")
            ∷ ("trust_bundle_path", text "/run/spire/bundle/bundle.crt")
            ∷ ("trust_domain", text trust_domain)
            ∷ []),
      )
      ∷ (
        "health_checks",
        object_of (
            ("bind_address", text "0.0.0.0")
            ∷ ("bind_port", number (pos 9982))
            ∷ ("listener_enabled", flag true)
            ∷ ("live_path", text "/live")
            ∷ ("ready_path", text "/ready")
            ∷ []),
      )
      ∷ (
        "plugins",
        object_of (
            add_workload_attestor v.path_join spec.workload_attestors (
              add_node_attestor spec.node_attestor cluster_name
                (("KeyManager", plugin "memory" null) ∷ []))),
      )
      ∷ (
        "telemetry",
        object_of (
            ("Prometheus", object_of (("host", text "0.0.0.0") ∷ ("port", text "9402") ∷ [])) ∷ []),
      )
      ∷ []

  abbrev agent_config_map_of : Attempt String → Attempt AgentConfigMap
  agent_config_map_of (failed e) =
      failed (wrapped_error ("failed to marshal agent config: " ++ error_text e) e)
  agent_config_map_of (done conf) = done (record {
    name = "spire-agent";
    namespace = v.namespace;
    labels = spire_agent_labels v.versions spec.labels;
    annotations = (app_managed_by_label_key, app_managed_by_label_value) ∷ [];
    entries = ("agent.conf", conf) ∷ [];
    hash = generate_config_hash v.sha256 (codes conf);
  })

  unfoldable generate_spire_agent_config_map : Attempt AgentConfigMap
  generate_spire_agent_config_map =
      agent_config_map_of (v.marshal_json (object_of generate_agent_config))
