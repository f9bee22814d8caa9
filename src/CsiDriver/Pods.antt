-- ===== src/CsiDriver/Pods.antt =====
-- The DaemonSet of the SPIFFE CSI driver, in pkg/controller/spiffe-csi-driver/daemonset.go. Resources,
-- affinity, tolerations and the node selector are values of types that are left open; a nil pointer to
-- resources is the empty value.
pub mod Selected
use ocp_spire_operator.Prelude.{ℕ, Bool, true, false, String, List, [], ◌∷◌, Option, none, some}
use ocp_spire_operator.Prelude.Dict.{Dict, lookup}
use ocp_spire_operator.Labels.{Versions, spiffe_csi_driver_labels}
use ocp_spire_operator.Hashes.{or_empty}
use ocp_spire_operator.Agent.Volumes.{Volume, volume, host_path}
use Prim.Native.String.{◌++◌}

pub record Mount : Type 0 where
  pub name : String
  pub mount_path : String
  pub read_only : Bool
  pub propagation : Option String

pub record Probe : Type 0 where
  pub path : String
  pub port : String
  pub initial_delay_seconds : ℕ
  pub timeout_seconds : ℕ

pub record Container (R : Type 0) : Type 0 where
  pub name : String
  pub image : String
  pub command : List String
  pub args : List String
  pub image_pull_policy : String
  pub field_env : Dict String
  pub resources : Option R
  pub mounts : List Mount
  pub ports : Dict ℕ
  pub liveness : Option Probe
  pub read_only_root_filesystem : Bool
  pub privileged : Bool
  pub dropped_capabilities : List String
  pub termination_message_path : String
  pub termination_message_policy : String

pub record DaemonSet (R S : Type 0) : Type 0 where
  pub name : String
  pub namespace : String
  pub labels : Dict String
  pub selector : Dict String
  pub update_strategy : String
  pub max_unavailable : ℕ
  pub template_labels : Dict String
  pub service_account_name : String
  pub scheduling : S
  pub init_containers : List (Container R)
  pub containers : List (Container R)
  pub volumes : List Volume

-- SpiffeCSIDriverSpec; `scheduling` is its affinity, tolerations and node selector.
pub record CsiSpec (R S : Type 0) : Type 0 where
  pub agent_socket_path : String
  pub plugin_name : String
  pub resources : Option R
  pub scheduling : S
  pub labels : Dict String

-- The images of the environment.
pub record Images : Type 0 where
  pub init_container : String
  pub csi_driver : String
  pub node_driver_registrar : String

-- The labels that identify the pods of a component.
unfoldable pub selector_labels : Dict String → Dict String
selector_labels labels =
    ("app.kubernetes.io/name", or_empty (lookup "app.kubernetes.io/name" labels))
    ∷ ("app.kubernetes.io/instance", or_empty (lookup "app.kubernetes.io/instance" labels))
    ∷ ("app.kubernetes.io/component", or_empty (lookup "app.kubernetes.io/component" labels))
    ∷ []

abbrev at_path : String → String → Bool → Mount
at_path name mount_path read_only = record {
  name = name;
  mount_path = mount_path;
  read_only = read_only;
  propagation = none;
}

module _ {R S : Type 0} (namespace : String) (images : Images) (versions : Versions)
    (config : CsiSpec R S) where
  abbrev set_context : Container R
  set_context = record {
    name = "set-context";
    image = images.init_container;
    command = "chcon" ∷ "-Rvt" ∷ "container_file_t" ∷ "spire-agent-socket/" ∷ [];
    args = [];
    image_pull_policy = "Always";
    field_env = [];
    resources = none;
    mounts = at_path "spire-agent-socket-dir" "/spire-agent-socket" false ∷ [];
    ports = [];
    liveness = none;
    read_only_root_filesystem = false;
    privileged = true;
    dropped_capabilities = "all" ∷ [];
    termination_message_path = "/dev/termination-log";
    termination_message_policy = "File";
  }

  abbrev pub driver : Container R
  driver = record {
    name = "spiffe-csi-driver";
    image = images.csi_driver;
    command = [];
    args =
        "-workload-api-socket-dir" ∷ "/spire-agent-socket" ∷ "-plugin-name" ∷ config.plugin_name
        ∷ "-csi-socket-path" ∷ "/spiffe-csi/csi.sock" ∷ [];
    image_pull_policy = "IfNotPresent";
    field_env = ("MY_NODE_NAME", "spec.nodeName") ∷ [];
    resources = config.resources;
    mounts =
        at_path "spire-agent-socket-dir" "/spire-agent-socket" true
        ∷ at_path "spiffe-csi-socket-dir" "/spiffe-csi" false
        ∷ record (at_path "mountpoint-dir" "/var/lib/kubelet/pods" false) {
          propagation = some "Bidirectional";
        }
        ∷ [];
    ports = [];
    liveness = none;
    read_only_root_filesystem = true;
    privileged = true;
    dropped_capabilities = "all" ∷ [];
    termination_message_path = "";
    termination_message_policy = "";
  }

  abbrev plugin_dir : String
  plugin_dir = "/var/lib/kubelet/plugins/" ++ config.plugin_name

  abbrev pub registrar : Container R
  registrar = record {
    name = "node-driver-registrar";
    image = images.node_driver_registrar;
    command = [];
    args =
        "-csi-address"
        ∷ "/spiffe-csi/csi.sock"
        ∷ "-kubelet-registration-path"
        ∷ (plugin_dir ++ "/csi.sock")
        ∷ "-health-port"
        ∷ "9809"
        ∷ [];
    image_pull_policy = "IfNotPresent";
    field_env = [];
    resources = config.resources;
    mounts =
        at_path "spiffe-csi-socket-dir" "/spiffe-csi" false
        ∷ at_path "kubelet-plugin-registration-dir" "/registration" false
        ∷ [];
    ports = ("healthz", 9809) ∷ [];
    liveness = some (record {
      path = "/healthz";
      port = "healthz";
      initial_delay_seconds = 5;
      timeout_seconds = 5;
    });
    read_only_root_filesystem = false;
    privileged = true;
    dropped_capabilities = "all" ∷ [];
    termination_message_path = "";
    termination_message_policy = "";
  }

  unfoldable pub generate_spiffe_csi_driver_daemon_set : DaemonSet R S
  generate_spiffe_csi_driver_daemon_set =
      let labels = spiffe_csi_driver_labels versions config.labels in
      record {
        name = "spire-spiffe-csi-driver";
        namespace = namespace;
        labels = labels;
        selector = selector_labels labels;
        update_strategy = "RollingUpdate";
        max_unavailable = 1;
        template_labels = labels;
        service_account_name = "spire-spiffe-csi-driver";
        scheduling = config.scheduling;
        init_containers = set_context ∷ [];
        containers = driver ∷ registrar ∷ [];
        volumes =
            volume "spire-agent-socket-dir" (host_path config.agent_socket_path "DirectoryOrCreate")
            ∷ volume "spiffe-csi-socket-dir" (host_path plugin_dir "DirectoryOrCreate")
            ∷ volume "mountpoint-dir" (host_path "/var/lib/kubelet/pods" "Directory")
            ∷ volume "kubelet-plugin-registration-dir"
                (host_path "/var/lib/kubelet/plugins_registry" "Directory")
            ∷ [];
      }
