-- ===== src/Agent/Volumes.antt =====
-- The volumes of the SPIRE agents in pkg/controller/spire-agent/daemonset.go, and where the agents have
-- them mounted.
pub mod Mounted
use ocp_spire_operator.Prelude.{
  ℕ, Bool, true, false, not, ◌&&◌, ◌++◌, String, List, [], ◌∷◌, Option, none, some, ◌==◌,
  if◌then◌else◌,
}
use ocp_spire_operator.Proxy.{VolumeMount}
use ocp_spire_operator.Agent.Contents.{
  auto, host_cert, WorkloadAttestorsVerification, WorkloadAttestors,
}

pub data VolumeSource : Type 0 where
  config_map : (name : String) → VolumeSource
  empty_dir : VolumeSource
  service_account_token :
      (path : String) → (expiration_seconds : ℕ) → (audience : String) → VolumeSource
  host_path : (path type : String) → VolumeSource

pub record Volume : Type 0 where
  pub name : String
  pub source : VolumeSource

-- Where the agent finds the certificate of the kubelet's authority; empty where nothing is mounted for it.
-- Without workload attestors there is no verification either.
unfoldable pub get_host_cert_mount_path : Option WorkloadAttestorsVerification → String
get_host_cert_mount_path none = ""
get_host_cert_mount_path (some v) =
    if v.type == host_cert
    then v.host_cert_base_path
    else if v.type == auto
    then (if not (v.host_cert_base_path == "") && not (v.host_cert_file_name == "")
        then v.host_cert_base_path
        else "/etc/kubernetes")
    else ""

abbrev pub mount : String → String → Bool → VolumeMount
mount name mount_path read_only = record {
  name = name;
  mount_path = mount_path;
  read_only = read_only;
}

abbrev pub volume : String → VolumeSource → Volume
volume name source = record { name = name; source = source }

abbrev kubelet_ca : String
kubelet_ca = "kubelet-ca"

module _ (path : String) where
  -- `if hostCertPath != "" { volumeMounts = append(…) }`.
  unfoldable pub volume_mounts : List VolumeMount
  volume_mounts =
      (mount "spire-config" "/opt/spire/conf/agent" true
        ∷ mount "spire-agent-persistence" "/var/lib/spire" false
        ∷ mount "spire-bundle" "/run/spire/bundle" true
        ∷ mount "spire-agent-socket-dir" "/tmp/spire-agent/public" false
        ∷ mount "spire-token" "/var/run/secrets/tokens" false
        ∷ [])
      ++ (if path == "" then [] else mount kubelet_ca path true ∷ [])

  unfoldable pub volumes : String → String → List Volume
  volumes bundle_config_map socket_path =
      (volume "spire-config" (config_map "spire-agent")
        ∷ volume "spire-agent-admin-socket-dir" empty_dir
        ∷ volume "spire-agent-persistence" empty_dir
        ∷ volume "spire-bundle" (config_map bundle_config_map)
        ∷ volume "spire-token" (service_account_token "spire-agent" 7200 "spire-server")
        ∷ volume "spire-agent-socket-dir" (host_path socket_path "DirectoryOrCreate")
        ∷ [])
      ++ (if path == "" then [] else volume kubelet_ca (host_path path "Directory") ∷ [])
