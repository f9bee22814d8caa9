-- ===== src/Proxy.antt =====
-- pkg/controller/utils/proxy.go: the cluster-wide proxy and the trusted CA bundle, added to the pods of
-- the operands. Of a pod, the fields that this code reads or writes.
pub mod Laws
pub mod Again
use ocp_spire_operator.Prelude.{
  Bool, true, false, ◌||◌, ◌&&◌, not, String, List, [], ◌∷◌, ◌++◌, map, Option, none, some, ◌==◌,
  if◌then◌else◌, any_of,
}
use Prim.Native.String.{◌++◌ as concat}

-- What `os.Getenv` returns for the variables that this code reads; an unset one is empty.
pub record Environment : Type 0 where
  pub http_proxy : String
  pub https_proxy : String
  pub no_proxy : String
  pub trusted_ca_bundle_configmap : String
  pub operator_namespace : String

pub record EnvVar : Type 0 where
  pub name : String
  pub value : String

pub record VolumeMount : Type 0 where
  pub name : String
  pub mount_path : String
  pub read_only : Bool

pub record Container : Type 0 where
  pub name : String
  pub env : List EnvVar
  pub volume_mounts : List VolumeMount

pub record KeyToPath : Type 0 where
  pub key : String
  pub path : String

pub record ConfigMapSource : Type 0 where
  pub name : String
  pub items : List KeyToPath

pub record Volume : Type 0 where
  pub name : String
  pub config_map : Option ConfigMapSource

pub record PodSpec : Type 0 where
  pub containers : List Container
  pub init_containers : List Container
  pub volumes : List Volume

abbrev http_proxy_env_var : String
http_proxy_env_var = "HTTP_PROXY"

abbrev https_proxy_env_var : String
https_proxy_env_var = "HTTPS_PROXY"

abbrev no_proxy_env_var : String
no_proxy_env_var = "NO_PROXY"

abbrev pub trusted_ca_bundle_volume_name : String
trusted_ca_bundle_volume_name = "trusted-ca-bundle"

-- `if v != "" { envVars = append(envVars, EnvVar{k, v}) }`.
abbrev env_var_unless_empty : String → String → List EnvVar
env_var_unless_empty k v = if v == "" then [] else record { name = k; value = v } ∷ []

-- The loop over the additional entries.
unfoldable pub add_no_proxy : String → List String → String
add_no_proxy no_proxy [] = no_proxy
add_no_proxy no_proxy (entry ∷ entries) =
    add_no_proxy
      (if entry == ""
        then no_proxy
        else if no_proxy == ""
        then entry
        else concat no_proxy (concat "," entry))
      entries

unfoldable pub get_proxy_env_vars_with_no_proxy_additions : Environment → List String → List EnvVar
get_proxy_env_vars_with_no_proxy_additions e additional_no_proxy =
    env_var_unless_empty http_proxy_env_var e.http_proxy
    ++ env_var_unless_empty https_proxy_env_var e.https_proxy
    ++ env_var_unless_empty no_proxy_env_var (add_no_proxy e.no_proxy additional_no_proxy)

abbrev pub is_proxy_enabled : Environment → Bool
is_proxy_enabled e = not (e.http_proxy == "") || not (e.https_proxy == "")

abbrev pub is_trusted_ca_bundle_configured : Environment → Bool
is_trusted_ca_bundle_configured e = not (e.trusted_ca_bundle_configmap == "")

pub record ProxyValidationResult : Type 0 where
  pub valid : Bool
  pub reason : String
  pub message : String

abbrev proxy_is_valid : ProxyValidationResult
proxy_is_valid = record { valid = true; reason = ""; message = "" }

unfoldable pub validate_proxy_configuration : Environment → ProxyValidationResult
validate_proxy_configuration e =
    if not (is_proxy_enabled e)
    then proxy_is_valid
    else if e.trusted_ca_bundle_configmap == ""
    then record {
      valid = false;
      reason = "ProxyConfigurationInvalid";
      message =
          "Proxy is enabled (HTTP_PROXY/HTTPS_PROXY set) but trusted CA bundle ConfigMap is not configured. set TRUSTED_CA_BUNDLE_CONFIGMAP environment variable in the Subscription.";
    }
    else proxy_is_valid

-- The keys of the map `existingEnvVars`.
abbrev pub has_env : List EnvVar → String → Bool
has_env env k = any_of (λ v. v.name == k) env

-- The loop that appends what does not exist yet.
unfoldable pub missing_env_vars : List EnvVar → List EnvVar → List EnvVar
missing_env_vars existing [] = []
missing_env_vars existing (v ∷ vs) =
    if has_env existing v.name
    then missing_env_vars existing vs
    else v ∷ missing_env_vars existing vs

unfoldable pub inject_proxy_env_vars_with_no_proxy_additions :
    Environment → List String → Container → Container
inject_proxy_env_vars_with_no_proxy_additions e additional_no_proxy c = record c {
  env =
      c.env
      ++ missing_env_vars c.env (get_proxy_env_vars_with_no_proxy_additions e additional_no_proxy);
}

unfoldable get_internal_no_proxy_entries : Environment → List String
get_internal_no_proxy_entries e =
    concat "spire-server." e.operator_namespace
    ∷ concat "spire-server." (concat e.operator_namespace ".svc")
    ∷ concat "spire-server." (concat e.operator_namespace ".svc.cluster.local")
    ∷ "kubernetes.default"
    ∷ "kubernetes.default.svc"
    ∷ "kubernetes.default.svc.cluster.local"
    ∷ []

unfoldable pub get_trusted_ca_bundle_volume : Environment → Volume
get_trusted_ca_bundle_volume e =
    if e.trusted_ca_bundle_configmap == ""
    then record { name = ""; config_map = none }
    else record {
      name = trusted_ca_bundle_volume_name;
      config_map = some (record {
        name = e.trusted_ca_bundle_configmap;
        items = record { key = "ca-bundle.crt"; path = "tls-ca-bundle.pem" } ∷ [];
      });
    }

abbrev pub trusted_ca_bundle_volume_mount : VolumeMount
trusted_ca_bundle_volume_mount = record {
  name = trusted_ca_bundle_volume_name;
  mount_path = "/etc/pki/ca-trust/extracted/pem";
  read_only = true;
}

abbrev pub mounts_bundle : Container → Bool
mounts_bundle c = any_of (λ m. m.name == trusted_ca_bundle_volume_name) c.volume_mounts

unfoldable pub add_trusted_ca_bundle_to_container : Environment → Container → Container
add_trusted_ca_bundle_to_container e c =
    if not (is_trusted_ca_bundle_configured e)
    then c
    else if mounts_bundle c
    then c
    else record c { volume_mounts = c.volume_mounts ++ trusted_ca_bundle_volume_mount ∷ [] }

-- The body of the loops over the containers and the init containers.
unfoldable pub configure_container : Environment → List String → Container → Container
configure_container e additional_no_proxy c =
    let c' =
      if is_proxy_enabled e
      then inject_proxy_env_vars_with_no_proxy_additions e additional_no_proxy c
      else c in
    if is_trusted_ca_bundle_configured e then add_trusted_ca_bundle_to_container e c' else c'

abbrev pub has_bundle_volume : List Volume → Bool
has_bundle_volume vs = any_of (λ v. v.name == trusted_ca_bundle_volume_name) vs

unfoldable pub add_proxy_config_to_pod_with_no_proxy_additions :
    Environment → List String → PodSpec → PodSpec
add_proxy_config_to_pod_with_no_proxy_additions e additional_no_proxy pod =
    if not (is_proxy_enabled e) && not (is_trusted_ca_bundle_configured e) then pod else record {
      containers = map (configure_container e additional_no_proxy) pod.containers;
      init_containers = map (configure_container e additional_no_proxy) pod.init_containers;
      volumes =
          if is_trusted_ca_bundle_configured e && not (has_bundle_volume pod.volumes)
          then pod.volumes ++ get_trusted_ca_bundle_volume e ∷ []
          else pod.volumes;
    }

abbrev add_proxy_config_to_pod : Environment → PodSpec → PodSpec
add_proxy_config_to_pod e = add_proxy_config_to_pod_with_no_proxy_additions e []

abbrev add_proxy_config_to_pod_with_internal_no_proxy : Environment → PodSpec → PodSpec
add_proxy_config_to_pod_with_internal_no_proxy e =
    add_proxy_config_to_pod_with_no_proxy_additions e (get_internal_no_proxy_entries e)
