-- ===== src/Server/Contents.antt =====
-- The contents of the ConfigMaps that pkg/controller/spire-server/configmap.go generates: the
-- configuration of the SPIRE server, and the maps that carry it and the trust bundle.
pub mod Manager
pub mod Carried
use ocp_spire_operator.Prelude.{
  Bool, true, false, not, String, List, [], ◌∷◌, Option, none, some, ◌==◌, if◌then◌else◌,
}
use ocp_spire_operator.Prelude.Int.{ℤ, pos, eq_ℤ, ltb_ℤ}
use ocp_spire_operator.Prelude.Dict.{Dict, insert}
use ocp_spire_operator.Prelude.Text.{print_int}
use ocp_spire_operator.Kube.{Error, text_error, wrapped_error, error_text}
use ocp_spire_operator.Ztwim.Operand.{string_to_bool}
use ocp_spire_operator.Objects.{Attempt, done, failed}
use ocp_spire_operator.Labels.{Versions, spire_server_labels, spire_controller_manager_labels}
use ocp_spire_operator.Json.{Json, flag, number, text, array_of, texts, object_of, single}
use ocp_spire_operator.Server.Ttl.{Lifetimes}
use ocp_spire_operator.Server.Federation.{
  https_spiffe, https_web, AcmeConfig, ServingCertConfig, HttpsWebConfig, BundleEndpointConfig,
  FederatesWithConfig, FederationConfig,
}
use Prim.Native.String.{◌++◌}
use ocp_spire_operator.Settings.{
  or_default, get_log_level_from_string, get_log_format_from_string, seconds, insert_if,
  or_default_ℤ,
}
use ocp_spire_operator.Server.Peers.{
  acme_members, serving_cert_members, web_members, https_web_members, with_profile,
  generate_bundle_endpoint_config, trust_config, add_trust_configs, generate_federation_config,
  add_federation,
}

pub record DataStore : Type 0 where
  pub database_type : String
  pub connection_string : String
  pub max_open_conns : ℤ
  pub max_idle_conns : ℤ
  pub conn_max_lifetime : ℤ
  pub disable_migration : String

pub record CaSubject : Type 0 where
  pub country : String
  pub organization : String
  pub common_name : String

-- SpireServerSpec and ZeroTrustWorkloadIdentityManagerSpec, as far as the contents depend on them.
pub record ServerSpec : Type 0 where
  pub log_level : String
  pub log_format : String
  pub jwt_issuer : String
  pub lifetimes : Lifetimes
  pub ca_key_type : String
  pub jwt_key_type : String
  pub ca_subject : CaSubject
  pub datastore : DataStore
  pub federation : Option FederationConfig
  pub labels : Dict String

pub record ZtwimSpec : Type 0 where
  pub trust_domain : String
  pub cluster_name : String
  pub bundle_config_map : String

-- A ConfigMap.
pub record ConfigMap : Type 0 where
  pub name : String
  pub namespace : String
  pub labels : Dict String
  pub entries : Dict String

unfoldable pub get_ca_key_type : String → String
get_ca_key_type = or_default "rsa-2048"

unfoldable pub build_data_store_plugin_data : DataStore → Dict Json
build_data_store_plugin_data d =
    insert_if (ltb_ℤ (pos 0) d.conn_max_lifetime) "conn_max_lifetime"
      (text (seconds d.conn_max_lifetime))
      (insert_if (not (d.disable_migration == "")) "disable_migration"
        (flag (string_to_bool d.disable_migration))
        (insert_if (ltb_ℤ (pos 0) d.max_idle_conns) "max_idle_conns" (number d.max_idle_conns) (
          insert_if (ltb_ℤ (pos 0) d.max_open_conns) "max_open_conns" (number d.max_open_conns) (
            ("connection_string", text d.connection_string)
            ∷ ("database_type", text d.database_type)
            ∷ []))))

-- The namespace of the operator, the printing and marshalling of the libraries, and the versions.
pub record Environs : Type 0 where
  pub namespace : String
  pub print_duration : ℤ → String
  pub marshal_json : Json → Attempt String
  pub versions : Versions

abbrev pub marshalled_server_conf : Attempt String → Attempt String
marshalled_server_conf (done s) = done s
marshalled_server_conf (failed e) =
    failed (wrapped_error ("failed to marshal server.conf: " ++ error_text e) e)

unfoldable pub marshal_to_json : Environs → Json → Attempt String
marshal_to_json v j = marshalled_server_conf (v.marshal_json j)

module _ (v : Environs) (config : ServerSpec) (ztwim : ZtwimSpec) where
  -- The settings of the server without the two that are optional.
  abbrev pub core_section : Dict Json
  core_section =
      ("audit_log_enabled", flag false)
      ∷ ("bind_address", text "0.0.0.0")
      ∷ ("bind_port", text "8081")
      ∷ ("ca_key_type", text (get_ca_key_type config.ca_key_type))
      ∷ (
        "ca_subject",
        single (
            ("common_name", text config.ca_subject.common_name)
            ∷ ("country", texts (config.ca_subject.country ∷ []))
            ∷ ("organization", texts (config.ca_subject.organization ∷ []))
            ∷ []),
      )
      ∷ ("ca_ttl", text (v.print_duration config.lifetimes.ca_validity))
      ∷ ("data_dir", text "/run/spire/data")
      ∷ ("default_jwt_svid_ttl", text (v.print_duration config.lifetimes.default_jwt_validity))
      ∷ ("default_x509_svid_ttl", text (v.print_duration config.lifetimes.default_x509_validity))
      ∷ ("jwt_issuer", text config.jwt_issuer)
      ∷ ("log_level", text (get_log_level_from_string config.log_level))
      ∷ ("log_format", text (get_log_format_from_string config.log_format))
      ∷ ("trust_domain", text ztwim.trust_domain)
      ∷ []

  unfoldable pub server_section : Dict Json
  server_section = add_federation config.federation (
      insert_if (not (config.jwt_key_type == "")) "jwt_key_type" (text config.jwt_key_type)
        core_section)

  abbrev pub psat_clusters : Json
  psat_clusters = single (
      (
        ztwim.cluster_name,
        object_of (
            ("allowed_node_label_keys", texts [])
            ∷ ("allowed_pod_label_keys", texts [])
            ∷ ("audience", texts ("spire-server" ∷ []))
            ∷ ("service_account_allow_list", texts ((v.namespace ++ ":spire-agent") ∷ []))
            ∷ []),
      )
      ∷ [])

  -- The list with one plugin.
  abbrev pub plugin : String → Dict Json → Json
  plugin name settings = single ((name, object_of (("plugin_data", object_of settings) ∷ [])) ∷ [])

  abbrev pub plugins : Dict Json
  plugins =
      ("DataStore", plugin "sql" (build_data_store_plugin_data config.datastore))
      ∷ ("KeyManager", plugin "disk" (("keys_path", text "/run/spire/data/keys.json") ∷ []))
      ∷ ("NodeAttestor", plugin "k8s_psat" (("clusters", psat_clusters) ∷ []))
      ∷ (
        "Notifier",
        plugin "k8sbundle"
            (("config_map", text ztwim.bundle_config_map) ∷ ("namespace", text v.namespace) ∷ []),
      )
      ∷ []

  unfoldable pub generate_server_conf_map : Dict Json
  generate_server_conf_map =
      (
        "health_checks",
        object_of (
            ("bind_address", text "0.0.0.0")
            ∷ ("bind_port", text "8080")
            ∷ ("listener_enabled", flag true)
            ∷ ("live_path", text "/live")
            ∷ ("ready_path", text "/ready")
            ∷ []),
      )
      ∷ ("plugins", object_of plugins)
      ∷ ("server", object_of server_section)
      ∷ (
        "telemetry",
        object_of (
            ("Prometheus", object_of (("host", text "0.0.0.0") ∷ ("port", text "9402") ∷ [])) ∷ []),
      )
      ∷ []

  abbrev pub server_config_map_of : Attempt String → Attempt ConfigMap
  server_config_map_of (failed e) = failed e
  server_config_map_of (done conf) = done (record {
    name = "spire-server";
    namespace = v.namespace;
    labels = spire_server_labels v.versions config.labels;
    entries = ("server.conf", conf) ∷ [];
  })

  -- The specification that is passed is never nil.
  unfoldable pub generate_spire_server_config_map : Attempt ConfigMap
  generate_spire_server_config_map =
      if ztwim.trust_domain == ""
      then failed (text_error "trust_domain is empty")
      else if ztwim.bundle_config_map == ""
      then failed (text_error "bundle configmap is empty")
      else server_config_map_of (marshal_to_json v (object_of generate_server_conf_map))

  unfoldable pub generate_spire_bundle_config_map : Attempt ConfigMap
  generate_spire_bundle_config_map =
      if ztwim.bundle_config_map == ""
      then failed (text_error "bundle ConfigMap is empty")
      else done (record {
        name = ztwim.bundle_config_map;
        namespace = v.namespace;
        labels = spire_server_labels v.versions config.labels;
        entries = [];
      })
