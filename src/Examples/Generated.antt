-- ===== src/Examples/Generated.antt =====
-- Generated configurations of the SPIRE server and of the SPIRE agents.
use ocp_spire_operator.Prelude.{◌≡◌, ◌≢◌, ◌∙◌, sym, refl, String, [], ◌∷◌, some}
use ocp_spire_operator.Prelude.Int.{pos}
use ocp_spire_operator.Prelude.Text.{print_int}
use ocp_spire_operator.Json.{text}
use ocp_spire_operator.Objects.{done}
use ocp_spire_operator.Labels.{spire_server_labels, component_control_plane}
use ocp_spire_operator.Labels.Watched.{IsWatched}
use ocp_spire_operator.Server.Contents.{
  Environs, ServerSpec, ZtwimSpec, ConfigMap, generate_server_conf_map,
  generate_spire_server_config_map, marshal_to_json,
}
use ocp_spire_operator.Server.Contents.Carried.{
  Carries, server_setting, federation_setting, generate_spire_server_config_map-Carries,
}
use ocp_spire_operator.Agent.Contents.{
  host_cert, WorkloadAttestorsVerification, configure_kubelet_verification,
}
use ocp_spire_operator.Agent.Contents.Kubelet.{
  AsksToVerify, Verifies, SkipsAs, configure_kubelet_verification-Verifies,
}
use ocp_spire_operator.Agent.Volumes.{get_host_cert_mount_path}
use ocp_spire_operator.Agent.Volumes.Mounted.{FindsCa, MountsNoCa, get_host_cert_mount_path-FindsCa}
use ocp_spire_operator.Examples.Contents.{versions, federation, custom}
use package.text.Mathlib.TextLemmas.{cons-append, cons≢nil}
use Prim.Native.String.{◌++◌}

abbrev environs : Environs
environs = record {
  namespace = "ztwim";
  print_duration = print_int;
  marshal_json = λ j. done "{}";
  versions = versions;
}

abbrev spec : ServerSpec
spec = record {
  log_level = "debug";
  log_format = "";
  jwt_issuer = "https://oidc.a.org";
  lifetimes = record {
    ca_validity = pos 100;
    default_x509_validity = pos 10;
    default_jwt_validity = pos 10;
  };
  ca_key_type = "";
  jwt_key_type = "ec-p256";
  ca_subject = record { country = "US"; organization = "A"; common_name = "a.org" };
  datastore = record {
    database_type = "sqlite3";
    connection_string = "/run/spire/data/datastore.sqlite3";
    max_open_conns = pos 100;
    max_idle_conns = pos 0;
    conn_max_lifetime = pos 0;
    disable_migration = "false";
  };
  federation = some federation;
  labels = custom;
}

abbrev ztwim : ZtwimSpec
ztwim = record { trust_domain = "a.org"; cluster_name = "one"; bundle_config_map = "spire-bundle" }

abbrev server_map : ConfigMap
server_map = record {
  name = "spire-server";
  namespace = "ztwim";
  labels = spire_server_labels versions custom;
  entries = ("server.conf", "{}") ∷ [];
}

server_map-generated : generate_spire_server_config_map environs spec ztwim ≡ done server_map
unfolding generate_spire_server_config_map marshal_to_json
server_map-generated = refl

generate_spire_server_config_map-Carries_example :
    Carries environs spec ztwim server_map
    × (server_setting "trust_domain" (generate_server_conf_map environs spec ztwim)
        ≡ some (text "a.org"))
    × (ztwim.trust_domain ≢ "")
    × (server_setting "federation" (generate_server_conf_map environs spec ztwim)
        ≡ federation_setting (some federation))
    × IsWatched component_control_plane (spire_server_labels versions custom)
generate_spire_server_config_map-Carries_example =
    generate_spire_server_config_map-Carries environs spec ztwim server_map server_map-generated

-- The base is kept, so that the joined path is empty for an empty base only.
abbrev slash_join : String → String → String
slash_join base file = base ++ ("/" ++ file)

append-nonempty : (s t : String) → s ≢ "" → s ++ t ≢ ""
append-nonempty String.[] t n = absurd (n refl)
append-nonempty (String.◌∷◌ c s) t n = λ e. cons≢nil (sym (cons-append c s t) ∙ e)

abbrev verification : WorkloadAttestorsVerification
verification = record {
  type = host_cert;
  host_cert_base_path = "/etc/ssl";
  host_cert_file_name = "kubelet.crt";
}

configure_kubelet_verification-Verifies_example :
    (AsksToVerify (some verification)
      → Verifies (configure_kubelet_verification slash_join (some verification) []))
    × ((AsksToVerify (some verification) → ⊥)
        → SkipsAs [] (configure_kubelet_verification slash_join (some verification) []))
configure_kubelet_verification-Verifies_example =
    configure_kubelet_verification-Verifies slash_join
      (λ base file. append-nonempty base ("/" ++ file)) (some verification) []
      (λ h. (cons≢nil, cons≢nil))

get_host_cert_mount_path-FindsCa_example :
    (AsksToVerify (some verification) → FindsCa slash_join (some verification) [])
    × ((AsksToVerify (some verification) → ⊥)
        → MountsNoCa (get_host_cert_mount_path (some verification)))
get_host_cert_mount_path-FindsCa_example =
    get_host_cert_mount_path-FindsCa slash_join [] (λ base file. append-nonempty base ("/" ++ file))
      (some verification) (λ h. (cons≢nil, cons≢nil))
