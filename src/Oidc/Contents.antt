-- ===== src/Oidc/Contents.antt =====
-- The contents of the ConfigMap that pkg/controller/spire-oidc-discovery-provider/configmaps.go generates.
pub mod Served
use ocp_spire_operator.Prelude.{ℕ, String, List, [], ◌∷◌, Option, none, some}
use ocp_spire_operator.Prelude.Dict.{Dict}
use ocp_spire_operator.Kube.{Error, wrapped_error, error_text}
use ocp_spire_operator.Objects.{Attempt, done, failed}
use ocp_spire_operator.Labels.{Versions, spire_oidc_discovery_provider_labels}
use ocp_spire_operator.Json.{Json, text, texts, object_of}
use ocp_spire_operator.Settings.{get_log_level_from_string, get_log_format_from_string}
use ocp_spire_operator.Validation.{Url}
use ocp_spire_operator.Validation.Issuer.{strip_protocol_from_jwt_issuer}
use ocp_spire_operator.Server.Contents.{ConfigMap}
use Prim.Native.String.{◌++◌}

-- SpireOIDCDiscoveryProviderSpec, as far as the contents depend on it.
pub record OidcSpec : Type 0 where
  pub jwt_issuer : String
  pub log_level : String
  pub log_format : String
  pub labels : Dict String

-- The namespace of the operator, what the libraries compute, and the versions.
pub record Environs : Type 0 where
  pub namespace : String
  pub parse_url : String → Attempt Url
  pub lower : String → String
  pub marshal_json : Json → Attempt String
  pub versions : Versions

abbrev provider_name : String
provider_name = "spire-spiffe-oidc-discovery-provider"

-- The domains that are served; the issuer's is the last.
abbrev pub domains : String → String → List String
domains namespace jwt_issuer =
    provider_name
    ∷ (provider_name ++ ("." ++ namespace))
    ∷ (provider_name ++ ("." ++ (namespace ++ ".svc.cluster.local")))
    ∷ jwt_issuer
    ∷ []

module _ (v : Environs) (spec : OidcSpec) (trust_domain : String) where
  unfoldable pub oidc_config : String → Dict Json
  oidc_config jwt_issuer =
      ("domains", texts (domains v.namespace jwt_issuer))
      ∷ (
        "health_checks",
        object_of (
            ("bind_port", text "8008")
            ∷ ("live_path", text "/live")
            ∷ ("ready_path", text "/ready")
            ∷ []),
      )
      ∷ ("log_level", text (get_log_level_from_string spec.log_level))
      ∷ ("log_format", text (get_log_format_from_string spec.log_format))
      ∷ (
        "serving_cert_file",
        object_of (
            ("addr", text ":8443")
            ∷ ("cert_file_path", text "/etc/oidc/tls/tls.crt")
            ∷ ("key_file_path", text "/etc/oidc/tls/tls.key")
            ∷ []),
      )
      ∷ (
        "workload_api",
        object_of (
            ("socket_path", text "/spiffe-workload-api/spire-agent.sock")
            ∷ ("trust_domain", text trust_domain)
            ∷ []),
      )
      ∷ []

  abbrev pub oidc_map_of : Attempt String → Attempt ConfigMap
  oidc_map_of (failed e) =
      failed (wrapped_error ("failed to marshal OIDC config: " ++ error_text e) e)
  oidc_map_of (done conf) = done (record {
    name = provider_name;
    namespace = v.namespace;
    labels = spire_oidc_discovery_provider_labels v.versions spec.labels;
    entries = ("oidc-discovery-provider.conf", conf) ∷ [];
  })

  abbrev pub with_issuer : Attempt String → Attempt ConfigMap
  with_issuer (failed e) = failed (wrapped_error ("invalid JWT issuer URL: " ++ error_text e) e)
  with_issuer (done jwt_issuer) = oidc_map_of (v.marshal_json (object_of (oidc_config jwt_issuer)))

  -- `generateOIDCConfigMapFromCR`; the resource that is passed is never nil.
  unfoldable pub generate_oidc_config_map_from_cr : Attempt ConfigMap
  generate_oidc_config_map_from_cr =
      with_issuer (strip_protocol_from_jwt_issuer v.parse_url v.lower spec.jwt_issuer)
