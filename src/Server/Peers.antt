-- ===== src/Server/Peers.antt =====
-- The federation settings in the configuration of the SPIRE server, in
-- pkg/controller/spire-server/configmap.go.
pub mod Federated
use ocp_spire_operator.Prelude.{
  Bool, true, false, not, String, List, [], ◌∷◌, Option, none, some, ◌==◌, if◌then◌else◌,
}
use ocp_spire_operator.Prelude.Int.{ℤ, pos, eq_ℤ, ltb_ℤ}
use ocp_spire_operator.Prelude.Dict.{Dict, insert}
use ocp_spire_operator.Prelude.Text.{print_int}
use ocp_spire_operator.Kube.{Error, text_error, wrapped_error, error_text}
use ocp_spire_operator.Ztwim.Operand.{string_to_bool}
use ocp_spire_operator.Objects.{Attempt, done, failed}
use ocp_spire_operator.Labels.{Versions, spire_server_labels, spire_controller_manager_labels}
use ocp_spire_operator.Json.{Json, flag, number, text, array_of, texts, object_of, single}
use ocp_spire_operator.Server.Ttl.{Lifetimes}
use ocp_spire_operator.Server.Federation.{
  https_spiffe, https_web, AcmeConfig, ServingCertConfig, HttpsWebConfig, BundleEndpointConfig,
  FederatesWithConfig, FederationConfig,
}
use Prim.Native.String.{◌++◌}
use ocp_spire_operator.Settings.{
  or_default, get_log_level_from_string, get_log_format_from_string, seconds, insert_if,
  or_default_ℤ,
}

abbrev pub acme_members : AcmeConfig → Dict Json
acme_members a =
    ("directory_url", text a.directory_url)
    ∷ ("domain_name", text a.domain_name)
    ∷ ("email", text a.email)
    ∷ ("tos_accepted", flag (string_to_bool a.tos_accepted))
    ∷ []

abbrev pub serving_cert_members : ServingCertConfig → Dict Json
serving_cert_members c =
    ("cert_file_path", text "/run/spire/server-tls/tls.crt")
    ∷ ("key_file_path", text "/run/spire/server-tls/tls.key")
    ∷ ("file_sync_interval", text (seconds (or_default_ℤ (pos 3600) c.file_sync_interval)))
    ∷ []

-- ACME where it is set, the certificate of the service otherwise.
abbrev pub web_members : Option AcmeConfig → Option ServingCertConfig → Dict Json
web_members (some a) cert = ("acme", object_of (acme_members a)) ∷ []
web_members none (some c) = ("serving_cert_file", object_of (serving_cert_members c)) ∷ []
web_members none none = []

abbrev pub https_web_members : Option HttpsWebConfig → Dict Json
https_web_members none = []
https_web_members (some w) = web_members w.acme w.serving_cert

abbrev pub with_profile : BundleEndpointConfig → Dict Json → Dict Json
with_profile b m =
    if b.profile == https_spiffe
    then insert "profile" (object_of (("https_spiffe", object_of []) ∷ [])) m
    else if b.profile == https_web
    then insert "profile"
        (object_of (("https_web", object_of (https_web_members b.https_web)) ∷ [])) m
    else m

unfoldable pub generate_bundle_endpoint_config : BundleEndpointConfig → Dict Json
generate_bundle_endpoint_config b = with_profile b (
    insert "refresh_hint" (text (seconds (or_default_ℤ (pos 300) b.refresh_hint)))
      (("address", text "0.0.0.0") ∷ ("port", number (pos 8443)) ∷ []))

-- The settings of one trust domain.
unfoldable pub trust_config : FederatesWithConfig → Dict Json
trust_config f =
    let url = ("bundle_endpoint_url", text f.bundle_endpoint_url) ∷ [] in
    if f.bundle_endpoint_profile == https_spiffe
    then insert "bundle_endpoint_profile"
        (object_of (
          ("https_spiffe", object_of (("endpoint_spiffe_id", text f.endpoint_spiffe_id) ∷ []))
          ∷ []))
        url
    else if f.bundle_endpoint_profile == https_web
    then insert "bundle_endpoint_profile" (object_of (("https_web", object_of []) ∷ [])) url
    else url

-- The loop over `FederatesWith`, which fills a map.
unfoldable pub add_trust_configs : List FederatesWithConfig → Dict Json → Dict Json
add_trust_configs [] m = m
add_trust_configs (f ∷ fs) m =
    add_trust_configs fs (insert f.trust_domain (object_of (trust_config f)) m)

unfoldable pub generate_federation_config : FederationConfig → Dict Json
generate_federation_config federation =
    let endpoint =
      ("bundle_endpoint", object_of (generate_bundle_endpoint_config federation.bundle_endpoint))
      ∷ [] in
    elim federation.federates_with [
      | [] ↦ endpoint
      | f ∷ fs ↦ insert "federates_with" (object_of (add_trust_configs (f ∷ fs) [])) endpoint
    ]

abbrev pub add_federation : Option FederationConfig → Dict Json → Dict Json
add_federation none m = m
add_federation (some f) m = insert "federation" (object_of (generate_federation_config f)) m
