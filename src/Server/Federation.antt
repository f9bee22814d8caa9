-- ===== src/Server/Federation.antt =====
-- The validation of the federation settings in pkg/controller/spire-server/validation.go, over the
-- types of api/v1alpha1/spire_server_config_types.go. An `int32` of the settings is an integer.
pub mod Laws
use ocp_spire_operator.Prelude.{
  ℕ, suc, Bool, true, false, ◌&&◌, ◌||◌, not, String, List, [], ◌∷◌, Option, none, some, ◌==◌,
  is_some, length, ltb, if◌then◌else◌,
}
use ocp_spire_operator.Prelude.Int.{ℤ, pos, ltb_ℤ}
use ocp_spire_operator.Prelude.Text.{print_int, print_nat, starts_as}
use ocp_spire_operator.Kube.{Error, text_error, wrapped_error, error_text}
use ocp_spire_operator.Ztwim.Operand.{string_to_bool}
use Prim.Native.String.{◌++◌}

abbrev pub https_spiffe : String
https_spiffe = "https_spiffe"

abbrev pub https_web : String
https_web = "https_web"

pub record AcmeConfig : Type 0 where
  pub directory_url : String
  pub domain_name : String
  pub email : String
  pub tos_accepted : String

pub record ServingCertConfig : Type 0 where
  pub file_sync_interval : ℤ
  pub external_secret_ref : String

pub record HttpsWebConfig : Type 0 where
  pub acme : Option AcmeConfig
  pub serving_cert : Option ServingCertConfig

pub record BundleEndpointConfig : Type 0 where
  pub profile : String
  pub refresh_hint : ℤ
  pub https_web : Option HttpsWebConfig

pub record FederatesWithConfig : Type 0 where
  pub trust_domain : String
  pub bundle_endpoint_url : String
  pub bundle_endpoint_profile : String
  pub endpoint_spiffe_id : String

pub record FederationConfig : Type 0 where
  pub bundle_endpoint : BundleEndpointConfig
  pub federates_with : List FederatesWithConfig
  pub managed_route : String

-- `if err := first; err != nil { return err }` before the rest.
infixr 20 ◌orelse◌
abbrev pub ◌orelse◌ : Option Error → Option Error → Option Error
none orelse rest = rest
some e orelse rest = some e

-- `if bad { return error }`.
abbrev pub refuse_if : Bool → String → Option Error
refuse_if true message = some (text_error message)
refuse_if false message = none

-- `fmt.Errorf(prefix + "%w", err)`.
abbrev pub wrap : String → Option Error → Option Error
wrap prefix none = none
wrap prefix (some e) = some (wrapped_error (prefix ++ error_text e) e)

-- `strings.HasPrefix(s, prefix)`.
abbrev starts_with : String → String → Bool
starts_with s prefix = starts_as prefix s

unfoldable pub validate_acme_config : Option AcmeConfig → Option Error
validate_acme_config none = none
validate_acme_config (some acme) =
    refuse_if (not (starts_with acme.directory_url "https://"))
      ("directoryUrl must use https://, got " ++ acme.directory_url)
    orelse refuse_if (acme.domain_name == "") "domainName is required"
    orelse refuse_if (acme.email == "") "email is required"
    orelse refuse_if (not (string_to_bool acme.tos_accepted)) "tosAccepted must be true to use ACME"

-- `v > 0 && (v < low || v > high)`.
abbrev pub is_outside : ℤ → ℤ → ℤ → Bool
is_outside v low high = ltb_ℤ (pos 0) v && (ltb_ℤ v low || ltb_ℤ high v)

unfoldable pub validate_serving_cert_config : Option ServingCertConfig → Option Error
validate_serving_cert_config none = none
validate_serving_cert_config (some cert) =
    refuse_if (is_outside cert.file_sync_interval (pos 3600) (pos 7776000)) (
      "fileSyncInterval must be between 3600 and 7776000 seconds, got "
      ++ print_int cert.file_sync_interval)

unfoldable pub validate_https_web : Option HttpsWebConfig → Option Error
unfolding validate_acme_config validate_serving_cert_config
validate_https_web none =
    some (text_error "httpsWeb configuration is required when profile is https_web")
validate_https_web (some web) =
    refuse_if (is_some web.acme && is_some web.serving_cert)
      "acme and servingCert are mutually exclusive, only one can be set"
    orelse refuse_if (not (is_some web.acme) && not (is_some web.serving_cert))
        "either acme or servingCert must be set for https_web profile"
    orelse wrap "invalid ACME configuration: " (validate_acme_config web.acme)
    orelse wrap "invalid ServingCert configuration: "
        (validate_serving_cert_config web.serving_cert)

unfoldable pub validate_bundle_endpoint : BundleEndpointConfig → Option Error
unfolding validate_https_web
validate_bundle_endpoint b =
    (if b.profile == https_web then validate_https_web b.https_web else none)
    orelse refuse_if (is_outside b.refresh_hint (pos 60) (pos 3600))
        ("refreshHint must be between 60 and 3600 seconds, got " ++ print_int b.refresh_hint)

abbrev at_index : ℕ → String → String
at_index index message = "federatesWith[" ++ (print_nat index ++ ("]: " ++ message))

unfoldable pub validate_federated_trust_domain : FederatesWithConfig → ℕ → Option Error
validate_federated_trust_domain f index =
    refuse_if (f.trust_domain == "") (at_index index "trustDomain is required")
    orelse refuse_if (not (starts_with f.bundle_endpoint_url "https://"))
        (at_index index ("bundleEndpointUrl must use https://, got " ++ f.bundle_endpoint_url))
    orelse (if f.bundle_endpoint_profile == https_spiffe
        then refuse_if (f.endpoint_spiffe_id == "")
            (at_index index "endpointSpiffeId is required for https_spiffe profile")
          orelse refuse_if (not (starts_with f.endpoint_spiffe_id "spiffe://")) (
              at_index index
                ("endpointSpiffeId must start with spiffe://, got " ++ f.endpoint_spiffe_id))
        else none)

-- The keys of the map `seenDomains`.
abbrev pub is_seen : String → List String → Bool
is_seen d [] = false
is_seen d (e ∷ seen) = d == e || is_seen d seen

-- The loop over `FederatesWith`.
unfoldable pub validate_federates_with :
    String → ℕ → List String → List FederatesWithConfig → Option Error
validate_federates_with own index seen [] = none
validate_federates_with own index seen (f ∷ fs) =
    let rest = validate_federates_with own (suc index) (f.trust_domain ∷ seen) fs in
    refuse_if (f.trust_domain == own)
      (at_index index ("cannot federate with own trust domain " ++ own))
    orelse refuse_if (is_seen f.trust_domain seen)
        (at_index index ("duplicate trust domain " ++ f.trust_domain))
    orelse validate_federated_trust_domain f index
    orelse rest

unfoldable pub validate_federation_config : Option FederationConfig → String → Option Error
validate_federation_config none trust_domain = none
validate_federation_config (some federation) trust_domain =
    wrap "invalid bundle endpoint configuration: "
      (validate_bundle_endpoint federation.bundle_endpoint)
    orelse refuse_if (ltb 50 (length federation.federates_with)) (
        "federatesWith array cannot exceed 50 entries, got "
        ++ print_nat (length federation.federates_with))
    orelse validate_federates_with trust_domain 0 [] federation.federates_with
