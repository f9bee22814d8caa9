-- ===== src/Examples/Issuers.antt =====
-- The issuer, the configuration of the OIDC discovery provider and the hash of a map at concrete inputs.
use ocp_spire_operator.Prelude.{
  ℕ, ◌≡◌, ◌⊎◌, refl, sym, ◌∙◌, length, String, List, [], ◌∷◌, ◌==◌, arith, eq_iff, if◌then◌else◌,
}
use ocp_spire_operator.Prelude.Dict.{Dict, lookup}
use ocp_spire_operator.Prelude.Text.{print_nat}
use ocp_spire_operator.Kube.{text_error}
use ocp_spire_operator.Objects.{Attempt, done, failed}
use ocp_spire_operator.Hashes.{generate_map_hash}
use ocp_spire_operator.Hashes.Unordered.{generate_map_hash-IsRange}
use ocp_spire_operator.Validation.{Url, is_valid_url, validate_url_components}
use ocp_spire_operator.Validation.Issuer.{
  trim_slashes, remove_trailing_slash, strip_protocol, build_normalized_url, normalize_url,
  strip_protocol_from_jwt_issuer,
}
use ocp_spire_operator.Validation.Slashes.{
  IsTrimmed, IsStripped, strip_protocol_from_jwt_issuer-IsTrimmed,
}
use ocp_spire_operator.Labels.{spire_oidc_discovery_provider_labels}
use ocp_spire_operator.Server.Contents.{ConfigMap}
use ocp_spire_operator.Oidc.Contents.{Environs, OidcSpec, generate_oidc_config_map_from_cr}
use ocp_spire_operator.Oidc.Contents.Served.{
  IsDomain, Serves, generate_oidc_config_map_from_cr-Serves,
}
use ocp_spire_operator.Examples.Contents.{versions, custom}

-- A parser that knows two texts.
abbrev parse : String → Attempt Url
parse s =
    if s == "HTTPS://oidc.a.org/"
    then done (record {
      scheme = "HTTPS";
      host = "oidc.a.org";
      path = "/";
      raw_query = "";
      fragment = "";
    })
    else if s == "https://oidc.a.org"
    then done
        (record { scheme = "https"; host = "oidc.a.org"; path = ""; raw_query = ""; fragment = "" })
    else failed (text_error "unknown")

abbrev lower : String → String
lower s = if s == "HTTPS" then "https" else s

abbrev spec : OidcSpec
spec = record {
  jwt_issuer = "HTTPS://oidc.a.org/";
  log_level = "";
  log_format = "json";
  labels = custom;
}

abbrev host : String
host = "oidc.a.org"

abbrev empty : String
empty = ""

stripped : strip_protocol_from_jwt_issuer parse lower "HTTPS://oidc.a.org/" ≡ done "oidc.a.org"
unfolding strip_protocol_from_jwt_issuer is_valid_url validate_url_components normalize_url
    build_normalized_url strip_protocol remove_trailing_slash trim_slashes
stripped = refl

strip_protocol_from_jwt_issuer-IsTrimmed_example :
    IsTrimmed "oidc.a.org"
    × (((spec.jwt_issuer ≡ empty) × (host ≡ empty)) ⊎ IsStripped parse lower spec.jwt_issuer host)
strip_protocol_from_jwt_issuer-IsTrimmed_example =
    strip_protocol_from_jwt_issuer-IsTrimmed parse lower spec.jwt_issuer host stripped

abbrev environs : Environs
environs = record {
  namespace = "ztwim";
  parse_url = parse;
  lower = lower;
  marshal_json = λ j. done "{}";
  versions = versions;
}

abbrev provider_map : ConfigMap
provider_map = record {
  name = "spire-spiffe-oidc-discovery-provider";
  namespace = "ztwim";
  labels = spire_oidc_discovery_provider_labels versions custom;
  entries = ("oidc-discovery-provider.conf", "{}") ∷ [];
}

provider_map-generated : generate_oidc_config_map_from_cr environs spec "a.org" ≡ done provider_map
unfolding generate_oidc_config_map_from_cr strip_protocol_from_jwt_issuer is_valid_url
    validate_url_components normalize_url build_normalized_url strip_protocol remove_trailing_slash
    trim_slashes
provider_map-generated = refl

generate_oidc_config_map_from_cr-Serves_example :
    (domain : String) × (strip_protocol_from_jwt_issuer parse lower spec.jwt_issuer ≡ done domain)
    × IsDomain environs spec "a.org" domain
    × Serves environs spec "a.org" domain provider_map
generate_oidc_config_map_from_cr-Serves_example =
    generate_oidc_config_map_from_cr-Serves environs spec "a.org" provider_map
      provider_map-generated

abbrev entries : Dict String
entries = ("b", "1") ∷ ("a", " 2") ∷ []

abbrev reversed : Dict String
reversed = ("a", " 2") ∷ ("b", "1") ∷ []

apart : (k : String) → "a" ≡ k → "b" ≡ k → ⊥
apart k p q = ground (arith, eq_iff "a" "b", p ∙ sym q)

reversed_same : (k : String) → lookup k reversed ≡ lookup k entries
unfolding lookup
reversed_same k = ground (arith, eq_iff "a" k, eq_iff "b" k, apart k)

-- The length of the text, in place of its digest.
abbrev digest : List ℕ → String
digest cs = print_nat (length cs)

generate_map_hash-IsRange_example :
    generate_map_hash digest entries entries ≡ generate_map_hash digest reversed entries
unfolding lookup
generate_map_hash-IsRange_example =
    generate_map_hash-IsRange digest entries reversed entries entries
      (record { distinct = (refl, (refl, tt)); same = λ k. refl })
      (record { distinct = (refl, (refl, tt)); same = reversed_same }) (λ k. refl)
