-- ===== src/Oidc/Contents/Served.antt =====
-- What the ConfigMap of the OIDC discovery provider serves.
use ocp_spire_operator.Prelude.{◌≡◌, ◌⊎◌, [], ◌∷◌, ◌∙◌, refl, sym, ap, String, some, arith}
use ocp_spire_operator.Prelude.Dict.{lookup}
use ocp_spire_operator.Json.{text, texts, object_of, within, at}
use ocp_spire_operator.Objects.{Attempt, done, failed}
use ocp_spire_operator.Labels.{component_discovery, has_controller_managed_label_with_component}
use ocp_spire_operator.Labels.Watched.{IsWatched, labels-IsWatched}
use ocp_spire_operator.Validation.Slashes.{IsStripped, strip_protocol_from_jwt_issuer-IsTrimmed}
use ocp_spire_operator.Validation.Issuer.{strip_protocol_from_jwt_issuer}
use ocp_spire_operator.Server.Contents.{ConfigMap}
use ocp_spire_operator.Oidc.Contents.{
  Environs, OidcSpec, oidc_config, oidc_map_of, with_issuer, generate_oidc_config_map_from_cr,
}
use Prim.Native.String.{◌++◌}

module _ (v : Environs) (spec : OidcSpec) (trust_domain : String) where
  -- The issuer without its protocol: empty for an empty issuer, and else the host and the path.
  abbrev pub IsDomain : String → Type 0
  IsDomain domain =
      ((spec.jwt_issuer ≡ "") × (domain ≡ ""))
      ⊎ IsStripped v.parse_url v.lower spec.jwt_issuer domain

  -- The ConfigMap carries the configuration that serves the domain.
  abbrev pub Serves : String → ConfigMap → Type 0
  Serves domain cm =
      (conf : String) × (v.marshal_json (object_of (oidc_config v spec trust_domain domain))
        ≡ done conf)
      × (lookup "oidc-discovery-provider.conf" cm.entries ≡ some conf)
      × (lookup "domains" (oidc_config v spec trust_domain domain)
          ≡ some (
              texts (
                "spire-spiffe-oidc-discovery-provider"
                ∷ ("spire-spiffe-oidc-discovery-provider" ++ ("." ++ v.namespace))
                ∷ ("spire-spiffe-oidc-discovery-provider"
                    ++ ("." ++ (v.namespace ++ ".svc.cluster.local")))
                ∷ domain
                ∷ [])))
      × (within "trust_domain" (lookup "workload_api" (oidc_config v spec trust_domain domain))
          ≡ some (text trust_domain))
      × IsWatched component_discovery cm.labels

  served :
      (domain : String) (a : Attempt String) (cm : ConfigMap)
      → v.marshal_json (object_of (oidc_config v spec trust_domain domain)) ≡ a
      → oidc_map_of v spec trust_domain a ≡ done cm
      → Serves domain cm
  unfolding oidc_config lookup at
  served domain (failed x) cm m e = absurd (ground (arith, e))
  served domain (done conf) cm m e =
      let c = ap (map_or cm) e in
      (
        conf,
        m,
        ap (λ d. lookup "oidc-discovery-provider.conf" d.entries) (sym c),
        refl,
        refl,
        ap (λ d. has_controller_managed_label_with_component d.labels component_discovery) (sym c)
            ∙ (labels-IsWatched v.versions spec.labels component_discovery).4.1 refl,
      )
    where
      map_or : ConfigMap → Attempt ConfigMap → ConfigMap
      map_or c (done d) = d
      map_or c (failed x) = c

  -- A ConfigMap of the OIDC discovery provider that is generated carries a configuration that was
  -- marshalled. Its domains are the three names of the service, in the namespace and in the cluster, and the
  -- issuer without its protocol, which is empty for an empty issuer and else the host and the path of the
  -- normalized issuer without the slashes at the end; it has the trust domain, and its labels make the
  -- provider's controller watch it.
  pub generate_oidc_config_map_from_cr-Serves :
      (cm : ConfigMap)
      → generate_oidc_config_map_from_cr v spec trust_domain ≡ done cm
      → (domain : String) × (strip_protocol_from_jwt_issuer v.parse_url v.lower spec.jwt_issuer
          ≡ done domain)
        × IsDomain domain
        × Serves domain cm
  unfolding generate_oidc_config_map_from_cr
  generate_oidc_config_map_from_cr-Serves cm e =
      go (strip_protocol_from_jwt_issuer v.parse_url v.lower spec.jwt_issuer) refl e
    where
      go :
          (a : Attempt String)
          → strip_protocol_from_jwt_issuer v.parse_url v.lower spec.jwt_issuer ≡ a
          → with_issuer v spec trust_domain a ≡ done cm
          → (domain : String) × (strip_protocol_from_jwt_issuer v.parse_url v.lower spec.jwt_issuer
              ≡ done domain)
            × IsDomain domain
            × Serves domain cm
      go (failed x) s h = absurd (ground (arith, h))
      go (done domain) s h = (
        domain,
        s,
        (strip_protocol_from_jwt_issuer-IsTrimmed v.parse_url v.lower spec.jwt_issuer domain s).1,
        served domain (v.marshal_json (object_of (oidc_config v spec trust_domain domain))) cm refl
            h,
      )
