-- ===== src/Server/Peers/Federated.antt =====
-- The federation settings that pkg/controller/spire-server/configmap.go writes, for settings that
-- pkg/controller/spire-server/validation.go accepts.
use ocp_spire_operator.Prelude.{
  ◌≡◌, ◌≢◌, ◌⊎◌, refl, ◌∙◌, String, List, [], ◌∷◌, Option, none, some, arith, All, inl, inr,
  Bool-cases, ◌==◌, eq_iff, eq_refl,
}
use ocp_spire_operator.Prelude.Int.{pos}
use ocp_spire_operator.Prelude.Dict.{Dict, insert, lookup, lookup-insert}
use ocp_spire_operator.Json.{at, Json, text, number, object_of, within, at-object_of}
use ocp_spire_operator.Settings.{seconds, or_default_ℤ}
use ocp_spire_operator.Server.Federation.{
  https_web, HttpsWebConfig, BundleEndpointConfig, FederatesWithConfig, FederationConfig,
  validate_bundle_endpoint, validate_federation_config, AcmeConfig, ServingCertConfig,
}
use ocp_spire_operator.Server.Federation.Laws.{
  IsAbsent, HasDistinctDomains, IsForeign, validate_bundle_endpoint_iff,
  validate_federation_config_iff, IsValidWeb,
}
use ocp_spire_operator.Server.Peers.{
  trust_config, add_trust_configs, generate_federation_config, generate_bundle_endpoint_config,
  https_web_members, web_members,
}

lookup-absent :
    (d : String) (fs : List FederatesWithConfig) (m : Dict Json)
    → IsAbsent d fs
    → lookup d (add_trust_configs fs m) ≡ lookup d m
unfolding add_trust_configs
lookup-absent d [] m h = refl
lookup-absent d (f ∷ fs) m (n, h) =
    lookup-absent d fs (insert f.trust_domain (object_of (trust_config f)) m) h
    ∙ lookup-insert f.trust_domain d (object_of (trust_config f)) m
    ∙ ground (arith, eq_iff f.trust_domain d, n)

-- The settings that the server is given for a trust domain.
abbrev IsTrusted : Dict Json → FederatesWithConfig → Type 0
IsTrusted m f = lookup f.trust_domain m ≡ some (object_of (trust_config f))

lookup-present :
    (fs : List FederatesWithConfig) (m : Dict Json)
    → HasDistinctDomains fs
    → All (IsTrusted (add_trust_configs fs m)) fs
unfolding add_trust_configs
lookup-present [] m h = tt
lookup-present (f ∷ fs) m (a, h) =
    let m' = insert f.trust_domain (object_of (trust_config f)) m in
    (
      lookup-absent f.trust_domain fs m' a
          ∙ lookup-insert f.trust_domain f.trust_domain (object_of (trust_config f)) m
          ∙ rw (eq_refl f.trust_domain) refl,
      lookup-present fs m' h,
    )

-- What the server is told about a trust domain.
abbrev pub peer_settings : String → FederationConfig → Option Json
peer_settings d federation =
    within d (lookup "federates_with" (generate_federation_config federation))

peer_settings_lem :
    (d : String) (federation : FederationConfig)
    → peer_settings d federation ≡ lookup d (add_trust_configs federation.federates_with [])
unfolding generate_federation_config add_trust_configs lookup
peer_settings_lem d federation = go federation.federates_with
  where
    go :
        (fs : List FederatesWithConfig)
        → peer_settings d (record federation { federates_with = fs })
          ≡ lookup d (add_trust_configs fs [])
    go [] = refl
    go (f ∷ fs) =
        rw
          (lookup-insert "federates_with" "federates_with"
            (object_of (add_trust_configs (f ∷ fs) []))
            ((
              "bundle_endpoint",
              object_of (generate_bundle_endpoint_config federation.bundle_endpoint),
            )
              ∷ []))
          (at-object_of d (add_trust_configs (f ∷ fs) []))

-- The settings name the URL of the entry and its profile: for https_spiffe with the SPIFFE ID of the
-- endpoint, for https_web with nothing, and no profile where the entry has another one.
abbrev pub NamesEndpoint : FederatesWithConfig → Option Json → Type 0
NamesEndpoint f settings =
    let profile = within "bundle_endpoint_profile" settings in
    (within "bundle_endpoint_url" settings ≡ some (text f.bundle_endpoint_url))
    × (((f.bundle_endpoint_profile ≡ "https_spiffe")
          × (within "endpoint_spiffe_id" (within "https_spiffe" profile)
              ≡ some (text f.endpoint_spiffe_id))
          × (within "https_web" profile ≡ none))
        ⊎ ((f.bundle_endpoint_profile ≡ "https_web")
            × (within "https_web" profile ≡ some (object_of []))
            × (within "https_spiffe" profile ≡ none))
        ⊎ ((f.bundle_endpoint_profile ≢ "https_spiffe")
            × (f.bundle_endpoint_profile ≢ "https_web")
            × (profile ≡ none)))

trust_config-NamesEndpoint :
    (f : FederatesWithConfig) → NamesEndpoint f (some (object_of (trust_config f)))
unfolding trust_config insert lookup at
trust_config-NamesEndpoint f = elim (Bool-cases (f.bundle_endpoint_profile == "https_spiffe")) [
  | inl e ↦ rw e (refl, inl ((eq_iff f.bundle_endpoint_profile "https_spiffe").0 e, refl, refl))
  | inr e ↦ elim (Bool-cases (f.bundle_endpoint_profile == "https_web")) [
    | inl w ↦
        rw (e, w) (refl, inr (inl ((eq_iff f.bundle_endpoint_profile "https_web").0 w, refl, refl)))
    | inr w ↦
        rw (e, w)
          (
            refl,
            inr (
                inr (
                  λ k. ground (arith, e, k, eq_iff f.bundle_endpoint_profile "https_spiffe"),
                  λ k. ground (arith, w, k, eq_iff f.bundle_endpoint_profile "https_web"),
                  refl,
                )),
          )
  ]
]

-- The server is told the settings of the entry.
abbrev pub IsTold : FederationConfig → FederatesWithConfig → Type 0
IsTold federation f =
    (peer_settings f.trust_domain federation ≡ some (object_of (trust_config f)))
    × NamesEndpoint f (peer_settings f.trust_domain federation)

peers :
    (federation : FederationConfig) (fs : List FederatesWithConfig)
    → All (IsTrusted (add_trust_configs federation.federates_with [])) fs
    → All (IsTold federation) fs
peers federation [] h = tt
peers federation (f ∷ fs) (e, h) =
    let t = peer_settings_lem f.trust_domain federation ∙ e in
    ((t, rw t (trust_config-NamesEndpoint f)), peers federation fs h)

foreign : (own : String) (fs : List FederatesWithConfig) → All (IsForeign own) fs → IsAbsent own fs
foreign own [] h = tt
foreign own (f ∷ fs) ((n, v), h) = (n, foreign own fs h)

-- With federation settings that the validation accepts, the server is told, of every trust domain that
-- is named, the settings of its entry: its URL, and its profile, for https_spiffe with the SPIFFE ID of the
-- endpoint; it is told nothing of a domain without an entry, nor of its own.
pub validate-peer_settings :
    (federation : FederationConfig) (own : String)
    → validate_federation_config (some federation) own ≡ none
    → All (IsTold federation) federation.federates_with
      × ((d : String) → IsAbsent d federation.federates_with → peer_settings d federation ≡ none)
      × (peer_settings own federation ≡ none)
unfolding lookup
validate-peer_settings federation own accepted =
    let (endpoint, few, valid, distinct) =
      (validate_federation_config_iff federation own).0 accepted in
    let none_for : (d : String)
        → IsAbsent d federation.federates_with
        → peer_settings d federation ≡ none =
      λ d a. peer_settings_lem d federation ∙ lookup-absent d federation.federates_with [] a in
    (
      peers federation federation.federates_with
          (lookup-present federation.federates_with [] distinct),
      none_for,
      none_for own (foreign own federation.federates_with valid),
    )

-- A member of the block of the https_web profile in the endpoint's configuration.
abbrev web_setting : String → BundleEndpointConfig → Option Json
web_setting key b =
    within key (within "https_web" (lookup "profile" (generate_bundle_endpoint_config b)))

web_setting_lem :
    (key : String) (b : BundleEndpointConfig)
    → b.profile ≡ https_web
    → web_setting key b ≡ lookup key (https_web_members b.https_web)
unfolding generate_bundle_endpoint_config lookup
web_setting_lem key b e =
    rw
      (
        e,
        lookup-insert "profile" "profile"
            (object_of (("https_web", object_of (https_web_members b.https_web)) ∷ []))
            (insert "refresh_hint" (text (seconds (or_default_ℤ (pos 300) b.refresh_hint)))
              (("address", text "0.0.0.0") ∷ ("port", number (pos 8443)) ∷ [])),
        at-object_of "https_web" (("https_web", object_of (https_web_members b.https_web)) ∷ []),
      )
      (at-object_of key (https_web_members b.https_web))

-- The block names one source of certificates.
abbrev HasOneSource : BundleEndpointConfig → Type 0
HasOneSource b =
    ((web_setting "acme" b ≢ none) × (web_setting "serving_cert_file" b ≡ none))
    ⊎ ((web_setting "acme" b ≡ none) × (web_setting "serving_cert_file" b ≢ none))

sources :
    (web : HttpsWebConfig)
    → IsValidWeb web
    → ((lookup "acme" (https_web_members (some web)) ≢ none)
        × (lookup "serving_cert_file" (https_web_members (some web)) ≡ none))
      ⊎ ((lookup "acme" (https_web_members (some web)) ≡ none)
          × (lookup "serving_cert_file" (https_web_members (some web)) ≢ none))
unfolding lookup
sources web h = go web.acme web.serving_cert h
  where
    go :
        (a : Option AcmeConfig) (c : Option ServingCertConfig)
        → IsValidWeb (record { acme = a; serving_cert = c })
        → ((lookup "acme" (web_members a c) ≢ none)
            × (lookup "serving_cert_file" (web_members a c) ≡ none))
          ⊎ ((lookup "acme" (web_members a c) ≡ none)
              × (lookup "serving_cert_file" (web_members a c) ≢ none))
    go (some a) c h = ground arith
    go none (some c) h = ground arith
    go none none h = ground arith

-- Where the validation accepts a bundle endpoint with the https_web profile, the server is given exactly
-- one source of certificates for it: ACME or the certificate of the service.
validate_bundle_endpoint-HasOneSource :
    (b : BundleEndpointConfig)
    → validate_bundle_endpoint b ≡ none
    → b.profile ≡ https_web
    → HasOneSource b
validate_bundle_endpoint-HasOneSource b accepted profile =
    let (web, set, valid) = ((validate_bundle_endpoint_iff b).0 accepted).0 profile in
    rw (web_setting_lem "acme" b profile, web_setting_lem "serving_cert_file" b profile, set)
      (sources web valid)
