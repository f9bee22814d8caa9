-- ===== src/Server/Federation/Laws.antt =====
-- The validation of the federation settings, as an administrator sees it: which settings are accepted.
use ocp_spire_operator.Prelude.{
  ℕ, suc, ◌≤◌, ◌≡◌, ◌≢◌, ◌↔◌, refl, Bool, true, false, String, List, [], ◌∷◌, Option, none, some,
  arith, All, eq_iff, length,
}
use ocp_spire_operator.Prelude.Int.{ℤ, pos, ◌≤ℤ◌, ◌<ℤ◌}
use ocp_spire_operator.Prelude.Text.{starts_as}
use text.Mathlib.TextLemmas.{cons≢nil}
use ocp_spire_operator.Kube.{Error}
use ocp_spire_operator.Ztwim.Operand.{string_to_bool}
use ocp_spire_operator.Server.Federation.{
  https_spiffe, https_web, AcmeConfig, ServingCertConfig, HttpsWebConfig, BundleEndpointConfig,
  FederatesWithConfig, FederationConfig, ◌orelse◌, refuse_if, wrap, is_outside, is_seen,
  validate_acme_config, validate_serving_cert_config, validate_https_web, validate_bundle_endpoint,
  validate_federated_trust_domain, validate_federates_with, validate_federation_config,
}

orelse_iff : (a b : Option Error) → ((a orelse b) ≡ none) ↔ ((a ≡ none) × (b ≡ none))
orelse_iff a b = ground arith

refuse_if_iff : (b : Bool) (m : String) → (refuse_if b m ≡ none) ↔ (b ≡ false)
refuse_if_iff b m = ground arith

wrap_iff : (p : String) (e : Option Error) → (wrap p e ≡ none) ↔ (e ≡ none)
wrap_iff p e = ground arith

-- The settings that one federated trust domain needs.
abbrev IsValidPeer : FederatesWithConfig → Type 0
IsValidPeer f =
    (f.trust_domain ≢ "")
    × (starts_as "https://" f.bundle_endpoint_url ≡ true)
    × (f.bundle_endpoint_profile ≡ https_spiffe → starts_as "spiffe://" f.endpoint_spiffe_id ≡ true)

nonempty_of_starts : (s : String) → starts_as "spiffe://" s ≡ true → s ≢ ""
nonempty_of_starts String.[] h k = ground (arith, h)
nonempty_of_starts (String.◌∷◌ c s) h k = cons≢nil k

validate_federated_trust_domain_iff :
    (f : FederatesWithConfig) (index : ℕ)
    → (validate_federated_trust_domain f index ≡ none) ↔ IsValidPeer f
unfolding validate_federated_trust_domain
validate_federated_trust_domain_iff f index = ground (
  arith,
  eq_iff f.trust_domain "",
  eq_iff f.bundle_endpoint_profile https_spiffe,
  eq_iff f.endpoint_spiffe_id "",
  nonempty_of_starts f.endpoint_spiffe_id,
)

-- The ACME settings that the certificate authority accepts.
abbrev IsValidAcme : AcmeConfig → Type 0
IsValidAcme acme =
    (starts_as "https://" acme.directory_url ≡ true)
    × (acme.domain_name ≢ "")
    × (acme.email ≢ "")
    × (string_to_bool acme.tos_accepted ≡ true)

-- A positive value is between the bounds; the other values ask for the default.
abbrev IsWithin : ℤ → ℤ → ℤ → Type 0
IsWithin v low high = pos 0 <ℤ v → (low ≤ℤ v) × (v ≤ℤ high)

-- Exactly one source of certificates is set, and it is valid.
abbrev pub IsValidWeb : HttpsWebConfig → Type 0
IsValidWeb web = elim web.acme [
  | some acme ↦ (web.serving_cert ≡ none) × IsValidAcme acme
  | none ↦ elim web.serving_cert [
    | some cert ↦ IsWithin cert.file_sync_interval (pos 3600) (pos 7776000)
    | none ↦ ⊥
  ]
]

is_outside_iff : (v low high : ℤ) → (is_outside v low high ≡ false) ↔ IsWithin v low high
is_outside_iff v low high = ground arith

acme_iff : (acme : AcmeConfig) → (validate_acme_config (some acme) ≡ none) ↔ IsValidAcme acme
unfolding validate_acme_config
acme_iff acme = ground (arith, eq_iff acme.domain_name "", eq_iff acme.email "")

cert_iff :
    (cert : ServingCertConfig)
    → (validate_serving_cert_config (some cert) ≡ none)
      ↔ IsWithin cert.file_sync_interval (pos 3600) (pos 7776000)
unfolding validate_serving_cert_config
cert_iff cert = ground arith

validate_https_web_iff :
    (web : HttpsWebConfig) → (validate_https_web (some web) ≡ none) ↔ IsValidWeb web
unfolding validate_https_web
validate_https_web_iff web = go web.acme web.serving_cert
  where
    go :
        (a : Option AcmeConfig) (c : Option ServingCertConfig)
        → (validate_https_web (some (record { acme = a; serving_cert = c })) ≡ none)
          ↔ IsValidWeb (record { acme = a; serving_cert = c })
    go (some a) (some c) = ground arith
    go (some a) none = ground (arith, acme_iff a)
    go none (some c) = ground (arith, cert_iff c)
    go none none = ground arith

-- The endpoint that serves the bundle: the certificates of the https_web profile, and the hint.
abbrev IsValidEndpoint : BundleEndpointConfig → Type 0
IsValidEndpoint b =
    (b.profile ≡ https_web → (web : HttpsWebConfig) × (b.https_web ≡ some web) × IsValidWeb web)
    × IsWithin b.refresh_hint (pos 60) (pos 3600)

pub validate_bundle_endpoint_iff :
    (b : BundleEndpointConfig) → (validate_bundle_endpoint b ≡ none) ↔ IsValidEndpoint b
unfolding validate_bundle_endpoint
validate_bundle_endpoint_iff b = go b.https_web
  where
    go :
        (w : Option HttpsWebConfig)
        → (validate_bundle_endpoint (record b { https_web = w }) ≡ none)
          ↔ IsValidEndpoint (record b { https_web = w })
    go (some web) = ground (
      arith,
      eq_iff b.profile https_web,
      validate_https_web_iff web,
      is_outside_iff b.refresh_hint (pos 60) (pos 3600),
    )
    go none =
        ground
          (arith, eq_iff b.profile https_web, is_outside_iff b.refresh_hint (pos 60) (pos 3600))

-- No entry of the list has the trust domain.
abbrev pub IsAbsent : String → List FederatesWithConfig → Type 0
IsAbsent d [] = Unit
IsAbsent d (f ∷ fs) = (f.trust_domain ≢ d) × IsAbsent d fs

abbrev pub HasDistinctDomains : List FederatesWithConfig → Type 0
HasDistinctDomains [] = Unit
HasDistinctDomains (f ∷ fs) = IsAbsent f.trust_domain fs × HasDistinctDomains fs

abbrev pub IsForeign : String → FederatesWithConfig → Type 0
IsForeign own f = (f.trust_domain ≢ own) × IsValidPeer f

IsAbsent-cons_iff :
    (f : FederatesWithConfig) (fs : List FederatesWithConfig) (seen : List String)
    → All (λ d. IsAbsent d (f ∷ fs)) seen
      ↔ ((is_seen f.trust_domain seen ≡ false) × All (λ d. IsAbsent d fs) seen)
IsAbsent-cons_iff f fs [] = (λ _. (refl, tt), λ _. tt)
IsAbsent-cons_iff f fs (d ∷ seen) =
    let ih = IsAbsent-cons_iff f fs seen in
    (
      (λ ((n, h), t).
          let (e, t') = ih.0 t in (ground (arith, eq_iff f.trust_domain d, n, e), (h, t'))),
      (λ (e, (h, t)).
          let n : f.trust_domain ≢ d = ground (arith, eq_iff f.trust_domain d, e) in
          ((n, h), ih.1 (ground (arith, e), t))),
    )

All-IsAbsent : (seen : List String) → All (λ d. IsAbsent d []) seen
All-IsAbsent [] = tt
All-IsAbsent (d ∷ seen) = (tt, All-IsAbsent seen)

validate_federates_with_iff :
    (own : String) (index : ℕ) (seen : List String) (fs : List FederatesWithConfig)
    → (validate_federates_with own index seen fs ≡ none)
      ↔ (All (IsForeign own) fs × HasDistinctDomains fs × All (λ d. IsAbsent d fs) seen)
unfolding validate_federates_with
validate_federates_with_iff own index seen [] = (λ _. (tt, tt, All-IsAbsent seen), λ _. refl)
validate_federates_with_iff own index seen (f ∷ fs) =
    let ih = validate_federates_with_iff own (suc index) (f.trust_domain ∷ seen) fs in
    let v = validate_federated_trust_domain_iff f index in
    let a = IsAbsent-cons_iff f fs seen in ground (arith, eq_iff f.trust_domain own, ih, v, a)

-- The federation settings are accepted exactly when the bundle endpoint is valid, there are at most
-- fifty entries, every entry is valid and names another trust domain than the operator's own, and no
-- two entries name the same trust domain.
pub validate_federation_config_iff :
    (federation : FederationConfig) (own : String)
    → (validate_federation_config (some federation) own ≡ none) ↔ (
        IsValidEndpoint federation.bundle_endpoint
        × (length federation.federates_with ≤ 50)
        × All (IsForeign own) federation.federates_with
        × HasDistinctDomains federation.federates_with)
unfolding validate_federation_config
validate_federation_config_iff federation own =
    let v = validate_bundle_endpoint_iff federation.bundle_endpoint in
    let w = validate_federates_with_iff own 0 [] federation.federates_with in ground (arith, v, w)
