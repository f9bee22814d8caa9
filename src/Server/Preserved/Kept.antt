-- ===== src/Server/Preserved/Kept.antt =====
-- Which fields of an existing Service or webhook configuration a wanted one takes over, said of each field.
use ocp_spire_operator.Prelude.{
  ℕ, not, String, List, [], ◌∷◌, Option, none, some, ◌==◌, if◌then◌else◌, map, ◌≡◌, ◌≢◌, ◌⊎◌, inl,
  inr, refl, arith, eq_iff, Bool-cases,
}
use ocp_spire_operator.Prelude.Int.{ℤ, pos, eq_ℤ, eq_ℤ_iff}
use ocp_spire_operator.Server.Preserved.{
  ServicePort, Service, WebhookRule, ServiceReference, Webhook, WebhookConfiguration, or_desired,
  keep_bundle, keep_service_fields, keep_scopes, keep_port, keep_webhook, keep_webhooks,
  keep_webhook_fields, with_protocol,
}

-- The first value where it is not the empty one, and else the second.
abbrev pub IsFirst : {A : Type 0} → (empty first second result : A) → Type 0
IsFirst empty first second result =
    ((first ≡ empty) × (result ≡ second)) ⊎ ((first ≢ empty) × (result ≡ first))

or_desired-IsFirst : {A : Type 0} (e d : Option A) → IsFirst none e d (or_desired e d)
or_desired-IsFirst none d = inl (refl, refl)
or_desired-IsFirst (some e) d = inr (ground arith, refl)

keep_bundle-IsFirst : (e d : List ℕ) → IsFirst [] e d (keep_bundle e d)
keep_bundle-IsFirst [] d = inl (refl, refl)
keep_bundle-IsFirst (b ∷ bs) d = inr (ground arith, refl)

node_port-IsFirst : (e d : ℤ) → IsFirst (pos 0) e d (if not (eq_ℤ e (pos 0)) then e else d)
node_port-IsFirst e d = elim (Bool-cases (eq_ℤ e (pos 0))) [
  | inl z ↦ rw z (inl ((eq_ℤ_iff e (pos 0)).0 z, refl))
  | inr n ↦ rw n (inr (λ z. ground (arith, n, (eq_ℤ_iff e (pos 0)).1 z), refl))
]

protocol-IsFirst : (p : String) → IsFirst "" p "TCP" (if p == "" then "TCP" else p)
protocol-IsFirst p = elim (Bool-cases (p == "")) [
  | inl z ↦ rw z (inl ((eq_iff p "").0 z, refl))
  | inr n ↦ rw n (inr (λ z. ground (arith, n, (eq_iff p "").1 z), refl))
]

module _ {V : Type 0} where
  -- The wanted ports, each with its protocol, which is TCP where none is wanted.
  unfoldable pub ArePorts : List (ServicePort V) → List (ServicePort V) → Type 0
  ArePorts [] [] = Unit
  ArePorts (d ∷ ds) (o ∷ os) =
      IsFirst "" d.protocol "TCP" o.protocol × (o.whole ≡ d.whole) × ArePorts ds os
  ArePorts [] (o ∷ os) = ⊥
  ArePorts (d ∷ ds) [] = ⊥

  ports-ArePorts : (ds : List (ServicePort V)) → ArePorts ds (map with_protocol ds)
  unfolding ArePorts
  ports-ArePorts [] = tt
  ports-ArePorts (d ∷ ds) = (protocol-IsFirst d.protocol, refl, ports-ArePorts ds)

  -- The wanted Service with the addresses, the families, the policies, the affinity and the node port that
  -- the existing one was given.
  pub record IsKeptService (existing desired o : Service V) : Type 0 where
    pub resource_version : o.resource_version ≡ existing.resource_version
    pub cluster_ip : o.cluster_ip ≡ existing.cluster_ip
    pub cluster_ips : o.cluster_ips ≡ existing.cluster_ips
    pub ip_families : o.ip_families ≡ existing.ip_families
    pub ip_family_policy : o.ip_family_policy ≡ existing.ip_family_policy
    pub internal_traffic_policy : o.internal_traffic_policy ≡ existing.internal_traffic_policy
    pub session_affinity : o.session_affinity ≡ existing.session_affinity
    pub health_check_node_port :
        IsFirst
          (pos 0)
          existing.health_check_node_port
          desired.health_check_node_port
          o.health_check_node_port
    pub ports : ArePorts desired.ports o.ports
    pub whole : o.whole ≡ desired.whole

  pub keep_service_fields-IsKeptService :
      (existing desired : Service V)
      → IsKeptService existing desired (keep_service_fields existing desired)
  unfolding keep_service_fields
  keep_service_fields-IsKeptService existing desired = record {
    resource_version = refl;
    cluster_ip = refl;
    cluster_ips = refl;
    ip_families = refl;
    ip_family_policy = refl;
    internal_traffic_policy = refl;
    session_affinity = refl;
    health_check_node_port =
        node_port-IsFirst existing.health_check_node_port desired.health_check_node_port;
    ports = ports-ArePorts desired.ports;
    whole = refl;
  }

  -- The wanted rules; a rule at the place of an existing one has that one's scope, if it has one.
  unfoldable pub AreRules :
      List (WebhookRule V) → List (WebhookRule V) → List (WebhookRule V) → Type 0
  AreRules es [] os = os ≡ []
  AreRules es (d ∷ ds) [] = ⊥
  AreRules [] (d ∷ ds) (o ∷ os) = o ∷ os ≡ d ∷ ds
  AreRules (e ∷ es) (d ∷ ds) (o ∷ os) =
      IsFirst none e.scope d.scope o.scope × (o.whole ≡ d.whole) × AreRules es ds os

  scopes-AreRules : (es ds : List (WebhookRule V)) → AreRules es ds (keep_scopes es ds)
  unfolding AreRules
  scopes-AreRules es [] = refl
  scopes-AreRules [] (d ∷ ds) = refl
  scopes-AreRules (e ∷ es) (d ∷ ds) =
      (or_desired-IsFirst e.scope d.scope, refl, scopes-AreRules es ds)

  -- The wanted reference; where the existing one has a port, that one's.
  unfoldable pub IsReference :
      Option (ServiceReference V)
      → Option (ServiceReference V)
      → Option (ServiceReference V)
      → Type 0
  IsReference none d o = o ≡ d
  IsReference (some e) none o = o ≡ none
  IsReference (some e) (some d) o =
      (r : ServiceReference V) × (o ≡ some r)
      × IsFirst none e.port d.port r.port
      × (r.whole ≡ d.whole)

  port-IsReference : (e d : Option (ServiceReference V)) → IsReference e d (keep_port e d)
  unfolding IsReference
  port-IsReference none d = refl
  port-IsReference (some e) none = refl
  port-IsReference (some e) (some d) =
      (record d { port = or_desired e.port d.port }, refl, or_desired-IsFirst e.port d.port, refl)

  -- The wanted webhook with what the existing one was given, where it was given something.
  pub record IsKeptWebhook (e d o : Webhook V) : Type 0 where
    pub ca_bundle : IsFirst [] e.ca_bundle d.ca_bundle o.ca_bundle
    pub match_policy : IsFirst none e.match_policy d.match_policy o.match_policy
    pub timeout_seconds : IsFirst none e.timeout_seconds d.timeout_seconds o.timeout_seconds
    pub namespace_selector :
        IsFirst none e.namespace_selector d.namespace_selector o.namespace_selector
    pub object_selector : IsFirst none e.object_selector d.object_selector o.object_selector
    pub rules : AreRules e.rules d.rules o.rules
    pub service : IsReference e.service d.service o.service
    pub whole : o.whole ≡ d.whole

  keep_webhook-IsKeptWebhook : (e d : Webhook V) → IsKeptWebhook e d (keep_webhook e d)
  unfolding keep_webhook
  keep_webhook-IsKeptWebhook e d = record {
    ca_bundle = keep_bundle-IsFirst e.ca_bundle d.ca_bundle;
    match_policy = or_desired-IsFirst e.match_policy d.match_policy;
    timeout_seconds = or_desired-IsFirst e.timeout_seconds d.timeout_seconds;
    namespace_selector = or_desired-IsFirst e.namespace_selector d.namespace_selector;
    object_selector = or_desired-IsFirst e.object_selector d.object_selector;
    rules = scopes-AreRules e.rules d.rules;
    service = port-IsReference e.service d.service;
    whole = refl;
  }

  -- The wanted webhooks, each from the existing one at its place; further ones as they are wanted.
  unfoldable pub AreWebhooks : List (Webhook V) → List (Webhook V) → List (Webhook V) → Type 0
  AreWebhooks es [] os = os ≡ []
  AreWebhooks es (d ∷ ds) [] = ⊥
  AreWebhooks [] (d ∷ ds) (o ∷ os) = o ∷ os ≡ d ∷ ds
  AreWebhooks (e ∷ es) (d ∷ ds) (o ∷ os) = IsKeptWebhook e d o × AreWebhooks es ds os

  keep_webhooks-AreWebhooks : (es ds : List (Webhook V)) → AreWebhooks es ds (keep_webhooks es ds)
  unfolding AreWebhooks keep_webhooks
  keep_webhooks-AreWebhooks es [] = refl
  keep_webhooks-AreWebhooks [] (d ∷ ds) = refl
  keep_webhooks-AreWebhooks (e ∷ es) (d ∷ ds) =
      (keep_webhook-IsKeptWebhook e d, keep_webhooks-AreWebhooks es ds)

  -- The wanted configuration with the version of the existing one and the webhooks above.
  abbrev pub IsKeptConfiguration :
      WebhookConfiguration V → WebhookConfiguration V → WebhookConfiguration V → Type 0
  IsKeptConfiguration existing desired o =
      (o.resource_version ≡ existing.resource_version)
      × AreWebhooks existing.webhooks desired.webhooks o.webhooks

  pub keep_webhook_fields-IsKeptConfiguration :
      (existing desired : WebhookConfiguration V)
      → IsKeptConfiguration existing desired (keep_webhook_fields existing desired)
  unfolding keep_webhook_fields
  keep_webhook_fields-IsKeptConfiguration existing desired =
      (refl, keep_webhooks-AreWebhooks existing.webhooks desired.webhooks)
