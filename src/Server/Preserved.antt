-- ===== src/Server/Preserved.antt =====
-- The fields that pkg/controller/spire-server takes over from the object in the cluster before it
-- compares a wanted Service (service.go) or webhook configuration (webhook.go) with it. `V` stands for
-- the values that are only copied.
pub mod Kept
pub mod Written
use ocp_spire_operator.Prelude.{
  ℕ, Bool, true, false, not, String, List, [], ◌∷◌, Option, none, some, ◌==◌, if◌then◌else◌, map,
  length, nat_eq, ◌≡◌, refl, ap, arith,
}
use ocp_spire_operator.Prelude.Int.{ℤ, pos, eq_ℤ}

pub record ServicePort (V : Type 0) : Type 0 where
  pub protocol : String
  pub whole : V

pub record Service (V : Type 0) : Type 0 where
  pub resource_version : String
  pub cluster_ip : String
  pub cluster_ips : V
  pub ip_families : V
  pub ip_family_policy : V
  pub internal_traffic_policy : V
  pub session_affinity : V
  pub health_check_node_port : ℤ
  pub ports : List (ServicePort V)
  pub whole : V

pub record WebhookRule (V : Type 0) : Type 0 where
  pub scope : Option V
  pub whole : V

-- The reference to the service: its port, and the rest.
pub record ServiceReference (V : Type 0) : Type 0 where
  pub port : Option V
  pub whole : V

-- The bundle is the list of its bytes.
pub record Webhook (V : Type 0) : Type 0 where
  pub ca_bundle : List ℕ
  pub match_policy : Option V
  pub timeout_seconds : Option V
  pub namespace_selector : Option V
  pub object_selector : Option V
  pub rules : List (WebhookRule V)
  pub service : Option (ServiceReference V)
  pub whole : V

pub record WebhookConfiguration (V : Type 0) : Type 0 where
  pub resource_version : String
  pub webhooks : List (Webhook V)

-- The existing value where there is one.
abbrev pub or_desired : {A : Type 0} → Option A → Option A → Option A
or_desired none d = d
or_desired (some e) d = some e

abbrev pub keep_bundle : List ℕ → List ℕ → List ℕ
keep_bundle [] d = d
keep_bundle (b ∷ bs) d = b ∷ bs

module _ {V : Type 0} where
  abbrev pub with_protocol : ServicePort V → ServicePort V
  with_protocol p = record p { protocol = if p.protocol == "" then "TCP" else p.protocol }

  unfoldable pub keep_service_fields : Service V → Service V → Service V
  keep_service_fields existing desired = record desired {
    resource_version = existing.resource_version;
    cluster_ip = existing.cluster_ip;
    cluster_ips = existing.cluster_ips;
    ip_families = existing.ip_families;
    ip_family_policy = existing.ip_family_policy;
    internal_traffic_policy = existing.internal_traffic_policy;
    session_affinity = existing.session_affinity;
    health_check_node_port =
        if not (eq_ℤ existing.health_check_node_port (pos 0))
        then existing.health_check_node_port
        else desired.health_check_node_port;
    ports = map with_protocol desired.ports;
  }

  abbrev pub keep_scopes : List (WebhookRule V) → List (WebhookRule V) → List (WebhookRule V)
  keep_scopes es [] = []
  keep_scopes [] (d ∷ ds) = d ∷ ds
  keep_scopes (e ∷ es) (d ∷ ds) =
      record d { scope = or_desired e.scope d.scope } ∷ keep_scopes es ds

  abbrev pub keep_port :
      Option (ServiceReference V) → Option (ServiceReference V) → Option (ServiceReference V)
  keep_port none d = d
  keep_port (some e) none = none
  keep_port (some e) (some d) = some (record d { port = or_desired e.port d.port })

  unfoldable pub keep_webhook : Webhook V → Webhook V → Webhook V
  keep_webhook e d = record d {
    ca_bundle = keep_bundle e.ca_bundle d.ca_bundle;
    match_policy = or_desired e.match_policy d.match_policy;
    timeout_seconds = or_desired e.timeout_seconds d.timeout_seconds;
    namespace_selector = or_desired e.namespace_selector d.namespace_selector;
    object_selector = or_desired e.object_selector d.object_selector;
    rules = keep_scopes e.rules d.rules;
    service = keep_port e.service d.service;
  }

  unfoldable pub keep_webhooks : List (Webhook V) → List (Webhook V) → List (Webhook V)
  keep_webhooks es [] = []
  keep_webhooks [] (d ∷ ds) = d ∷ ds
  keep_webhooks (e ∷ es) (d ∷ ds) = keep_webhook e d ∷ keep_webhooks es ds

  unfoldable pub keep_webhook_fields :
      WebhookConfiguration V → WebhookConfiguration V → WebhookConfiguration V
  keep_webhook_fields existing desired = record {
    resource_version = existing.resource_version;
    webhooks = keep_webhooks existing.webhooks desired.webhooks;
  }
