-- ===== src/Examples/Kept.antt =====
-- A Service and a webhook configuration whose fields are taken over.
use ocp_spire_operator.Prelude.{ℕ, [], ◌∷◌, none, some, refl, true, false}
use ocp_spire_operator.Prelude.Int.{pos}
use ocp_spire_operator.Server.Preserved.{
  Service, WebhookConfiguration, keep_service_fields, keep_webhook_fields,
}
use ocp_spire_operator.Server.Preserved.Kept.{IsKeptService, IsKeptConfiguration}
use ocp_spire_operator.Server.Preserved.Written.{Writes, reconcile_service_and_webhook-Writes}
use ocp_spire_operator.Server.Resources.{Wanted, reconcile_spire_server_service, reconcile_webhook}
use ocp_spire_operator.Status.{new_manager}
use ocp_spire_operator.Status.Health.{got}
use ocp_spire_operator.Objects.{done, ObjectClient}
use ocp_spire_operator.Objects.Kinds.{Fields}
use ocp_spire_operator.Examples.Api.{api_errors, forbidden}

abbrev wanted_service : Service ℕ
wanted_service = record {
  resource_version = "";
  cluster_ip = "";
  cluster_ips = 0;
  ip_families = 0;
  ip_family_policy = 0;
  internal_traffic_policy = 0;
  session_affinity = 0;
  health_check_node_port = pos 0;
  ports = record { protocol = ""; whole = 443 } ∷ [];
  whole = 1;
}

abbrev stored_service : Service ℕ
stored_service = record wanted_service {
  resource_version = "7";
  cluster_ip = "10.0.0.1";
  health_check_node_port = pos 30000;
}

abbrev wanted_webhooks : WebhookConfiguration ℕ
wanted_webhooks = record {
  resource_version = "";
  webhooks =
      record {
        ca_bundle = [];
        match_policy = none;
        timeout_seconds = some 5;
        namespace_selector = none;
        object_selector = none;
        rules = record { scope = none; whole = 2 } ∷ [];
        service = some (record { port = none; whole = 3 });
        whole = 4;
      }
      ∷ [];
}

abbrev stored_webhooks : WebhookConfiguration ℕ
stored_webhooks = record {
  resource_version = "8";
  webhooks =
      record {
        ca_bundle = 45 ∷ 46 ∷ [];
        match_policy = some 6;
        timeout_seconds = some 10;
        namespace_selector = some 7;
        object_selector = some 7;
        rules = record { scope = some 8; whole = 2 } ∷ [];
        service = some (record { port = some 443; whole = 3 });
        whole = 4;
      }
      ∷ [];
}

-- The two objects of the cluster.
abbrev Cluster : Type 0
Cluster = Service ℕ × WebhookConfiguration ℕ

abbrev stored : Cluster
stored = (stored_service, stored_webhooks)

abbrev services : ObjectClient Cluster (Service ℕ)
services = record {
  set_controller_reference = λ d. done d;
  get = λ d w. got w.0;
  create = λ d w. (some forbidden, w);
  update = λ o w. (none, (o, w.1));
}

abbrev webhooks : ObjectClient Cluster (WebhookConfiguration ℕ)
webhooks = record {
  set_controller_reference = λ d. done d;
  get = λ d w. got w.1;
  create = λ d w. (some forbidden, w);
  update = λ o w. (none, (w.0, o));
}

-- Every two objects differ.
abbrev pub fields : {O : Type 0} → Fields O
fields = record {
  resource_needs_update = λ existing desired. true;
  keep_version = λ existing desired. desired;
  keep_service_fields = λ existing desired. desired;
  keep_webhook_fields = λ existing desired. desired;
  keep_scc_fields = λ existing desired. desired;
  keep_csi_driver_fields = λ existing desired. desired;
}

-- Each of the wanted objects is this one.
abbrev wanting : {O : Type 0} → O → Wanted O
wanting o = record {
  service_account = o;
  server_service = o;
  manager_service = o;
  cluster_role = o;
  cluster_role_binding = o;
  bundle_role = o;
  bundle_role_binding = o;
  manager_cluster_role = o;
  manager_cluster_role_binding = o;
  leader_election_role = o;
  leader_election_role_binding = o;
  external_cert_role = λ name. o;
  external_cert_role_binding = o;
  webhook = o;
}

reconcile_service_and_webhook-Writes_example :
    Writes
      (IsKeptService stored_service wanted_service)
      services
      (λ o. true)
      false
      stored
      (reconcile_spire_server_service api_errors services
        (record fields { keep_service_fields = keep_service_fields })
        (wanting wanted_service)
        false
        new_manager
        stored)
    × Writes
        (IsKeptConfiguration stored_webhooks wanted_webhooks)
        webhooks
        (λ o. true)
        false
        stored
        (reconcile_webhook api_errors webhooks
          (record fields { keep_webhook_fields = keep_webhook_fields })
          (wanting wanted_webhooks)
          false
          new_manager
          stored)
reconcile_service_and_webhook-Writes_example =
    reconcile_service_and_webhook-Writes api_errors services webhooks fields fields
      (wanting wanted_service) (wanting wanted_webhooks) false wanted_service stored_service
      wanted_webhooks stored_webhooks new_manager stored refl refl refl refl
