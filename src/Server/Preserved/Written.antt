-- ===== src/Server/Preserved/Written.antt =====
-- What the steps on the Service and on the webhook configuration of the SPIRE server write over an
-- object that is there.
use ocp_spire_operator.Prelude.{
  Bool, true, false, not, ◌&&◌, ◌≡◌, refl, Option, none, some, inl, inr, Bool-cases, if◌then◌else◌,
}
use ocp_spire_operator.Kube.{Error, ApiErrors}
use ocp_spire_operator.Status.{Manager}
use ocp_spire_operator.Status.Health.{got}
use ocp_spire_operator.Objects.{done, Outcome, ObjectClient, Kind, written, ensure}
use ocp_spire_operator.Objects.Kinds.{Fields, service_kind}
use ocp_spire_operator.Server.Resources.{
  Wanted, webhook_kind, reconcile_spire_server_service, reconcile_webhook,
}
use ocp_spire_operator.Server.Preserved.{
  Service, WebhookConfiguration, keep_service_fields, keep_webhook_fields,
}
use ocp_spire_operator.Server.Preserved.Kept.{
  IsKeptService, keep_service_fields-IsKeptService, IsKeptConfiguration,
  keep_webhook_fields-IsKeptConfiguration,
}

module _ {W : Type 0} where
  -- An object that is such as described is compared with the existing one, and written where they differ,
  -- unless only missing objects are created; nothing else is written.
  abbrev pub Writes :
      {O : Type 0} → (O → Type 0) → ObjectClient W O → (O → Bool) → Bool → W → Outcome W → Type 0
  Writes {O} IsSuch client differs create_only w outcome =
      (o : O) × IsSuch o
      × (outcome.cluster ≡ (if not create_only && differs o then (client.update o w).1 else w))

  written-cluster :
      {O : Type 0} (errors : ApiErrors) (client : ObjectClient W O) (kind : Kind O)
      (r : Option Error × W) (m : Manager)
      → (written errors client kind "Failed to update " r m).cluster ≡ r.1
  written-cluster errors client kind (none, w) m = refl
  written-cluster errors client kind (some e, w) m = refl

  ensure-cluster :
      {O : Type 0} (errors : ApiErrors) (client : ObjectClient W O) (kind : Kind O)
      (create_only : Bool) (desired d existing : O) (m : Manager) (w : W)
      → client.set_controller_reference desired ≡ done d
      → client.get d w ≡ got existing
      → (ensure errors client kind create_only desired m w).cluster ≡ (
          if not create_only && kind.needs_update existing (kind.prepare existing d)
          then (client.update (kind.finish existing (kind.prepare existing d)) w).1
          else w)
  unfolding ensure
  ensure-cluster errors client kind true desired d existing m w s g = rw (s, g) refl
  ensure-cluster errors client kind false desired d existing m w s g =
      elim (Bool-cases (kind.needs_update existing (kind.prepare existing d))) [
        | inl n ↦
            rw (s, g, n)
              (written-cluster errors client kind
                (client.update (kind.finish existing (kind.prepare existing d)) w) m)
        | inr n ↦ rw (s, g, n) refl
      ]

module _ {W V : Type 0} (errors : ApiErrors) (services : ObjectClient W (Service V))
    (webhooks : ObjectClient W (WebhookConfiguration V)) (fields : Fields (Service V))
    (webhook_fields : Fields (WebhookConfiguration V)) (wanted : Wanted (Service V))
    (wanted_webhooks : Wanted (WebhookConfiguration V)) (create_only : Bool) where
  -- Where the server's Service and the webhook configuration are there, what their steps compare with the
  -- existing object and write over it is the wanted one with, of the Service, the existing version,
  -- addresses, families, policies, affinity and a health check node port that is not 0, and TCP as the
  -- protocol of a port without one; and of each webhook the existing bundle, match policy, timeout,
  -- selectors, scopes of the rules and port of the service, where they are set. In the create-only mode, and
  -- where that does not differ from the existing object, nothing is written.
  pub reconcile_service_and_webhook-Writes :
      (service existing : Service V) (webhook existing_webhook : WebhookConfiguration V)
      (m : Manager) (w : W)
      → services.set_controller_reference wanted.server_service ≡ done service
      → services.get service w ≡ got existing
      → webhooks.set_controller_reference wanted_webhooks.webhook ≡ done webhook
      → webhooks.get webhook w ≡ got existing_webhook
      → Writes
          (IsKeptService existing service)
          services
          (fields.resource_needs_update existing)
          create_only
          w
          (reconcile_spire_server_service errors services
            (record fields { keep_service_fields = keep_service_fields })
            wanted
            create_only
            m
            w)
        × Writes
            (IsKeptConfiguration existing_webhook webhook)
            webhooks
            (webhook_fields.resource_needs_update existing_webhook)
            create_only
            w
            (reconcile_webhook errors webhooks
              (record webhook_fields { keep_webhook_fields = keep_webhook_fields })
              wanted_webhooks
              create_only
              m
              w)
  unfolding reconcile_spire_server_service reconcile_webhook
  reconcile_service_and_webhook-Writes service existing webhook existing_webhook m w s g s' g' = (
    (
      keep_service_fields existing service,
      keep_service_fields-IsKeptService existing service,
      ensure-cluster errors services
          (service_kind (record fields { keep_service_fields = keep_service_fields }) "Service"
            none)
          create_only wanted.server_service service existing m w s g,
    ),
    (
      keep_webhook_fields existing_webhook webhook,
      keep_webhook_fields-IsKeptConfiguration existing_webhook webhook,
      ensure-cluster errors webhooks
          (webhook_kind errors webhooks
            (record webhook_fields { keep_webhook_fields = keep_webhook_fields }) wanted_webhooks
            create_only)
          create_only wanted_webhooks.webhook webhook existing_webhook m w s' g',
    ),
  )
