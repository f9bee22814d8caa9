-- ===== src/Server/Controller.antt =====
-- `Reconcile` of pkg/controller/spire-server/controller.go: the checks and the steps on the objects of a
-- SpireServer, in the frame of `Reconciler`.
pub mod Sound
pub mod Published
pub mod CreateOnly
use ocp_spire_operator.Prelude.{
  ℕ, Bool, true, false, not, String, List, [], ◌∷◌, Option, none, some, if◌then◌else◌,
}
use ocp_spire_operator.Prelude.Int.{ℤ}
use ocp_spire_operator.Kube.{
  condition_true, condition_false, is_false, MetaCondition, Error, text_error, error_text,
  ApiErrors, ConditionsApi,
}
use ocp_spire_operator.Status.{
  Manager, new_manager, add_condition, ready, reason_failed, reason_ready, create_only_mode,
  Applied, Ranges, StatusUpdate, apply_status, set_initial_reconciliation_status,
}
use ocp_spire_operator.Status.Health.{Got, got, get_failed, StatefulSet}
use ocp_spire_operator.Ztwim.Operand.{is_condition_true}
use ocp_spire_operator.Proxy.{Environment, validate_proxy_configuration}
use ocp_spire_operator.Owners.{OwnerReference, needs_owner_reference_update}
use ocp_spire_operator.Objects.{
  Attempt, done, failed, Outcome, Action, succeeded, fails, ◌andthen◌, ObjectClient,
}
use ocp_spire_operator.Validation.{
  CommonConfig, Validators, Url, configuration_valid, validate_and_update_status, is_valid_url,
}
use ocp_spire_operator.Server.Ttl.{
  Lifetimes, TtlValidationResult, validate_ttl_durations_with_warnings,
}
use ocp_spire_operator.Server.Federation.{FederationConfig, validate_federation_config}
use ocp_spire_operator.Server.Resources.{
  Wanted, reconcile_service_account, reconcile_service, reconcile_rbac, reconcile_webhook,
}
use ocp_spire_operator.Server.Configs.{
  reconcile_spire_server_config_map, reconcile_spire_controller_manager_config_map,
  reconcile_spire_bundle_config_map, reconcile_stateful_set, reconcile_route,
}
use ocp_spire_operator.Server.Checks.{SpireServer, validate_configuration, handle_ttl_validation}
use ocp_spire_operator.Objects.Kinds.{Fields}
use ocp_spire_operator.Objects.Apply.{Hashed, with_hash}
use ocp_spire_operator.Objects.Routing.{route_available}
use ocp_spire_operator.Reconciler.{
  Ztwim, Resource, ResourceCalls, Clocks, ended, unless_invalid, Run, run,
}
use ocp_spire_operator.Reconciler.Checks.{Surroundings, handle_create_only_mode}

-- What the controller generates from the two resources, and how it compares it.
pub record Generated (O : Type 0) : Type 0 where
  pub wanted : Wanted O
  pub server_config_map : Attempt O
  pub server_config_hash : Attempt String
  pub manager_config_map : Attempt O
  pub manager_config_hash : String
  pub bundle_config_map : Attempt O
  pub stateful_set : String → String → O
  pub route : O

pub record Comparisons (O : Type 0) : Type 0 where
  pub fields : Fields O
  pub server_config_differs : O → O → Bool
  pub manager_config_differs : O → O → Bool
  pub stateful_set_needs_update : O → O → Bool
  pub route_conflict : O → O → Bool

-- The calls of the API server, the record of events, and the text of a duration.
pub record Calls (W O V : Type 0) : Type 0 where
  pub resource : ResourceCalls W (SpireServer V)
  pub objects : ObjectClient W O
  pub get_stateful_set : W → Got StatefulSet
  pub record_warning : String → W → W
  pub print_duration : ℤ → String

abbrev pub spire_server : {V : Type 0} → Resource (SpireServer V)
spire_server = record {
  kind = "SpireServer";
  owner_title = "Failed to set owner reference on SpireServer: ";
  update_title = "Failed to update SpireServer with owner reference: ";
  owners = λ s. s.owners;
  conditions = λ s. s.conditions;
  with_conditions = λ cs s. record s { conditions = cs };
}

module _ {W O V : Type 0} (errors : ApiErrors) (api : ConditionsApi) (calls : Calls W O V)
    (s : Surroundings V) (generate : SpireServer V → Ztwim → Generated O)
    (compare : Comparisons O) where
  abbrev pub server_map : SpireServer V → Ztwim → Manager → W → Hashed W
  server_map server ztwim =
      let g = generate server ztwim in
      reconcile_spire_server_config_map errors calls.objects s.create_only
        compare.server_config_differs compare.fields.keep_version g.server_config_map
        g.server_config_hash

  abbrev pub manager_map : SpireServer V → Ztwim → Manager → W → Hashed W
  manager_map server ztwim =
      let g = generate server ztwim in
      reconcile_spire_controller_manager_config_map errors calls.objects s.create_only
        compare.manager_config_differs compare.fields.keep_version g.manager_config_map
        g.manager_config_hash

  -- From the ConfigMap of the bundle to the route, with the hashes of the two others.
  abbrev pub last_steps : SpireServer V → Ztwim → String → String → Action W
  last_steps server ztwim server_hash manager_hash =
      let g = generate server ztwim in
      let keep = compare.fields.keep_version in
      reconcile_spire_bundle_config_map errors calls.objects s.create_only g.bundle_config_map
      andthen reconcile_stateful_set errors calls.objects s.create_only
          compare.stateful_set_needs_update keep (g.stateful_set server_hash manager_hash)
          calls.get_stateful_set s.environment.operator_namespace
      andthen reconcile_route errors calls.objects s.create_only compare.route_conflict keep
          (api.find server.conditions route_available) server.federation g.route

  abbrev pub from_manager_map : SpireServer V → Ztwim → String → Action W
  from_manager_map server ztwim server_hash m w =
      with_hash (manager_map server ztwim m w) (last_steps server ztwim server_hash)

  abbrev pub from_server_map : SpireServer V → Ztwim → Action W
  from_server_map server ztwim m w =
      with_hash (server_map server ztwim m w) (from_manager_map server ztwim)

  -- The steps from the service account to the route.
  unfoldable pub reconcile_objects : SpireServer V → Ztwim → Action W
  reconcile_objects server ztwim =
      let wanted = (generate server ztwim).wanted in
      reconcile_service_account errors calls.objects compare.fields wanted s.create_only
      andthen reconcile_service errors calls.objects compare.fields wanted s.create_only
      andthen reconcile_rbac errors calls.objects compare.fields wanted s.create_only
          server.federation
      andthen reconcile_webhook errors calls.objects compare.fields wanted s.create_only
      andthen from_server_map server ztwim

  -- From the create-only mode on, the owner being settled.
  unfoldable pub reconcile_configured : SpireServer V → Ztwim → Action W
  reconcile_configured server ztwim m w =
      let m1 =
        handle_create_only_mode s.create_only (api.find server.conditions create_only_mode) m in
      let (e, m2) = validate_configuration api s server ztwim m1 in
      unless_invalid (record { error = e; manager = m2; cluster = w })
        (λ m3 w3.
          unless_invalid
            (handle_ttl_validation calls.record_warning calls.print_duration server.lifetimes m3 w3)
            (reconcile_objects server ztwim))

  -- A reconciliation of a server that was read.
  abbrev pub server_run : Ranges → Clocks → SpireServer V → W → Run W (SpireServer V)
  server_run r clocks = run errors api r spire_server calls.resource clocks reconcile_configured
