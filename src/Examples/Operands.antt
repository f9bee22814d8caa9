-- ===== src/Examples/Operands.antt =====
-- Reconciliations of a SpireAgent, a SpiffeCSIDriver and a SpireOIDCDiscoveryProvider whose writes are
-- refused, and steps in create-only mode.
use ocp_spire_operator.Prelude.{ℕ, true, [], ◌∷◌, Option, none, some, arith, ◌≡◌, refl}
use ocp_spire_operator.Prelude.Dict.{lookup, insert}
use ocp_spire_operator.Kube.{condition_false, MetaCondition, Error}
use ocp_spire_operator.Status.{
  new_manager, ready, apply_status, with_ready, set_conditions, set_ready_condition, add_condition,
  set_initial_reconciliation_status,
}
use ocp_spire_operator.Status.Health.{get_failed}
use ocp_spire_operator.Proxy.{validate_proxy_configuration}
use ocp_spire_operator.Owners.{needs_owner_reference_update}
use ocp_spire_operator.Objects.{done, ensure}
use ocp_spire_operator.Objects.Reach.{Reach}
use ocp_spire_operator.Validation.{
  validate_and_update_status, validate_common_config_with_details, validate_common_config_affinity,
  validate_common_config_tolerations, validate_common_config_node_selector,
  validate_common_config_resources, validate_common_config_labels, field_error_list_to_error,
  is_valid_url, validate_url_components,
}
use ocp_spire_operator.Reconciler.{run, body, Ztwim}
use ocp_spire_operator.Reconciler.Checks.{Surroundings, checked_proxy, handle_create_only_mode}
use ocp_spire_operator.Agent.{
  SpireAgent, agent_run, reconcile_agent, reconcile_agent_objects, reconcile_agent_service_account,
  validate_agent_configuration,
}
use ocp_spire_operator.Agent
use ocp_spire_operator.Agent.Published.{agent_error-not_ready}
use ocp_spire_operator.CsiDriver.{
  SpiffeCsiDriver, csi_driver_run, reconcile_csi_driver, reconcile_csi_objects,
  reconcile_csi_service_account,
}
use ocp_spire_operator.CsiDriver
use ocp_spire_operator.CsiDriver.Published.{csi_driver_error-not_ready}
use ocp_spire_operator.Oidc.{
  OidcProvider, oidc_run, reconcile_oidc, reconcile_oidc_objects, reconcile_oidc_service_account,
  validate_oidc_configuration,
}
use ocp_spire_operator.Oidc
use ocp_spire_operator.Oidc.Published.{oidc_error-not_ready}
use ocp_spire_operator.Oidc.CreateOnly.{reconcile_oidc_objects-keeps}
use ocp_spire_operator.Server.Controller.{reconcile_objects}
use ocp_spire_operator.Server.Controller.CreateOnly.{reconcile_objects-Reach}
use ocp_spire_operator.Examples.Api.{
  find_condition, set_condition, same_conditions, distinct, list_api, list_api-IsConditionsApi,
  in_order, in_order-IsRanges, api_errors, not_found, forbidden,
}
use ocp_spire_operator.Examples.Steps.{read_only, common}
use ocp_spire_operator.Examples.Server.{
  operator, clocks, resource_calls, surroundings, present, number_fields, numbers_differ, server,
  calls, generate, compare,
}

present_answer :
    {S : Type 0} (s : S) (w : Option ℕ) (e : Error)
    → (resource_calls s present).get_ztwim w ≡ get_failed e
    → api_errors.is_not_found e ≡ true
present_answer s w e h = absurd (ground (arith, h))

abbrev ztwim : Ztwim
ztwim = record { trust_domain = "example.org"; identity = operator }

abbrev agent : SpireAgent ℕ
agent = record { name = "cluster"; owners = operator ∷ []; conditions = []; common = common }

abbrev agent_calls : Agent.Calls (Option ℕ) ℕ ℕ
agent_calls = record {
  resource = resource_calls agent present;
  objects = read_only;
  get_daemon_set = λ w. get_failed not_found;
}

abbrev agent_objects : SpireAgent ℕ → Ztwim → Agent.Generated ℕ
agent_objects a z = record {
  service_account = 1;
  service = 2;
  cluster_role = 3;
  cluster_role_binding = 4;
  scc = 5;
  config_map = done 6;
  config_hash = "hash";
  daemon_set = λ h. 7;
}

abbrev agent_compare : Agent.Comparisons ℕ
agent_compare = record {
  fields = number_fields;
  config_map_differs = numbers_differ;
  daemon_set_needs_update = numbers_differ;
}

agent_refused :
    (agent_run api_errors list_api agent_calls surroundings agent_objects agent_compare in_order
      clocks agent none).result.outcome.error
    ≡ some forbidden
unfolding run body reconcile_agent reconcile_agent_objects validate_agent_configuration
    checked_proxy validate_proxy_configuration validate_and_update_status
    validate_common_config_with_details validate_common_config_affinity
    validate_common_config_tolerations validate_common_config_node_selector
    validate_common_config_resources validate_common_config_labels field_error_list_to_error
    handle_create_only_mode needs_owner_reference_update reconcile_agent_service_account ensure
    set_initial_reconciliation_status apply_status list_api set_conditions distinct with_ready
    lookup add_condition insert
agent_refused = refl

agent_error-not_ready_example :
    (c : MetaCondition) × (list_api.find
        (agent_run api_errors list_api agent_calls surroundings agent_objects agent_compare in_order
          clocks agent none).finished.conditions
        ready
      ≡ some c)
    × (c.status ≡ condition_false)
agent_error-not_ready_example =
    agent_error-not_ready api_errors list_api agent_calls surroundings agent_objects agent_compare
      (present_answer agent) list_api-IsConditionsApi in_order in_order-IsRanges clocks agent none
      forbidden agent_refused

abbrev driver : SpiffeCsiDriver ℕ
driver = record { name = "cluster"; owners = operator ∷ []; conditions = []; common = common }

abbrev driver_calls : CsiDriver.Calls (Option ℕ) ℕ ℕ
driver_calls = record {
  resource = resource_calls driver present;
  objects = read_only;
  get_daemon_set = λ w. get_failed not_found;
}

abbrev driver_objects : SpiffeCsiDriver ℕ → CsiDriver.Generated ℕ
driver_objects d = record { service_account = 1; csi_driver = 2; scc = 3; daemon_set = 4 }

driver_refused :
    (csi_driver_run api_errors list_api driver_calls surroundings driver_objects number_fields
      in_order clocks driver none).result.outcome.error
    ≡ some forbidden
unfolding run body reconcile_csi_driver reconcile_csi_objects validate_and_update_status
    validate_common_config_with_details validate_common_config_affinity
    validate_common_config_tolerations validate_common_config_node_selector
    validate_common_config_resources validate_common_config_labels field_error_list_to_error
    handle_create_only_mode needs_owner_reference_update reconcile_csi_service_account ensure
    set_initial_reconciliation_status apply_status list_api set_conditions distinct with_ready
    lookup add_condition insert
driver_refused = refl

csi_driver_error-not_ready_example :
    (c : MetaCondition) × (list_api.find
        (csi_driver_run api_errors list_api driver_calls surroundings driver_objects number_fields
          in_order clocks driver none).finished.conditions
        ready
      ≡ some c)
    × (c.status ≡ condition_false)
csi_driver_error-not_ready_example =
    csi_driver_error-not_ready api_errors list_api driver_calls surroundings driver_objects
      number_fields (present_answer driver) list_api-IsConditionsApi in_order in_order-IsRanges
      clocks driver none forbidden driver_refused

abbrev oidc : OidcProvider ℕ
oidc = record {
  name = "cluster";
  owners = operator ∷ [];
  conditions = [];
  common = common;
  jwt_issuer = "https://oidc.example.org";
  external_secret_ref = "";
  managed_route = "true";
}

abbrev oidc_calls : Oidc.Calls (Option ℕ) ℕ ℕ
oidc_calls = record {
  resource = resource_calls oidc present;
  objects = read_only;
  get_deployment = λ w. get_failed not_found;
}

abbrev oidc_generated : Oidc.Generated ℕ
oidc_generated = record {
  service_account = 1;
  service = 2;
  oidc_spiffe_id = 3;
  default_spiffe_id = 4;
  config_map = done 5;
  config_hash = "hash";
  deployment = λ h. 6;
  external_cert_role = λ secret. 7;
  external_cert_role_binding = 8;
  route = done 9;
}

abbrev oidc_objects : OidcProvider ℕ → Ztwim → Oidc.Generated ℕ
oidc_objects o z = oidc_generated

abbrev oidc_compare : Oidc.Comparisons ℕ
oidc_compare = record {
  fields = number_fields;
  config_map_differs = numbers_differ;
  deployment_needs_update = numbers_differ;
  route_conflict = numbers_differ;
}

oidc_refused :
    (oidc_run api_errors list_api oidc_calls surroundings oidc_objects oidc_compare in_order clocks
      oidc none).result.outcome.error
    ≡ some forbidden
unfolding run body reconcile_oidc reconcile_oidc_objects validate_oidc_configuration checked_proxy
    validate_proxy_configuration validate_and_update_status validate_common_config_with_details
    validate_common_config_affinity validate_common_config_tolerations
    validate_common_config_node_selector validate_common_config_resources
    validate_common_config_labels field_error_list_to_error is_valid_url validate_url_components
    handle_create_only_mode needs_owner_reference_update set_initial_reconciliation_status
    apply_status with_ready set_conditions set_ready_condition add_condition lookup insert distinct
    list_api find_condition set_condition same_conditions reconcile_oidc_service_account ensure
oidc_refused = refl

oidc_error-not_ready_example :
    (c : MetaCondition) × (list_api.find
        (oidc_run api_errors list_api oidc_calls surroundings oidc_objects oidc_compare in_order
          clocks oidc none).finished.conditions
        ready
      ≡ some c)
    × (c.status ≡ condition_false)
oidc_error-not_ready_example =
    oidc_error-not_ready api_errors list_api oidc_calls surroundings oidc_objects oidc_compare
      (present_answer oidc) list_api-IsConditionsApi in_order in_order-IsRanges clocks oidc none
      forbidden oidc_refused

abbrev careful : Surroundings ℕ
careful = record surroundings { create_only = true }

reconcile_objects-Reach_example :
    Reach read_only
      (some 2)
      (reconcile_objects api_errors list_api
        (calls present)
        careful
        generate
        compare
        server
        ztwim
        new_manager
        (some 2)).cluster
reconcile_objects-Reach_example =
    reconcile_objects-Reach api_errors list_api (calls present) careful generate compare refl server
      ztwim new_manager (some 2)

-- A call of `Create` leaves the object 2 of a cluster where nothing may be written.
two_kept : (d : ℕ) (v : Option ℕ) → v ≡ some 2 → (read_only.create d v).1 ≡ some 2
two_kept d v h = h

reconcile_oidc_objects-keeps_example :
    (reconcile_oidc_objects api_errors list_api oidc_calls careful oidc_objects oidc_compare oidc
      oidc_generated new_manager
      (some 2)).cluster
    ≡ some 2
reconcile_oidc_objects-keeps_example =
    reconcile_oidc_objects-keeps api_errors list_api oidc_calls careful oidc_objects oidc_compare
      refl (λ w. w ≡ some 2) two_kept oidc oidc_generated new_manager (some 2) refl
