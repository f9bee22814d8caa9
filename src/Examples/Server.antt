-- ===== src/Examples/Server.antt =====
-- Reconciliations of a SpireServer: one whose writes are refused, and one that cannot read the ZTWIM
-- resource.
use ocp_spire_operator.Prelude.{
  ℕ, Bool, true, false, not, [], ◌∷◌, Option, none, some, nat_eq, arith, ◌≡◌, refl, sym, ap,
}
use ocp_spire_operator.Prelude.Int.{pos}
use ocp_spire_operator.Prelude.Text.{print_int}
use ocp_spire_operator.Prelude.Dict.{lookup, insert}
use ocp_spire_operator.Kube.{condition_true, condition_false, MetaCondition, Error}
use ocp_spire_operator.Status.{
  ready, apply_status, with_ready, set_conditions, set_ready_condition, add_condition,
  set_initial_reconciliation_status,
}
use ocp_spire_operator.Status.Health.{Got, got, get_failed}
use ocp_spire_operator.Proxy.{validate_proxy_configuration}
use ocp_spire_operator.Owners.{OwnerReference, needs_owner_reference_update}
use ocp_spire_operator.Objects.{done, Action, ensure}
use ocp_spire_operator.Objects.Kinds.{Fields}
use ocp_spire_operator.Validation.{
  Validators, validate_and_update_status, validate_common_config_with_details,
  validate_common_config_affinity, validate_common_config_tolerations,
  validate_common_config_node_selector, validate_common_config_resources,
  validate_common_config_labels, field_error_list_to_error, is_valid_url, validate_url_components,
}
use ocp_spire_operator.Server.Ttl.{
  validate_ttl_durations_with_warnings, ttl_warnings, has_compatible_ttl, max_svid_ttl_for_ca_ttl,
}
use ocp_spire_operator.Server.Federation.{validate_federation_config}
use ocp_spire_operator.Server.Resources.{Wanted, reconcile_service_account}
use ocp_spire_operator.Reconciler.{Ztwim, ResourceCalls, Clocks, run, body}
use ocp_spire_operator.Reconciler.Checks.{Surroundings, checked_proxy, handle_create_only_mode}
use ocp_spire_operator.Reconciler.Unread.{read_failure-ready}
use ocp_spire_operator.Server.Checks.{SpireServer, validate_configuration, handle_ttl_validation}
use ocp_spire_operator.Server.Controller.{
  Generated, Comparisons, Calls, spire_server, server_run, reconcile_configured, reconcile_objects,
}
use ocp_spire_operator.Server.Controller.Published.{error-not_ready}
use ocp_spire_operator.Examples.Api.{
  has_reason, find_condition, set_condition, same_conditions, distinct, list_api,
  list_api-IsConditionsApi, in_order, in_order-IsRanges, api_errors, not_found, forbidden,
}
use ocp_spire_operator.Examples.Steps.{read_only, common}

abbrev pub operator : OwnerReference
operator = record { uid = "1"; name = "cluster"; kind = "ZeroTrustWorkloadIdentityManager" }

abbrev lenient : Validators ℕ
lenient = record {
  affinity = λ a. [];
  tolerations = λ ts. [];
  node_selector = λ s. [];
  resources = λ r. [];
  labels = λ l. [];
}

abbrev pub server : SpireServer ℕ
server = record {
  name = "cluster";
  owners = operator ∷ [];
  conditions = [];
  common = common;
  jwt_issuer = "https://oidc.example.org";
  lifetimes = record {
    ca_validity = pos 86400000000000;
    default_x509_validity = pos 3600000000000;
    default_jwt_validity = pos 300000000000;
  };
  federation = none;
}

-- Every object is missing, and the answer to the read of the ZTWIM resource is given.
abbrev pub resource_calls : {S : Type 0} → S → Got Ztwim → ResourceCalls (Option ℕ) S
resource_calls s answer = record {
  get_resource = λ w. got s;
  get_ztwim = λ w. answer;
  set_owner = λ z s'. done s';
  update_resource = λ s' w. (done s', w);
  update_status = λ s' cs w. (none, w);
}

abbrev pub calls : Got Ztwim → Calls (Option ℕ) ℕ ℕ
calls answer = record {
  resource = resource_calls server answer;
  objects = read_only;
  get_stateful_set = λ w. get_failed not_found;
  record_warning = λ warning w. w;
  print_duration = print_int;
}

abbrev pub surroundings : Surroundings ℕ
surroundings = record {
  environment = record {
    http_proxy = "";
    https_proxy = "";
    no_proxy = "";
    trusted_ca_bundle_configmap = "";
    operator_namespace = "ztwim";
  };
  create_only = false;
  validators = lenient;
  parse_url = λ s. done (record {
    scheme = "https";
    host = "oidc.example.org";
    path = "";
    raw_query = "";
    fragment = "";
  });
}

abbrev pub clocks : Clocks
clocks = record { initial_clock = λ t. 1; final_clock = λ t. 2 }

abbrev wanted : Wanted ℕ
wanted = record {
  service_account = 1;
  server_service = 2;
  manager_service = 3;
  cluster_role = 4;
  cluster_role_binding = 5;
  bundle_role = 6;
  bundle_role_binding = 7;
  manager_cluster_role = 8;
  manager_cluster_role_binding = 9;
  leader_election_role = 10;
  leader_election_role_binding = 11;
  external_cert_role = λ secret. 12;
  external_cert_role_binding = 13;
  webhook = 14;
}

abbrev pub generate : SpireServer ℕ → Ztwim → Generated ℕ
generate s z = record {
  wanted = wanted;
  server_config_map = done 15;
  server_config_hash = done "hash";
  manager_config_map = done 16;
  manager_config_hash = "hash";
  bundle_config_map = done 17;
  stateful_set = λ h k. 18;
  route = 19;
}

abbrev pub numbers_differ : ℕ → ℕ → Bool
numbers_differ a b = not (nat_eq a b)

abbrev pub number_fields : Fields ℕ
number_fields = record {
  resource_needs_update = numbers_differ;
  keep_version = λ existing desired. desired;
  keep_service_fields = λ existing desired. desired;
  keep_webhook_fields = λ existing desired. desired;
  keep_scc_fields = λ existing desired. desired;
  keep_csi_driver_fields = λ existing desired. desired;
}

abbrev pub compare : Comparisons ℕ
compare = record {
  fields = number_fields;
  server_config_differs = numbers_differ;
  manager_config_differs = numbers_differ;
  stateful_set_needs_update = numbers_differ;
  route_conflict = numbers_differ;
}

abbrev pub present : Got Ztwim
present = got (record { trust_domain = "example.org"; identity = operator })

-- The error of a read.
abbrev failure : Got ℕ → Error
failure (got n) = not_found
failure (get_failed e) = e

reads_missing :
    (s : SpireServer ℕ) (z : Ztwim) (d d' : ℕ) (w : Option ℕ) (e : Error)
    → (generate s z).manager_config_map ≡ done d
    → read_only.set_controller_reference d ≡ done d'
    → read_only.get d' w ≡ get_failed e
    → api_errors.is_not_found e ≡ true
reads_missing s z d d' none e g o h = ap (λ r. has_reason "NotFound" (failure r)) (sym h)
reads_missing s z d d' (some n) e g o h = absurd (ground (arith, h))

present_read :
    (w : Option ℕ) (e : Error)
    → (calls present).resource.get_ztwim w ≡ get_failed e
    → api_errors.is_not_found e ≡ true
present_read w e h = absurd (ground (arith, h))

refused :
    (server_run api_errors list_api
      (calls present)
      surroundings
      generate
      compare
      in_order
      clocks
      server
      none).result.outcome.error
    ≡ some forbidden
unfolding run body reconcile_configured reconcile_objects validate_configuration checked_proxy
    validate_proxy_configuration validate_and_update_status validate_common_config_with_details
    validate_common_config_affinity validate_common_config_tolerations
    validate_common_config_node_selector validate_common_config_resources
    validate_common_config_labels field_error_list_to_error is_valid_url validate_url_components
    validate_federation_config handle_ttl_validation validate_ttl_durations_with_warnings
    ttl_warnings has_compatible_ttl max_svid_ttl_for_ca_ttl handle_create_only_mode
    needs_owner_reference_update set_initial_reconciliation_status apply_status with_ready
    set_conditions set_ready_condition add_condition lookup insert distinct list_api find_condition
    set_condition same_conditions reconcile_service_account ensure
refused = refl

error-not_ready_example :
    (c : MetaCondition) × (list_api.find
        (server_run api_errors list_api
          (calls present)
          surroundings
          generate
          compare
          in_order
          clocks
          server
          none).finished.conditions
        ready
      ≡ some c)
    × (c.status ≡ condition_false)
error-not_ready_example =
    error-not_ready api_errors list_api (calls present) surroundings generate compare
      (λ s z. ("hash", refl)) reads_missing present_read list_api-IsConditionsApi in_order
      in_order-IsRanges clocks server none forbidden refused

abbrev configured : SpireServer ℕ → Ztwim → Action (Option ℕ)
configured = reconcile_configured api_errors list_api (calls present) surroundings generate compare

read_failure-ready_example :
    ((run api_errors list_api in_order spire_server
        (resource_calls server (get_failed forbidden))
        clocks
        configured
        server
        none).result.outcome.error
      ≡ some forbidden)
    × ((c : MetaCondition) × (list_api.find
            (run api_errors list_api in_order spire_server
              (resource_calls server (get_failed forbidden))
              clocks
              configured
              server
              none).finished.conditions
            ready
          ≡ some c)
        × (c.status ≡ condition_true)
        × (c.message ≡ "All components are ready"))
read_failure-ready_example =
    read_failure-ready api_errors list_api in_order spire_server
      (resource_calls server (get_failed forbidden)) clocks configured list_api-IsConditionsApi
      in_order-IsRanges server none forbidden refl refl
