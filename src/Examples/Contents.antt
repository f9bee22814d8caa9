-- ===== src/Examples/Contents.antt =====
-- Labels, replayed conditions and the contents of configurations at concrete inputs.
use ocp_spire_operator.Prelude.{◌++◌, ℕ, ◌≡◌, ◌↔◌, refl, String, List, [], ◌∷◌, none, some, All}
use ocp_spire_operator.Prelude.Int.{pos}
use ocp_spire_operator.Prelude.Dict.{Dict}
use ocp_spire_operator.Kube.{condition_true, condition_false, MetaCondition}
use ocp_spire_operator.Status.{Condition, StatusUpdate, new_manager, apply_status}
use ocp_spire_operator.Status.Publish.{published}
use ocp_spire_operator.Status.Replay.{replay, find-replay}
use ocp_spire_operator.Labels.{
  Versions, spire_server_labels, spire_controller_manager_labels, spire_agent_labels,
  spiffe_csi_driver_labels, spire_oidc_discovery_provider_labels, component_control_plane,
  component_node_agent, component_csi, standard_instance, component_discovery,
}
use ocp_spire_operator.Labels.Watched.{IsWatched, labels-IsWatched}
use ocp_spire_operator.Server.Federation.{
  https_spiffe, https_web, BundleEndpointConfig, FederatesWithConfig, FederationConfig,
  validate_bundle_endpoint, validate_federation_config, validate_federates_with,
  validate_federated_trust_domain,
}
use ocp_spire_operator.Server.Federation.Laws.{IsAbsent}
use ocp_spire_operator.Server.Peers.Federated.{IsTold, peer_settings, validate-peer_settings}
use ocp_spire_operator.CsiDriver.Pods.{
  Images, CsiSpec, DaemonSet, generate_spiffe_csi_driver_daemon_set,
}
use ocp_spire_operator.CsiDriver.Pods.Selected.{
  Matches, FindsVolumes, generate_spiffe_csi_driver_daemon_set-Matches,
}
use ocp_spire_operator.Examples.Api.{
  list_api, list_api-IsConditionsApi, in_order, in_order-IsRanges,
}

abbrev pub versions : Versions
versions = record {
  spire_server = "1.13.3";
  spire_agent = "1.13.3";
  spire_oidc_discovery_provider = "1.13.3";
  spiffe_csi = "0.2.8";
  spire_controller_manager = "0.6.3";
}

-- One label of the user's is free, the other is the operator's.
abbrev pub custom : Dict String
custom = ("team", "identity") ∷ ("app.kubernetes.io/managed-by", "me") ∷ []

labels-IsWatched_example :
    (IsWatched "csi" (spire_server_labels versions custom) ↔ (component_control_plane ≡ "csi"))
    × (IsWatched "csi" (spire_controller_manager_labels versions custom)
        ↔ (component_control_plane ≡ "csi"))
    × (IsWatched "csi" (spire_agent_labels versions custom) ↔ (component_node_agent ≡ "csi"))
    × (IsWatched "csi" (spiffe_csi_driver_labels versions custom) ↔ (component_csi ≡ "csi"))
    × (IsWatched "csi" (spire_oidc_discovery_provider_labels versions custom)
        ↔ (component_discovery ≡ "csi"))
labels-IsWatched_example = labels-IsWatched versions custom "csi"

abbrev service_up : Condition
service_up = record {
  type = "ServiceAvailable";
  status = condition_true;
  reason = "Created";
  message = "";
}

abbrev service_down : Condition
service_down = record service_up { status = condition_false; reason = "Failed" }

abbrev store_conditions : StatusUpdate (List MetaCondition)
store_conditions cs w = (none, cs)

abbrev at_five : String → ℕ
at_five t = 5

find-replay_example :
    list_api.find
      (apply_status list_api in_order store_conditions at_five
        (replay (service_up ∷ service_down ∷ []) new_manager)
        []
        []).conditions
      "ServiceAvailable"
    ≡ published at_five (some service_down) (list_api.find [] "ServiceAvailable")
find-replay_example =
    find-replay list_api list_api-IsConditionsApi in_order in_order-IsRanges store_conditions
      at_five (service_up ∷ service_down ∷ []) [] [] "ServiceAvailable" refl

abbrev peer : FederatesWithConfig
peer = record {
  trust_domain = "b.org";
  bundle_endpoint_url = "https://b.org/bundle";
  bundle_endpoint_profile = https_spiffe;
  endpoint_spiffe_id = "spiffe://b.org/server";
}

abbrev web_endpoint : BundleEndpointConfig
web_endpoint = record {
  profile = https_web;
  refresh_hint = pos 300;
  https_web = some (record {
    acme = some (record {
      directory_url = "https://acme.org";
      domain_name = "a.org";
      email = "a@a.org";
      tos_accepted = "true";
    });
    serving_cert = none;
  });
}

abbrev pub federation : FederationConfig
federation = record {
  bundle_endpoint = web_endpoint;
  federates_with = peer ∷ record peer { trust_domain = "c.org" } ∷ [];
  managed_route = "true";
}

federation-valid : validate_federation_config (some federation) "a.org" ≡ none
unfolding validate_federation_config validate_bundle_endpoint validate_federates_with
    validate_federated_trust_domain
federation-valid = refl

validate-peer_settings_example :
    All (IsTold federation) federation.federates_with
    × ((d : String) → IsAbsent d federation.federates_with → peer_settings d federation ≡ none)
    × (peer_settings "a.org" federation ≡ none)
validate-peer_settings_example = validate-peer_settings federation "a.org" federation-valid

abbrev images : Images
images = record {
  init_container = "registry.access.redhat.com/ubi9:latest";
  csi_driver = "csi";
  node_driver_registrar = "registrar";
}

abbrev csi_spec : CsiSpec ℕ ℕ
csi_spec = record {
  agent_socket_path = "/run/spire/agent-sockets";
  plugin_name = "csi.spiffe.io";
  resources = none;
  scheduling = 0;
  labels = ("app.kubernetes.io/name", "mine") ∷ [];
}

abbrev csi_daemon_set : DaemonSet ℕ ℕ
csi_daemon_set = generate_spiffe_csi_driver_daemon_set "ztwim" images versions csi_spec

generate_spiffe_csi_driver_daemon_set-Matches_example :
    (csi_daemon_set.selector
      ≡ ("app.kubernetes.io/name", "spiffe-csi-driver")
        ∷ ("app.kubernetes.io/instance", standard_instance)
        ∷ ("app.kubernetes.io/component", component_csi)
        ∷ [])
    × Matches csi_daemon_set.selector csi_daemon_set.template_labels
    × All
        (FindsVolumes csi_daemon_set.volumes)
        (csi_daemon_set.init_containers ++ csi_daemon_set.containers)
generate_spiffe_csi_driver_daemon_set-Matches_example =
    generate_spiffe_csi_driver_daemon_set-Matches "ztwim" images versions csi_spec
