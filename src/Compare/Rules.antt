-- ===== src/Compare/Rules.antt =====
-- Services, roles, webhooks, security constraints and identities in
-- pkg/controller/utils/resource_comparison.go, and the function that picks the comparison of a kind.
pub mod Same
use ocp_spire_operator.Prelude.{
  ℕ, Bool, true, false, ◌||◌, ◌&&◌, not, String, List, [], ◌∷◌, Option, none, some, ◌==◌, nat_eq,
  if◌then◌else◌,
}
use ocp_spire_operator.Prelude.Dict.{Dict}
use ocp_spire_operator.Compare.{
  labels_match, annotations_match, bool_eq, bool_ptrs_equal, string_slices_equal,
  fs_type_slices_equal, ServiceAccount, service_account_needs_update,
}
use ocp_spire_operator.Compare.Workload.{
  Sized, StatefulSetSpec, DeploymentSpec, DaemonSetSpec, stateful_set_needs_update,
  deployment_needs_update, daemon_set_needs_update,
}

pub record Service (V : Type 0) : Type 0 where
  pub type : String
  pub ports : V
  pub selector : V

pub record ClusterRole (V : Type 0) : Type 0 where
  pub rules : Sized V
  pub aggregation_rule : Option V

pub record Binding (V : Type 0) : Type 0 where
  pub subjects : Sized V
  pub role_ref : V

pub record CsiDriver (V : Type 0) : Type 0 where
  pub attach_required : Option Bool
  pub pod_info_on_mount : Option Bool
  pub fs_group_policy : Option String
  pub volume_lifecycle_modes : V
  pub token_requests : V

-- The flags `AllowHost*`, `AllowPrivilegedContainer` and `ReadOnlyRootFilesystem`, and the types of the
-- four strategies, in the order of the comparison.
pub record SecurityContextConstraints (V : Type 0) : Type 0 where
  pub users : List String
  pub groups : List String
  pub volumes : List String
  pub allow_host_dir_volume_plugin : Bool
  pub allow_host_ipc : Bool
  pub allow_host_network : Bool
  pub allow_host_pid : Bool
  pub allow_host_ports : Bool
  pub allow_privileged_container : Bool
  pub read_only_root_filesystem : Bool
  pub allow_privilege_escalation : Option Bool
  pub run_as_user : String
  pub se_linux_context : String
  pub supplemental_groups : String
  pub fs_group : String
  pub allowed_capabilities : Sized V
  pub default_add_capabilities : Sized V
  pub required_drop_capabilities : Sized V

pub record ClusterSpiffeId (V : Type 0) : Type 0 where
  pub class_name : String
  pub hint : String
  pub spiffe_id_template : String
  pub fallback : Bool
  pub auto_populate_dns_names : Bool
  pub dns_name_templates : List String
  pub pod_selector : V
  pub namespace_selector : V
  pub workload_selector_templates : V

-- An existing and a desired object of one type; with two types, the source's assertion panics.
pub data Typed (V : Type 0) : Type 0 where
  services : Service V → Service V → Typed V
  service_accounts : ServiceAccount → ServiceAccount → Typed V
  cluster_roles : ClusterRole V → ClusterRole V → Typed V
  cluster_role_bindings : Binding V → Binding V → Typed V
  roles : Sized V → Sized V → Typed V
  role_bindings : Binding V → Binding V → Typed V
  csi_drivers : CsiDriver V → CsiDriver V → Typed V
  validating_webhooks : V → V → Typed V
  security_context_constraints :
      SecurityContextConstraints V → SecurityContextConstraints V → Typed V
  cluster_spiffe_ids : ClusterSpiffeId V → ClusterSpiffeId V → Typed V
  stateful_sets : StatefulSetSpec V → StatefulSetSpec V → Typed V
  deployments : DeploymentSpec V → DeploymentSpec V → Typed V
  daemon_sets : DaemonSetSpec V → DaemonSetSpec V → Typed V
  other : Typed V

pub record Metadata : Type 0 where
  pub labels : Dict String
  pub annotations : Dict String

abbrev pub policies_equal : Option String → Option String → Bool
policies_equal none none = true
policies_equal none (some b) = false
policies_equal (some a) none = false
policies_equal (some a) (some b) = a == b

module _ {V : Type 0} (deep_equal : V → V → Bool) where
  unfoldable pub service_needs_update : Service V → Service V → Bool
  service_needs_update existing desired =
      not (existing.type == desired.type)
      || not (deep_equal existing.ports desired.ports)
      || not (deep_equal existing.selector desired.selector)

  -- `policyRulesEqual`, `subjectsEqual` and `capabilitySlicesEqual`, the same text for three types.
  unfoldable pub slices_equal : Sized V → Sized V → Bool
  slices_equal existing desired =
      if not (nat_eq existing.size desired.size)
      then false
      else deep_equal existing.value desired.value

  unfoldable pub aggregation_rules_equal : Option V → Option V → Bool
  aggregation_rules_equal none none = true
  aggregation_rules_equal none (some d) = false
  aggregation_rules_equal (some e) none = false
  aggregation_rules_equal (some e) (some d) = deep_equal e d

  unfoldable pub cluster_role_needs_update : ClusterRole V → ClusterRole V → Bool
  unfolding slices_equal aggregation_rules_equal
  cluster_role_needs_update existing desired =
      not (slices_equal existing.rules desired.rules)
      || not (aggregation_rules_equal existing.aggregation_rule desired.aggregation_rule)

  unfoldable pub cluster_role_binding_needs_update : Binding V → Binding V → Bool
  unfolding slices_equal
  cluster_role_binding_needs_update existing desired =
      not (slices_equal existing.subjects desired.subjects)
      || not (deep_equal existing.role_ref desired.role_ref)

  unfoldable pub role_needs_update : Sized V → Sized V → Bool
  unfolding slices_equal
  role_needs_update existing desired = not (slices_equal existing desired)

  unfoldable pub role_binding_needs_update : Binding V → Binding V → Bool
  unfolding slices_equal
  role_binding_needs_update existing desired =
      not (slices_equal existing.subjects desired.subjects)
      || not (deep_equal existing.role_ref desired.role_ref)

  unfoldable pub csi_driver_needs_update : CsiDriver V → CsiDriver V → Bool
  csi_driver_needs_update existing desired =
      not (bool_ptrs_equal existing.attach_required desired.attach_required)
      || not (bool_ptrs_equal existing.pod_info_on_mount desired.pod_info_on_mount)
      || not (policies_equal existing.fs_group_policy desired.fs_group_policy)
      || not (deep_equal existing.volume_lifecycle_modes desired.volume_lifecycle_modes)
      || not (deep_equal existing.token_requests desired.token_requests)

  unfoldable pub security_context_constraints_needs_update :
      SecurityContextConstraints V → SecurityContextConstraints V → Bool
  security_context_constraints_needs_update existing desired =
      not (string_slices_equal existing.users desired.users)
      || not (string_slices_equal existing.groups desired.groups)
      || not (fs_type_slices_equal existing.volumes desired.volumes)
      || not (bool_eq existing.allow_host_dir_volume_plugin desired.allow_host_dir_volume_plugin)
      || not (bool_eq existing.allow_host_ipc desired.allow_host_ipc)
      || not (bool_eq existing.allow_host_network desired.allow_host_network)
      || not (bool_eq existing.allow_host_pid desired.allow_host_pid)
      || not (bool_eq existing.allow_host_ports desired.allow_host_ports)
      || not (bool_eq existing.allow_privileged_container desired.allow_privileged_container)
      || not (bool_eq existing.read_only_root_filesystem desired.read_only_root_filesystem)
      || not
          (bool_ptrs_equal existing.allow_privilege_escalation desired.allow_privilege_escalation)
      || not (existing.run_as_user == desired.run_as_user)
      || not (existing.se_linux_context == desired.se_linux_context)
      || not (existing.supplemental_groups == desired.supplemental_groups)
      || not (existing.fs_group == desired.fs_group)
      || not (slices_equal existing.allowed_capabilities desired.allowed_capabilities)
      || not (slices_equal existing.default_add_capabilities desired.default_add_capabilities)
      || not (slices_equal existing.required_drop_capabilities desired.required_drop_capabilities)

  unfoldable pub cluster_spiffe_id_needs_update : ClusterSpiffeId V → ClusterSpiffeId V → Bool
  cluster_spiffe_id_needs_update existing desired =
      not (existing.class_name == desired.class_name)
      || not (existing.hint == desired.hint)
      || not (existing.spiffe_id_template == desired.spiffe_id_template)
      || not (bool_eq existing.fallback desired.fallback)
      || not (bool_eq existing.auto_populate_dns_names desired.auto_populate_dns_names)
      || not (string_slices_equal existing.dns_name_templates desired.dns_name_templates)
      || not (deep_equal existing.pod_selector desired.pod_selector)
      || not (deep_equal existing.namespace_selector desired.namespace_selector)
      || not (deep_equal existing.workload_selector_templates desired.workload_selector_templates)

  -- The `switch` on the type.
  unfoldable pub typed_needs_update : Typed V → Bool
  typed_needs_update (services e d) = service_needs_update e d
  typed_needs_update (service_accounts e d) = service_account_needs_update e d
  typed_needs_update (cluster_roles e d) = cluster_role_needs_update e d
  typed_needs_update (cluster_role_bindings e d) = cluster_role_binding_needs_update e d
  typed_needs_update (roles e d) = role_needs_update e d
  typed_needs_update (role_bindings e d) = role_binding_needs_update e d
  typed_needs_update (csi_drivers e d) = csi_driver_needs_update e d
  typed_needs_update (validating_webhooks e d) = not (deep_equal e d)
  typed_needs_update (security_context_constraints e d) =
      security_context_constraints_needs_update e d
  typed_needs_update (cluster_spiffe_ids e d) = cluster_spiffe_id_needs_update e d
  typed_needs_update (stateful_sets e d) = stateful_set_needs_update deep_equal (some e) (some d)
  typed_needs_update (deployments e d) = deployment_needs_update deep_equal (some e) (some d)
  typed_needs_update (daemon_sets e d) = daemon_set_needs_update deep_equal (some e) (some d)
  typed_needs_update other = false

  unfoldable pub resource_needs_update : Metadata → Metadata → Typed V → Bool
  resource_needs_update existing desired typed =
      if not (labels_match existing.labels desired.labels)
      then true
      else if not (annotations_match existing.annotations desired.annotations)
      then true
      else typed_needs_update typed
