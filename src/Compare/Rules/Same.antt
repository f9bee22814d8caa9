-- ===== src/Compare/Rules/Same.antt =====
-- An object that agrees with the wanted one is not updated.
use ocp_spire_operator.Prelude.{
  Bool, true, false, String, List, [], ◌∷◌, ◌++◌, Option, none, some, arith, ◌≡◌, refl, sym, ap,
  ◌∙◌, eq_refl, all_of,
}
use mathlib.Core.List.{append_assoc}
use ocp_spire_operator.Compare.{
  is_in, bool_eq, string_slices_equal, fs_type_slices_equal, local_object_references_equal,
  ServiceAccount, service_account_needs_update,
}
use ocp_spire_operator.Compare.Workload.{Sized}
use ocp_spire_operator.Compare.Workload.Same.{
  IsWellFormed, bool_ptrs_equal_refl, stateful_set_needs_update_refl, deployment_needs_update_refl,
  daemon_set_needs_update_refl,
}
use ocp_spire_operator.Compare.Rules.{
  Service, ClusterRole, Binding, CsiDriver, SecurityContextConstraints, ClusterSpiffeId, Typed,
  services, service_accounts, cluster_roles, cluster_role_bindings, roles, role_bindings,
  csi_drivers, validating_webhooks, security_context_constraints, cluster_spiffe_ids, stateful_sets,
  deployments, daemon_sets, other, policies_equal, service_needs_update, slices_equal,
  aggregation_rules_equal, cluster_role_needs_update, cluster_role_binding_needs_update,
  role_needs_update, role_binding_needs_update, csi_driver_needs_update,
  security_context_constraints_needs_update, cluster_spiffe_id_needs_update, typed_needs_update,
}

is_in-append : (s : String) (xs ys : List String) → is_in s (xs ++ s ∷ ys) ≡ true
is_in-append s [] ys = ground (arith, eq_refl s)
is_in-append s (x ∷ xs) ys = ground (arith, is_in-append s xs ys)

-- Every item of a list is in it.
all_in : (pre suf : List String) → all_of (λ s. is_in s (pre ++ suf)) suf ≡ true
all_in pre [] = refl
all_in pre (s ∷ suf) = ground (
  arith,
  is_in-append s pre suf,
  sym (ap (λ ss. all_of (λ t. is_in t ss) suf) (append_assoc pre (s ∷ []) suf))
      ∙ all_in (pre ++ s ∷ []) suf,
)

string_slices_equal_refl : (ss : List String) → string_slices_equal ss ss ≡ true
unfolding string_slices_equal
string_slices_equal_refl ss = ground (arith, all_in [] ss)

fs_type_slices_equal_refl : (ss : List String) → fs_type_slices_equal ss ss ≡ true
unfolding fs_type_slices_equal
fs_type_slices_equal_refl ss = ground (arith, all_in [] ss)

local_object_references_equal_refl : (ss : List String) → local_object_references_equal ss ss ≡ true
unfolding local_object_references_equal
local_object_references_equal_refl ss = ground (arith, all_in [] ss)

service_account_needs_update_refl : (s : ServiceAccount) → service_account_needs_update s s ≡ false
unfolding service_account_needs_update
service_account_needs_update_refl s = go s.automount_service_account_token s.image_pull_secrets
  where
    go :
        (o : Option Bool) (ss : List String)
        → service_account_needs_update
            (record { automount_service_account_token = o; image_pull_secrets = ss })
            (record { automount_service_account_token = o; image_pull_secrets = ss })
          ≡ false
    go none [] = refl
    go (some b) [] = rw (bool_ptrs_equal_refl (some b)) refl
    go none (s ∷ ss) = rw (local_object_references_equal_refl (s ∷ ss)) refl
    go (some b) (s ∷ ss) =
        rw (bool_ptrs_equal_refl (some b), local_object_references_equal_refl (s ∷ ss)) refl

bool_eq_refl : (b : Bool) → bool_eq b b ≡ true
bool_eq_refl b = ground arith

policies_equal_refl : (o : Option String) → policies_equal o o ≡ true
policies_equal_refl none = refl
policies_equal_refl (some s) = eq_refl s

-- The two objects are the same; of a workload, the pod is well-formed.
abbrev pub AreSame : {V : Type 0} → Typed V → Type 0
AreSame (services e d) = e ≡ d
AreSame (service_accounts e d) = e ≡ d
AreSame (cluster_roles e d) = e ≡ d
AreSame (cluster_role_bindings e d) = e ≡ d
AreSame (roles e d) = e ≡ d
AreSame (role_bindings e d) = e ≡ d
AreSame (csi_drivers e d) = e ≡ d
AreSame (validating_webhooks e d) = e ≡ d
AreSame (security_context_constraints e d) = e ≡ d
AreSame (cluster_spiffe_ids e d) = e ≡ d
AreSame (stateful_sets e d) = (e ≡ d) × IsWellFormed d.pod
AreSame (deployments e d) = (e ≡ d) × IsWellFormed d.pod
AreSame (daemon_sets e d) = (e ≡ d) × IsWellFormed d.pod
AreSame other = Unit

module _ {V : Type 0} (deep_equal : V → V → Bool)
    (deep_equal_refl : (v : V) → deep_equal v v ≡ true) where
  slices_equal_refl : (s : Sized V) → slices_equal deep_equal s s ≡ true
  unfolding slices_equal
  slices_equal_refl s = ground (arith, deep_equal_refl s.value)

  aggregation_rules_equal_refl : (o : Option V) → aggregation_rules_equal deep_equal o o ≡ true
  unfolding aggregation_rules_equal
  aggregation_rules_equal_refl none = refl
  aggregation_rules_equal_refl (some v) = deep_equal_refl v

  security_context_constraints_needs_update_refl :
      (s : SecurityContextConstraints V)
      → security_context_constraints_needs_update deep_equal s s ≡ false
  unfolding security_context_constraints_needs_update
  security_context_constraints_needs_update_refl s =
      rw
        (
          string_slices_equal_refl s.users,
          string_slices_equal_refl s.groups,
          fs_type_slices_equal_refl s.volumes,
          bool_eq_refl s.allow_host_dir_volume_plugin,
          bool_eq_refl s.allow_host_ipc,
          bool_eq_refl s.allow_host_network,
          bool_eq_refl s.allow_host_pid,
          bool_eq_refl s.allow_host_ports,
          bool_eq_refl s.allow_privileged_container,
          bool_eq_refl s.read_only_root_filesystem,
          bool_ptrs_equal_refl s.allow_privilege_escalation,
          eq_refl s.run_as_user,
          eq_refl s.se_linux_context,
          eq_refl s.supplemental_groups,
          eq_refl s.fs_group,
          slices_equal_refl s.allowed_capabilities,
          slices_equal_refl s.default_add_capabilities,
          slices_equal_refl s.required_drop_capabilities,
        )
        refl

  cluster_spiffe_id_needs_update_refl :
      (s : ClusterSpiffeId V) → cluster_spiffe_id_needs_update deep_equal s s ≡ false
  unfolding cluster_spiffe_id_needs_update
  cluster_spiffe_id_needs_update_refl s =
      rw
        (
          eq_refl s.class_name,
          eq_refl s.hint,
          eq_refl s.spiffe_id_template,
          bool_eq_refl s.fallback,
          bool_eq_refl s.auto_populate_dns_names,
          string_slices_equal_refl s.dns_name_templates,
          deep_equal_refl s.pod_selector,
          deep_equal_refl s.namespace_selector,
          deep_equal_refl s.workload_selector_templates,
        )
        refl

  service_needs_update_refl : (s : Service V) → service_needs_update deep_equal s s ≡ false
  unfolding service_needs_update
  service_needs_update_refl s =
      rw (eq_refl s.type, deep_equal_refl s.ports, deep_equal_refl s.selector) refl

  cluster_role_needs_update_refl :
      (r : ClusterRole V) → cluster_role_needs_update deep_equal r r ≡ false
  unfolding cluster_role_needs_update
  cluster_role_needs_update_refl r =
      rw (slices_equal_refl r.rules, aggregation_rules_equal_refl r.aggregation_rule) refl

  binding_refl :
      (b : Binding V)
      → (cluster_role_binding_needs_update deep_equal b b ≡ false)
        × (role_binding_needs_update deep_equal b b ≡ false)
  unfolding cluster_role_binding_needs_update role_binding_needs_update
  binding_refl b = (
    rw (slices_equal_refl b.subjects, deep_equal_refl b.role_ref) refl,
    rw (slices_equal_refl b.subjects, deep_equal_refl b.role_ref) refl,
  )

  csi_driver_needs_update_refl : (d : CsiDriver V) → csi_driver_needs_update deep_equal d d ≡ false
  unfolding csi_driver_needs_update
  csi_driver_needs_update_refl d =
      rw
        (
          bool_ptrs_equal_refl d.attach_required,
          bool_ptrs_equal_refl d.pod_info_on_mount,
          policies_equal_refl d.fs_group_policy,
          deep_equal_refl d.volume_lifecycle_modes,
          deep_equal_refl d.token_requests,
        )
        refl

  pub typed_needs_update_refl : (t : Typed V) → AreSame t → typed_needs_update deep_equal t ≡ false
  unfolding typed_needs_update role_needs_update
  typed_needs_update_refl (services e d) h = rw h (service_needs_update_refl d)
  typed_needs_update_refl (service_accounts e d) h = rw h (service_account_needs_update_refl d)
  typed_needs_update_refl (cluster_roles e d) h = rw h (cluster_role_needs_update_refl d)
  typed_needs_update_refl (cluster_role_bindings e d) h = rw h ((binding_refl d).0)
  typed_needs_update_refl (roles e d) h = rw (h, slices_equal_refl d) refl
  typed_needs_update_refl (role_bindings e d) h = rw h ((binding_refl d).1)
  typed_needs_update_refl (csi_drivers e d) h = rw h (csi_driver_needs_update_refl d)
  typed_needs_update_refl (validating_webhooks e d) h = rw (h, deep_equal_refl d) refl
  typed_needs_update_refl (security_context_constraints e d) h =
      rw h (security_context_constraints_needs_update_refl d)
  typed_needs_update_refl (cluster_spiffe_ids e d) h = rw h (cluster_spiffe_id_needs_update_refl d)
  typed_needs_update_refl (stateful_sets e d) (h, w) =
      rw h (stateful_set_needs_update_refl deep_equal deep_equal_refl d w)
  typed_needs_update_refl (deployments e d) (h, w) =
      rw h (deployment_needs_update_refl deep_equal deep_equal_refl d w)
  typed_needs_update_refl (daemon_sets e d) (h, w) =
      rw h (daemon_set_needs_update_refl deep_equal deep_equal_refl d w)
  typed_needs_update_refl other h = refl
