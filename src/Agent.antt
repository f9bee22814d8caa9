-- ===== src/Agent.antt =====
-- pkg/controller/spire-agent: the controller of the SPIRE agents, in the frame of `Reconciler`. What the
-- wanted objects are is an argument.
pub mod Published
pub mod Contents
pub mod Volumes
use ocp_spire_operator.Prelude.{Bool, false, String, List, Option, none, some}
use ocp_spire_operator.Kube.{MetaCondition, Error, ApiErrors, ConditionsApi}
use ocp_spire_operator.Status.{Manager, Ranges, create_only_mode}
use ocp_spire_operator.Status.Health.{Got, DaemonSet, check_daemon_set_health}
use ocp_spire_operator.Owners.{OwnerReference}
use ocp_spire_operator.Objects.{Attempt, done, Action, succeeded, ◌andthen◌, ObjectClient, ensure}
use ocp_spire_operator.Objects.Kinds.{
  Fields, service_available, rbac_available, config_map_available, daemon_set_available,
  scc_available, all_available, service_account_kind, service_kind, rbac_kind,
}
use ocp_spire_operator.Objects.Apply.{
  Hashed, with_hash, say, Applying, apply_object, apply_generated, hashed_with,
}
use ocp_spire_operator.Objects.Sync.{Syncing, Rest, sync_object}
use ocp_spire_operator.Validation.{CommonConfig, validate_and_update_status}
use ocp_spire_operator.Reconciler.{Ztwim, Resource, ResourceCalls, Clocks, unless_invalid, Run, run}
use ocp_spire_operator.Reconciler.Checks.{
  Surroundings, handle_create_only_mode, checked, checked_proxy,
}

-- The SpireAgent resource, as far as the controller reads it itself.
pub record SpireAgent (V : Type 0) : Type 0 where
  pub name : String
  pub owners : List OwnerReference
  pub conditions : List MetaCondition
  pub common : CommonConfig V

-- What the controller generates from the two resources; the DaemonSet carries the hash of the ConfigMap.
pub record Generated (O : Type 0) : Type 0 where
  pub service_account : O
  pub service : O
  pub cluster_role : O
  pub cluster_role_binding : O
  pub scc : O
  pub config_map : Attempt O
  pub config_hash : String
  pub daemon_set : String → O

pub record Comparisons (O : Type 0) : Type 0 where
  pub fields : Fields O
  pub config_map_differs : O → O → Bool
  pub daemon_set_needs_update : O → O → Bool

pub record Calls (W O V : Type 0) : Type 0 where
  pub resource : ResourceCalls W (SpireAgent V)
  pub objects : ObjectClient W O
  pub get_daemon_set : W → Got DaemonSet

abbrev pub spire_agent : {V : Type 0} → Resource (SpireAgent V)
spire_agent = record {
  kind = "SpireAgent";
  owner_title = "Failed to set owner reference on SpireAgent: ";
  update_title = "failed to update SpireAgent with owner reference: ";
  owners = λ s. s.owners;
  conditions = λ s. s.conditions;
  with_conditions = λ cs s. record s { conditions = cs };
}

abbrev pub agent_scc : {O : Type 0} → Fields O → Syncing O
agent_scc fields = record {
  condition_type = scc_available;
  owner_reason = "SpireAgentSCCGenerationFailed";
  get_reason = "SpireAgentSCCGetFailed";
  get_title = "Failed to get SecurityContextConstraints: ";
  create_reason = "SpireAgentSCCCreationFailed";
  update_reason = "SpireAgentSCCUpdateFailed";
  update_title = "Failed to update SecurityContextConstraints: ";
  prepare = fields.keep_scc_fields;
  needs_update = fields.resource_needs_update;
  finish = λ existing desired. desired;
}

abbrev pub scc_done : {W : Type 0} → Rest W
scc_done = record {
  created = say scc_available "SpireAgentSCCResourceCreated" "Spire Agent SCC resources applied";
  unchanged =
      say scc_available "SpireAgentSCCResourceUpToDate" "Spire Agent SCC resources are up to date";
  updated = say scc_available "SpireAgentSCCResourceUpdated" "Spire Agent SCC resources updated";
}

abbrev pub agent_config_map : {O : Type 0} → (O → O → Bool) → (O → O → O) → Applying O
agent_config_map differs keep_version = record {
  condition_type = config_map_available;
  owner_reason = "SpireAgentConfigMapGenerationFailed";
  create_reason = "SpireAgentConfigMapGenerationFailed";
  create_prefix = some "failed to create ConfigMap: ";
  update_reason = "SpireAgentConfigMapGenerationFailed";
  update_prefix = some "failed to update ConfigMap: ";
  get_reason = some "SpireAgentConfigMapGenerationFailed";
  differs = differs;
  keep_version = keep_version;
}

abbrev pub agent_daemon_set : {O : Type 0} → (O → O → Bool) → (O → O → O) → Applying O
agent_daemon_set needs_update keep_version = record {
  condition_type = daemon_set_available;
  owner_reason = "SpireAgentDaemonSetGenerationFailed";
  create_reason = "SpireAgentDaemonSetCreationFailed";
  create_prefix = some "failed to create DaemonSet: ";
  update_reason = "SpireAgentDaemonSetUpdateFailed";
  update_prefix = some "failed to update DaemonSet: ";
  get_reason = some "SpireAgentDaemonSetGetFailed";
  differs = needs_update;
  keep_version = keep_version;
}

module _ {W O V : Type 0} (errors : ApiErrors) (api : ConditionsApi) (calls : Calls W O V)
    (s : Surroundings V) (generate : SpireAgent V → Ztwim → Generated O)
    (compare : Comparisons O) where
  unfoldable pub reconcile_agent_service_account : O → Action W
  reconcile_agent_service_account =
      ensure errors calls.objects (service_account_kind compare.fields) s.create_only

  unfoldable pub reconcile_agent_service : O → Action W
  reconcile_agent_service desired =
      ensure errors calls.objects (service_kind compare.fields "Service" none) s.create_only desired
      andthen all_available service_available "All Service resources available"

  unfoldable pub reconcile_agent_cluster_role : O → Action W
  reconcile_agent_cluster_role =
      ensure errors calls.objects (rbac_kind compare.fields "ClusterRole") s.create_only

  unfoldable pub reconcile_agent_cluster_role_binding : O → Action W
  reconcile_agent_cluster_role_binding =
      ensure errors calls.objects (rbac_kind compare.fields "ClusterRoleBinding") s.create_only

  unfoldable pub reconcile_agent_rbac : O → O → Action W
  reconcile_agent_rbac role binding =
      reconcile_agent_cluster_role role
      andthen reconcile_agent_cluster_role_binding binding
      andthen all_available rbac_available "All RBAC resources available"

  -- The function does not take the create-only mode: it updates in that mode, too.
  unfoldable pub reconcile_agent_scc : O → Action W
  reconcile_agent_scc = sync_object errors calls.objects false (agent_scc compare.fields) scc_done

  unfoldable pub reconcile_agent_config_map : Attempt O → String → Manager → W → Hashed W
  reconcile_agent_config_map generated hash m w = hashed_with (done hash) (
      apply_generated errors calls.objects s.create_only
        (agent_config_map compare.config_map_differs compare.fields.keep_version) generated
        (say config_map_available "SpireAgentConfigMapResourceCreated"
          "Spire Agent ConfigMap resources applied")
        m w)

  unfoldable pub reconcile_daemon_set : O → Action W
  reconcile_daemon_set desired m w =
      apply_object errors calls.objects s.create_only
        (agent_daemon_set compare.daemon_set_needs_update compare.fields.keep_version) desired
        (λ m' w'.
          succeeded
            (check_daemon_set_health (calls.get_daemon_set w') "spire-agent"
              s.environment.operator_namespace daemon_set_available m')
            w')
        m w

  -- The proxy first, then the shared fields.
  unfoldable pub validate_agent_configuration : SpireAgent V → Manager → Option Error × Manager
  validate_agent_configuration agent m =
      checked (checked_proxy s.environment m)
        (validate_and_update_status s.validators "SpireAgent" agent.name agent.common)

  abbrev pub from_config_map : SpireAgent V → Ztwim → Action W
  from_config_map agent ztwim m w =
      let g = generate agent ztwim in
      with_hash (reconcile_agent_config_map g.config_map g.config_hash m w)
        (λ hash. reconcile_daemon_set (g.daemon_set hash))

  -- The steps from the service account to the DaemonSet.
  unfoldable pub reconcile_agent_objects : SpireAgent V → Ztwim → Action W
  reconcile_agent_objects agent ztwim =
      let g = generate agent ztwim in
      reconcile_agent_service_account g.service_account
      andthen reconcile_agent_service g.service
      andthen reconcile_agent_rbac g.cluster_role g.cluster_role_binding
      andthen reconcile_agent_scc g.scc
      andthen from_config_map agent ztwim

  -- From the create-only mode on, the owner being settled.
  unfoldable pub reconcile_agent : SpireAgent V → Ztwim → Action W
  reconcile_agent agent ztwim m w =
      let m1 =
        handle_create_only_mode s.create_only (api.find agent.conditions create_only_mode) m in
      let (e, m2) = validate_agent_configuration agent m1 in
      unless_invalid (record { error = e; manager = m2; cluster = w })
        (reconcile_agent_objects agent ztwim)

  -- A reconciliation of an agent that was read.
  abbrev pub agent_run : Ranges → Clocks → SpireAgent V → W → Run W (SpireAgent V)
  agent_run r clocks = run errors api r spire_agent calls.resource clocks reconcile_agent
