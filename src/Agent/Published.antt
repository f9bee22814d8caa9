-- ===== src/Agent/Published.antt =====
-- The status that a reconciliation of the SpireAgent publishes when it returns an error.
use ocp_spire_operator.Prelude.{true, false, ◌≡◌, refl, inl, String, none, some}
use ocp_spire_operator.Kube.{
  condition_false, MetaCondition, Error, ApiErrors, ConditionsApi, IsConditionsApi,
}
use ocp_spire_operator.Status.{Manager, ready, Ranges, IsRanges, create_only_mode}
use ocp_spire_operator.Status.Health.{get_failed}
use ocp_spire_operator.Objects.{Attempt}
use ocp_spire_operator.Objects.Kinds.{
  service_available, rbac_available, config_map_available, scc_available, daemon_set_available,
  service_account_kind, service_kind, rbac_kind,
}
use ocp_spire_operator.Objects.Sound.{
  IsClean, IsSound, AlwaysSound, said-IsSound, andthen-AlwaysSound, ensure-AlwaysSound,
}
use ocp_spire_operator.Objects.Sound.Steps.{
  with_hash-IsSound, apply_object-IsSound, apply_generated-IsSound, sync_object-AlwaysSound,
}
use ocp_spire_operator.Objects.Sound.Health.{daemon_set_health-IsClean}
use ocp_spire_operator.Validation.{validate_and_update_status}
use ocp_spire_operator.Reconciler.{Ztwim, Clocks}
use ocp_spire_operator.Reconciler.Checks.{Surroundings, handle_create_only_mode, checked_proxy}
use ocp_spire_operator.Reconciler.Accounted.{
  AlwaysAccounted, IsSound-IsAccounted, ended-IsAccounted, create_only-IsClean, KeepsClean,
  checked-IsClean, common-IsClean, proxy-IsClean,
}
use ocp_spire_operator.Reconciler.Published.{run-not_ready}
use ocp_spire_operator.Agent.{
  SpireAgent, Generated, Comparisons, Calls, spire_agent, agent_scc, scc_done, agent_config_map,
  agent_daemon_set, reconcile_agent_service_account, reconcile_agent_service,
  reconcile_agent_cluster_role, reconcile_agent_cluster_role_binding, reconcile_agent_rbac,
  reconcile_agent_scc, reconcile_agent_config_map, reconcile_daemon_set,
  validate_agent_configuration, from_config_map, reconcile_agent_objects, reconcile_agent,
  agent_run,
}

module _ {W O V : Type 0} (errors : ApiErrors) (api : ConditionsApi) (calls : Calls W O V)
    (s : Surroundings V) (generate : SpireAgent V → Ztwim → Generated O)
    (compare : Comparisons O) where
  service_account-AlwaysSound :
      (d : O) → AlwaysSound (reconcile_agent_service_account errors api calls s generate compare d)
  unfolding reconcile_agent_service_account
  service_account-AlwaysSound =
      ensure-AlwaysSound errors calls.objects (service_account_kind compare.fields) refl
        s.create_only

  service-AlwaysSound :
      (d : O) → AlwaysSound (reconcile_agent_service errors api calls s generate compare d)
  unfolding reconcile_agent_service
  service-AlwaysSound d =
      andthen-AlwaysSound _ _
        (ensure-AlwaysSound errors calls.objects (service_kind compare.fields "Service" none) refl
          s.create_only d)
        (λ m w. said-IsSound service_available _ _ _ m w refl)

  rbac-AlwaysSound :
      (d d' : O) → AlwaysSound (reconcile_agent_rbac errors api calls s generate compare d d')
  unfolding reconcile_agent_rbac reconcile_agent_cluster_role reconcile_agent_cluster_role_binding
  rbac-AlwaysSound d d' =
      andthen-AlwaysSound _ _
        (ensure-AlwaysSound errors calls.objects (rbac_kind compare.fields "ClusterRole") refl
          s.create_only d)
        (andthen-AlwaysSound _ _
          (ensure-AlwaysSound errors calls.objects (rbac_kind compare.fields "ClusterRoleBinding")
            refl s.create_only d')
          (λ m w. said-IsSound rbac_available _ _ _ m w refl))

  scc-AlwaysSound :
      (d : O) → AlwaysSound (reconcile_agent_scc errors api calls s generate compare d)
  unfolding reconcile_agent_scc
  scc-AlwaysSound =
      sync_object-AlwaysSound errors calls.objects false (agent_scc compare.fields) scc_done
        (refl, refl, refl, refl, refl) (λ m w. said-IsSound scc_available _ _ _ m w refl)
        (λ m w. said-IsSound scc_available _ _ _ m w refl)
        (λ m w. said-IsSound scc_available _ _ _ m w refl)

  config_map-IsSound :
      (g : Attempt O) (hash : String) (m : Manager) (w : W)
      → IsClean m
      → IsSound (reconcile_agent_config_map errors api calls s generate compare g hash m w).outcome
  unfolding reconcile_agent_config_map
  config_map-IsSound g hash m w =
      apply_generated-IsSound errors calls.objects s.create_only
        (agent_config_map compare.config_map_differs compare.fields.keep_version)
        (refl, refl, refl, refl) g _ m w (λ d d' p q. refl)
        (λ m' w'. said-IsSound config_map_available _ _ _ m' w' refl)

  daemon_set-AlwaysSound :
      (d : O) → AlwaysSound (reconcile_daemon_set errors api calls s generate compare d)
  unfolding reconcile_daemon_set
  daemon_set-AlwaysSound d m w =
      apply_object-IsSound errors calls.objects s.create_only
        (agent_daemon_set compare.daemon_set_needs_update compare.fields.keep_version)
        (refl, refl, refl, refl) d _ m w (λ d' q. refl)
        (λ m' w' c. (
          daemon_set_health-IsClean (calls.get_daemon_set w') "spire-agent" _ daemon_set_available
              m' refl c,
          inl refl,
        ))

  from_config_map-AlwaysSound :
      (agent : SpireAgent V) (ztwim : Ztwim)
      → AlwaysSound (from_config_map errors api calls s generate compare agent ztwim)
  from_config_map-AlwaysSound agent ztwim m w c =
      let g = generate agent ztwim in
      with_hash-IsSound
        (reconcile_agent_config_map errors api calls s generate compare g.config_map g.config_hash m
          w)
        (λ hash. reconcile_daemon_set errors api calls s generate compare (g.daemon_set hash))
        (config_map-IsSound g.config_map g.config_hash m w c)
        (λ hash. daemon_set-AlwaysSound (g.daemon_set hash))

  objects-AlwaysSound :
      (agent : SpireAgent V) (ztwim : Ztwim)
      → AlwaysSound (reconcile_agent_objects errors api calls s generate compare agent ztwim)
  unfolding reconcile_agent_objects
  objects-AlwaysSound agent ztwim =
      let g = generate agent ztwim in
      andthen-AlwaysSound _ _ (service_account-AlwaysSound g.service_account) (
        andthen-AlwaysSound _ _ (service-AlwaysSound g.service) (
          andthen-AlwaysSound _ _ (rbac-AlwaysSound g.cluster_role g.cluster_role_binding) (
            andthen-AlwaysSound _ _ (scc-AlwaysSound g.scc)
              (from_config_map-AlwaysSound agent ztwim))))

  configuration-IsClean :
      (agent : SpireAgent V)
      → KeepsClean (validate_agent_configuration errors api calls s generate compare agent)
  unfolding validate_agent_configuration
  configuration-IsClean agent m p =
      checked-IsClean (checked_proxy s.environment m)
        (validate_and_update_status s.validators "SpireAgent" agent.name agent.common)
        (proxy-IsClean s.environment m p)
        (common-IsClean s.validators "SpireAgent" agent.name agent.common)

  agent-AlwaysAccounted :
      (agent : SpireAgent V) (ztwim : Ztwim)
      → AlwaysAccounted (reconcile_agent errors api calls s generate compare agent ztwim)
  unfolding reconcile_agent
  agent-AlwaysAccounted agent ztwim m w c =
      let m1 =
        handle_create_only_mode s.create_only (api.find agent.conditions create_only_mode) m in
      let v = validate_agent_configuration errors api calls s generate compare agent m1 in
      let objects = reconcile_agent_objects errors api calls s generate compare agent ztwim in
      ended-IsAccounted v.0 (record { error = v.0; manager = v.1; cluster = w }) objects
        (λ m2 w2 c2. IsSound-IsAccounted (objects m2 w2) (objects-AlwaysSound agent ztwim m2 w2 c2))
        (configuration-IsClean agent m1
          (create_only-IsClean s.create_only (api.find agent.conditions create_only_mode) m c))

  -- Where a read of the ZTWIM resource fails only because it does not exist, a reconciliation of the
  -- SpireAgent that returns an error publishes Ready as False.
  pub agent_error-not_ready :
      ((w : W) (e : Error)
        → calls.resource.get_ztwim w ≡ get_failed e
        → errors.is_not_found e ≡ true)
      → IsConditionsApi api
      → (r : Ranges) → IsRanges r
      → (clocks : Clocks) (agent : SpireAgent V) (w : W) (e : Error)
      → (agent_run errors api calls s generate compare r clocks agent w).result.outcome.error
        ≡ some e
      → (c : MetaCondition) × (api.find
            (agent_run errors api calls s generate compare r clocks agent w).finished.conditions
            ready
          ≡ some c)
        × (c.status ≡ condition_false)
  agent_error-not_ready reads_ztwim laws r ranges clocks =
      run-not_ready errors api r spire_agent calls.resource clocks
        (reconcile_agent errors api calls s generate compare) agent-AlwaysAccounted reads_ztwim laws
        ranges
