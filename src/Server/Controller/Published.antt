-- ===== src/Server/Controller/Published.antt =====
-- The status that a reconciliation of the SpireServer publishes when it returns an error.
use ocp_spire_operator.Prelude.{true, ◌≡◌, refl, String, List, [], ◌∷◌, Option, none, some}
use ocp_spire_operator.Prelude.Int.{ℤ}
use ocp_spire_operator.Kube.{
  condition_false, MetaCondition, Error, ApiErrors, ConditionsApi, IsConditionsApi,
}
use ocp_spire_operator.Status.{Manager, ready, Ranges, IsRanges, create_only_mode}
use ocp_spire_operator.Status.Health.{get_failed}
use ocp_spire_operator.Objects.{done}
use ocp_spire_operator.Objects.Sound.{
  IsClean, AlwaysSound, add_condition-IsClean, andthen-AlwaysSound,
}
use ocp_spire_operator.Objects.Sound.Steps.{with_hash-IsSound}
use ocp_spire_operator.Objects.Routing.{route_available}
use ocp_spire_operator.Validation.{configuration_valid, validate_and_update_status}
use ocp_spire_operator.Reconciler.{Ztwim, Clocks, unless_invalid}
use ocp_spire_operator.Reconciler.Checks.{
  Surroundings, handle_create_only_mode, checked_proxy, passed, invalid_url,
}
use ocp_spire_operator.Reconciler.Accounted.{
  AlwaysAccounted, IsSound-IsAccounted, ended-IsAccounted, create_only-IsClean, KeepsClean,
  checked-IsClean, invalid-IsClean, invalid_url-IsClean, common-IsClean, proxy-IsClean,
  passed-IsClean,
}
use ocp_spire_operator.Reconciler.Published.{run-not_ready}
use ocp_spire_operator.Server.Ttl.{
  Lifetimes, TtlValidationResult, validate_ttl_durations_with_warnings,
}
use ocp_spire_operator.Server.Federation.{validate_federation_config}
use ocp_spire_operator.Server.Checks.{
  SpireServer, ttl_configuration_valid, invalid_federation, after_url, after_proxy, after_common,
  validate_configuration, report_lifetimes, handle_ttl_validation,
}
use ocp_spire_operator.Server.Controller.{
  Generated, Comparisons, Calls, spire_server, server_map, manager_map, last_steps,
  from_manager_map, from_server_map, reconcile_objects, reconcile_configured, server_run,
}
use ocp_spire_operator.Server.Controller.Sound.{
  service_account-AlwaysSound, service-AlwaysSound, rbac-AlwaysSound, webhook-AlwaysSound,
  server_config_map-IsSound, manager_config_map-IsSound, bundle-AlwaysSound,
  stateful_set-AlwaysSound, route-AlwaysSound,
}

lifetimes-IsClean :
    {W : Type 0} (warn : String → W → W) (r : TtlValidationResult) (e : Option Error)
    (warnings : List String) (m : Manager) (w : W)
    → IsClean m
    → IsClean (report_lifetimes warn r e warnings m w).manager
lifetimes-IsClean warn r (some e) warnings m w =
    add_condition-IsClean ttl_configuration_valid _ _ _ m refl
lifetimes-IsClean warn r none [] m w = add_condition-IsClean ttl_configuration_valid _ _ _ m refl
lifetimes-IsClean warn r none (x ∷ xs) m w =
    add_condition-IsClean ttl_configuration_valid _ _ _ m refl

ttl-IsClean :
    {W : Type 0} (warn : String → W → W) (print : ℤ → String) (l : Lifetimes) (m : Manager) (w : W)
    → IsClean m
    → IsClean (handle_ttl_validation warn print l m w).manager
unfolding handle_ttl_validation
ttl-IsClean warn print l m w =
    let r = validate_ttl_durations_with_warnings print l in
    lifetimes-IsClean warn r r.error r.warnings m w

configuration-IsClean :
    {V : Type 0} (api : ConditionsApi) (s : Surroundings V) (server : SpireServer V) (ztwim : Ztwim)
    → KeepsClean (validate_configuration api s server ztwim)
unfolding validate_configuration
configuration-IsClean api s server ztwim m p =
    checked-IsClean
      (validate_and_update_status s.validators "SpireServer" server.name server.common m)
      (after_common api s server ztwim)
      (common-IsClean s.validators "SpireServer" server.name server.common m p)
      (λ m1 p1.
        checked-IsClean (checked_proxy s.environment m1) (after_proxy api s server ztwim)
          (proxy-IsClean s.environment m1 p1)
          (λ m2 p2.
            checked-IsClean (invalid_url s.parse_url server.jwt_issuer m2)
              (after_url api s server ztwim)
              (invalid_url-IsClean s.parse_url server.jwt_issuer m2 p2)
              (λ m3 p3.
                checked-IsClean (invalid_federation api s server ztwim m3)
                  (passed (api.find server.conditions configuration_valid))
                  (invalid-IsClean "InvalidFederationConfiguration"
                    "Federation configuration validation failed: "
                    (validate_federation_config server.federation ztwim.trust_domain) m3 p3)
                  (passed-IsClean (api.find server.conditions configuration_valid)))))

module _ {W O V : Type 0} (errors : ApiErrors) (api : ConditionsApi) (calls : Calls W O V)
    (s : Surroundings V) (generate : SpireServer V → Ztwim → Generated O) (compare : Comparisons O)
    (hashes : (server : SpireServer V) (ztwim : Ztwim)
      → (h : String) × ((generate server ztwim).server_config_hash ≡ done h))
    (reads : (server : SpireServer V) (ztwim : Ztwim) (d d' : O) (w : W) (e : Error)
      → (generate server ztwim).manager_config_map ≡ done d
      → calls.objects.set_controller_reference d ≡ done d'
      → calls.objects.get d' w ≡ get_failed e
      → errors.is_not_found e ≡ true) where
  last_steps-AlwaysSound :
      (server : SpireServer V) (ztwim : Ztwim) (server_hash manager_hash : String)
      → AlwaysSound
          (last_steps errors api calls s generate compare server ztwim server_hash manager_hash)
  last_steps-AlwaysSound server ztwim server_hash manager_hash =
      let g = generate server ztwim in
      let keep = compare.fields.keep_version in
      andthen-AlwaysSound _ _
        (bundle-AlwaysSound errors calls.objects s.create_only g.bundle_config_map)
        (andthen-AlwaysSound _ _
          (stateful_set-AlwaysSound errors calls.objects s.create_only
            compare.stateful_set_needs_update keep (g.stateful_set server_hash manager_hash)
            calls.get_stateful_set s.environment.operator_namespace)
          (route-AlwaysSound errors calls.objects s.create_only compare.route_conflict keep
            (api.find server.conditions route_available) server.federation g.route))

  from_manager_map-AlwaysSound :
      (server : SpireServer V) (ztwim : Ztwim) (server_hash : String)
      → AlwaysSound (from_manager_map errors api calls s generate compare server ztwim server_hash)
  from_manager_map-AlwaysSound server ztwim server_hash m w c =
      let g = generate server ztwim in
      with_hash-IsSound (manager_map errors api calls s generate compare server ztwim m w)
        (last_steps errors api calls s generate compare server ztwim server_hash)
        (manager_config_map-IsSound errors calls.objects s.create_only
          compare.manager_config_differs compare.fields.keep_version g.manager_config_map
          g.manager_config_hash m w (λ d d' e. reads server ztwim d d' w e) c)
        (last_steps-AlwaysSound server ztwim server_hash)

  from_server_map-AlwaysSound :
      (server : SpireServer V) (ztwim : Ztwim)
      → AlwaysSound (from_server_map errors api calls s generate compare server ztwim)
  from_server_map-AlwaysSound server ztwim m w c =
      let g = generate server ztwim in
      with_hash-IsSound (server_map errors api calls s generate compare server ztwim m w)
        (from_manager_map errors api calls s generate compare server ztwim)
        (server_config_map-IsSound errors calls.objects s.create_only compare.server_config_differs
          compare.fields.keep_version g.server_config_map g.server_config_hash m w
          (hashes server ztwim) c)
        (from_manager_map-AlwaysSound server ztwim)

  objects-AlwaysSound :
      (server : SpireServer V) (ztwim : Ztwim)
      → AlwaysSound (reconcile_objects errors api calls s generate compare server ztwim)
  unfolding reconcile_objects
  objects-AlwaysSound server ztwim =
      let g = generate server ztwim in
      andthen-AlwaysSound _ _
        (service_account-AlwaysSound errors calls.objects s.create_only compare.fields g.wanted)
        (andthen-AlwaysSound _ _
          (service-AlwaysSound errors calls.objects s.create_only compare.fields g.wanted)
          (andthen-AlwaysSound _ _
            (rbac-AlwaysSound errors calls.objects s.create_only compare.fields g.wanted
              server.federation)
            (andthen-AlwaysSound _ _
              (webhook-AlwaysSound errors calls.objects s.create_only compare.fields g.wanted)
              (from_server_map-AlwaysSound server ztwim))))

  configured-AlwaysAccounted :
      (server : SpireServer V) (ztwim : Ztwim)
      → AlwaysAccounted (reconcile_configured errors api calls s generate compare server ztwim)
  unfolding reconcile_configured
  configured-AlwaysAccounted server ztwim m w c =
      let m1 =
        handle_create_only_mode s.create_only (api.find server.conditions create_only_mode) m in
      let v = validate_configuration api s server ztwim m1 in
      ended-IsAccounted v.0 (record { error = v.0; manager = v.1; cluster = w })
        (λ m3 w3.
          unless_invalid
            (handle_ttl_validation calls.record_warning calls.print_duration server.lifetimes m3 w3)
            (reconcile_objects errors api calls s generate compare server ztwim))
        (λ m3 w3 c3.
          let o =
            handle_ttl_validation calls.record_warning calls.print_duration server.lifetimes m3
              w3 in
          ended-IsAccounted o.error o
            (reconcile_objects errors api calls s generate compare server ztwim)
            (λ m4 w4 c4.
              IsSound-IsAccounted
                (reconcile_objects errors api calls s generate compare server ztwim m4 w4)
                (objects-AlwaysSound server ztwim m4 w4 c4))
            (ttl-IsClean calls.record_warning calls.print_duration server.lifetimes m3 w3 c3))
        (configuration-IsClean api s server ztwim m1
          (create_only-IsClean s.create_only (api.find server.conditions create_only_mode) m c))

  -- Where the configuration can be marshalled, and a read of the ZTWIM resource or of the controller
  -- manager's ConfigMap fails only because it does not exist, a reconciliation that returns an error
  -- publishes Ready as False.
  pub error-not_ready :
      ((w : W) (e : Error)
        → calls.resource.get_ztwim w ≡ get_failed e
        → errors.is_not_found e ≡ true)
      → IsConditionsApi api
      → (r : Ranges) → IsRanges r
      → (clocks : Clocks) (server : SpireServer V) (w : W) (e : Error)
      → (server_run errors api calls s generate compare r clocks server w).result.outcome.error
        ≡ some e
      → (c : MetaCondition) × (api.find
            (server_run errors api calls s generate compare r clocks server w).finished.conditions
            ready
          ≡ some c)
        × (c.status ≡ condition_false)
  error-not_ready reads_ztwim laws r ranges clocks =
      run-not_ready errors api r spire_server calls.resource clocks
        (reconcile_configured errors api calls s generate compare) configured-AlwaysAccounted
        reads_ztwim laws ranges
