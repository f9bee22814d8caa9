-- ===== src/Oidc/Published.antt =====
-- The status that a reconciliation of the SpireOIDCDiscoveryProvider publishes when it returns an error.
use ocp_spire_operator.Prelude.{true, ◌≡◌, some}
use ocp_spire_operator.Kube.{
  condition_false, MetaCondition, Error, ApiErrors, ConditionsApi, IsConditionsApi,
}
use ocp_spire_operator.Status.{ready, Ranges, IsRanges, create_only_mode}
use ocp_spire_operator.Status.Health.{get_failed}
use ocp_spire_operator.Validation.{configuration_valid, validate_and_update_status}
use ocp_spire_operator.Reconciler.{Ztwim, Clocks}
use ocp_spire_operator.Reconciler.Checks.{
  Surroundings, handle_create_only_mode, checked_proxy, passed, invalid_url,
}
use ocp_spire_operator.Reconciler.Accounted.{
  AlwaysAccounted, IsSound-IsAccounted, ended-IsAccounted, create_only-IsClean, KeepsClean,
  checked-IsClean, invalid_url-IsClean, common-IsClean, proxy-IsClean, passed-IsClean,
}
use ocp_spire_operator.Reconciler.Published.{run-not_ready}
use ocp_spire_operator.Oidc.{
  OidcProvider, Generated, Comparisons, Calls, oidc_provider, after_oidc_proxy, after_oidc_common,
  validate_oidc_configuration, reconcile_oidc_objects, reconcile_oidc, oidc_run,
}
use ocp_spire_operator.Oidc.Sound.{oidc_objects-AlwaysSound}

module _ {W O V : Type 0} (errors : ApiErrors) (api : ConditionsApi) (calls : Calls W O V)
    (s : Surroundings V) (generate : OidcProvider V → Ztwim → Generated O)
    (compare : Comparisons O) where
  configuration-IsClean :
      (oidc : OidcProvider V)
      → KeepsClean (validate_oidc_configuration errors api calls s generate compare oidc)
  unfolding validate_oidc_configuration
  configuration-IsClean oidc m p =
      checked-IsClean
        (validate_and_update_status s.validators "SpireOIDCDiscoveryProvider" oidc.name oidc.common
          m)
        (after_oidc_common errors api calls s generate compare oidc)
        (common-IsClean s.validators "SpireOIDCDiscoveryProvider" oidc.name oidc.common m p)
        (λ m1 p1.
          checked-IsClean (checked_proxy s.environment m1)
            (after_oidc_proxy errors api calls s generate compare oidc)
            (proxy-IsClean s.environment m1 p1)
            (λ m2 p2.
              checked-IsClean (invalid_url s.parse_url oidc.jwt_issuer m2)
                (passed (api.find oidc.conditions configuration_valid))
                (invalid_url-IsClean s.parse_url oidc.jwt_issuer m2 p2)
                (passed-IsClean (api.find oidc.conditions configuration_valid))))

  oidc-AlwaysAccounted :
      (oidc : OidcProvider V) (ztwim : Ztwim)
      → AlwaysAccounted (reconcile_oidc errors api calls s generate compare oidc ztwim)
  unfolding reconcile_oidc
  oidc-AlwaysAccounted oidc ztwim m w c =
      let m1 =
        handle_create_only_mode s.create_only (api.find oidc.conditions create_only_mode) m in
      let v = validate_oidc_configuration errors api calls s generate compare oidc m1 in
      let g = generate oidc ztwim in
      let objects = reconcile_oidc_objects errors api calls s generate compare oidc g in
      ended-IsAccounted v.0 (record { error = v.0; manager = v.1; cluster = w }) objects
        (λ m2 w2 c2.
          IsSound-IsAccounted (objects m2 w2)
            (oidc_objects-AlwaysSound errors api calls s generate compare oidc g m2 w2 c2))
        (configuration-IsClean oidc m1
          (create_only-IsClean s.create_only (api.find oidc.conditions create_only_mode) m c))

  -- Where a read of the ZTWIM resource fails only because it does not exist, a reconciliation of the
  -- SpireOIDCDiscoveryProvider that returns an error publishes Ready as False.
  pub oidc_error-not_ready :
      ((w : W) (e : Error)
        → calls.resource.get_ztwim w ≡ get_failed e
        → errors.is_not_found e ≡ true)
      → IsConditionsApi api
      → (r : Ranges) → IsRanges r
      → (clocks : Clocks) (oidc : OidcProvider V) (w : W) (e : Error)
      → (oidc_run errors api calls s generate compare r clocks oidc w).result.outcome.error ≡ some e
      → (c : MetaCondition) × (api.find
            (oidc_run errors api calls s generate compare r clocks oidc w).finished.conditions
            ready
          ≡ some c)
        × (c.status ≡ condition_false)
  oidc_error-not_ready reads_ztwim laws r ranges clocks =
      run-not_ready errors api r oidc_provider calls.resource clocks
        (reconcile_oidc errors api calls s generate compare) oidc-AlwaysAccounted reads_ztwim laws
        ranges
