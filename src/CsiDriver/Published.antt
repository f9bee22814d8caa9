-- ===== src/CsiDriver/Published.antt =====
-- The status that a reconciliation of the SpiffeCSIDriver publishes when it returns an error.
use ocp_spire_operator.Prelude.{true, false, ◌≡◌, refl, inl, some}
use ocp_spire_operator.Kube.{
  condition_false, MetaCondition, Error, ApiErrors, ConditionsApi, IsConditionsApi,
}
use ocp_spire_operator.Status.{ready, Ranges, IsRanges, create_only_mode}
use ocp_spire_operator.Status.Health.{get_failed}
use ocp_spire_operator.Objects.Kinds.{
  Fields, scc_available, daemon_set_available, service_account_kind,
}
use ocp_spire_operator.Objects.Sound.{
  AlwaysSound, said-IsSound, andthen-AlwaysSound, ensure-AlwaysSound,
}
use ocp_spire_operator.Objects.Sound.Steps.{apply_object-IsSound, sync_object-AlwaysSound}
use ocp_spire_operator.Objects.Sound.Health.{daemon_set_health-IsClean}
use ocp_spire_operator.Validation.{validate_and_update_status}
use ocp_spire_operator.Reconciler.{Ztwim, Clocks}
use ocp_spire_operator.Reconciler.Checks.{Surroundings, handle_create_only_mode}
use ocp_spire_operator.Reconciler.Accounted.{
  AlwaysAccounted, IsSound-IsAccounted, ended-IsAccounted, create_only-IsClean, common-IsClean,
}
use ocp_spire_operator.Reconciler.Published.{run-not_ready}
use ocp_spire_operator.CsiDriver.{
  SpiffeCsiDriver, Generated, Calls, spiffe_csi_driver, csi_driver_kind, csi_scc, csi_scc_done,
  csi_daemon_set, reconcile_csi_service_account, reconcile_csi_driver_object, reconcile_csi_scc,
  reconcile_csi_daemon_set, reconcile_csi_objects, reconcile_csi_driver, csi_driver_run,
}

module _ {W O V : Type 0} (errors : ApiErrors) (api : ConditionsApi) (calls : Calls W O V)
    (s : Surroundings V) (generate : SpiffeCsiDriver V → Generated O) (fields : Fields O) where
  service_account-AlwaysSound :
      (d : O) → AlwaysSound (reconcile_csi_service_account errors api calls s generate fields d)
  unfolding reconcile_csi_service_account
  service_account-AlwaysSound =
      ensure-AlwaysSound errors calls.objects (service_account_kind fields) refl s.create_only

  csi_driver-AlwaysSound :
      (d : O) → AlwaysSound (reconcile_csi_driver_object errors api calls s generate fields d)
  unfolding reconcile_csi_driver_object
  csi_driver-AlwaysSound =
      ensure-AlwaysSound errors calls.objects (csi_driver_kind fields) refl s.create_only

  scc-AlwaysSound : (d : O) → AlwaysSound (reconcile_csi_scc errors api calls s generate fields d)
  unfolding reconcile_csi_scc
  scc-AlwaysSound =
      sync_object-AlwaysSound errors calls.objects false (csi_scc fields) csi_scc_done
        (refl, refl, refl, refl, refl) (λ m w. said-IsSound scc_available _ _ _ m w refl)
        (λ m w. said-IsSound scc_available _ _ _ m w refl)
        (λ m w. said-IsSound scc_available _ _ _ m w refl)

  daemon_set-AlwaysSound :
      (d : O) → AlwaysSound (reconcile_csi_daemon_set errors api calls s generate fields d)
  unfolding reconcile_csi_daemon_set
  daemon_set-AlwaysSound d m w =
      apply_object-IsSound errors calls.objects s.create_only (csi_daemon_set fields)
        (refl, refl, refl, refl) d _ m w (λ d' q. refl)
        (λ m' w' c. (
          daemon_set_health-IsClean (calls.get_daemon_set w') "spire-spiffe-csi-driver" _
              daemon_set_available m' refl c,
          inl refl,
        ))

  objects-AlwaysSound :
      (driver : SpiffeCsiDriver V)
      → AlwaysSound (reconcile_csi_objects errors api calls s generate fields driver)
  unfolding reconcile_csi_objects
  objects-AlwaysSound driver =
      let g = generate driver in
      andthen-AlwaysSound _ _ (service_account-AlwaysSound g.service_account) (
        andthen-AlwaysSound _ _ (csi_driver-AlwaysSound g.csi_driver)
          (andthen-AlwaysSound _ _ (scc-AlwaysSound g.scc) (daemon_set-AlwaysSound g.daemon_set)))

  driver-AlwaysAccounted :
      (driver : SpiffeCsiDriver V) (ztwim : Ztwim)
      → AlwaysAccounted (reconcile_csi_driver errors api calls s generate fields driver ztwim)
  unfolding reconcile_csi_driver
  driver-AlwaysAccounted driver ztwim m w c =
      let m1 =
        handle_create_only_mode s.create_only (api.find driver.conditions create_only_mode) m in
      let v =
        validate_and_update_status s.validators "SpiffeCSIDriver" driver.name driver.common m1 in
      let objects = reconcile_csi_objects errors api calls s generate fields driver in
      ended-IsAccounted v.0 (record { error = v.0; manager = v.1; cluster = w }) objects
        (λ m2 w2 c2. IsSound-IsAccounted (objects m2 w2) (objects-AlwaysSound driver m2 w2 c2))
        (common-IsClean s.validators "SpiffeCSIDriver" driver.name driver.common m1
          (create_only-IsClean s.create_only (api.find driver.conditions create_only_mode) m c))

  -- Where a read of the ZTWIM resource fails only because it does not exist, a reconciliation of the
  -- SpiffeCSIDriver that returns an error publishes Ready as False.
  pub csi_driver_error-not_ready :
      ((w : W) (e : Error)
        → calls.resource.get_ztwim w ≡ get_failed e
        → errors.is_not_found e ≡ true)
      → IsConditionsApi api
      → (r : Ranges) → IsRanges r
      → (clocks : Clocks) (driver : SpiffeCsiDriver V) (w : W) (e : Error)
      → (csi_driver_run errors api calls s generate fields r clocks driver w).result.outcome.error
        ≡ some e
      → (c : MetaCondition) × (api.find
            (csi_driver_run errors api calls s generate fields r clocks driver
              w).finished.conditions
            ready
          ≡ some c)
        × (c.status ≡ condition_false)
  csi_driver_error-not_ready reads_ztwim laws r ranges clocks =
      run-not_ready errors api r spiffe_csi_driver calls.resource clocks
        (reconcile_csi_driver errors api calls s generate fields) driver-AlwaysAccounted reads_ztwim
        laws ranges
