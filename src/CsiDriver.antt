-- ===== src/CsiDriver.antt =====
-- pkg/controller/spiffe-csi-driver: the controller of the SPIFFE CSI driver, in the frame of
-- `Reconciler`. What the wanted objects are is an argument.
pub mod Preserved
pub mod Published
pub mod Pods
use ocp_spire_operator.Prelude.{Bool, false, String, List, some}
use ocp_spire_operator.Kube.{MetaCondition, ApiErrors, ConditionsApi}
use ocp_spire_operator.Status.{Ranges, create_only_mode}
use ocp_spire_operator.Status.Health.{Got, DaemonSet, check_daemon_set_health}
use ocp_spire_operator.Owners.{OwnerReference}
use ocp_spire_operator.Objects.{Action, succeeded, ◌andthen◌, ObjectClient, Kind, ensure}
use ocp_spire_operator.Objects.Kinds.{
  Fields, daemon_set_available, scc_available, kept, service_account_kind,
}
use ocp_spire_operator.Objects.Apply.{say, Applying, apply_object}
use ocp_spire_operator.Objects.Sync.{Syncing, Rest, sync_object}
use ocp_spire_operator.Validation.{CommonConfig, validate_and_update_status}
use ocp_spire_operator.Reconciler.{Ztwim, Resource, ResourceCalls, Clocks, unless_invalid, Run, run}
use ocp_spire_operator.Reconciler.Checks.{Surroundings, handle_create_only_mode}

abbrev csi_driver_available : String
csi_driver_available = "CSIDriverAvailable"

-- The SpiffeCSIDriver resource, as far as the controller reads it itself.
pub record SpiffeCsiDriver (V : Type 0) : Type 0 where
  pub name : String
  pub owners : List OwnerReference
  pub conditions : List MetaCondition
  pub common : CommonConfig V

-- What the controller generates from the resource.
pub record Generated (O : Type 0) : Type 0 where
  pub service_account : O
  pub csi_driver : O
  pub scc : O
  pub daemon_set : O

pub record Calls (W O V : Type 0) : Type 0 where
  pub resource : ResourceCalls W (SpiffeCsiDriver V)
  pub objects : ObjectClient W O
  pub get_daemon_set : W → Got DaemonSet

abbrev pub spiffe_csi_driver : {V : Type 0} → Resource (SpiffeCsiDriver V)
spiffe_csi_driver = record {
  kind = "SpiffeCSIDriver";
  owner_title = "Failed to set owner reference on SpiffeCSIDriver: ";
  update_title = "Failed to update SpiffeCSIDriver with owner reference: ";
  owners = λ s. s.owners;
  conditions = λ s. s.conditions;
  with_conditions = λ cs s. record s { conditions = cs };
}

abbrev pub csi_driver_kind : {O : Type 0} → Fields O → Kind O
csi_driver_kind fields =
    kept fields fields.keep_csi_driver_fields csi_driver_available "CSIDriver"
      (some "All CSIDriver resources available")

abbrev pub csi_scc : {O : Type 0} → Fields O → Syncing O
csi_scc fields = record {
  condition_type = scc_available;
  owner_reason = "SpiffeCSISCCGenerationFailed";
  get_reason = "SpiffeCSISCCGetFailed";
  get_title = "Failed to get SecurityContextConstraints: ";
  create_reason = "SpiffeCSISCCCreationFailed";
  update_reason = "SpiffeCSISCCUpdateFailed";
  update_title = "Failed to update SecurityContextConstraints: ";
  prepare = fields.keep_scc_fields;
  needs_update = fields.resource_needs_update;
  finish = λ existing desired. desired;
}

abbrev pub csi_scc_done : {W : Type 0} → Rest W
csi_scc_done = record {
  created = say scc_available "SpiffeCSISCCResourceCreated" "SpiffeCSISCC resource created";
  unchanged =
      say scc_available "SpiffeCSISCCResourceUpToDate" "SpiffeCSISCC resource is up to date";
  updated = say scc_available "SpiffeCSISCCResourceUpdated" "SpiffeCSISCC resource updated";
}

-- The comparison of the DaemonSet is that of every object.
abbrev pub csi_daemon_set : {O : Type 0} → Fields O → Applying O
csi_daemon_set fields = record {
  condition_type = daemon_set_available;
  owner_reason = "SpiffeCSIDaemonSetGenerationFailed";
  create_reason = "SpiffeCSIDaemonSetCreationFailed";
  create_prefix = some "failed to create DaemonSet: ";
  update_reason = "SpiffeCSIDaemonSetUpdateFailed";
  update_prefix = some "failed to update DaemonSet: ";
  get_reason = some "SpiffeCSIDaemonSetGetFailed";
  differs = fields.resource_needs_update;
  keep_version = fields.keep_version;
}

module _ {W O V : Type 0} (errors : ApiErrors) (api : ConditionsApi) (calls : Calls W O V)
    (s : Surroundings V) (generate : SpiffeCsiDriver V → Generated O) (fields : Fields O) where
  unfoldable pub reconcile_csi_service_account : O → Action W
  reconcile_csi_service_account =
      ensure errors calls.objects (service_account_kind fields) s.create_only

  unfoldable pub reconcile_csi_driver_object : O → Action W
  reconcile_csi_driver_object = ensure errors calls.objects (csi_driver_kind fields) s.create_only

  -- The function does not take the create-only mode: it updates in that mode, too.
  unfoldable pub reconcile_csi_scc : O → Action W
  reconcile_csi_scc = sync_object errors calls.objects false (csi_scc fields) csi_scc_done

  unfoldable pub reconcile_csi_daemon_set : O → Action W
  reconcile_csi_daemon_set desired m w =
      apply_object errors calls.objects s.create_only (csi_daemon_set fields) desired
        (λ m' w'.
          succeeded
            (check_daemon_set_health (calls.get_daemon_set w') "spire-spiffe-csi-driver"
              s.environment.operator_namespace daemon_set_available m')
            w')
        m w

  -- The steps from the service account to the DaemonSet.
  unfoldable pub reconcile_csi_objects : SpiffeCsiDriver V → Action W
  reconcile_csi_objects driver =
      let g = generate driver in
      reconcile_csi_service_account g.service_account
      andthen reconcile_csi_driver_object g.csi_driver
      andthen reconcile_csi_scc g.scc
      andthen reconcile_csi_daemon_set g.daemon_set

  -- From the create-only mode on, the owner being settled. Only the shared fields are validated.
  unfoldable pub reconcile_csi_driver : SpiffeCsiDriver V → Ztwim → Action W
  reconcile_csi_driver driver ztwim m w =
      let m1 =
        handle_create_only_mode s.create_only (api.find driver.conditions create_only_mode) m in
      let (e, m2) =
        validate_and_update_status s.validators "SpiffeCSIDriver" driver.name driver.common m1 in
      unless_invalid (record { error = e; manager = m2; cluster = w })
        (reconcile_csi_objects driver)

  -- A reconciliation of a driver that was read.
  abbrev pub csi_driver_run : Ranges → Clocks → SpiffeCsiDriver V → W → Run W (SpiffeCsiDriver V)
  csi_driver_run r clocks =
      run errors api r spiffe_csi_driver calls.resource clocks reconcile_csi_driver
