-- ===== src/CsiDriver/Preserved.antt =====
-- The fields that a wanted CSIDriver (pkg/controller/spiffe-csi-driver/csi_driver.go) and a wanted
-- SecurityContextConstraints (scc.go there and in pkg/controller/spire-agent) take over from the object in
-- the cluster before the two are compared. `V` stands for the values that are only copied.
use ocp_spire_operator.Prelude.{not, String, Option, none, some, ◌==◌, if◌then◌else◌}

pub record CsiDriverObject (V : Type 0) : Type 0 where
  pub resource_version : String
  pub requires_republish : V
  pub se_linux_mount : V
  pub storage_capacity : V
  pub token_requests : V
  pub attach_required : Option V
  pub pod_info_on_mount : Option V
  pub fs_group_policy : Option V
  pub whole : V

pub record SecurityContextConstraints (V : Type 0) : Type 0 where
  pub resource_version : String
  pub priority : V
  pub user_namespace_level : String
  pub whole : V

-- The wanted value where it is set, the existing one otherwise.
abbrev pub or_existing : {A : Type 0} → Option A → Option A → Option A
or_existing existing none = existing
or_existing existing (some d) = some d

module _ {V : Type 0} where
  unfoldable pub keep_csi_driver_fields : CsiDriverObject V → CsiDriverObject V → CsiDriverObject V
  keep_csi_driver_fields existing desired = record desired {
    resource_version = existing.resource_version;
    requires_republish = existing.requires_republish;
    se_linux_mount = existing.se_linux_mount;
    storage_capacity = existing.storage_capacity;
    token_requests = existing.token_requests;
    attach_required = or_existing existing.attach_required desired.attach_required;
    pod_info_on_mount = or_existing existing.pod_info_on_mount desired.pod_info_on_mount;
    fs_group_policy = or_existing existing.fs_group_policy desired.fs_group_policy;
  }

  unfoldable pub keep_scc_fields :
      SecurityContextConstraints V → SecurityContextConstraints V → SecurityContextConstraints V
  keep_scc_fields existing desired = record desired {
    resource_version = existing.resource_version;
    priority = existing.priority;
    user_namespace_level =
        if not (existing.user_namespace_level == "")
        then existing.user_namespace_level
        else desired.user_namespace_level;
  }
