-- ===== src/Objects/Kinds.antt =====
-- The kinds of objects of which several operand controllers have one, with the texts that they share.
use ocp_spire_operator.Prelude.{Bool, String, Option, none, some}
use ocp_spire_operator.Kube.{condition_true}
use ocp_spire_operator.Status.{add_condition, reason_ready}
use ocp_spire_operator.Objects.{Action, succeeded, Kind}

abbrev service_account_available : String
service_account_available = "ServiceAccountAvailable"

abbrev pub service_available : String
service_available = "ServiceAvailable"

abbrev pub rbac_available : String
rbac_available = "RBACAvailable"

abbrev pub config_map_available : String
config_map_available = "ConfigMapAvailable"

abbrev pub daemon_set_available : String
daemon_set_available = "DaemonSetAvailable"

abbrev pub scc_available : String
scc_available = "SecurityContextConstraintsAvailable"

-- What the objects' types give: the comparison, `desired.ResourceVersion = existing.ResourceVersion`,
-- and the fields of the kinds that are kept from the existing object.
pub record Fields (O : Type 0) : Type 0 where
  pub resource_needs_update : O → O → Bool
  pub keep_version : O → O → O
  pub keep_service_fields : O → O → O
  pub keep_webhook_fields : O → O → O
  pub keep_scc_fields : O → O → O
  pub keep_csi_driver_fields : O → O → O

-- Add the condition that all resources of a kind are available.
abbrev pub all_available : {W : Type 0} → String → String → Action W
all_available condition_type message m w =
    succeeded (add_condition condition_type reason_ready message condition_true m) w

module _ {O : Type 0} (fields : Fields O) where
  -- The version is kept after the comparison.
  abbrev pub plain : String → String → Option String → Kind O
  plain condition_type label success = record {
    condition_type = condition_type;
    label = label;
    success = success;
    prepare = λ existing desired. desired;
    needs_update = fields.resource_needs_update;
    finish = fields.keep_version;
  }

  -- The kept fields are taken over before the comparison.
  abbrev pub kept : (O → O → O) → String → String → Option String → Kind O
  kept keep condition_type label success = record {
    condition_type = condition_type;
    label = label;
    success = success;
    prepare = keep;
    needs_update = fields.resource_needs_update;
    finish = λ existing desired. desired;
  }

  abbrev pub service_account_kind : Kind O
  service_account_kind =
      plain service_account_available "ServiceAccount"
        (some "All ServiceAccount resources available")

  abbrev pub service_kind : String → Option String → Kind O
  service_kind label success = kept fields.keep_service_fields service_available label success

  abbrev pub rbac_kind : String → Kind O
  rbac_kind label = plain rbac_available label none
