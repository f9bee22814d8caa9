-- ===== src/Objects/Sync.antt =====
-- The third form of a step on one object, for the security context constraints of
-- pkg/controller/spire-agent/scc.go and spiffe-csi-driver/scc.go and the ClusterSPIFFEIDs of
-- spire-oidc-discovery-provider/clusterspiffeid.go: what follows depends on what was done.
use ocp_spire_operator.Prelude.{Bool, not, String, Option, none, some, if◌then◌else◌}
use ocp_spire_operator.Kube.{Error, error_text, ApiErrors}
use ocp_spire_operator.Status.{Manager}
use ocp_spire_operator.Status.Health.{Got, got, get_failed}
use ocp_spire_operator.Objects.{Attempt, done, failed, Outcome, Action, fails, ObjectClient}
use Prim.Native.String.{◌++◌}

-- The type and the reasons of the conditions, the titles before the error's text where there are any,
-- and what the wanted object takes over from the existing one before and after the comparison.
pub record Syncing (O : Type 0) : Type 0 where
  pub condition_type : String
  pub owner_reason : String
  pub get_reason : String
  pub get_title : String
  pub create_reason : String
  pub update_reason : String
  pub update_title : String
  pub prepare : O → O → O
  pub needs_update : O → O → Bool
  pub finish : O → O → O

-- The rest of the function after each of the three ends of the step.
pub record Rest (W : Type 0) : Type 0 where
  pub created : Action W
  pub unchanged : Action W
  pub updated : Action W

-- The result of a call that writes.
abbrev pub synced :
    {W : Type 0} → String → String → String → Option Error × W → Action W → Manager → Outcome W
synced condition_type reason title (none, w) rest m = rest m w
synced condition_type reason title (some e, w) rest m =
    fails condition_type reason (title ++ error_text e) e m w

module _ {W O : Type 0} (errors : ApiErrors) (client : ObjectClient W O) (create_only : Bool)
    (s : Syncing O) (rest : Rest W) where
  abbrev sync_existing : O → O → Action W
  sync_existing existing desired m w =
      if not (s.needs_update existing desired)
      then rest.unchanged m w
      else if create_only
      then rest.unchanged m w
      else synced s.condition_type s.update_reason s.update_title
          (client.update (s.finish existing desired) w) rest.updated m

  abbrev pub sync_got : O → Got O → Action W
  sync_got desired (get_failed e) m w =
      if not (errors.is_not_found e)
      then fails s.condition_type s.get_reason (s.get_title ++ error_text e) e m w
      else synced s.condition_type s.create_reason "" (client.create desired w) rest.created m
  sync_got desired (got existing) m w = sync_existing existing (s.prepare existing desired) m w

  abbrev pub sync_owned : Attempt O → Action W
  sync_owned (failed e) m w = fails s.condition_type s.owner_reason (error_text e) e m w
  sync_owned (done desired) m w = sync_got desired (client.get desired w) m w

  unfoldable pub sync_object : O → Action W
  sync_object desired m w = sync_owned (client.set_controller_reference desired) m w
