-- ===== src/Reconciler.antt =====
-- The frame of `Reconcile` in the controllers of the operands, pkg/controller/spire-server,
-- spire-agent, spiffe-csi-driver and spire-oidc-discovery-provider, controller.go: the reads, the owner
-- of the resource, and the status that is published at the start and, by the deferred call, at the end.
-- The four repeat it with texts of their own; what each does once the owner is settled is an argument.
-- Logging is left out, and so are errors that the source only logs.
pub mod Checks
pub mod Accounted
pub mod Published
pub mod Unread
use ocp_spire_operator.Prelude.{ℕ, String, List, Option, none, some, if◌then◌else◌}
use ocp_spire_operator.Kube.{
  condition_false, MetaCondition, Error, error_text, ApiErrors, ConditionsApi,
}
use ocp_spire_operator.Status.{
  Manager, new_manager, add_condition, ready, reason_failed, Applied, Ranges, StatusUpdate,
  apply_status, set_initial_reconciliation_status,
}
use ocp_spire_operator.Status.Health.{Got, got, get_failed}
use ocp_spire_operator.Owners.{OwnerReference, needs_owner_reference_update}
use ocp_spire_operator.Objects.{Attempt, done, failed, Outcome, Action}
use Prim.Native.String.{◌++◌}

-- The ZTWIM resource: its trust domain, and itself as an owner.
pub record Ztwim : Type 0 where
  pub trust_domain : String
  pub identity : OwnerReference

-- What the frame reads of the operand's resource `S`, and its texts: the kind, and what comes before
-- the two errors of settling the owner.
pub record Resource (S : Type 0) : Type 0 where
  pub kind : String
  pub owner_title : String
  pub update_title : String
  pub owners : S → List OwnerReference
  pub conditions : S → List MetaCondition
  pub with_conditions : List MetaCondition → S → S

-- The calls of the API server on the resource.
pub record ResourceCalls (W S : Type 0) : Type 0 where
  pub get_resource : W → Got S
  pub get_ztwim : W → Got Ztwim
  pub set_owner : Ztwim → S → Attempt S
  -- The resource that the API returns, if it accepts the update.
  pub update_resource : S → W → Attempt S × W
  pub update_status : S → StatusUpdate W

-- The times at which the two statuses are published.
pub record Clocks : Type 0 where
  pub initial_clock : String → ℕ
  pub final_clock : String → ℕ

-- An error of a validation ends the reconciliation, which returns none.
abbrev pub ended : {W : Type 0} → Option Error → Outcome W → Action W → Outcome W
ended none o rest = rest o.manager o.cluster
ended (some e) o rest = record o { error = none }

abbrev pub unless_invalid : {W : Type 0} → Outcome W → Action W → Outcome W
unless_invalid o rest = ended o.error o rest

-- Ready is False, with this message.
abbrev not_ready : {W : Type 0} → String → Option Error → Action W
not_ready message e m w = record {
  error = e;
  manager = add_condition ready reason_failed message condition_false m;
  cluster = w;
}

-- The resource as it is in memory at the end, and the outcome of the body.
pub record Body (W S : Type 0) : Type 0 where
  pub resource : S
  pub outcome : Outcome W

-- What the body did, and what the deferred call published.
pub record Run (W S : Type 0) : Type 0 where
  pub result : Body W S
  pub finished : Applied W

module _ {W S : Type 0} (errors : ApiErrors) (api : ConditionsApi) (r : Ranges) (x : Resource S)
    (calls : ResourceCalls W S) (clocks : Clocks) (configured : S → Ztwim → Action W) where
  abbrev pub updated : Ztwim → S → Attempt S × W → Manager → Body W S
  updated ztwim s (done s', w) m = record { resource = s'; outcome = configured s' ztwim m w }
  updated ztwim s (failed e, w) m = record {
    resource = s;
    outcome = not_ready (x.update_title ++ error_text e) (some e) m w;
  }

  abbrev pub owned : Ztwim → S → Attempt S → Manager → W → Body W S
  owned ztwim s (done s') m w = updated ztwim s' (calls.update_resource s' w) m
  owned ztwim s (failed e) m w = record {
    resource = s;
    outcome = not_ready (x.owner_title ++ error_text e) (some e) m w;
  }

  abbrev pub read_ztwim : S → Got Ztwim → Manager → W → Body W S
  read_ztwim s (get_failed e) m w = record {
    resource = s;
    outcome =
        if errors.is_not_found e
        then not_ready "Failed to retrieve ZeroTrustWorkloadIdentityManager from cluster" none m w
        else record { error = some e; manager = m; cluster = w };
  }
  read_ztwim s (got ztwim) m w =
      if needs_owner_reference_update (x.owners s) ztwim.identity
      then owned ztwim s (calls.set_owner ztwim s) m w
      else record { resource = s; outcome = configured s ztwim m w }

  -- The body of the function from the read of the ZTWIM resource on.
  unfoldable pub body : S → W → Body W S
  body s w = read_ztwim s (calls.get_ztwim w) new_manager w

  abbrev pub started : S → W → Applied W
  started s w =
      set_initial_reconciliation_status api r (calls.update_status s) clocks.initial_clock x.kind
        (x.conditions s) w

  -- The resource with the conditions that were published at the start.
  abbrev pub started_resource : S → W → S
  started_resource s w = x.with_conditions (started s w).conditions s

  unfoldable pub run : S → W → Run W S
  run s w =
      let b = body (started_resource s w) (started s w).cluster in
      record {
        result = b;
        finished =
            apply_status api r (calls.update_status b.resource) clocks.final_clock b.outcome.manager
              (x.conditions b.resource) b.outcome.cluster;
      }

  -- The error that is returned, and the cluster afterwards.
  unfoldable pub reconcile : W → Option Error × W
  reconcile w = elim (calls.get_resource w) [
    | get_failed e ↦ if errors.is_not_found e then (none, w) else (some e, w)
    | got s ↦ ((run s w).result.outcome.error, (run s w).finished.cluster)
  ]
