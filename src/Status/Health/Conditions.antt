-- ===== src/Status/Health/Conditions.antt =====
-- What the conditions of the health checks say to the computation of the Ready condition.
use ocp_spire_operator.Prelude.{
  ◌≡◌, ◌⊎◌, inl, inr, refl, Bool, true, false, String, Option, some, arith, eq_iff, Bool-cases,
}
use ocp_spire_operator.Prelude.Dict.{lookup}
use ocp_spire_operator.Kube.{condition_true}
use ocp_spire_operator.Status.{Condition, Manager, progressing_reasons}
use ocp_spire_operator.Status.Ready.{lookup-add_condition_self}
use ocp_spire_operator.Status.Verdict.{IsOperational, IsRollout, IsFailure, IsProgress}
use ocp_spire_operator.Status.Health.{
  StatefulSet, DaemonSet, Deployment, Got, got, get_failed, is_stateful_set_healthy,
  is_daemon_set_healthy, is_deployment_healthy, check_stateful_set_health, check_daemon_set_health,
  check_deployment_health,
}

-- A healthy workload gives a True condition, an unhealthy one a rollout, and a failed read a failure.
abbrev pub Reports : {A : Type 0} → (Option A → Bool) → Got A → String → Condition → Type 0
Reports healthy (get_failed e) t c = IsFailure t c
Reports healthy (got a) t c =
    ((healthy (some a) ≡ true) × (c.status ≡ condition_true))
    ⊎ ((healthy (some a) ≡ false) × IsProgress t c)

abbrev is_rollout : String → Bool
is_rollout = progressing_reasons

not-IsRollout : (r : String) → is_rollout r ≡ false → ¬ IsRollout r
not-IsRollout r h = ground (
  arith,
  eq_iff r "StatefulSetNotReady",
  eq_iff r "DaemonSetNotReady",
  eq_iff r "DeploymentNotReady",
)

-- `check_stateful_set_health` adds, under an operational condition type, a True condition for a
-- healthy stateful set, a condition that counts as a rollout for an unhealthy one, and a condition
-- that counts as a failure where the stateful set could not be read.
pub check_stateful_set_health-Reports :
    (g : Got StatefulSet) (name namespace t : String) (m : Manager)
    → IsOperational t
    → (c : Condition) × (lookup t (check_stateful_set_health g name namespace t m).conditions
        ≡ some c)
      × Reports is_stateful_set_healthy g t c
unfolding check_stateful_set_health
check_stateful_set_health-Reports (get_failed e) name namespace t m h =
    (_, lookup-add_condition_self t _ _ _ m, (h, refl, not-IsRollout "StatefulSetNotFound" refl))
check_stateful_set_health-Reports (got a) name namespace t m h =
    elim (Bool-cases (is_stateful_set_healthy (some a))) [
      | inl e ↦ rw e (_, lookup-add_condition_self t _ _ _ m, inl (refl, refl))
      | inr e ↦ rw e (_, lookup-add_condition_self t _ _ _ m, inr (refl, (h, refl, inl refl)))
    ]

-- `check_daemon_set_health` adds, under an operational condition type, a True condition for a
-- healthy daemon set, a condition that counts as a rollout for an unhealthy one, and a condition
-- that counts as a failure where the daemon set could not be read.
check_daemon_set_health-Reports :
    (g : Got DaemonSet) (name namespace t : String) (m : Manager)
    → IsOperational t
    → (c : Condition) × (lookup t (check_daemon_set_health g name namespace t m).conditions
        ≡ some c)
      × Reports is_daemon_set_healthy g t c
unfolding check_daemon_set_health
check_daemon_set_health-Reports (get_failed e) name namespace t m h =
    (_, lookup-add_condition_self t _ _ _ m, (h, refl, not-IsRollout "DaemonSetNotFound" refl))
check_daemon_set_health-Reports (got a) name namespace t m h =
    elim (Bool-cases (is_daemon_set_healthy (some a))) [
      | inl e ↦ rw e (_, lookup-add_condition_self t _ _ _ m, inl (refl, refl))
      | inr e ↦ rw e (_, lookup-add_condition_self t _ _ _ m, inr (refl, (h, refl, inr (inl refl))))
    ]

-- `check_deployment_health` adds, under an operational condition type, a True condition for a
-- healthy deployment, a condition that counts as a rollout for an unhealthy one, and a condition
-- that counts as a failure where the deployment could not be read.
check_deployment_health-Reports :
    (g : Got Deployment) (name namespace t : String) (m : Manager)
    → IsOperational t
    → (c : Condition) × (lookup t (check_deployment_health g name namespace t m).conditions
        ≡ some c)
      × Reports is_deployment_healthy g t c
unfolding check_deployment_health
check_deployment_health-Reports (get_failed e) name namespace t m h =
    (_, lookup-add_condition_self t _ _ _ m, (h, refl, not-IsRollout "DeploymentNotFound" refl))
check_deployment_health-Reports (got a) name namespace t m h =
    elim (Bool-cases (is_deployment_healthy (some a))) [
      | inl e ↦ rw e (_, lookup-add_condition_self t _ _ _ m, inl (refl, refl))
      | inr e ↦ rw e (_, lookup-add_condition_self t _ _ _ m, inr (refl, (h, refl, inr (inr refl))))
    ]
