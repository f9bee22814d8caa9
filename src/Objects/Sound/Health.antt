-- ===== src/Objects/Sound/Health.antt =====
-- The health checks of the workloads leave Ready to the status manager.
use ocp_spire_operator.Prelude.{false, not, ◌≡◌, String, some, if_cases, ◌==◌}
use ocp_spire_operator.Status.{Manager, ready}
use ocp_spire_operator.Status.Health.{
  Got, got, get_failed, StatefulSet, DaemonSet, Deployment, is_stateful_set_healthy,
  is_daemon_set_healthy, is_deployment_healthy, check_stateful_set_health, check_daemon_set_health,
  check_deployment_health,
}
use ocp_spire_operator.Objects.Sound.{IsClean, add_condition-IsClean}

pub stateful_set_health-IsClean :
    (g : Got StatefulSet) (name namespace t : String) (m : Manager)
    → (t == ready) ≡ false
    → IsClean m
    → IsClean (check_stateful_set_health g name namespace t m)
unfolding check_stateful_set_health
stateful_set_health-IsClean (get_failed e) name namespace t m n c =
    add_condition-IsClean t _ _ _ m n c
stateful_set_health-IsClean (got a) name namespace t m n c =
    if_cases IsClean (not (is_stateful_set_healthy (some a))) _ _
      (add_condition-IsClean t _ _ _ m n c) (add_condition-IsClean t _ _ _ m n c)

pub daemon_set_health-IsClean :
    (g : Got DaemonSet) (name namespace t : String) (m : Manager)
    → (t == ready) ≡ false
    → IsClean m
    → IsClean (check_daemon_set_health g name namespace t m)
unfolding check_daemon_set_health
daemon_set_health-IsClean (get_failed e) name namespace t m n c =
    add_condition-IsClean t _ _ _ m n c
daemon_set_health-IsClean (got a) name namespace t m n c =
    if_cases IsClean (not (is_daemon_set_healthy (some a))) _ _
      (add_condition-IsClean t _ _ _ m n c) (add_condition-IsClean t _ _ _ m n c)

pub deployment_health-IsClean :
    (g : Got Deployment) (name namespace t : String) (m : Manager)
    → (t == ready) ≡ false
    → IsClean m
    → IsClean (check_deployment_health g name namespace t m)
unfolding check_deployment_health
deployment_health-IsClean (get_failed e) name namespace t m n c =
    add_condition-IsClean t _ _ _ m n c
deployment_health-IsClean (got a) name namespace t m n c =
    if_cases IsClean (not (is_deployment_healthy (some a))) _ _
      (add_condition-IsClean t _ _ _ m n c) (add_condition-IsClean t _ _ _ m n c)
