-- ===== src/Status/Health/Messages.antt =====
-- The tests of the health checks against what a healthy workload is, and the messages against the
-- tests.
use ocp_spire_operator.Prelude.{
  inl, inr, refl, ◌≡◌, ◌≢◌, ◌↔◌, true, false, String, some, arith, Option-cases,
}
use ocp_spire_operator.Prelude.Int.{pos, eq_ℤ_iff, ◌≤ℤ◌}
use ocp_spire_operator.Prelude.Text.{print_int, starts_as, append-starts_as}
use Prim.Native.String.{◌++◌}
use ocp_spire_operator.Status.Health.{
  StatefulSet, DaemonSet, Deployment, is_stateful_set_healthy, is_daemon_set_healthy,
  is_deployment_healthy, get_stateful_set_status_message, get_daemon_set_status_message,
  get_deployment_status_message, ratio, generations,
}

-- A stateful set is healthy exactly when its replica count is configured, that many replicas are
-- ready and updated, and the controller has observed the latest generation.
is_stateful_set_healthy_iff :
    (sts : StatefulSet)
    → (is_stateful_set_healthy (some sts) ≡ true) ↔ (
        (sts.replicas ≡ some sts.ready_replicas)
        × (sts.updated_replicas ≡ sts.ready_replicas)
        × (sts.observed_generation ≡ sts.generation))
unfolding is_stateful_set_healthy
is_stateful_set_healthy_iff sts = elim (Option-cases sts.replicas) [
  | inl e ↦ ground arith
  | inr (d, e) ↦ ground (
    arith,
    eq_ℤ_iff sts.ready_replicas d,
    eq_ℤ_iff sts.updated_replicas d,
    eq_ℤ_iff sts.observed_generation sts.generation,
  )
]

-- A daemon set is healthy exactly when it has pods to schedule, that many are ready, updated and
-- available, and the controller has observed the latest generation.
is_daemon_set_healthy_iff :
    (ds : DaemonSet)
    → (is_daemon_set_healthy (some ds) ≡ true) ↔ (
        (ds.desired_number_scheduled ≢ pos 0)
        × (ds.number_ready ≡ ds.desired_number_scheduled)
        × (ds.updated_number_scheduled ≡ ds.desired_number_scheduled)
        × (ds.number_available ≡ ds.desired_number_scheduled)
        × (ds.observed_generation ≡ ds.generation))
unfolding is_daemon_set_healthy
is_daemon_set_healthy_iff ds = ground (
  arith,
  eq_ℤ_iff ds.desired_number_scheduled (pos 0),
  eq_ℤ_iff ds.number_ready ds.desired_number_scheduled,
  eq_ℤ_iff ds.updated_number_scheduled ds.desired_number_scheduled,
  eq_ℤ_iff ds.number_available ds.desired_number_scheduled,
  eq_ℤ_iff ds.observed_generation ds.generation,
)

-- A deployment is healthy exactly when its replica count is configured, that many replicas are
-- ready, updated and available, and the controller has observed the latest generation.
is_deployment_healthy_iff :
    (deploy : Deployment)
    → (is_deployment_healthy (some deploy) ≡ true) ↔ (
        (deploy.replicas ≡ some deploy.ready_replicas)
        × (deploy.updated_replicas ≡ deploy.ready_replicas)
        × (deploy.available_replicas ≡ deploy.ready_replicas)
        × (deploy.observed_generation ≡ deploy.generation))
unfolding is_deployment_healthy
is_deployment_healthy_iff deploy = elim (Option-cases deploy.replicas) [
  | inl e ↦ ground arith
  | inr (d, e) ↦ ground (
    arith,
    eq_ℤ_iff deploy.ready_replicas d,
    eq_ℤ_iff deploy.updated_replicas d,
    eq_ℤ_iff deploy.available_replicas d,
    eq_ℤ_iff deploy.observed_generation deploy.generation,
  )
]

-- A message that starts otherwise is not the message of the last resort.
differs : (p t s : String) → starts_as p s ≡ false → p ++ t ≢ s
differs p t s h e = cc (append-starts_as p t s e)

-- The message of a stateful set is the uninformative one exactly when the set is healthy: for an
-- unhealthy set it always names a cause.
get_stateful_set_status_message_iff :
    (sts : StatefulSet)
    → (get_stateful_set_status_message (some sts) ≡ "StatefulSet is not healthy")
      ↔ (is_stateful_set_healthy (some sts) ≡ true)
unfolding get_stateful_set_status_message is_stateful_set_healthy
get_stateful_set_status_message_iff sts = elim (Option-cases sts.replicas) [
  | inl e ↦ ground (
    arith,
    differs "StatefulSet is nil or has no replicas configured" "" "StatefulSet is not healthy" refl,
  )
  | inr (d, e) ↦ ground (
    arith,
    differs "StatefulSet update in progress (generation "
        (generations sts.generation sts.observed_generation) "StatefulSet is not healthy" refl,
    differs "StatefulSet has " (ratio sts.ready_replicas d ++ " replicas ready")
        "StatefulSet is not healthy" refl,
    differs "StatefulSet has " (ratio sts.updated_replicas d ++ " replicas updated")
        "StatefulSet is not healthy" refl,
  )
]

-- The message of a daemon set is the uninformative one exactly when the set is healthy and reports
-- no unavailable pods.
get_daemon_set_status_message_iff :
    (ds : DaemonSet)
    → (get_daemon_set_status_message (some ds) ≡ "DaemonSet is not healthy")
      ↔ ((is_daemon_set_healthy (some ds) ≡ true) × (ds.number_unavailable ≤ℤ pos 0))
unfolding get_daemon_set_status_message is_daemon_set_healthy
get_daemon_set_status_message_iff ds =
    let desired = ds.desired_number_scheduled in
    ground (
      arith,
      differs "DaemonSet has no pods scheduled" "" "DaemonSet is not healthy" refl,
      differs "DaemonSet update in progress (generation "
          (generations ds.generation ds.observed_generation) "DaemonSet is not healthy" refl,
      differs "DaemonSet has " (ratio ds.number_ready desired ++ " pods ready")
          "DaemonSet is not healthy" refl,
      differs "DaemonSet has " (ratio ds.updated_number_scheduled desired ++ " pods updated")
          "DaemonSet is not healthy" refl,
      differs "DaemonSet has " (ratio ds.number_available desired ++ " pods available")
          "DaemonSet is not healthy" refl,
      differs "DaemonSet has " (print_int ds.number_unavailable ++ " pods unavailable")
          "DaemonSet is not healthy" refl,
    )

-- The message of a deployment is the uninformative one exactly when the deployment is healthy and
-- reports no unavailable replicas.
get_deployment_status_message_iff :
    (deploy : Deployment)
    → (get_deployment_status_message (some deploy) ≡ "Deployment is not healthy")
      ↔ ((is_deployment_healthy (some deploy) ≡ true) × (deploy.unavailable_replicas ≤ℤ pos 0))
unfolding get_deployment_status_message is_deployment_healthy
get_deployment_status_message_iff deploy = elim (Option-cases deploy.replicas) [
  | inl e ↦ ground (
    arith,
    differs "Deployment is nil or has no replicas configured" "" "Deployment is not healthy" refl,
  )
  | inr (d, e) ↦ ground (
    arith,
    differs "Deployment update in progress (generation "
        (generations deploy.generation deploy.observed_generation) "Deployment is not healthy" refl,
    differs "Deployment has " (ratio deploy.ready_replicas d ++ " replicas ready")
        "Deployment is not healthy" refl,
    differs "Deployment has " (ratio deploy.updated_replicas d ++ " replicas updated")
        "Deployment is not healthy" refl,
    differs "Deployment has " (ratio deploy.available_replicas d ++ " replicas available")
        "Deployment is not healthy" refl,
    differs "Deployment has " (print_int deploy.unavailable_replicas ++ " replicas unavailable")
        "Deployment is not healthy" refl,
  )
]
