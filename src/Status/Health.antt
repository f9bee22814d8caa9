-- ===== src/Status/Health.antt =====
-- The health checks of workloads in pkg/controller/status/status.go: the tests, the messages and the
-- conditions that they add. A pointer of the source is an option; a replica count is an int32 and a
-- generation an int64, which the code only compares and prints.
pub mod Messages
pub mod Conditions
use ocp_spire_operator.Prelude.{
  ◌+◌, Bool, true, false, String, Option, none, some, not, is_some, if◌then◌else◌,
}
use ocp_spire_operator.Prelude.Int.{ℤ, pos, eq_ℤ, ltb_ℤ}
use ocp_spire_operator.Prelude.Text.{print_int}
use ocp_spire_operator.Kube.{Error, error_text, condition_true, condition_false}
use ocp_spire_operator.Status.{Manager, add_condition}
use Prim.Native.String.{◌++◌}

-- appsv1.StatefulSet, appsv1.DaemonSet and appsv1.Deployment, as far as the checks read them.
pub record StatefulSet : Type 0 where
  pub generation : ℤ
  pub replicas : Option ℤ
  pub ready_replicas : ℤ
  pub updated_replicas : ℤ
  pub observed_generation : ℤ

pub record DaemonSet : Type 0 where
  pub generation : ℤ
  pub desired_number_scheduled : ℤ
  pub number_ready : ℤ
  pub updated_number_scheduled : ℤ
  pub number_available : ℤ
  pub number_unavailable : ℤ
  pub observed_generation : ℤ

pub record Deployment : Type 0 where
  pub generation : ℤ
  pub replicas : Option ℤ
  pub ready_replicas : ℤ
  pub updated_replicas : ℤ
  pub available_replicas : ℤ
  pub unavailable_replicas : ℤ
  pub observed_generation : ℤ

stateful_set_meets : StatefulSet → Option ℤ → Bool
stateful_set_meets sts none = false
stateful_set_meets sts (some desired) =
    if not (eq_ℤ sts.ready_replicas desired)
    then false
    else if not (eq_ℤ sts.updated_replicas desired)
    then false
    else if not (eq_ℤ sts.observed_generation sts.generation)
    then false
    else true

unfoldable pub is_stateful_set_healthy : Option StatefulSet → Bool
unfolding stateful_set_meets
is_stateful_set_healthy none = false
is_stateful_set_healthy (some sts) = stateful_set_meets sts sts.replicas

unfoldable pub is_daemon_set_healthy : Option DaemonSet → Bool
is_daemon_set_healthy none = false
is_daemon_set_healthy (some ds) =
    if eq_ℤ ds.desired_number_scheduled (pos 0)
    then false
    else if not (eq_ℤ ds.number_ready ds.desired_number_scheduled)
    then false
    else if not (eq_ℤ ds.updated_number_scheduled ds.desired_number_scheduled)
    then false
    else if not (eq_ℤ ds.number_available ds.desired_number_scheduled)
    then false
    else if not (eq_ℤ ds.observed_generation ds.generation)
    then false
    else true

deployment_meets : Deployment → Option ℤ → Bool
deployment_meets deploy none = false
deployment_meets deploy (some desired) =
    if not (eq_ℤ deploy.ready_replicas desired)
    then false
    else if not (eq_ℤ deploy.updated_replicas desired)
    then false
    else if not (eq_ℤ deploy.available_replicas desired)
    then false
    else if not (eq_ℤ deploy.observed_generation deploy.generation)
    then false
    else true

unfoldable pub is_deployment_healthy : Option Deployment → Bool
unfolding deployment_meets
is_deployment_healthy none = false
is_deployment_healthy (some deploy) = deployment_meets deploy deploy.replicas

abbrev pub ratio : ℤ → ℤ → String
ratio a b = print_int a ++ ("/" ++ print_int b)

abbrev pub generations : ℤ → ℤ → String
generations generation observed =
    print_int generation ++ (", observed " ++ (print_int observed ++ ")"))

stateful_set_message : StatefulSet → Option ℤ → String
stateful_set_message sts none = "StatefulSet is nil or has no replicas configured"
stateful_set_message sts (some desired) =
    if not (eq_ℤ sts.observed_generation sts.generation)
    then "StatefulSet update in progress (generation "
      ++ generations sts.generation sts.observed_generation
    else if not (eq_ℤ sts.ready_replicas desired)
    then "StatefulSet has " ++ (ratio sts.ready_replicas desired ++ " replicas ready")
    else if not (eq_ℤ sts.updated_replicas desired)
    then "StatefulSet has " ++ (ratio sts.updated_replicas desired ++ " replicas updated")
    else "StatefulSet is not healthy"

unfoldable pub get_stateful_set_status_message : Option StatefulSet → String
unfolding stateful_set_message
get_stateful_set_status_message none = "StatefulSet is nil or has no replicas configured"
get_stateful_set_status_message (some sts) = stateful_set_message sts sts.replicas

unfoldable pub get_daemon_set_status_message : Option DaemonSet → String
get_daemon_set_status_message none = "DaemonSet is nil"
get_daemon_set_status_message (some ds) =
    let desired = ds.desired_number_scheduled in
    if eq_ℤ desired (pos 0)
    then "DaemonSet has no pods scheduled"
    else if not (eq_ℤ ds.observed_generation ds.generation)
    then "DaemonSet update in progress (generation "
      ++ generations ds.generation ds.observed_generation
    else if not (eq_ℤ ds.number_ready desired)
    then "DaemonSet has " ++ (ratio ds.number_ready desired ++ " pods ready")
    else if not (eq_ℤ ds.updated_number_scheduled desired)
    then "DaemonSet has " ++ (ratio ds.updated_number_scheduled desired ++ " pods updated")
    else if not (eq_ℤ ds.number_available desired)
    then "DaemonSet has " ++ (ratio ds.number_available desired ++ " pods available")
    else if ltb_ℤ (pos 0) ds.number_unavailable
    then "DaemonSet has " ++ (print_int ds.number_unavailable ++ " pods unavailable")
    else "DaemonSet is not healthy"

deployment_message : Deployment → Option ℤ → String
deployment_message deploy none = "Deployment is nil or has no replicas configured"
deployment_message deploy (some desired) =
    if not (eq_ℤ deploy.observed_generation deploy.generation)
    then "Deployment update in progress (generation "
      ++ generations deploy.generation deploy.observed_generation
    else if not (eq_ℤ deploy.ready_replicas desired)
    then "Deployment has " ++ (ratio deploy.ready_replicas desired ++ " replicas ready")
    else if not (eq_ℤ deploy.updated_replicas desired)
    then "Deployment has " ++ (ratio deploy.updated_replicas desired ++ " replicas updated")
    else if not (eq_ℤ deploy.available_replicas desired)
    then "Deployment has " ++ (ratio deploy.available_replicas desired ++ " replicas available")
    else if ltb_ℤ (pos 0) deploy.unavailable_replicas
    then "Deployment has " ++ (print_int deploy.unavailable_replicas ++ " replicas unavailable")
    else "Deployment is not healthy"

unfoldable pub get_deployment_status_message : Option Deployment → String
unfolding deployment_message
get_deployment_status_message none = "Deployment is nil or has no replicas configured"
get_deployment_status_message (some deploy) = deployment_message deploy deploy.replicas

-- What `Get` returns.
pub data Got (A : Type 0) : Type 0 where
  got : A → Got A
  get_failed : Error → Got A

-- A healthy stateful set or deployment has its replicas configured, so the pointer that the last
-- message follows is not nil there; the empty text stands for the branch that is not reached.
abbrev print_replicas : Option ℤ → String
print_replicas none = ""
print_replicas (some n) = print_int n

abbrev could_not_get : String → String → String → Error → String
could_not_get kind name namespace e =
    "Failed to get " ++ (kind ++ (" " ++ (namespace ++ ("/" ++ (name ++ (": " ++ error_text e))))))

unfoldable pub check_stateful_set_health :
    Got StatefulSet → String → String → String → Manager → Manager
check_stateful_set_health (get_failed e) name namespace condition_type m =
    add_condition condition_type "StatefulSetNotFound"
      (could_not_get "StatefulSet" name namespace e) condition_false m
check_stateful_set_health (got sts) name namespace condition_type m =
    if not (is_stateful_set_healthy (some sts))
    then add_condition condition_type "StatefulSetNotReady"
        (get_stateful_set_status_message (some sts)) condition_false m
    else add_condition condition_type "StatefulSetReady"
        ("StatefulSet "
          ++ (name
              ++ (" is healthy with "
                  ++ (print_int sts.ready_replicas
                      ++ ("/" ++ (print_replicas sts.replicas ++ " replicas ready"))))))
        condition_true m

unfoldable pub check_daemon_set_health :
    Got DaemonSet → String → String → String → Manager → Manager
check_daemon_set_health (get_failed e) name namespace condition_type m =
    add_condition condition_type "DaemonSetNotFound" (could_not_get "DaemonSet" name namespace e)
      condition_false m
check_daemon_set_health (got ds) name namespace condition_type m =
    if not (is_daemon_set_healthy (some ds))
    then add_condition condition_type "DaemonSetNotReady" (get_daemon_set_status_message (some ds))
        condition_false m
    else add_condition condition_type "DaemonSetReady"
        ("DaemonSet "
          ++ (name
              ++ (" is healthy with "
                  ++ (ratio ds.number_ready ds.desired_number_scheduled ++ " pods ready"))))
        condition_true m

unfoldable pub check_deployment_health :
    Got Deployment → String → String → String → Manager → Manager
check_deployment_health (get_failed e) name namespace condition_type m =
    add_condition condition_type "DeploymentNotFound" (could_not_get "Deployment" name namespace e)
      condition_false m
check_deployment_health (got deploy) name namespace condition_type m =
    if not (is_deployment_healthy (some deploy))
    then add_condition condition_type "DeploymentNotReady"
        (get_deployment_status_message (some deploy)) condition_false m
    else add_condition condition_type "DeploymentReady"
        ("Deployment "
          ++ (name
              ++ (" is healthy with "
                  ++ (print_int deploy.ready_replicas
                      ++ ("/" ++ (print_replicas deploy.replicas ++ " replicas ready"))))))
        condition_true m
