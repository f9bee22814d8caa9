-- ===== src/Errors.antt =====
-- pkg/controller/utils/errors.go: the operator's own errors. `none` is nil, a message is the formatted
-- one, and a pointer to a ReconcileError is the error that it is.
pub mod Laws
use ocp_spire_operator.Prelude.{
  Bool, true, false, ◌||◌, not, String, List, [], ◌∷◌, Option, none, some, if◌then◌else◌,
}
use ocp_spire_operator.Kube.{
  ErrorReason, irrecoverable, retry_required, multiple_instance, Error, text_error, api_error,
  wrapped_error, reconcile_error, error_text, ApiErrors,
}

unfoldable pub new_irrecoverable_error : Option Error → String → Option Error
new_irrecoverable_error none message = none
new_irrecoverable_error (some e) message = some (reconcile_error irrecoverable message e)

unfoldable new_multiple_instance_error : Option Error → Option Error
new_multiple_instance_error none = none
new_multiple_instance_error (some e) = some (reconcile_error multiple_instance (error_text e) e)

unfoldable pub new_retry_required_error : Option Error → String → Option Error
new_retry_required_error none message = none
new_retry_required_error (some e) message = some (reconcile_error retry_required message e)

-- `errors.As` with a pointer to a ReconcileError, and the reason of what it finds. A ReconcileError
-- has no `Unwrap`, and neither has an error of the API server.
unfoldable pub reason_of : Error → Option ErrorReason
reason_of (text_error m) = none
reason_of (api_error reason m) = none
reason_of (wrapped_error m e) = reason_of e
reason_of (reconcile_error reason m e) = some reason

abbrev is_irrecoverable : Option ErrorReason → Bool
is_irrecoverable none = false
is_irrecoverable (some irrecoverable) = true
is_irrecoverable (some retry_required) = false
is_irrecoverable (some multiple_instance) = false

abbrev is_retry_required : Option ErrorReason → Bool
is_retry_required none = false
is_retry_required (some irrecoverable) = false
is_retry_required (some retry_required) = true
is_retry_required (some multiple_instance) = false

abbrev is_multiple_instance : Option ErrorReason → Bool
is_multiple_instance none = false
is_multiple_instance (some irrecoverable) = false
is_multiple_instance (some retry_required) = false
is_multiple_instance (some multiple_instance) = true

unfoldable pub is_irrecoverable_error : Error → Bool
is_irrecoverable_error e = is_irrecoverable (reason_of e)

unfoldable pub is_retry_required_error : Error → Bool
is_retry_required_error e = is_retry_required (reason_of e)

unfoldable pub is_multiple_instance_error : Error → Bool
is_multiple_instance_error e = is_multiple_instance (reason_of e)

-- The five tests under which an error of the API server is not retried.
abbrev pub is_rejection : ApiErrors → Error → Bool
is_rejection errors e =
    errors.is_unauthorized e
    || errors.is_forbidden e
    || errors.is_invalid e
    || errors.is_bad_request e
    || errors.is_service_unavailable e

unfoldable pub from_client_error : ApiErrors → Option Error → String → Option Error
from_client_error errors none message = none
from_client_error errors (some e) message =
    if is_rejection errors e
    then new_irrecoverable_error (some e) message
    else new_retry_required_error (some e) message

unfoldable pub from_error : Option Error → String → Option Error
from_error none message = none
from_error (some e) message =
    if is_irrecoverable_error e
    then new_irrecoverable_error (some e) message
    else new_retry_required_error (some e) message
