-- ===== src/Errors/Laws.antt =====
-- The class of an error of pkg/controller/utils/errors.go, as it is passed up.
use ocp_spire_operator.Prelude.{false, not, String, List, [], ◌∷◌, some, ◌≡◌, refl, arith}
use ocp_spire_operator.Kube.{Error, wrapped_error, ApiErrors}
use ocp_spire_operator.Errors.{
  new_irrecoverable_error, new_retry_required_error, reason_of, is_irrecoverable_error,
  is_retry_required_error, is_multiple_instance_error, is_rejection, from_client_error, from_error,
}

-- An error that is wrapped by `fmt.Errorf` with `%w`, once for each message.
abbrev pub wrapped_with : List String → Error → Error
wrapped_with [] e = e
wrapped_with (message ∷ messages) e = wrapped_error message (wrapped_with messages e)

reason-wrapped_with :
    (messages : List String) (e : Error) → reason_of (wrapped_with messages e) ≡ reason_of e
unfolding reason_of
reason-wrapped_with [] e = refl
reason-wrapped_with (message ∷ messages) e = reason-wrapped_with messages e

-- An error of the API server that was classified by `from_client_error`, wrapped any number of times
-- and classified again by `from_error`, is irrecoverable exactly when it is one of the five rejections,
-- is to be retried otherwise, and never reports several instances.
pub from_error-from_client_error :
    (errors : ApiErrors) (e r r' : Error) (message message' : String) (messages : List String)
    → from_client_error errors (some e) message ≡ some r
    → from_error (some (wrapped_with messages r)) message' ≡ some r'
    → (is_irrecoverable_error r' ≡ is_rejection errors e)
      × (is_retry_required_error r' ≡ not (is_rejection errors e))
      × (is_multiple_instance_error r' ≡ false)
unfolding from_client_error from_error new_irrecoverable_error new_retry_required_error
    is_irrecoverable_error is_retry_required_error is_multiple_instance_error reason_of
from_error-from_client_error errors e r r' message message' messages h k =
    ground (arith, h, k, reason-wrapped_with messages r)
