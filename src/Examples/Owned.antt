-- ===== src/Examples/Owned.antt =====
-- Owner references and the operator's own errors at concrete values.
use ocp_spire_operator.Prelude.{false, not, String, List, [], ◌∷◌, some, ◌≡◌, refl}
use ocp_spire_operator.Kube.{Error, irrecoverable, reconcile_error}
use ocp_spire_operator.Errors.{
  new_irrecoverable_error, reason_of, is_irrecoverable_error, is_retry_required_error,
  is_multiple_instance_error, is_rejection, from_client_error, from_error,
}
use ocp_spire_operator.Errors.Laws.{wrapped_with, from_error-from_client_error}
use ocp_spire_operator.Examples.Api.{api_errors, forbidden}

abbrev rejected : Error
rejected = reconcile_error irrecoverable "creating" forbidden

abbrev messages : List String
messages = "step: forbidden" ∷ []

abbrev passed_on : Error
passed_on = reconcile_error irrecoverable "reconciling" (wrapped_with messages rejected)

classified : from_client_error api_errors (some forbidden) "creating" ≡ some rejected
unfolding from_client_error new_irrecoverable_error
classified = refl

classified_again : from_error (some (wrapped_with messages rejected)) "reconciling" ≡ some passed_on
unfolding from_error new_irrecoverable_error is_irrecoverable_error reason_of
classified_again = refl

from_error-from_client_error_example :
    (is_irrecoverable_error passed_on ≡ is_rejection api_errors forbidden)
    × (is_retry_required_error passed_on ≡ not (is_rejection api_errors forbidden))
    × (is_multiple_instance_error passed_on ≡ false)
from_error-from_client_error_example =
    from_error-from_client_error api_errors forbidden rejected passed_on "creating" "reconciling"
      messages classified classified_again
