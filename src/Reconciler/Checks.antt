-- ===== src/Reconciler/Checks.antt =====
-- The checks on a resource's configuration that the controllers of the operands share: the create-only
-- mode, the shared fields, the proxy and the issuer's URL, with the conditions that they add.
use ocp_spire_operator.Prelude.{Bool, false, not, String, Option, none, some, if◌then◌else◌}
use ocp_spire_operator.Kube.{
  condition_true, condition_false, is_false, MetaCondition, Error, text_error, error_text,
}
use ocp_spire_operator.Status.{Manager, add_condition, reason_ready, create_only_mode}
use ocp_spire_operator.Ztwim.Operand.{is_condition_true}
use ocp_spire_operator.Proxy.{Environment, validate_proxy_configuration}
use ocp_spire_operator.Objects.{Attempt}
use ocp_spire_operator.Validation.{Validators, Url, configuration_valid, is_valid_url}
use Prim.Native.String.{◌++◌}

-- What the environment of the process and the libraries' functions give.
pub record Surroundings (V : Type 0) : Type 0 where
  pub environment : Environment
  pub create_only : Bool
  pub validators : Validators V
  pub parse_url : String → Attempt Url

unfoldable pub handle_create_only_mode : Bool → Option MetaCondition → Manager → Manager
handle_create_only_mode create_only existing m =
    if create_only
    then add_condition create_only_mode "CreateOnlyModeEnabled"
        "Create-Only Mode is active: Updates are not reconciled to existing resources"
        condition_true m
    else if is_condition_true existing
    then add_condition create_only_mode "CreateOnlyModeDisabled" "Create-only mode is disabled"
        condition_false m
    else m

-- The error of a validation and the collected conditions; `rest` where there is no error.
abbrev pub checked :
    Option Error × Manager → (Manager → Option Error × Manager) → Option Error × Manager
checked (none, m) rest = rest m
checked (some e, m) rest = (some e, m)

-- A validation that fails adds the condition ConfigurationValid.
abbrev pub invalid : String → String → Option Error → Manager → Option Error × Manager
invalid reason title none m = (none, m)
invalid reason title (some e) m =
    (some e, add_condition configuration_valid reason (title ++ error_text e) condition_false m)

unfoldable pub checked_proxy : Environment → Manager → Option Error × Manager
checked_proxy environment m =
    let r = validate_proxy_configuration environment in
    if not r.valid
    then (
      some (text_error ("proxy configuration invalid: " ++ r.message)),
      add_condition configuration_valid r.reason r.message condition_false m,
    )
    else (none, m)

abbrev pub was_false : Option MetaCondition → Bool
was_false none = false
was_false (some c) = is_false c.status

-- The condition is announced again only where the object has it as False.
abbrev pub passed : Option MetaCondition → Manager → Option Error × Manager
passed published m =
    if was_false published
    then (
      none,
      add_condition configuration_valid reason_ready "Configuration validation passed"
          condition_true m,
    )
    else (none, m)

abbrev pub invalid_url : (String → Attempt Url) → String → Manager → Option Error × Manager
invalid_url parse jwt_issuer m =
    invalid "InvalidJWTIssuerURL" "JWT issuer URL validation failed: "
      (is_valid_url parse jwt_issuer) m
