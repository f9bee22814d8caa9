-- ===== src/Server/Checks.antt =====
-- The checks of pkg/controller/spire-server/controller.go on the configuration of a SpireServer: the
-- validation of the configuration, and that of the lifetimes, with the conditions that they add.
use ocp_spire_operator.Prelude.{String, List, [], ◌∷◌, Option, none, some}
use ocp_spire_operator.Prelude.Int.{ℤ}
use ocp_spire_operator.Kube.{condition_true, MetaCondition, Error, error_text, ConditionsApi}
use ocp_spire_operator.Status.{Manager, add_condition}
use ocp_spire_operator.Owners.{OwnerReference}
use ocp_spire_operator.Objects.{Action, succeeded, fails}
use ocp_spire_operator.Validation.{CommonConfig, configuration_valid, validate_and_update_status}
use ocp_spire_operator.Server.Ttl.{
  Lifetimes, TtlValidationResult, validate_ttl_durations_with_warnings,
}
use ocp_spire_operator.Server.Federation.{FederationConfig, validate_federation_config}
use ocp_spire_operator.Reconciler.{Ztwim}
use ocp_spire_operator.Reconciler.Checks.{
  Surroundings, checked, invalid, checked_proxy, passed, invalid_url,
}

abbrev pub ttl_configuration_valid : String
ttl_configuration_valid = "TTLConfigurationValid"

-- The SpireServer resource, as far as the controller reads it itself.
pub record SpireServer (V : Type 0) : Type 0 where
  pub name : String
  pub owners : List OwnerReference
  pub conditions : List MetaCondition
  pub common : CommonConfig V
  pub jwt_issuer : String
  pub lifetimes : Lifetimes
  pub federation : Option FederationConfig

module _ {V : Type 0} (api : ConditionsApi) (s : Surroundings V) where
  abbrev pub invalid_federation : SpireServer V → Ztwim → Manager → Option Error × Manager
  invalid_federation server ztwim m =
      invalid "InvalidFederationConfiguration" "Federation configuration validation failed: "
        (validate_federation_config server.federation ztwim.trust_domain) m

  abbrev pub after_url : SpireServer V → Ztwim → Manager → Option Error × Manager
  after_url server ztwim m =
      checked (invalid_federation server ztwim m)
        (passed (api.find server.conditions configuration_valid))

  abbrev pub after_proxy : SpireServer V → Ztwim → Manager → Option Error × Manager
  after_proxy server ztwim m =
      checked (invalid_url s.parse_url server.jwt_issuer m) (after_url server ztwim)

  abbrev pub after_common : SpireServer V → Ztwim → Manager → Option Error × Manager
  after_common server ztwim m = checked (checked_proxy s.environment m) (after_proxy server ztwim)

  -- The shared fields, the proxy, the issuer's URL, the federation, each where the ones before it are
  -- valid.
  unfoldable pub validate_configuration : SpireServer V → Ztwim → Manager → Option Error × Manager
  validate_configuration server ztwim m =
      checked (validate_and_update_status s.validators "SpireServer" server.name server.common m)
        (after_common server ztwim)

module _ {W : Type 0} (record_warning : String → W → W) where
  abbrev record_warnings : List String → W → W
  record_warnings [] w = w
  record_warnings (warning ∷ warnings) w = record_warnings warnings (record_warning warning w)

  abbrev pub report_lifetimes : TtlValidationResult → Option Error → List String → Action W
  report_lifetimes r (some e) warnings m w =
      fails ttl_configuration_valid "TTLValidationFailed" (error_text e) e m w
  report_lifetimes r none [] m w =
      succeeded
        (add_condition ttl_configuration_valid "TTLValidationSucceeded" "TTL configuration is valid"
          condition_true m)
        w
  report_lifetimes r none (warning ∷ warnings) m w =
      succeeded
        (add_condition ttl_configuration_valid "TTLValidationWarning" r.status_message
          condition_true m)
        (record_warnings (warning ∷ warnings) w)

  unfoldable pub handle_ttl_validation : (ℤ → String) → Lifetimes → Action W
  handle_ttl_validation print lifetimes m w =
      let r = validate_ttl_durations_with_warnings print lifetimes in
      report_lifetimes r r.error r.warnings m w
