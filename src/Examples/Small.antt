-- ===== src/Examples/Small.antt =====
-- Runs of the validations, the proxy configuration, the health checks and the verdict on upgrades.
use ocp_spire_operator.Prelude.{
  ℕ, ◌++◌ as ◌followed_by◌, ◌*◌, false, String, [], ◌∷◌, none, some, ◌==◌, arith, ◌≡◌, ◌≢◌, refl,
  inl, inr, eq_iff,
}
use ocp_spire_operator.Prelude.Int.{pos}
use ocp_spire_operator.Prelude.Text.{print_int}
use ocp_spire_operator.Kube.{condition_true}
use ocp_spire_operator.Status.Health.{get_failed}
use ocp_spire_operator.Ztwim.Operand.{OperandStatus, cr_not_found}
use ocp_spire_operator.Ztwim.Upgrade.{found, find_operator_condition, upgrade_verdict}
use ocp_spire_operator.Ztwim.Upgrade.Safety.{upgrade_verdict_iff, find_operator_condition-ne-nil}
use ocp_spire_operator.Server.Ttl.{Lifetimes, validate_ttl_durations_with_warnings}
use ocp_spire_operator.Server.Ttl.Laws.{validate_ttl_accepts_iff}
use ocp_spire_operator.Server.Ttl.Advice.{advice, validate_ttl_warnings-advice}
use ocp_spire_operator.Server.Federation.{
  https_spiffe, https_web, FederatesWithConfig, FederationConfig, validate_federation_config,
}
use ocp_spire_operator.Server.Federation.Laws.{validate_federation_config_iff}
use ocp_spire_operator.Examples.Api.{api_errors, not_found}

abbrev up : OperandStatus
up = record {
  name = "cluster";
  kind = "SpireServer";
  ready = "true";
  message = "Ready";
  conditions = [];
}

abbrev missing : OperandStatus
missing = record up { kind = "SpireAgent"; ready = "false"; message = cr_not_found }

upgrade_verdict_iff_example : (upgrade_verdict false (up ∷ missing ∷ [])).status ≡ condition_true
upgrade_verdict_iff_example =
    (upgrade_verdict_iff false (up ∷ missing ∷ [])).1 (refl, (inl refl, (inr refl, tt)))

find_operator_condition-ne-nil_example :
    find_operator_condition api_errors "ztwim.v1" (get_failed not_found) ≢ found none
find_operator_condition-ne-nil_example =
    find_operator_condition-ne-nil api_errors "ztwim.v1" (get_failed not_found)

-- One hour, in nanoseconds.
abbrev hour : ℕ
hour = 3600000000000

abbrev lifetimes : Lifetimes
lifetimes = record {
  ca_validity = pos (24 * hour);
  default_x509_validity = pos hour;
  default_jwt_validity = pos (2 * hour);
}

validate_ttl_accepts_iff_example :
    (validate_ttl_durations_with_warnings print_int lifetimes).error ≡ none
validate_ttl_accepts_iff_example =
    (validate_ttl_accepts_iff print_int lifetimes).1
      (omega arith, omega arith, omega arith, omega arith)

-- The X.509 lifetime is fine, the other one too long.
abbrev too_long : Lifetimes
too_long = record lifetimes { default_jwt_validity = pos (5 * hour) }

validate_ttl_warnings-advice_example :
    (validate_ttl_durations_with_warnings print_int too_long).warnings
    ≡ advice print_int "default_x509_svid_ttl" hour (24 * hour)
      followed_by advice print_int "default_jwt_svid_ttl" (5 * hour) (24 * hour)
validate_ttl_warnings-advice_example = validate_ttl_warnings-advice print_int too_long accepted
  where
    accepted : (validate_ttl_durations_with_warnings print_int too_long).error ≡ none
    accepted = unfold validate_ttl_durations_with_warnings in refl

abbrev peer : FederatesWithConfig
peer = record {
  trust_domain = "b.org";
  bundle_endpoint_url = "https://b.org/bundle";
  bundle_endpoint_profile = https_spiffe;
  endpoint_spiffe_id = "spiffe://b.org/server";
}

abbrev federation : FederationConfig
federation = record {
  bundle_endpoint = record { profile = https_spiffe; refresh_hint = pos 300; https_web = none };
  federates_with = peer ∷ record peer { trust_domain = "c.org" } ∷ [];
  managed_route = "true";
}

differ : (a b : String) → (a == b) ≡ false → a ≢ b
differ a b h k = ground (arith, eq_iff a b, h, k)

validate_federation_config_iff_example : validate_federation_config (some federation) "a.org" ≡ none
validate_federation_config_iff_example = (validate_federation_config_iff federation "a.org").1 (
  ((λ h. absurd (differ https_spiffe https_web refl h)), (λ h. (omega arith, omega arith))),
  omega arith,
  (
    (differ "b.org" "a.org" refl, (differ "b.org" "" refl, refl, (λ h. refl))),
    ((differ "c.org" "a.org" refl, (differ "c.org" "" refl, refl, (λ h. refl))), tt),
  ),
  ((differ "c.org" "b.org" refl, tt), (tt, tt)),
)
