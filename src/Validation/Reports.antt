-- ===== src/Validation/Reports.antt =====
-- What the shared validation reports.
use ocp_spire_operator.Prelude.{
  String, List, [], ◌∷◌, none, some, arith, ◌≡◌, ◌↔◌, ◌⊎◌, inl, inr, refl,
}
use ocp_spire_operator.Prelude.Dict.{lookup}
use ocp_spire_operator.Kube.{wrapped_error, condition_true, condition_false}
use ocp_spire_operator.Status.{Condition, Manager, add_condition}
use ocp_spire_operator.Status.Ready.{lookup-add_condition_self}
use ocp_spire_operator.Validation.{
  configuration_valid, CommonConfig, Validators, ValidationResult, validate_common_config_affinity,
  validate_common_config_tolerations, validate_common_config_node_selector,
  validate_common_config_resources, validate_common_config_labels,
  validate_common_config_with_details, validate_common_config, add_results, update_status,
  validate_and_update_status,
}

-- The last of the results.
abbrev pub last : ValidationResult → List ValidationResult → ValidationResult
last r [] = r
last r (s ∷ rs) = last s rs

abbrev pub condition_of : ValidationResult → Condition
condition_of r = record {
  type = configuration_valid;
  status = condition_false;
  reason = r.condition_value;
  message = r.error_message;
}

lookup-add_results :
    {V : Type 0} (validators : Validators V) (r : ValidationResult) (rs : List ValidationResult)
    (m : Manager)
    → lookup configuration_valid (add_results validators (r ∷ rs) m).conditions
      ≡ some (condition_of (last r rs))
lookup-add_results validators r [] m =
    lookup-add_condition_self configuration_valid r.condition_value r.error_message condition_false
      m
lookup-add_results validators r (s ∷ rs) m =
    lookup-add_results validators s rs
      (add_condition configuration_valid r.condition_value r.error_message condition_false m)

module _ {V : Type 0} (validators : Validators V) where
  -- Every field of the configuration is accepted.
  abbrev pub IsValid : CommonConfig V → Type 0
  IsValid c =
      (validate_common_config_affinity validators c.affinity ≡ none)
      × (validate_common_config_tolerations validators c.tolerations ≡ none)
      × (validate_common_config_node_selector validators c.node_selector ≡ none)
      × (validate_common_config_resources validators c.resources ≡ none)
      × (validate_common_config_labels validators c.labels ≡ none)

  details_iff :
      (c : CommonConfig V) → (validate_common_config_with_details validators c ≡ []) ↔ IsValid c
  unfolding validate_common_config_with_details
  details_iff c = ground arith

  -- The two functions that validate the shared configuration accept the same ones.
  validate_common_config_iff :
      (c : CommonConfig V)
      → (validate_common_config validators c ≡ none)
        ↔ (validate_common_config_with_details validators c ≡ [])
  unfolding validate_common_config validate_common_config_with_details
  validate_common_config_iff c = ground arith

  abbrev pub Says : Condition → Manager → Type 0
  Says c m = lookup configuration_valid m.conditions ≡ some c

  -- Either every field is accepted: there is no error and ConfigurationValid is True; or the returned
  -- error wraps that of the first field that is refused, while ConfigurationValid is False with the
  -- reason and the message of the last one.
  pub validate_and_update_status_cases :
      (kind name : String) (c : CommonConfig V) (m : Manager)
      → let (error, m') = validate_and_update_status validators kind name c m in
        (IsValid c
          × (error ≡ none)
          × Says
              (record {
                type = configuration_valid;
                status = condition_true;
                reason = "ConfigurationValid";
                message = "All configuration fields are valid";
              })
              m')
        ⊎ ((r : ValidationResult) × (rs : List ValidationResult)
            × (validate_common_config_with_details validators c ≡ r ∷ rs)
            × ((text : String) × (error ≡ some (wrapped_error text r.error)))
            × Says (condition_of (last r rs)) m')
  unfolding validate_and_update_status
  validate_and_update_status_cases kind name c m =
      go (validate_common_config_with_details validators c) refl
    where
      go :
          (results : List ValidationResult)
          → validate_common_config_with_details validators c ≡ results
          → let (error, m') = update_status validators kind name results m in
            (IsValid c
              × (error ≡ none)
              × Says
                  (record {
                    type = configuration_valid;
                    status = condition_true;
                    reason = "ConfigurationValid";
                    message = "All configuration fields are valid";
                  })
                  m')
            ⊎ ((r : ValidationResult) × (rs : List ValidationResult)
                × (validate_common_config_with_details validators c ≡ r ∷ rs)
                × ((text : String) × (error ≡ some (wrapped_error text r.error)))
                × Says (condition_of (last r rs)) m')
      go [] h = inl (
        (details_iff c).0 h,
        refl,
        lookup-add_condition_self configuration_valid "ConfigurationValid"
            "All configuration fields are valid" condition_true m,
      )
      go (r ∷ rs) h = inr (r, rs, h, (_, refl), lookup-add_results validators r rs m)
