-- ===== src/Validation.antt =====
-- pkg/controller/utils/validation.go and url_validation.go: the configuration that the operands share,
-- and URLs. The validation functions of the Kubernetes libraries and of
-- validation_helpers_duplication.go, and `url.Parse`, are parameters. `V` is a value that only they
-- look into.
pub mod Reports
pub mod Urls
pub mod Issuer
pub mod Slashes
use ocp_spire_operator.Prelude.{
  ℕ, Bool, true, false, ◌&&◌, not, String, List, [], ◌∷◌, ◌++◌, Option, none, some, ◌==◌, ◌||◌,
  if◌then◌else◌,
}
use ocp_spire_operator.Prelude.Dict.{Dict}
use ocp_spire_operator.Prelude.Text.{join, codes, to_lower, same_codes}
use ocp_spire_operator.Kube.{
  Error, text_error, wrapped_error, error_text, condition_true, condition_false,
}
use ocp_spire_operator.Status.{Manager, add_condition}
use ocp_spire_operator.Objects.{Attempt, done, failed}
use Prim.Native.String.{◌++◌ as concat}

abbrev pub configuration_valid : String
configuration_valid = "ConfigurationValid"

-- The configuration that an operand shares with the others; a nil pointer is `none`.
pub record CommonConfig (V : Type 0) : Type 0 where
  pub affinity : Option V
  pub tolerations : List (Option V)
  pub node_selector : Dict String
  pub resources : Option V
  pub labels : Dict String

-- The texts of the errors that a validation function gives.
pub record Validators (V : Type 0) : Type 0 where
  pub affinity : V → List String
  pub tolerations : List V → List String
  pub node_selector : Dict String → List String
  pub resources : V → List String
  pub labels : Dict String → List String

-- `if len(errs) > 0 { return error of the list }`.
unfoldable pub field_error_list_to_error : List String → Option Error
field_error_list_to_error [] = none
field_error_list_to_error (e ∷ es) = some (text_error (join "; " (e ∷ es)))

-- The tolerations that are not nil.
abbrev pub present {ℓ} : {A : Type ℓ} → List (Option A) → List A
present [] = []
present (none ∷ os) = present os
present (some a ∷ os) = a ∷ present os

pub record ValidationResult : Type 0 where
  pub field_name : String
  pub condition_value : String
  pub error_message : String
  pub error : Error

abbrev result_of : String → String → String → Option Error → List ValidationResult
result_of field_name condition_value title none = []
result_of field_name condition_value title (some e) =
    record {
      field_name = field_name;
      condition_value = condition_value;
      error_message = concat title (concat " validation failed: " (error_text e));
      error = e;
    }
    ∷ []

module _ {V : Type 0} (validators : Validators V) where
  unfoldable pub validate_common_config_affinity : Option V → Option Error
  validate_common_config_affinity none = none
  validate_common_config_affinity (some affinity) =
      field_error_list_to_error (validators.affinity affinity)

  unfoldable pub validate_common_config_tolerations : List (Option V) → Option Error
  validate_common_config_tolerations [] = none
  validate_common_config_tolerations (t ∷ ts) =
      field_error_list_to_error (validators.tolerations (present (t ∷ ts)))

  unfoldable pub validate_common_config_node_selector : Dict String → Option Error
  validate_common_config_node_selector [] = none
  validate_common_config_node_selector (s ∷ ss) =
      field_error_list_to_error (validators.node_selector (s ∷ ss))

  unfoldable pub validate_common_config_resources : Option V → Option Error
  validate_common_config_resources none = none
  validate_common_config_resources (some r) = field_error_list_to_error (validators.resources r)

  unfoldable pub validate_common_config_labels : Dict String → Option Error
  validate_common_config_labels [] = none
  validate_common_config_labels (l ∷ ls) = field_error_list_to_error (validators.labels (l ∷ ls))

  unfoldable pub validate_common_config_with_details : CommonConfig V → List ValidationResult
  validate_common_config_with_details c =
      result_of "affinity" "InvalidAffinity" "Affinity" (validate_common_config_affinity c.affinity)
      ++ result_of "tolerations" "InvalidTolerations" "Tolerations"
          (validate_common_config_tolerations c.tolerations)
      ++ result_of "nodeSelector" "InvalidNodeSelector" "NodeSelector"
          (validate_common_config_node_selector c.node_selector)
      ++ result_of "resources" "InvalidResources" "Resources"
          (validate_common_config_resources c.resources)
      ++ result_of "labels" "InvalidLabels" "Labels" (validate_common_config_labels c.labels)

  -- `wrapped_as prefix first`: the first of the checks that fails, with its prefix.
  abbrev wrapped_as : String → Option Error → Option Error → Option Error
  wrapped_as prefix none rest = rest
  wrapped_as prefix (some e) rest = some (wrapped_error (concat prefix (error_text e)) e)

  unfoldable pub validate_common_config : CommonConfig V → Option Error
  validate_common_config c =
      wrapped_as "affinity validation failed: " (validate_common_config_affinity c.affinity) (
        wrapped_as "tolerations validation failed: "
          (validate_common_config_tolerations c.tolerations)
          (wrapped_as "node selector validation failed: "
            (validate_common_config_node_selector c.node_selector)
            (wrapped_as "resources validation failed: "
              (validate_common_config_resources c.resources)
              (wrapped_as "labels validation failed: " (validate_common_config_labels c.labels)
                none))))

  -- One condition for each failure, all of one type.
  abbrev pub add_results : List ValidationResult → Manager → Manager
  add_results [] m = m
  add_results (r ∷ rs) m =
      add_results rs
        (add_condition configuration_valid r.condition_value r.error_message condition_false m)

  abbrev pub update_status :
      String → String → List ValidationResult → Manager → Option Error × Manager
  update_status kind name [] m = (
    none,
    add_condition configuration_valid "ConfigurationValid" "All configuration fields are valid"
        condition_true m,
  )
  update_status kind name (r ∷ rs) m = (
    some (
        wrapped_error
          (concat kind
            (concat "/" (concat name (concat " validation failed: " (error_text r.error)))))
          r.error),
    add_results (r ∷ rs) m,
  )

  unfoldable pub validate_and_update_status :
      String → String → CommonConfig V → Manager → Option Error × Manager
  validate_and_update_status kind name c m =
      update_status kind name (validate_common_config_with_details c) m

-- What `url.Parse` gives, as far as the code reads it.
pub record Url : Type 0 where
  pub scheme : String
  pub host : String
  pub path : String
  pub raw_query : String
  pub fragment : String

-- `if bad { return error }` before the rest.
abbrev pub refusing : Bool → String → Option Error → Option Error
refusing true message rest = some (text_error message)
refusing false message rest = rest

-- The scheme is one of the two, whatever the case of its letters.
abbrev pub is_http : String → Bool
is_http scheme =
    same_codes (to_lower (codes scheme)) (codes "https")
    || same_codes (to_lower (codes scheme)) (codes "http")

unfoldable pub validate_url_components : Url → Option Error
validate_url_components u = refusing (u.scheme == "") "scheme is required" (
    refusing (not (is_http u.scheme)) (concat "scheme must be http or https, got: " u.scheme) (
      refusing (u.host == "") "host is required" (
        refusing (not (u.fragment == "")) "fragments are not allowed"
          (refusing (not (u.raw_query == "")) "query parameters are not allowed" none))))

abbrev pub parsed_url : Attempt Url → Option Error
parsed_url (failed e) = some (wrapped_error (concat "invalid URL format: " (error_text e)) e)
parsed_url (done u) = validate_url_components u

-- `parse` is `url.Parse`.
unfoldable pub is_valid_url : (String → Attempt Url) → String → Option Error
is_valid_url parse issuer_url =
    refusing (issuer_url == "") "issuer URL cannot be empty" (parsed_url (parse issuer_url))
