-- ===== src/Server/Ttl.antt =====
-- The validation of the lifetimes in pkg/controller/spire-server/validation.go. A `time.Duration` is
-- an int64 count of nanoseconds; products wrap and quotients truncate as Go's do.
pub mod Laws
pub mod Advice
use ocp_spire_operator.Prelude.{
  ℕ, ◌*◌, ◌≡◌, refl, Bool, true, false, not, String, List, [], ◌∷◌, Option, none, some, length,
  if◌then◌else◌,
}
use ocp_spire_operator.Prelude.Int.{ℤ, pos, leb_ℤ, ltb_ℤ, mul_int64, quot}
use ocp_spire_operator.Prelude.Text.{print_nat}
use ocp_spire_operator.Kube.{Error, text_error}
use Prim.Native.String.{◌++◌}

-- 7 * 24 * time.Hour
abbrev pub activation_threshold_cap : ℤ
activation_threshold_cap = pos (7 * 24 * 3600000000000)

abbrev pub activation_threshold_divisor : ℕ
activation_threshold_divisor = 6

abbrev pub max_svid_ttl : ℤ
max_svid_ttl = activation_threshold_cap

unfoldable pub max_svid_ttl_for_ca_ttl : ℤ → ℤ
max_svid_ttl_for_ca_ttl ca_ttl =
    if ltb_ℤ (quot ca_ttl activation_threshold_divisor) activation_threshold_cap
    then quot ca_ttl activation_threshold_divisor
    else activation_threshold_cap

unfoldable pub min_ca_ttl_for_svid_ttl : ℤ → ℤ
min_ca_ttl_for_svid_ttl svid_ttl = mul_int64 svid_ttl activation_threshold_divisor

unfoldable pub has_compatible_ttl : ℤ → ℤ → Bool
has_compatible_ttl ca_ttl svid_ttl = leb_ℤ svid_ttl (max_svid_ttl_for_ca_ttl ca_ttl)

-- The lifetimes of a SpireServerSpec.
pub record Lifetimes : Type 0 where
  pub ca_validity : ℤ
  pub default_x509_validity : ℤ
  pub default_jwt_validity : ℤ

pub record TtlValidationResult : Type 0 where
  pub warnings : List String
  pub status_message : String
  pub error : Option Error

abbrev refused : String → TtlValidationResult
refused message = record { warnings = []; status_message = ""; error = some (text_error message) }

-- `print` is `Duration.String` of Go's time package, whose text no test reads.
module _ (print : ℤ → String) where
  -- The message of one lifetime that the CA's lifetime does not accommodate.
  unfoldable pub ttl_message : String → ℤ → ℤ → String
  ttl_message name ttl ca_ttl =
      if ltb_ℤ ttl max_svid_ttl
      then name
        ++ (" is too high for the configured ca_ttl value. SVIDs with shorter lifetimes may be issued. Please set "
            ++ (name
                ++ (" to "
                    ++ (print (max_svid_ttl_for_ca_ttl ca_ttl)
                        ++ (" or less, or the ca_ttl to "
                            ++ (print (min_ca_ttl_for_svid_ttl ttl)
                                ++ (" or more, to guarantee the full "
                                    ++ (name ++ " lifetime when CA rotations are scheduled."))))))))
      else if ltb_ℤ ca_ttl (min_ca_ttl_for_svid_ttl max_svid_ttl)
      then name
        ++ (" is too high and the ca_ttl is too low. SVIDs with shorter lifetimes may be issued. Please set "
            ++ (name
                ++ (" to "
                    ++ (print max_svid_ttl
                        ++ (" or less, and the ca_ttl to "
                            ++ (print (min_ca_ttl_for_svid_ttl max_svid_ttl)
                                ++ (" or more, to guarantee the full "
                                    ++ (name ++ " lifetime when CA rotations are scheduled."))))))))
      else name
        ++ (" is too high. SVIDs with shorter lifetimes may be issued. Please set "
            ++ (name
                ++ (" to "
                    ++ (print (max_svid_ttl_for_ca_ttl ca_ttl)
                        ++ (" or less to guarantee the full "
                            ++ (name ++ " lifetime when CA rotations are scheduled."))))))

  unfoldable pub ttl_warnings : ℤ → List (String × ℤ) → List String
  ttl_warnings ca_ttl [] = []
  ttl_warnings ca_ttl ((name, ttl) ∷ checks) =
      let rest = ttl_warnings ca_ttl checks in
      if not (has_compatible_ttl ca_ttl ttl) then ttl_message name ttl ca_ttl ∷ rest else rest

  abbrev pub warnings_message : List String → String
  warnings_message [] = ""
  warnings_message (w ∷ ws) =
      "TTL configuration warnings: " ++ (print_nat (length (w ∷ ws)) ++ " issues found")

  abbrev pub ttl_checks : Lifetimes → List (String × ℤ)
  ttl_checks config =
      ("default_x509_svid_ttl", config.default_x509_validity)
      ∷ ("default_jwt_svid_ttl", config.default_jwt_validity)
      ∷ []

  unfoldable pub validate_ttl_durations_with_warnings : Lifetimes → TtlValidationResult
  validate_ttl_durations_with_warnings config =
      if leb_ℤ config.ca_validity (pos 0)
      then refused "ca_ttl must be a positive duration"
      else if leb_ℤ config.default_x509_validity (pos 0)
      then refused "default_x509_svid_ttl must be a positive duration"
      else if leb_ℤ config.default_jwt_validity (pos 0)
      then refused "default_jwt_svid_ttl must be a positive duration"
      else if ltb_ℤ config.ca_validity config.default_jwt_validity
      then refused "ca_validity must be greater than default_jwt_svid_ttl"
      else if ltb_ℤ config.ca_validity config.default_x509_validity
      then refused "ca_validity must be greater than default_ca_ttl"
      else (let warnings = ttl_warnings config.ca_validity (ttl_checks config) in
          record { warnings = warnings; status_message = warnings_message warnings; error = none })
