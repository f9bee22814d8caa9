-- ===== src/Settings.antt =====
-- The settings that the generated configurations share: GetLogLevelFromString and
-- GetLogFormatFromString of pkg/controller/utils/utils.go, and how a value becomes a member.
use ocp_spire_operator.Prelude.{Bool, true, false, String, ◌==◌, if◌then◌else◌}
use ocp_spire_operator.Prelude.Int.{ℤ, pos, eq_ℤ}
use ocp_spire_operator.Prelude.Dict.{Dict, insert}
use ocp_spire_operator.Prelude.Text.{print_int}
use ocp_spire_operator.Json.{Json}
use Prim.Native.String.{◌++◌}

abbrev pub or_default : String → String → String
or_default default s = if s == "" then default else s

unfoldable pub get_log_level_from_string : String → String
get_log_level_from_string = or_default "info"

unfoldable pub get_log_format_from_string : String → String
get_log_format_from_string = or_default "text"

-- `fmt.Sprintf("%ds", n)`.
abbrev pub seconds : ℤ → String
seconds n = print_int n ++ "s"

-- `if set { m[key] = value }`.
abbrev pub insert_if : Bool → String → Json → Dict Json → Dict Json
insert_if true key value m = insert key value m
insert_if false key value m = m

-- The value, or the default where it is not set.
abbrev pub or_default_ℤ : ℤ → ℤ → ℤ
or_default_ℤ default n = if eq_ℤ n (pos 0) then default else n
