-- ===== src/Env.antt =====
-- The operator's environment variables: `IsInCreateOnlyMode`, `StringToBool` and the small accessors of
-- pkg/controller/utils/utils.go. The value of a variable is an argument; an unset one is empty.
use ocp_spire_operator.Prelude.{◌≡◌, refl, Bool, true, false, ◌||◌, String, if◌then◌else◌}
use ocp_spire_operator.Prelude.Text.{codes, to_upper, trim_space, same_codes}

-- The warning about an invalid value is only logged.
unfoldable pub is_in_create_only_mode : String → Bool
is_in_create_only_mode env =
    let normalized = to_upper (trim_space (codes env)) in
    if same_codes normalized (codes "TRUE")
    then true
    else if same_codes normalized (codes "FALSE") || same_codes normalized (codes "")
    then false
    else false

create_only_spellings : is_in_create_only_mode " tRue\n" ≡ true
unfolding is_in_create_only_mode
create_only_spellings = refl
