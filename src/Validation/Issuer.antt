-- ===== src/Validation/Issuer.antt =====
-- pkg/controller/utils/url_validation.go: the JWT issuer as the configurations have it. `parse` is
-- `url.Parse` and `lower` is `strings.ToLower`.
use ocp_spire_operator.Prelude.{Option, Bool, ◌&&◌, String, none, some, ◌==◌, if◌then◌else◌, nat_eq}
use ocp_spire_operator.Kube.{Error, wrapped_error, error_text}
use ocp_spire_operator.Objects.{Attempt, done, failed}
use ocp_spire_operator.Validation.{Url, is_valid_url}
use Prim.Native.Char.{Char, code}
use Prim.Native.String.{◌++◌}

abbrev pub is_slash : Char → Bool
is_slash c = nat_eq (code c) b'/'

-- `strings.TrimRight(s, "/")`.
unfoldable pub trim_slashes : String → String
trim_slashes String.[] = ""
trim_slashes (String.◌∷◌ c s) =
    let rest = trim_slashes s in if is_slash c && rest == "" then "" else String.◌∷◌ c rest

abbrev or_root : String → String
or_root trimmed = if trimmed == "" then "/" else trimmed

-- A text of one character that is more than one byte is not changed either way.
unfoldable pub remove_trailing_slash : String → String
remove_trailing_slash String.[] = ""
remove_trailing_slash (String.◌∷◌ c String.[]) = String.◌∷◌ c ""
remove_trailing_slash (String.◌∷◌ c (String.◌∷◌ d s)) =
    or_root (trim_slashes (String.◌∷◌ c (String.◌∷◌ d s)))

unfoldable pub strip_protocol : Url → String
strip_protocol u = remove_trailing_slash (u.host ++ u.path)

abbrev pub parsed : (Url → String) → Attempt Url → Attempt String
parsed f (done u) = done (f u)
parsed f (failed e) = failed (wrapped_error ("invalid URL format: " ++ error_text e) e)

-- `if err != nil { return "", err }`.
abbrev pub unless_refused : Option Error → Attempt String → Attempt String
unless_refused (some e) result = failed e
unless_refused none result = result

-- `fmt.Errorf("invalid issuer URL: %w", err)`.
abbrev invalid_issuer : Error → Error
invalid_issuer e = wrapped_error ("invalid issuer URL: " ++ error_text e) e

module _ (parse : String → Attempt Url) (lower : String → String) where
  unfoldable pub build_normalized_url : Url → String
  build_normalized_url u =
      remove_trailing_slash (lower u.scheme ++ ("://" ++ (lower u.host ++ u.path)))

  unfoldable pub normalize_url : String → Attempt String
  normalize_url issuer_url =
      unless_refused (is_valid_url parse issuer_url)
        (parsed build_normalized_url (parse issuer_url))

  abbrev pub stripped : Attempt String → Attempt String
  stripped (failed e) = failed (invalid_issuer e)
  stripped (done normalized) = parsed strip_protocol (parse normalized)

  unfoldable pub strip_protocol_from_jwt_issuer : String → Attempt String
  strip_protocol_from_jwt_issuer issuer_url =
      if issuer_url == "" then done "" else elim (is_valid_url parse issuer_url) [
        | some e ↦ failed (invalid_issuer e)
        | none ↦ stripped (normalize_url issuer_url)
      ]
