-- ===== src/ApiClient.antt =====
-- pkg/client/client.go: what the operator's client adds to that of controller-runtime. Of an object, the
-- name that its messages have and its resource version; the methods that only forward are left out.
pub mod Settled
use ocp_spire_operator.Prelude.{
  ℕ, zero, suc, Bool, true, false, String, Option, none, some, if◌then◌else◌,
}
use ocp_spire_operator.Kube.{Error, ApiErrors, wrapped_error, error_text}
use ocp_spire_operator.Objects.{Attempt, done, failed}
use Prim.Native.String.{◌++◌}

abbrev pub Result : Type 0 → Type 0
Result W = Option Error × W

-- `fmt.Errorf("failed to …: %w", err)`; the key is quoted.
abbrev fetch_failed : String → Error → Error
fetch_failed key e =
    wrapped_error ("failed to fetch latest \"" ++ (key ++ ("\" for update: " ++ error_text e))) e

abbrev pub update_failed : String → Error → Error
update_failed key e =
    wrapped_error ("failed to update \"" ++ (key ++ ("\" resource: " ++ error_text e))) e

module _ {W : Type 0} where
  abbrev pub reported : String → Result W → Result W
  reported key (none, w) = (none, w)
  reported key (some e, w) = (some (update_failed key e), w)

  abbrev pub written : String → (String → W → Result W) → Attempt String → W → Result W
  written key put (failed e) w = (some (fetch_failed key e), w)
  written key put (done version) w = reported key (put version w)

  -- The function that is retried: the resource version is read, and the object is written with it.
  unfoldable pub attempt : String → (W → Attempt String) → (String → W → Result W) → W → Result W
  attempt key fetch put w = written key put (fetch w) w

  -- `retry` is `retry.RetryOnConflict(retry.DefaultRetry, …)`.
  unfoldable pub update_with_retry :
      ((W → Result W) → W → Result W)
      → String
      → (W → Attempt String)
      → (String → W → Result W)
      → W
      → Result W
  update_with_retry retry key fetch update = retry (attempt key fetch update)

  unfoldable pub status_update_with_retry :
      ((W → Result W) → W → Result W)
      → String
      → (W → Attempt String)
      → (String → W → Result W)
      → W
      → Result W
  status_update_with_retry retry key fetch status_update = retry (attempt key fetch status_update)

  abbrev unless_exists : ApiErrors → (W → Result W) → Result W → Result W
  unless_exists errors update (none, w) = (none, w)
  unless_exists errors update (some e, w) =
      if errors.is_already_exists e then update w else (some e, w)

  unfoldable create_or_update_object : ApiErrors → (W → Result W) → (W → Result W) → W → Result W
  create_or_update_object errors create update w = unless_exists errors update (create w)

-- `Exists`, of what `Get` answers.
unfoldable exists_of : ApiErrors → Option Error → Bool × Option Error
exists_of errors none = (true, none)
exists_of errors (some e) = if errors.is_not_found e then (false, none) else (false, some e)
