-- ===== src/Examples/Steps.antt =====
-- Runs of the steps on one object, of the shared validation and of the SpireServer controller.
use ocp_spire_operator.Prelude.{
  ℕ, true, false, not, String, List, [], ◌∷◌, Option, none, some, ◌==◌, nat_eq, arith, ◌≡◌, ◌≢◌,
  ◌⊎◌, refl, sym, ap, eq_iff,
}
use ocp_spire_operator.Kube.{condition_true, Error, wrapped_error}
use ocp_spire_operator.Status.{new_manager}
use ocp_spire_operator.Status.Health.{Got, got, get_failed}
use ocp_spire_operator.Objects.{Attempt, done, succeeded, announce, ObjectClient, Kind, ensure}
use ocp_spire_operator.Objects.CreateOnly.{IsCreation, ensure-create_only}
use ocp_spire_operator.Objects.Errors.{Reports, ensure-Reports}
use ocp_spire_operator.Objects.Again.{IsObjectStore, ensure-twice}
use ocp_spire_operator.Objects.Comparable.{Object, service_account, object_fields}
use ocp_spire_operator.Objects.Kinds.{plain}
use ocp_spire_operator.Compare.{labels_match}
use ocp_spire_operator.Compare.Rules.{resource_needs_update}
use ocp_spire_operator.Prelude.Dict.{lookup}
use ocp_spire_operator.Examples.Kept.{fields}
use ocp_spire_operator.Validation.{
  CommonConfig, Validators, ValidationResult, Url, is_valid_url, validate_and_update_status,
  validate_common_config_with_details,
}
use ocp_spire_operator.Validation.Urls.{is_valid_url_iff}
use ocp_spire_operator.Validation.Reports.{
  IsValid, Says, condition_of, last, validate_and_update_status_cases,
}
use ocp_spire_operator.Examples.Api.{api_errors, not_found, forbidden}

-- A cluster that holds at most one object, a number.
abbrev Cluster : Type 0
Cluster = Option ℕ

abbrev read : Cluster → Got ℕ
read none = get_failed not_found
read (some n) = got n

abbrev pub numbers : ObjectClient Cluster ℕ
numbers = record {
  set_controller_reference = λ d. done d;
  get = λ d w. read w;
  create = λ d w. (none, some d);
  update = λ d w. (none, some d);
}

-- The same, where nothing may be written.
abbrev pub read_only : ObjectClient Cluster ℕ
read_only = record numbers {
  create = λ d w. (some forbidden, w);
  update = λ d w. (some forbidden, w);
}

abbrev number : Kind ℕ
number = record {
  condition_type = "NumberAvailable";
  label = "Number";
  success = some "Number available";
  prepare = λ existing desired. desired;
  needs_update = λ existing desired. not (nat_eq existing desired);
  finish = λ existing desired. desired;
}

ensure-create_only_example :
    ((ensure api_errors numbers number true 3 new_manager (some 2)).cluster ≡ some 2)
    ⊎ IsCreation api_errors numbers number
        (done 3)
        (some 2)
        (ensure api_errors numbers number true 3 new_manager (some 2)).cluster
ensure-create_only_example = ensure-create_only api_errors numbers number 3 new_manager (some 2)

ensure-Reports_example :
    Reports api_errors read_only number new_manager
      (ensure api_errors read_only number false 3 new_manager none)
ensure-Reports_example = ensure-Reports api_errors read_only number false 3 new_manager none

-- A cluster that holds at most one object.
abbrev Single : Type 0
Single = Option (Object ℕ)

abbrev read_object : Single → Got (Object ℕ)
read_object none = get_failed not_found
read_object (some o) = got o

abbrev objects : ObjectClient Single (Object ℕ)
objects = record {
  set_controller_reference = λ d. done d;
  get = λ d w. read_object w;
  create = λ d w. (none, some d);
  update = λ d w. (none, some d);
}

read_written :
    (d : Object ℕ) (w' : Single)
    → ◌≡◌ {A = Option Error × Single} (none, some d) (none, w')
    → read_object w' ≡ got d
read_written d w' h = ap (λ (v : Option Error × Single). read_object v.1) (sym h)

objects-IsObjectStore : IsObjectStore objects
objects-IsObjectStore = record {
  get-create = λ d w w' h. (d, read_written d w' h, (λ k v l. l, λ k v l. l, refl));
  get-update = λ d version w w' h. (
    record d { resource_version = version },
    read_written (record d { resource_version = version }) w' h,
    (λ k v l. l, λ k v l. l, refl),
  );
}

abbrev account : Object ℕ
account = record {
  resource_version = "";
  metadata = record { labels = ("app", "spire-server") ∷ []; annotations = [] };
  content =
      service_account (record { automount_service_account_token = none; image_pull_secrets = [] });
}

-- The account as another operator left it.
abbrev stored_account : Object ℕ
stored_account = record account {
  resource_version = "7";
  metadata = record { labels = ("owner", "other") ∷ []; annotations = [] };
}

ensure-twice_example :
    let kind =
      plain (object_fields nat_eq fields) "ServiceAccountAvailable" "ServiceAccount" none in
    ensure api_errors objects kind false account new_manager
      (ensure api_errors objects kind false account new_manager (some stored_account)).cluster
    ≡ succeeded
        (announce api_errors objects kind none new_manager)
        (ensure api_errors objects kind false account new_manager (some stored_account)).cluster
unfolding lookup
ensure-twice_example =
    ensure-twice api_errors objects objects-IsObjectStore nat_eq (λ v. ground arith) fields
      "ServiceAccountAvailable" "ServiceAccount" none account account new_manager new_manager
      (some stored_account) refl (refl, tt) tt returned
  where
    returned :
        (ensure api_errors objects
          (plain (object_fields nat_eq fields) "ServiceAccountAvailable" "ServiceAccount" none)
          false
          account
          new_manager
          (some stored_account)).error
        ≡ none
    returned = unfold ensure in unfold resource_needs_update in unfold labels_match in refl

abbrev parse : String → Attempt Url
parse s = done (record {
  scheme = "HTTPS";
  host = "oidc.example.org";
  path = "";
  raw_query = "";
  fragment = "";
})

differ : (a b : String) → (a == b) ≡ false → a ≢ b
differ a b h k = ground (arith, eq_iff a b, h, k)

is_valid_url_iff_example : is_valid_url parse "HTTPS://oidc.example.org" ≡ none
is_valid_url_iff_example = (is_valid_url_iff parse "HTTPS://oidc.example.org").1 (
  differ "HTTPS://oidc.example.org" "" refl,
  (
    record {
      scheme = "HTTPS";
      host = "oidc.example.org";
      path = "";
      raw_query = "";
      fragment = "";
    },
    refl,
    (refl, differ "oidc.example.org" "" refl, refl, refl),
  ),
)

-- Validators that refuse the resources and the labels.
abbrev strict : Validators ℕ
strict = record {
  affinity = λ a. [];
  tolerations = λ ts. [];
  node_selector = λ s. [];
  resources = λ r. "limits: must be positive" ∷ [];
  labels = λ l. "labels: invalid key" ∷ [];
}

abbrev pub common : CommonConfig ℕ
common = record {
  affinity = none;
  tolerations = [];
  node_selector = [];
  resources = some 1;
  labels = ("a", "b") ∷ [];
}

validate_and_update_status_cases_example :
    let (error, m') =
      validate_and_update_status strict "SpireServer" "cluster" common new_manager in
    (IsValid strict common
      × (error ≡ none)
      × Says strict
          (record {
            type = "ConfigurationValid";
            status = condition_true;
            reason = "ConfigurationValid";
            message = "All configuration fields are valid";
          })
          m')
    ⊎ ((r : ValidationResult) × (rs : List ValidationResult) × (validate_common_config_with_details
            strict common
          ≡ r ∷ rs)
        × ((text : String) × (error ≡ some (wrapped_error text r.error)))
        × Says strict (condition_of (last r rs)) m')
validate_and_update_status_cases_example =
    validate_and_update_status_cases strict "SpireServer" "cluster" common new_manager
