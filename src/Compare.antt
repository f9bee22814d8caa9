-- ===== src/Compare.antt =====
-- pkg/controller/utils/resource_comparison.go: whether an object of the cluster differs from the one
-- that the operator wants. Of the objects, the fields that this code reads. A field that only
-- `equality.Semantic.DeepEqual` looks into is a value of the type `V`, and that function a parameter.
pub mod Container
pub mod Workload
pub mod Rules
pub mod Metadata
use ocp_spire_operator.Prelude.{
  ℕ, Bool, true, false, ◌||◌, ◌&&◌, not, String, List, [], ◌∷◌, Option, none, some, ◌==◌, nat_eq,
  length, all_of, any_of, if◌then◌else◌,
}
use ocp_spire_operator.Prelude.Int.{ℤ, eq_ℤ}
use ocp_spire_operator.Prelude.Dict.{Dict, lookup, insert}

-- `v, exists := m[k]; exists && v == w`.
abbrev pub holds : Option String → String → Bool
holds none w = false
holds (some v) w = v == w

-- The order in which the loop meets the desired labels does not change the answer.
unfoldable pub labels_match : Dict String → Dict String → Bool
labels_match existing [] = true
labels_match existing ((k, v) ∷ desired) =
    holds (lookup k existing) v && labels_match existing desired

unfoldable pub annotations_match : Dict String → Dict String → Bool
annotations_match existing [] = true
annotations_match existing ((k, v) ∷ desired) =
    holds (lookup k existing) v && annotations_match existing desired

abbrev pub bool_eq : Bool → Bool → Bool
bool_eq true b = b
bool_eq false b = not b

unfoldable pub bool_ptrs_equal : Option Bool → Option Bool → Bool
bool_ptrs_equal none none = true
bool_ptrs_equal none (some b) = false
bool_ptrs_equal (some a) none = false
bool_ptrs_equal (some a) (some b) = bool_eq a b

-- A test for membership: the keys of a map of Booleans.
abbrev pub is_in : String → List String → Bool
is_in s ss = any_of (λ t. t == s) ss

unfoldable pub string_slices_equal : List String → List String → Bool
string_slices_equal existing desired =
    nat_eq (length existing) (length desired) && all_of (λ s. is_in s existing) desired

-- `FSType` is a text.
unfoldable pub fs_type_slices_equal : List String → List String → Bool
fs_type_slices_equal existing desired =
    nat_eq (length existing) (length desired) && all_of (λ s. is_in s existing) desired

-- The names of the references.
unfoldable pub local_object_references_equal : List String → List String → Bool
local_object_references_equal existing desired =
    nat_eq (length existing) (length desired) && all_of (λ s. is_in s existing) desired

pub record ServiceAccount : Type 0 where
  pub automount_service_account_token : Option Bool
  pub image_pull_secrets : List String

unfoldable pub service_account_needs_update : ServiceAccount → ServiceAccount → Bool
unfolding bool_ptrs_equal local_object_references_equal
service_account_needs_update existing desired =
    elim desired.automount_service_account_token [
      | none ↦ false
      | some b ↦ not (
          bool_ptrs_equal existing.automount_service_account_token
            desired.automount_service_account_token)
    ]
    || elim desired.image_pull_secrets [
      | [] ↦ false
      | s ∷ ss ↦
          not (local_object_references_equal existing.image_pull_secrets desired.image_pull_secrets)
    ]
