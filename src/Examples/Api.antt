-- ===== src/Examples/Api.antt =====
-- Concrete functions for what the development takes from the Kubernetes libraries, and that they behave
-- as it relies on.
use ocp_spire_operator.Prelude.{
  Bool, true, false, ◌&&◌, String, List, [], ◌∷◌, Option, none, some, ◌==◌, nat_eq, arith, ◌≡◌, ◌≢◌,
  refl, eq_iff, eq_refl, Bool-cases, inl, inr, if◌then◌else◌,
}
use ocp_spire_operator.Prelude.Int.{eq_ℤ, eq_ℤ_iff}
use ocp_spire_operator.Prelude.Dict.{
  Dict, lookup, insert, lookup-insert, HasDistinctKeys-insert, IsRange,
}
use ocp_spire_operator.Kube.{
  ConditionStatus, same_status, MetaCondition, Error, text_error, api_error, wrapped_error,
  reconcile_error, ApiErrors, ConditionsApi, IsConditionsApi, merged,
}
use ocp_spire_operator.Status.{Condition, Ranges, IsRanges}

unfoldable pub find_condition : List MetaCondition → String → Option MetaCondition
find_condition [] t = none
find_condition (c ∷ cs) t = if c.type == t then some c else find_condition cs t

unfoldable pub set_condition : List MetaCondition → MetaCondition → List MetaCondition
set_condition [] c = c ∷ []
set_condition (d ∷ cs) c =
    if d.type == c.type then merged (some d) c ∷ cs else d ∷ set_condition cs c

abbrev same_condition : MetaCondition → MetaCondition → Bool
same_condition c d =
    c.type == d.type
    && same_status c.status d.status
    && eq_ℤ c.observed_generation d.observed_generation
    && nat_eq c.last_transition_time d.last_transition_time
    && c.reason == d.reason
    && c.message == d.message

unfoldable pub same_conditions : List MetaCondition → List MetaCondition → Bool
same_conditions [] [] = true
same_conditions [] (d ∷ ds) = false
same_conditions (c ∷ cs) [] = false
same_conditions (c ∷ cs) (d ∷ ds) = same_condition c d && same_conditions cs ds

find-set_self :
    (cs : List MetaCondition) (c : MetaCondition)
    → find_condition (set_condition cs c) c.type ≡ some (merged (find_condition cs c.type) c)
unfolding find_condition set_condition
find-set_self [] c = rw (eq_refl c.type) refl
find-set_self (d ∷ cs) c = elim (Bool-cases (d.type == c.type)) [
  | inl e ↦ rw (e, eq_refl c.type) refl
  | inr e ↦ rw e (rw e (find-set_self cs c))
]

find-set_ne :
    (cs : List MetaCondition) (c : MetaCondition) (t : String)
    → t ≢ c.type
    → find_condition (set_condition cs c) t ≡ find_condition cs t
unfolding find_condition set_condition
find-set_ne [] c t h = ground (arith, eq_iff c.type t, h)
find-set_ne (d ∷ cs) c t h =
    ground (arith, eq_iff d.type c.type, eq_iff d.type t, eq_iff c.type t, h, find-set_ne cs c t h)

same_status_refl : (s : ConditionStatus) → same_status s s ≡ true
same_status_refl s = ground arith

same_condition_refl : (c : MetaCondition) → same_condition c c ≡ true
same_condition_refl c = ground (
  arith,
  eq_refl c.type,
  same_status_refl c.status,
  eq_ℤ_iff c.observed_generation c.observed_generation,
  eq_refl c.reason,
  eq_refl c.message,
)

same_conditions_refl : (cs : List MetaCondition) → same_conditions cs cs ≡ true
unfolding same_conditions
same_conditions_refl [] = refl
same_conditions_refl (c ∷ cs) = ground (arith, same_condition_refl c, same_conditions_refl cs)

same_status_eq : (s t : ConditionStatus) → same_status s t ≡ true → s ≡ t
same_status_eq s t h = ground (arith, h)

same_condition_eq : (c d : MetaCondition) → same_condition c d ≡ true → c ≡ d
same_condition_eq c d h = ground (
  arith,
  h,
  eq_iff c.type d.type,
  same_status_eq c.status d.status,
  eq_ℤ_iff c.observed_generation d.observed_generation,
  eq_iff c.reason d.reason,
  eq_iff c.message d.message,
)

same_conditions_eq : (cs ds : List MetaCondition) → same_conditions cs ds ≡ true → cs ≡ ds
unfolding same_conditions
same_conditions_eq [] [] h = refl
same_conditions_eq [] (d ∷ ds) h = absurd (ground (arith, h))
same_conditions_eq (c ∷ cs) [] h = absurd (ground (arith, h))
same_conditions_eq (c ∷ cs) (d ∷ ds) h =
    ground (arith, h, same_condition_eq c d, same_conditions_eq cs ds)

unfoldable pub list_api : ConditionsApi
unfolding find_condition set_condition same_conditions
list_api = record { find = find_condition; set = set_condition; same = same_conditions }

pub list_api-IsConditionsApi : IsConditionsApi list_api
unfolding list_api find_condition
list_api-IsConditionsApi = record {
  find-nil = λ t. refl;
  find-cons = λ c cs t. refl;
  find-set_self = find-set_self;
  find-set_ne = find-set_ne;
  same_refl = same_conditions_refl;
  same_eq = same_conditions_eq;
}

-- Each key of a map once.
unfoldable pub distinct : Dict Condition → Dict Condition
distinct [] = []
distinct ((k, v) ∷ m) = insert k v (distinct m)

distinct-IsRange : (m : Dict Condition) → IsRange (distinct m) m
unfolding distinct lookup
distinct-IsRange [] = record { distinct = tt; same = λ k. refl }
distinct-IsRange ((k, v) ∷ m) =
    let ih = distinct-IsRange m in
    record {
      distinct = HasDistinctKeys-insert k v (distinct m) ih.distinct;
      same = λ j. ground (arith, lookup-insert k j v (distinct m), ih.same j);
    }

abbrev pub in_order : Ranges
in_order = record { scan = distinct; set = distinct }

pub in_order-IsRanges : IsRanges in_order
in_order-IsRanges = record { scan_range = distinct-IsRange; set_range = distinct-IsRange }

abbrev pub has_reason : String → Error → Bool
has_reason reason (text_error m) = false
has_reason reason (api_error r m) = r == reason
has_reason reason (wrapped_error m e) = has_reason reason e
has_reason reason (reconcile_error r m e) = false

abbrev pub api_errors : ApiErrors
api_errors = record {
  is_not_found = has_reason "NotFound";
  is_already_exists = has_reason "AlreadyExists";
  is_unauthorized = has_reason "Unauthorized";
  is_forbidden = has_reason "Forbidden";
  is_invalid = has_reason "Invalid";
  is_bad_request = has_reason "BadRequest";
  is_service_unavailable = has_reason "ServiceUnavailable";
}

abbrev pub not_found : Error
not_found = api_error "NotFound" "not found"

abbrev pub forbidden : Error
forbidden = api_error "Forbidden" "forbidden"
