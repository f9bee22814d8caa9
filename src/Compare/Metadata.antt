-- ===== src/Compare/Metadata.antt =====
-- What labels and annotations that match come to, and which objects need no update.
use ocp_spire_operator.Prelude.{
  Bool, true, false, not, String, [], ◌∷◌, Option, none, some, ◌==◌, arith, ◌≡◌, ◌↔◌, refl, eq_iff,
  eq_refl, if◌then◌else◌, Bool-cases, inl, inr,
}
use ocp_spire_operator.Prelude.Dict.{Dict, lookup, HasDistinctKeys}
use ocp_spire_operator.Compare.{labels_match, annotations_match, holds}
use ocp_spire_operator.Compare.Rules.{Typed, Metadata, typed_needs_update, resource_needs_update}
use ocp_spire_operator.Compare.Rules.Same.{AreSame, typed_needs_update_refl}

holds_iff : (o : Option String) (v : String) → (holds o v ≡ true) ↔ (o ≡ some v)
holds_iff none v = ground arith
holds_iff (some w) v = ground (arith, eq_iff w v)

-- Every entry of the second map is in the first.
abbrev pub IsIncluded : Dict String → Dict String → Type 0
IsIncluded existing desired =
    (k v : String) → lookup k desired ≡ some v → lookup k existing ≡ some v

-- Wanted labels with distinct keys match exactly when the object has each of them with its value.
pub labels_match_iff :
    (existing desired : Dict String)
    → HasDistinctKeys desired
    → (labels_match existing desired ≡ true) ↔ IsIncluded existing desired
unfolding labels_match lookup
labels_match_iff existing [] h = (λ _ k v n. ground (arith, n), λ _. refl)
labels_match_iff existing ((k, v) ∷ desired) (f, h) =
    let ih = labels_match_iff existing desired h in
    let here = holds_iff (lookup k existing) v in
    (
      λ m j w found. elim (Bool-cases (k == j)) [
        | inl e ↦ ground (arith, here, m, e, found, (eq_iff k j).0 e)
        | inr e ↦ ih.0 (ground (arith, m)) j w (ground (arith, e, found))
      ],
      λ included. ground (
        arith,
        here,
        ih,
        included k v (ground (arith, eq_refl k)),
        ih.1 (λ j w found. included j w (ground (arith, eq_iff k j, f, found))),
      ),
    )

annotations_match_iff :
    (existing desired : Dict String)
    → HasDistinctKeys desired
    → (annotations_match existing desired ≡ true) ↔ IsIncluded existing desired
unfolding annotations_match lookup
annotations_match_iff existing [] h = (λ _ k v n. ground (arith, n), λ _. refl)
annotations_match_iff existing ((k, v) ∷ desired) (f, h) =
    let ih = annotations_match_iff existing desired h in
    let here = holds_iff (lookup k existing) v in
    (
      λ m j w found. elim (Bool-cases (k == j)) [
        | inl e ↦ ground (arith, here, m, e, found, (eq_iff k j).0 e)
        | inr e ↦ ih.0 (ground (arith, m)) j w (ground (arith, e, found))
      ],
      λ included. ground (
        arith,
        here,
        ih,
        included k v (ground (arith, eq_refl k)),
        ih.1 (λ j w found. included j w (ground (arith, eq_iff k j, f, found))),
      ),
    )

-- An object with the wanted labels and annotations, and, for a workload, with a well-formed pod, is not
-- updated where it is what the operator wants: one that was written as wanted is left alone, whatever
-- labels and annotations others add to it. Deep equality is reflexive.
pub resource_needs_update-AreSame :
    {V : Type 0} (deep_equal : V → V → Bool)
    → ((v : V) → deep_equal v v ≡ true)
    → (existing desired : Metadata) (typed : Typed V) → HasDistinctKeys desired.labels
    → HasDistinctKeys desired.annotations
    → IsIncluded existing.labels desired.labels
    → IsIncluded existing.annotations desired.annotations
    → AreSame typed
    → resource_needs_update deep_equal existing desired typed ≡ false
unfolding resource_needs_update
resource_needs_update-AreSame deep_equal r existing desired typed dl da l a same =
    rw
      (
        (labels_match_iff existing.labels desired.labels dl).1 l,
        (annotations_match_iff existing.annotations desired.annotations da).1 a,
      )
      (typed_needs_update_refl deep_equal r typed same)

chain_iff :
    (a b c : Bool)
    → ((if not a then true else if not b then true else c) ≡ false)
      ↔ ((a ≡ true) × (b ≡ true) × (c ≡ false))
chain_iff a b c = ground arith

-- An object is not updated exactly when it has every wanted label and annotation with its value, and passes the
-- comparison of its type.
resource_needs_update_iff :
    {V : Type 0} (deep_equal : V → V → Bool) (existing desired : Metadata) (typed : Typed V)
    → HasDistinctKeys desired.labels
    → HasDistinctKeys desired.annotations
    → (resource_needs_update deep_equal existing desired typed ≡ false) ↔ (
        IsIncluded existing.labels desired.labels
        × IsIncluded existing.annotations desired.annotations
        × (typed_needs_update deep_equal typed ≡ false))
unfolding resource_needs_update
resource_needs_update_iff deep_equal existing desired typed dl da =
    let l = labels_match_iff existing.labels desired.labels dl in
    let a = annotations_match_iff existing.annotations desired.annotations da in
    let c =
      chain_iff (labels_match existing.labels desired.labels)
        (annotations_match existing.annotations desired.annotations)
        (typed_needs_update deep_equal typed) in
    (λ h. let (x, y, z) = c.0 h in (l.0 x, a.0 y, z), λ (x, y, z). c.1 (l.1 x, a.1 y, z))
