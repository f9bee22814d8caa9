-- ===== src/Owners.antt =====
-- The owner references of pkg/controller/utils/utils.go: whether an operand's resource still names the
-- ZTWIM resource as its owner, and which updates of it start a reconciliation.
pub mod Laws
use ocp_spire_operator.Prelude.{
  Bool, true, ◌&&◌, ◌||◌, not, String, List, [], ◌∷◌, Option, none, some, ◌==◌, nat_eq, length,
  any_of,
}
use ocp_spire_operator.Prelude.Dict.{Dict, lookup, insert}

pub record OwnerReference : Type 0 where
  pub uid : String
  pub name : String
  pub kind : String

abbrev pub same_owner : OwnerReference → OwnerReference → Bool
same_owner a b = a.uid == b.uid && a.name == b.name && a.kind == b.kind

-- `expected` describes the owner that the object should have.
unfoldable pub needs_owner_reference_update : List OwnerReference → OwnerReference → Bool
needs_owner_reference_update [] expected = true
needs_owner_reference_update (o ∷ os) expected = not (any_of (λ p. same_owner p expected) (o ∷ os))

-- The map from the identifiers of the old owners to their names.
abbrev pub owner_names : List OwnerReference → Dict String → Dict String
owner_names [] m = m
owner_names (o ∷ os) m = owner_names os (insert o.uid o.name m)

abbrev pub is_changed : Option String → String → Bool
is_changed none name = true
is_changed (some old) name = not (old == name)

-- `UpdateFunc` of `OwnerReferenceChangedPredicate`.
unfoldable pub owner_references_changed : List OwnerReference → List OwnerReference → Bool
owner_references_changed old new =
    not (nat_eq (length old) (length new))
    || any_of (λ o. is_changed (lookup o.uid (owner_names old [])) o.name) new
