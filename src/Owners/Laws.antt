-- ===== src/Owners/Laws.antt =====
-- What the tests on owner references of pkg/controller/utils/utils.go decide.
use ocp_spire_operator.Prelude.{
  Bool, true, false, ◌||◌, not, String, List, [], ◌∷◌, Option, none, some, eq_iff, nat_eq, length,
  any_of, All, ◌≡◌, ◌↔◌, ◌⊎◌, inl, inr, arith,
}
use ocp_spire_operator.Prelude.Dict.{Dict, lookup, insert, lookup-insert}
use ocp_spire_operator.Owners.{
  OwnerReference, same_owner, needs_owner_reference_update, owner_names, is_changed,
  owner_references_changed,
}

abbrev IsOwner : OwnerReference → List OwnerReference → Type 0
IsOwner expected [] = ⊥
IsOwner expected (o ∷ os) = (o ≡ expected) ⊎ IsOwner expected os

same_owner_iff : (a b : OwnerReference) → (same_owner a b ≡ true) ↔ (a ≡ b)
same_owner_iff a b = ground (arith, eq_iff a.uid b.uid, eq_iff a.name b.name, eq_iff a.kind b.kind)

any_same_iff :
    (os : List OwnerReference) (expected : OwnerReference)
    → (any_of (λ p. same_owner p expected) os ≡ true) ↔ IsOwner expected os
any_same_iff [] expected = ground arith
any_same_iff (o ∷ os) expected = ground (arith, same_owner_iff o expected, any_same_iff os expected)

-- An object needs no update of its owners exactly when one of them has the identifier, the name and the
-- kind of the expected one.
needs_owner_reference_update_iff :
    (os : List OwnerReference) (expected : OwnerReference)
    → (needs_owner_reference_update os expected ≡ false) ↔ IsOwner expected os
unfolding needs_owner_reference_update
needs_owner_reference_update_iff [] expected = ground arith
needs_owner_reference_update_iff (o ∷ os) expected = ground (arith, any_same_iff (o ∷ os) expected)

-- One of the owners has the identifier and the name.
abbrev IsKnown : OwnerReference → List OwnerReference → Type 0
IsKnown o [] = ⊥
IsKnown o (p ∷ ps) = ((p.uid ≡ o.uid) × (p.name ≡ o.name)) ⊎ IsKnown o ps

names-IsKnown :
    (os : List OwnerReference) (m : Dict String) (o : OwnerReference)
    → lookup o.uid (owner_names os m) ≡ some o.name
    → IsKnown o os ⊎ (lookup o.uid m ≡ some o.name)
names-IsKnown [] m o h = inr h
names-IsKnown (p ∷ ps) m o h = ground (
  arith,
  names-IsKnown ps (insert p.uid p.name m) o h,
  lookup-insert p.uid o.uid p.name m,
  eq_iff p.uid o.uid,
)

unchanged :
    (name : String) (found : Option String) → is_changed found name ≡ false → found ≡ some name
unchanged name none h = absurd (ground (arith, h))
unchanged name (some old) h = ground (arith, h, eq_iff old name)

none_empty : (key value : String) → lookup {V = String} key [] ≡ some value → ⊥
unfolding lookup
none_empty key value h = ground (arith, h)

or_false : {a b : Bool} → (a || b) ≡ false → (a ≡ false) × (b ≡ false)
or_false h = ground (arith, h)

known :
    (old new : List OwnerReference)
    → any_of (λ o. is_changed (lookup o.uid (owner_names old [])) o.name) new ≡ false
    → All (λ o. IsKnown o old) new
known old [] h = tt
known old (o ∷ os) h =
    let split = or_false h in
    (
      elim (names-IsKnown old [] o (unchanged o.name _ split.0)) [
        | inl k ↦ k
        | inr e ↦ absurd (none_empty o.uid o.name e)
      ],
      known old os split.1,
    )

-- An update that starts no reconciliation keeps the number of owners, and each of the new owners has
-- the identifier and the name of an old one.
owner_references_changed-IsKnown :
    (old new : List OwnerReference)
    → owner_references_changed old new ≡ false
    → (length old ≡ length new) × All (λ o. IsKnown o old) new
unfolding owner_references_changed
owner_references_changed-IsKnown old new h =
    let split = or_false {a = not (nat_eq (length old) (length new))} h in
    (ground (arith, split.0), known old new split.1)
