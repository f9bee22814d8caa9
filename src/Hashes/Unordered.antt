-- ===== src/Hashes/Unordered.antt =====
-- The hash of a map depends on what the map holds, and not on the order in which Go visits it.
use ocp_spire_operator.Prelude.{
  ℕ, ◌≡◌, inl, inr, refl, ap, sym, ◌∙◌, false, String, List, [], ◌∷◌, none, some, arith, Bool-cases,
  if◌then◌else◌, eq_iff, ◌==◌, eq_refl,
}
use ocp_spire_operator.Prelude.Dict.{Dict, lookup, HasDistinctKeys, IsFresh, IsRange}
use ocp_spire_operator.Hashes.{insert_key, sort_strings, keys, write_entries, generate_map_hash}
use ocp_spire_operator.Hashes.Order.{insert_key_comm}

-- The map without the entry of the key.
abbrev without : String → Dict String → Dict String
without k [] = []
without k ((i, v) ∷ m) = let rest = (i, v) ∷ without k m in if i == k then m else rest

lookup-without_other :
    (k j : String) (m : Dict String) → (k == j) ≡ false → lookup j (without k m) ≡ lookup j m
unfolding lookup
lookup-without_other k j [] n = refl
lookup-without_other k j ((i, v) ∷ m) n =
    ground (arith, lookup-without_other k j m n, eq_iff i k, eq_iff i j, eq_iff k j, n)

lookup-without : (k : String) (m : Dict String) → HasDistinctKeys m → IsFresh k (without k m)
unfolding lookup
lookup-without k [] h = refl
lookup-without k ((i, v) ∷ m) (f, h) = elim (Bool-cases (i == k)) [
  | inl e ↦ rw e (rw⁻¹ ((eq_iff i k).0 e) f)
  | inr e ↦ rw e (rw e (lookup-without k m h))
]

HasDistinctKeys-without :
    (k : String) (m : Dict String) → HasDistinctKeys m → HasDistinctKeys (without k m)
unfolding lookup
HasDistinctKeys-without k [] h = tt
HasDistinctKeys-without k ((i, v) ∷ m) (f, h) = elim (Bool-cases (i == k)) [
  | inl e ↦ rw e h
  | inr e ↦ rw e (
    lookup-without_other k i m (ground (arith, eq_iff i k, eq_iff k i, e)) ∙ f,
    HasDistinctKeys-without k m h,
  )
]

sort-without :
    (k v : String) (m : Dict String)
    → lookup k m ≡ some v
    → sort_strings (keys m) ≡ insert_key k (sort_strings (keys (without k m)))
unfolding lookup sort_strings
sort-without k v [] h = ground (arith, h)
sort-without k v ((i, w) ∷ m) h = elim (Bool-cases (i == k)) [
  | inl e ↦ rw e (rw ((eq_iff i k).0 e) refl)
  | inr e ↦
      let h' : lookup k m ≡ some v = ground (arith, h, e) in
      rw e (
        ap (insert_key i) (sort-without k v m h')
        ∙ insert_key_comm i k (sort_strings (keys (without k m))))
]

-- Two listings of the same entries.
abbrev SameEntries : Dict String → Dict String → Type 0
SameEntries a b = (k : String) → lookup k a ≡ lookup k b

nothing : (b : Dict String) → ((k : String) → lookup k b ≡ none) → b ≡ []
unfolding lookup
nothing [] h = refl
nothing ((k, v) ∷ b) h = absurd (ground (arith, h k, eq_refl k))

rest :
    (k v : String) (a b : Dict String)
    → IsFresh k a
    → HasDistinctKeys b
    → SameEntries ((k, v) ∷ a) b
    → SameEntries a (without k b)
unfolding lookup
rest k v a b f hb s j = elim (Bool-cases (k == j)) [
  | inl e ↦ let p : k ≡ j = (eq_iff k j).0 e in rw⁻¹ p (f ∙ sym (lookup-without k b hb))
  | inr e ↦ ground (arith, s j, e, lookup-without_other k j b e)
]

sort-SameEntries :
    (a b : Dict String)
    → HasDistinctKeys a
    → HasDistinctKeys b
    → SameEntries a b
    → sort_strings (keys a) ≡ sort_strings (keys b)
unfolding lookup sort_strings
sort-SameEntries [] b ha hb s = rw (nothing b (λ k. sym (s k))) refl
sort-SameEntries ((k, v) ∷ a) b (f, ha) hb s =
    let found : lookup k b ≡ some v = sym (s k) ∙ rw (eq_refl k) refl in
    ap (insert_key k)
      (sort-SameEntries a (without k b) ha (HasDistinctKeys-without k b hb) (rest k v a b f hb s))
    ∙ sym (sort-without k v b found)

write_entries-SameEntries :
    (m n : Dict String) (ks : List String)
    → SameEntries m n
    → write_entries m ks ≡ write_entries n ks
unfolding write_entries
write_entries-SameEntries m n [] s = refl
write_entries-SameEntries m n (k ∷ ks) s = rw (s k, write_entries-SameEntries m n ks s) refl

-- Two maps with the same entries have the same hash, whatever the order in which their entries are
-- visited.
pub generate_map_hash-IsRange :
    (sha256 : List ℕ → String) (visited visited' m n : Dict String)
    → IsRange visited m
    → IsRange visited' n
    → ((k : String) → lookup k m ≡ lookup k n)
    → generate_map_hash sha256 visited m ≡ generate_map_hash sha256 visited' n
unfolding generate_map_hash
generate_map_hash-IsRange sha256 visited visited' m n r r' s =
    let e : sort_strings (keys visited) ≡ sort_strings (keys visited') =
      sort-SameEntries visited visited' r.distinct r'.distinct
        (λ k. r.same k ∙ s k ∙ sym (r'.same k)) in
    ap (λ ks. sha256 (write_entries m ks)) e
    ∙ ap sha256 (write_entries-SameEntries m n (sort_strings (keys visited')) s)
