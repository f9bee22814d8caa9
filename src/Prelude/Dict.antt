-- ===== src/Prelude/Dict.antt =====
-- Go's maps with text keys, as association lists. A `range` loop visits every key once, in an order
-- that the language leaves open: `IsRange` says what a list of visited entries is.
use mathlib.Core.Path.{◌≡◌, refl, sym, ◌∙◌}
use mathlib.Core.Logic.{inl, inr}
use mathlib.Core.Bool.{false}
use mathlib.Core.Option.{Option, none, some}
use mathlib.Core.List.{List, [], ◌∷◌}
use native.Mathlib.Omega.{arith}
use Prim.Native.String.{String}
use text.Mathlib.Text.{◌==◌}
use text.Mathlib.TextEquality.{eq_iff}
use ocp_spire_operator.Prelude.Tests.{if◌then◌else◌, Bool-cases}

abbrev pub Dict {ℓ} : Type ℓ → Type ℓ
Dict V = List (String × V)

module _ {ℓ} {V : Type ℓ} where
  -- `m[key] = value`: the entry is replaced where it stands, and a new key comes last.
  unfoldable pub insert : String → V → Dict V → Dict V
  insert key value [] = (key, value) ∷ []
  insert key value ((name, old) ∷ rest) =
      let kept = (name, old) ∷ insert key value rest in
      if name == key then (key, value) ∷ rest else kept

  -- `value, ok := m[key]`.
  unfoldable pub lookup : String → Dict V → Option V
  lookup key [] = none
  lookup key ((name, value) ∷ rest) =
      let later = lookup key rest in if name == key then some value else later

  -- No entry of the list has the key.
  abbrev pub IsFresh : String → Dict V → Type ℓ
  IsFresh k m = lookup k m ≡ none

  abbrev pub HasDistinctKeys : Dict V → Type ℓ
  HasDistinctKeys [] = Unit
  HasDistinctKeys ((k, v) ∷ m) = IsFresh k m × HasDistinctKeys m

  -- `visited` lists the entries of `m`, each key once.
  pub record IsRange (visited m : Dict V) : Type ℓ where
    pub distinct : HasDistinctKeys visited
    pub same : (k : String) → lookup k visited ≡ lookup k m

  pub lookup-insert :
      (key name : String) (value : V) (m : Dict V)
      → lookup name (insert key value m) ≡ (if key == name then some value else lookup name m)
  unfolding insert lookup
  lookup-insert key name value [] = refl
  lookup-insert key name value ((entry, old) ∷ rest) = ground (
    arith,
    lookup-insert key name value rest,
    eq_iff entry key,
    eq_iff entry name,
    eq_iff key name,
  )

  IsFresh-insert :
      (i k : String) (v : V) (m : Dict V)
      → (k == i) ≡ false
      → IsFresh i m
      → IsFresh i (insert k v m)
  IsFresh-insert i k v m n h = lookup-insert k i v m ∙ rw n h

  pub HasDistinctKeys-insert :
      (k : String) (v : V) (m : Dict V) → HasDistinctKeys m → HasDistinctKeys (insert k v m)
  unfolding insert lookup
  HasDistinctKeys-insert k v [] h = (refl, h)
  HasDistinctKeys-insert k v ((j, w) ∷ m) (f, h) = elim (Bool-cases (j == k)) [
    | inl e ↦ rw e (rw (sym ((eq_iff j k).0 e)) f, h)
    | inr e ↦ rw e (
      IsFresh-insert j k v m (ground (arith, eq_iff j k, eq_iff k j, e)) f,
      HasDistinctKeys-insert k v m h,
    )
  ]
