-- ===== src/Hashes.antt =====
-- The hashes of pkg/controller/utils/utils.go, by which the controllers see that a configuration changed.
-- SHA-256 in hexadecimal is an argument, a function of the text.
pub mod Order
pub mod Unordered
use ocp_spire_operator.Prelude.{
  ℕ, Bool, true, false, ◌||◌, ◌&&◌, String, List, [], ◌∷◌, ◌++◌, Option, none, some, if◌then◌else◌,
  ltb, nat_eq, map,
}
use ocp_spire_operator.Prelude.Dict.{Dict, lookup}
use ocp_spire_operator.Prelude.Text.{codes, trim_space}
use Prim.Native.Char.{code}

-- The order of `sort.Strings`; that of the bytes is that of the code points.
unfoldable pub le_text : String → String → Bool
le_text String.[] t = true
le_text (String.◌∷◌ c s) String.[] = false
le_text (String.◌∷◌ c s) (String.◌∷◌ d t) =
    ltb (code c) (code d) || nat_eq (code c) (code d) && le_text s t

unfoldable pub insert_key : String → List String → List String
insert_key k [] = k ∷ []
insert_key k (i ∷ keys) =
    let later = i ∷ insert_key k keys in if le_text k i then k ∷ i ∷ keys else later

-- `sort.Strings`.
unfoldable pub sort_strings : List String → List String
sort_strings [] = []
sort_strings (k ∷ keys) = insert_key k (sort_strings keys)

-- The loop that collects the keys.
abbrev pub keys : Dict String → List String
keys [] = []
keys ((k, v) ∷ m) = k ∷ keys m

-- `m[k]`.
abbrev pub or_empty : Option String → String
or_empty none = ""
or_empty (some v) = v

unfoldable pub write_entries : Dict String → List String → List ℕ
write_entries m [] = []
write_entries m (k ∷ ks) =
    trim_space (codes k)
    ++ b'=' ∷ trim_space (codes (or_empty (lookup k m)))
    ++ b';' ∷ write_entries m ks

module _ (sha256 : List ℕ → String) where
  -- The first argument lists the entries of the map in the order in which the loop visits them.
  unfoldable pub generate_map_hash : Dict String → Dict String → String
  generate_map_hash visited m = sha256 (write_entries m (sort_strings (keys visited)))

  unfoldable pub generate_config_hash : List ℕ → String
  generate_config_hash data_bytes = sha256 (trim_space data_bytes)

  unfoldable generate_config_hash_from_string : List ℕ → String
  generate_config_hash_from_string text = generate_config_hash (trim_space text)
