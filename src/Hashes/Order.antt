-- ===== src/Hashes/Order.antt =====
-- The order on texts is linear, and sorting by it forgets the order of the keys.
use ocp_spire_operator.Prelude.{◌≡◌, refl, true, false, String, List, [], ◌∷◌, arith}
use ocp_spire_operator.Hashes.{le_text, insert_key}
use Prim.Native.Char.{code}
use text.Mathlib.TextEquality.{Char-path}

le_text_total : (s t : String) → le_text s t ≡ false → le_text t s ≡ true
unfolding le_text
le_text_total String.[] t h = ground (arith, h)
le_text_total (String.◌∷◌ c s) String.[] h = refl
le_text_total (String.◌∷◌ c s) (String.◌∷◌ d t) h = ground (arith, h, le_text_total s t)

le_text_trans : (s t u : String) → le_text s t ≡ true → le_text t u ≡ true → le_text s u ≡ true
unfolding le_text
le_text_trans String.[] t u h k = refl
le_text_trans (String.◌∷◌ c s) String.[] u h k = ground (arith, h)
le_text_trans (String.◌∷◌ c s) (String.◌∷◌ d t) String.[] h k = ground (arith, k)
le_text_trans (String.◌∷◌ c s) (String.◌∷◌ d t) (String.◌∷◌ e u) h k =
    ground (arith, h, k, le_text_trans s t u)

le_text_antisym : (s t : String) → le_text s t ≡ true → le_text t s ≡ true → s ≡ t
unfolding le_text
le_text_antisym String.[] String.[] h k = refl
le_text_antisym String.[] (String.◌∷◌ d t) h k = ground (arith, k)
le_text_antisym (String.◌∷◌ c s) String.[] h k = ground (arith, h)
le_text_antisym (String.◌∷◌ c s) (String.◌∷◌ d t) h k =
    let e : code c ≡ code d = ground (arith, h, k) in
    let p : le_text s t ≡ true = ground (arith, h, k) in
    let q : le_text t s ≡ true = ground (arith, h, k) in
    λ i. String.◌∷◌ (Char-path c d e i) (le_text_antisym s t p q i)

pub insert_key_comm :
    (a b : String) (l : List String) → insert_key a (insert_key b l) ≡ insert_key b (insert_key a l)
unfolding insert_key
insert_key_comm a b [] = ground (arith, le_text_total a b, le_text_total b a, le_text_antisym a b)
insert_key_comm a b (c ∷ l) = ground (
  arith,
  insert_key_comm a b l,
  le_text_total a b,
  le_text_total b a,
  le_text_antisym a b,
  le_text_trans a b c,
  le_text_trans b a c,
)
