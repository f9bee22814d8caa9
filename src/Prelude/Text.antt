-- ===== src/Prelude/Text.antt =====
-- What the program uses of Go's `fmt` and `strings`: decimal numbers, `%v` of a list of texts,
-- case folding, substrings and trimming. Texts are walked as the list of their code points.
use Prim.Native.Nat.{ℕ, zero, suc, ◌+◌, ◌-◌, ◌/◌, ◌%◌}
use Prim.Native.Char.{code}
use Prim.Native.String.{String, ◌++◌, slice}
use mathlib.Core.Bool.{Bool, true, false, ◌&&◌, ◌||◌}
use mathlib.Core.List.{List, [], ◌∷◌, map, reverse}
use mathlib.Core.Path.{◌≡◌, refl, sym, ap, ◌∙◌}
use native.Mathlib.Omega.{arith}
use text.Mathlib.TextLemmas.{cons-append, cons≢nil, head-eq_of_cons-eq, tail-eq_of_cons-eq}
use ocp_spire_operator.Prelude.Tests.{ltb, leb, nat_eq, if◌then◌else◌}
use ocp_spire_operator.Prelude.Int.{ℤ, pos, negsuc}

digit : ℕ → String
digit n = slice "0123456789" n (n + 1)

-- One round for each digit; a number has fewer digits than its successor counts.
print_digits : ℕ → ℕ → String → String
print_digits zero n acc = acc
print_digits (suc fuel) n acc =
    let rest = print_digits fuel (n / 10) (digit (n % 10) ++ acc) in
    if ltb n 10 then digit n ++ acc else rest

-- `%d` of a number that is not negative.
unfoldable pub print_nat : ℕ → String
unfolding print_digits digit
print_nat n = print_digits (suc n) n ""

-- `%d`.
unfoldable pub print_int : ℤ → String
unfolding print_nat
print_int (pos n) = print_nat n
print_int (negsuc n) = "-" ++ print_nat (suc n)

abbrev pub join_from : String → List String → String
join_from separator [] = ""
join_from separator (s ∷ ss) = separator ++ (s ++ join_from separator ss)

-- `strings.Join`.
abbrev pub join : String → List String → String
join separator [] = ""
join separator (s ∷ ss) = s ++ join_from separator ss

-- `%v` of a list of texts.
abbrev pub print_list : List String → String
print_list ss = "[" ++ (join " " ss ++ "]")

-- The code points of a text.
abbrev pub codes : String → List ℕ
codes String.[] = []
codes (String.◌∷◌ c s) = code c ∷ codes s

-- `unicode.ToLower`, where the result is ASCII; any other letter is left as it is, since its lower
-- case is no ASCII letter either.
abbrev lower_code : ℕ → ℕ
lower_code c =
    if leb b'A' c && leb c b'Z'
    then c + 32
    else if nat_eq c 0x130
    then b'i'
    else if nat_eq c 0x212a
    then b'k'
    else c

-- `unicode.ToUpper`, where the result is ASCII.
abbrev upper_code : ℕ → ℕ
upper_code c =
    if leb b'a' c && leb c b'z'
    then c - 32
    else if nat_eq c 0x131
    then b'I'
    else if nat_eq c 0x17f
    then b'S'
    else c

abbrev pub to_lower : List ℕ → List ℕ
to_lower = map lower_code

abbrev pub to_upper : List ℕ → List ℕ
to_upper = map upper_code

abbrev pub same_codes : List ℕ → List ℕ → Bool
same_codes [] [] = true
same_codes [] (d ∷ t) = false
same_codes (c ∷ s) [] = false
same_codes (c ∷ s) (d ∷ t) = nat_eq c d && same_codes s t

-- `strings.HasPrefix`, the prefix first.
abbrev has_prefix : List ℕ → List ℕ → Bool
has_prefix [] s = true
has_prefix (p ∷ ps) [] = false
has_prefix (p ∷ ps) (c ∷ s) = nat_eq p c && has_prefix ps s

-- `strings.Contains`.
abbrev pub contains_codes : List ℕ → List ℕ → Bool
contains_codes [] sub = has_prefix sub []
contains_codes (c ∷ s) sub = has_prefix sub (c ∷ s) || contains_codes s sub

-- `unicode.IsSpace`.
abbrev is_space : ℕ → Bool
is_space c =
    leb 9 c && leb c 13
    || nat_eq c 32
    || nat_eq c 0x85
    || nat_eq c 0xa0
    || nat_eq c 0x1680
    || leb 0x2000 c && leb c 0x200a
    || nat_eq c 0x2028
    || nat_eq c 0x2029
    || nat_eq c 0x202f
    || nat_eq c 0x205f
    || nat_eq c 0x3000

abbrev drop_while : (ℕ → Bool) → List ℕ → List ℕ
drop_while p [] = []
drop_while p (c ∷ s) = elim (p c) [ true ↦ drop_while p s | false ↦ c ∷ s ]

-- `strings.TrimSpace`.
abbrev pub trim_space : List ℕ → List ℕ
trim_space s = reverse (drop_while is_space (reverse (drop_while is_space s)))

-- The text `p` and the text `s` agree as far as `p` goes.
abbrev pub starts_as : String → String → Bool
starts_as String.[] s = true
starts_as (String.◌∷◌ c p) String.[] = false
starts_as (String.◌∷◌ c p) (String.◌∷◌ d s) = nat_eq (code c) (code d) && starts_as p s

-- A text that starts otherwise is another text.
pub append-starts_as : (p t s : String) → p ++ t ≡ s → starts_as p s ≡ true
append-starts_as String.[] t s h = refl
append-starts_as (String.◌∷◌ c p) t String.[] h = absurd (cons≢nil (sym (cons-append c p t) ∙ h))
append-starts_as (String.◌∷◌ c p) t (String.◌∷◌ d s) h =
    let e : String.◌∷◌ c (p ++ t) ≡ String.◌∷◌ d s = sym (cons-append c p t) ∙ h in
    ground (arith, ap code (head-eq_of_cons-eq e), append-starts_as p t s (tail-eq_of_cons-eq e))
