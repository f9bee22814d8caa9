-- ===== src/Json.antt =====
-- The values that the operator marshals to JSON: Go's `map[string]interface{}` and what it holds. The
-- marshalled text orders an object's members by their keys, so the order of a map's entries is free.
use ocp_spire_operator.Prelude.{
  Bool, String, List, [], ◌∷◌, Option, none, some, ◌==◌, ◌≡◌, refl, arith, if◌then◌else◌, map,
}
use ocp_spire_operator.Prelude.Int.{ℤ}
use ocp_spire_operator.Prelude.Dict.{Dict, lookup}

mutual
  pub data Json : Type 0 where
    null : Json
    flag : Bool → Json
    number : ℤ → Json
    text : String → Json
    array : Items → Json
    object : Members → Json

  pub data Items : Type 0 where
    no_items : Items
    item : Json → Items → Items

  pub data Members : Type 0 where
    no_members : Members
    member : String → Json → Members → Members

abbrev items : List Json → Items
items [] = no_items
items (j ∷ js) = item j (items js)

abbrev members : Dict Json → Members
members [] = no_members
members ((k, j) ∷ d) = member k j (members d)

abbrev pub array_of : List Json → Json
array_of js = array (items js)

abbrev pub texts : List String → Json
texts ss = array_of (map text ss)

abbrev pub object_of : Dict Json → Json
object_of d = object (members d)

-- A list with one object.
abbrev pub single : Dict Json → Json
single d = array_of (object_of d ∷ [])

find_member : String → Members → Option Json
find_member key no_members = none
find_member key (member k j rest) =
    let later = find_member key rest in if k == key then some j else later

-- The member of an object.
unfoldable pub at : String → Json → Option Json
unfolding find_member
at key null = none
at key (flag b) = none
at key (number n) = none
at key (text s) = none
at key (array js) = none
at key (object ms) = find_member key ms

find_member-members : (k : String) (d : Dict Json) → find_member k (members d) ≡ lookup k d
unfolding find_member lookup
find_member-members k [] = refl
find_member-members k ((i, j) ∷ d) = ground (arith, find_member-members k d)

pub at-object_of : (k : String) (d : Dict Json) → at k (object_of d) ≡ lookup k d
unfolding at
at-object_of = find_member-members

-- The member of a member.
abbrev pub within : String → Option Json → Option Json
within key none = none
within key (some j) = at key j
