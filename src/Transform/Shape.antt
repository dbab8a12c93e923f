-- ===== src/Transform/Shape.antt =====
-- The shape of a file, of app/pipeline/transformer.py: `unflatten`, `as_nested`, `_locate` and `file_shape`.
-- A container that the source changes in place is given back changed; a key is the list of its parts.
use Prim.Native.Char.{code}
use var_track.Prelude.{
  ℕ, zero, suc, ◌+◌, ◌*◌, ◌-◌, String, ◌<>◌, Bool, true, false, not, ◌&&◌, leb, Option, none, some,
  List, [], ◌∷◌, ◌++◌, any, contains, ◌==◌, string_eq, if◌then◌else◌, ◌>>=◌,
}
use var_track.Prelude.Dict
use var_track.Prelude.Dict.{Dict, is_some, or_else}
use var_track.Value.{
  Value, text, list, dict, Items, no_item, item, no_field, Record, to_dict, of_dict,
}
use var_track.Transform.{is_nested, flatten}

-- One more character of the first part
abbrev cons_first : String → List String → List String
cons_first c [] = c ∷ []
cons_first c (part ∷ parts) = (c <> part) ∷ parts

-- `key.split(".")`
unfoldable pub split : String → List String
split String.[] = "" ∷ []
split (String.◌∷◌ c s) =
    let parts = split s in
    if String.◌∷◌ c String.[] == "." then "" ∷ parts else cons_first (String.◌∷◌ c String.[]) parts

-- `".".join(parts)`
unfoldable pub join : List String → String
join [] = ""
join (part ∷ []) = part
join (part ∷ (next ∷ parts)) = part <> "." <> join (next ∷ parts)

-- `int(head)`, where the text is digits
abbrev digit_of : ℕ → Option ℕ
digit_of n = if leb 48 n && leb n 57 then some (n - 48) else none

unfoldable pub number_from : ℕ → String → Option ℕ
number_from n String.[] = some n
number_from n (String.◌∷◌ c s) = do d ← digit_of (code c); number_from (n * 10 + d) s

abbrev pub index_of : String → Option ℕ
index_of head = if head == "" then none else number_from 0 head

-- `node[i]`, and the items with another one there
unfoldable pub item_at : Items → ℕ → Option Value
item_at no_item i = none
item_at (item v vs) zero = some v
item_at (item v vs) (suc i) = item_at vs i

unfoldable pub set_item : Items → ℕ → Value → Items
set_item no_item i w = no_item
set_item (item v vs) zero w = item w vs
set_item (item v vs) (suc i) w = item v (set_item vs i w)

-- The item that a part of a key names
abbrev pub named_item : Items → String → Option (ℕ × Value)
named_item vs head = do i ← index_of head; v ← item_at vs i; some (i, v)

abbrev pub is_container : Value → Bool
is_container (dict fs) = true
is_container (list vs) = true
is_container v = false

-- A child that is a dict or a list
abbrev pub child_container : Option Value → Option Value
child_container none = none
child_container (some v) = if is_container v then some v else none

abbrev pub dict_value : Record → Value
dict_value d = dict (of_dict d)

-- The value that `_locate` finds without creating
unfoldable pub find : Value → List String → Option Value
unfolding to_dict join
find (dict fs) [] = none
find (dict fs) (head ∷ tail) = elim (Dict.get (to_dict fs) (join (head ∷ tail))) [
  | some v ↦ some v
  | none ↦ elim (child_container (Dict.get (to_dict fs) head)) [
    | none ↦ none
    | some child ↦ find child tail
  ]
]
find (list vs) [] = none
find (list vs) (head ∷ []) = do (i, v) ← named_item vs head; some v
find (list vs) (head ∷ (next ∷ tail)) = do (i, v) ← named_item vs head; find v (next ∷ tail)
find v parts = none

-- `del container[name]`, where the container is a dict
unfoldable pub remove : Value → List String → Value
unfolding to_dict join
remove (dict fs) [] = dict fs
remove (dict fs) (head ∷ tail) =
    let d = to_dict fs in
    let key = join (head ∷ tail) in
    elim (child_container (Dict.get d head)) [
      | none ↦ if Dict.has d key then dict_value (Dict.pop d key) else dict fs
      | some child ↦
          let below = remove child tail in
          if Dict.has d key then dict_value (Dict.pop d key) else dict_value (Dict.put d head below)
    ]
remove (list vs) [] = list vs
remove (list vs) (head ∷ []) = list vs
remove (list vs) (head ∷ (next ∷ tail)) = elim (named_item vs head) [
  | none ↦ list vs
  | some (i, v) ↦ list (set_item vs i (remove v (next ∷ tail)))
]
remove v parts = v

-- `container[name] = value` where `_locate` finds or creates the place; `none` where there is none
unfoldable pub put_at : Value → List String → Value → Option Value
unfolding to_dict join set_item
put_at (dict fs) [] value = none
put_at (dict fs) (head ∷ []) value = some (dict_value (Dict.put (to_dict fs) head value))
put_at (dict fs) (head ∷ (next ∷ tail)) value =
    let d = to_dict fs in
    let key = join (head ∷ (next ∷ tail)) in
    let child = or_else (child_container (Dict.get d head)) (dict no_field) in
    let below = put_at child (next ∷ tail) value in
    if Dict.has d key
    then some (dict_value (Dict.put d key value))
    else (do changed ← below; some (dict_value (Dict.put d head changed)))
put_at (list vs) [] value = none
put_at (list vs) (head ∷ []) value = do
  (i, v) ← named_item vs head
  some (list (set_item vs i value))
put_at (list vs) (head ∷ (next ∷ tail)) value = do
  (i, v) ← named_item vs head
  changed ← put_at v (next ∷ tail) value
  some (list (set_item vs i changed))
put_at v parts value = none

-- A value is moved to its new key; a section is left.
unfoldable pub rename_one : Value → String → String → Value
unfolding find remove put_at split
rename_one tree new_key src_key = elim (find tree (split src_key)) [
  | none ↦ tree
  | some v ↦
      let without = remove tree (split src_key) in
      if is_container v then tree else or_else (put_at without (split new_key) v) without
]

unfoldable pub rename_values : Dict String String → Value → Value
rename_values [] tree = tree
rename_values ((new_key, src_key) ∷ variables) tree =
    rename_values variables (rename_one tree new_key src_key)

-- The values that differ from the file's
unfoldable pub put_changed : Dict String String → Dict String String → Value → Value
unfolding put_at split
put_changed original [] tree = tree
put_changed original ((key, value) ∷ flat) tree =
    put_changed original flat (elim (Dict.get original key) [
      | none ↦ or_else (put_at tree (split key) (text value)) tree
      | some old ↦
          if old == value then tree else or_else (put_at tree (split key) (text value)) tree
    ])

-- The proper beginnings of a path, as keys
unfoldable pub parents_of : List String → List String → List String
unfolding join
parents_of before [] = []
parents_of before (part ∷ []) = []
parents_of before (part ∷ (next ∷ parts)) =
    join (before ++ part ∷ []) ∷ parents_of (before ++ part ∷ []) (next ∷ parts)

unfoldable pub all_parents : Record → List String
unfolding parents_of split
all_parents [] = []
all_parents ((key, v) ∷ flat) = parents_of [] (split key) ++ all_parents flat

-- The dict under a part, which is made where there is none
abbrev pub section_at : Record → String → Record
unfolding to_dict
section_at d part = elim (Dict.get d part) [ some (dict fs) ↦ to_dict fs | other ↦ [] ]

unfoldable pub nest : Record → List String → Value → Record
nest d [] v = d
nest d (part ∷ []) v = Dict.put d part v
nest d (part ∷ (next ∷ parts)) v =
    Dict.put d part (dict_value (nest (section_at d part) (next ∷ parts) v))

unfoldable pub nest_all : Record → Record → Record
unfolding nest split
nest_all result [] = result
nest_all result ((key, v) ∷ flat) = nest_all (nest result (split key) v) flat

-- `unflatten`: `none` where a key is a value and the parent of others, and it raises a ValueError
unfoldable pub unflatten : Record → Option Record
unfolding all_parents nest_all
unflatten flat =
    if any (contains (all_parents flat)) (Dict.keys flat) then none else some (nest_all [] flat)

unfoldable pub as_nested : Value → Option Value
unfolding is_nested to_dict unflatten
as_nested (dict fs) =
    if is_nested (dict fs)
    then some (dict fs)
    else (do d ← unflatten (to_dict fs); some (dict_value d))
as_nested v = some v

abbrev pub texts : Dict String String → Record
texts [] = []
texts ((k, s) ∷ d) = (k, text s) ∷ texts d

-- `file_shape`: parsed data, flat data and variables_map; as `flatten`, never `none`
unfoldable pub file_shape :
    (Value → Option (Dict String String))
    → Value
    → Dict String String
    → Dict String String
    → Option Value
unfolding is_nested flatten rename_values put_changed
file_shape rust parsed flat variables =
    if not (is_nested parsed) then some (dict_value (texts flat)) else (do
      let tree = rename_values variables parsed
      original ← flatten rust tree
      some (put_changed original flat tree))
