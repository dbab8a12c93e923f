-- ===== src/Value.antt =====
-- The values of a parsed configuration file and of a rule: what `json.loads` and the other parsers
-- give. A number is kept by its `str` text and by whether it is zero, which is all that the code
-- reads of one. A date or a time of YAML or TOML is kept like a number, by its text.
use var_track.Prelude.{
  ℕ, suc, String, Bool, true, false, not, ◌&&◌, ◌==◌, string_eq, nat_eq, Option, none, some, List,
  ◌∷◌, [], any, if◌then◌else◌,
}
use var_track.Prelude.Dict
use var_track.Prelude.Dict.{Dict}

pub record Number : Type 0 where
  pub shown : String
  pub is_zero : Bool

mutual
  pub data Value : Type 0 where
    null : Value
    bool : Bool → Value
    num : Number → Value
    text : String → Value
    list : Items → Value
    dict : Fields → Value

  pub data Items : Type 0 where
    no_item : Items
    item : Value → Items → Items

  pub data Fields : Type 0 where
    no_field : Fields
    field : String → Value → Fields → Fields

-- `bool(v)`
unfoldable pub truthy : Value → Bool
truthy null = false
truthy (bool b) = b
truthy (num n) = not n.is_zero
truthy (text s) = not (s == "")
truthy (list no_item) = false
truthy (list (item v vs)) = true
truthy (dict no_field) = false
truthy (dict (field k v fs)) = true

-- `isinstance(v, dict)`
unfoldable pub is_dict : Value → Bool
is_dict (dict fs) = true
is_dict _ = false

-- A rule, and any other dict at the top of a document.
abbrev pub Record : Type 0
Record = Dict String Value

unfoldable pub to_dict : Fields → Record
to_dict no_field = []
to_dict (field k v fs) = (k, v) ∷ to_dict fs

unfoldable pub of_dict : Record → Fields
of_dict [] = no_field
of_dict ((k, v) ∷ d) = field k v (of_dict d)

-- `rule.get(key)`
abbrev pub or_null : Option Value → Value
or_null none = null
or_null (some v) = v

-- `v is None`
abbrev pub is_null : Value → Bool
is_null null = true
is_null _ = false

unfoldable pub to_list : Items → List Value
to_list no_item = []
to_list (item v vs) = v ∷ to_list vs

unfoldable pub of_list : List Value → Items
of_list [] = no_item
of_list (v ∷ vs) = item v (of_list vs)

-- The values of `v` where it is a list, and none where it is not.
abbrev pub list_items : Value → List Value
list_items (list vs) = to_list vs
list_items _ = []

-- The fields of `v` where it is a dict, and none where it is not.
abbrev pub dict_fields : Value → Record
dict_fields (dict fs) = to_dict fs
dict_fields _ = []

size : Fields → ℕ
size no_field = 0
size (field k v fs) = suc (size fs)

unfoldable mutual
  unfolding size to_dict Dict.get

  -- `v == w`. Two numbers are equal when their texts are.
  pub same : Value → Value → Bool
  same null w = is_null w
  same (bool b) (bool c) = if b then c else not c
  same (bool b) (num n) = n.shown == (if b then "1" else "0")
  same (bool b) _ = false
  same (num m) (num n) = m.shown == n.shown
  same (num m) (bool c) = m.shown == (if c then "1" else "0")
  same (num m) _ = false
  same (text s) (text t) = s == t
  same (text s) _ = false
  same (list vs) (list ws) = same_items vs ws
  same (list vs) _ = false
  same (dict fs) (dict gs) = (size fs == size gs) && same_fields fs (to_dict gs)
  same (dict fs) _ = false

  same_items : Items → Items → Bool
  same_items no_item no_item = true
  same_items no_item (item w ws) = false
  same_items (item v vs) no_item = false
  same_items (item v vs) (item w ws) = same v w && same_items vs ws

  same_fields : Fields → Record → Bool
  same_fields no_field gs = true
  same_fields (field k v fs) gs =
      elim (Dict.get gs k) [ none ↦ false | some w ↦ same v w ] && same_fields fs gs

-- `v in vs`
abbrev pub among : List Value → Value → Bool
among vs v = any (same v) vs

-- `list(dict.fromkeys(vs))`, of values already seen and the rest
unfoldable pub unique : List Value → List Value → List Value
unique seen [] = []
unique seen (v ∷ vs) =
    let rest = unique seen vs in
    let later = unique (v ∷ seen) vs in if among seen v then rest else v ∷ later
