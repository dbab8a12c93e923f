-- ===== src/Transform.antt =====
-- app/pipeline/transformer.py: a parsed file as flat keys. The parsers and the Rust core are parameters.
use var_track.Prelude.{
  ℕ, zero, suc, ◌+◌, String, ◌<>◌, Bool, true, false, Option, none, some, List, [], ◌∷◌, ◌==◌,
  string_eq, if◌then◌else◌, is_empty, ◌>>=◌, ◌&&◌, not, ◌||◌,
}
use var_track.Prelude.Texts.{show}
use var_track.Prelude.Dict
use var_track.Prelude.Dict.{Dict}
use var_track.Value.{
  Value, null, bool, num, text, list, dict, Items, no_item, item, Fields, no_field, field, Record,
  is_dict, is_null, to_dict,
}
pub mod Reference
pub mod Flattening
pub mod Shape
pub mod Placing

-- A value to flatten and the key that it is under
abbrev pub Frame : Type 0
Frame = Value × String

-- `f"{pfx}.{key}" if pfx else key`
unfoldable pub below : String → String → String
below pfx key = if pfx == "" then key else pfx <> "." <> key

-- The text of a leaf
unfoldable pub leaf : Value → String
leaf null = ""
leaf (bool b) = if b then "true" else "false"
leaf (num n) = n.shown
leaf (text s) = s
leaf v = ""

-- The children are pushed in order, so the last one is popped first.
unfoldable pub push_fields : String → Fields → List Frame → List Frame
unfolding below
push_fields pfx no_field stack = stack
push_fields pfx (field key value fields) stack =
    push_fields pfx fields ((value, below pfx key) ∷ stack)

unfoldable pub push_items : String → ℕ → Items → List Frame → List Frame
unfolding below
push_items pfx i no_item stack = stack
push_items pfx i (item value items) stack =
    push_items pfx (suc i) items ((value, below pfx (show i)) ∷ stack)

-- The loop over the stack, of at most so many turns: `none` where it is not done by then
unfoldable pub flatten_loop : ℕ → List Frame → Dict String String → Option (Dict String String)
unfolding push_fields push_items leaf
flatten_loop n [] result = some result
flatten_loop zero (frame ∷ stack) result = none
flatten_loop (suc n) ((dict fs, pfx) ∷ stack) result =
    flatten_loop n (push_fields pfx fs stack) result
flatten_loop (suc n) ((list vs, pfx) ∷ stack) result =
    flatten_loop n (push_items pfx 0 vs stack) result
flatten_loop (suc n) ((v, pfx) ∷ stack) result = flatten_loop n stack (Dict.put result pfx (leaf v))

-- How many values there are in a value, itself included
unfoldable mutual
  pub nodes : Value → ℕ
  nodes (dict fs) = suc (nodes_of_fields fs)
  nodes (list vs) = suc (nodes_of_items vs)
  nodes v = 1

  pub nodes_of_fields : Fields → ℕ
  nodes_of_fields no_field = 0
  nodes_of_fields (field key value fields) = nodes value + nodes_of_fields fields

  pub nodes_of_items : Items → ℕ
  nodes_of_items no_item = 0
  nodes_of_items (item value items) = nodes value + nodes_of_items items

-- `_py_flatten`
unfoldable pub py_flatten : Value → String → Option (Dict String String)
unfolding flatten_loop nodes
py_flatten v pfx = flatten_loop (nodes v) ((v, pfx) ∷ []) []

-- `_flatten`: what the Rust core gives, if it is there and does not fail
unfoldable pub flatten : (Value → Option (Dict String String)) → Value → Option (Dict String String)
unfolding py_flatten
flatten rust v = elim (rust v) [ some flat ↦ some flat | none ↦ py_flatten v "" ]

-- The overlay of variables_map: new key to the key that it renames
unfoldable pub overlay : Dict String String → Dict String String → Dict String String
overlay [] flat = flat
overlay ((new_key, src_key) ∷ variables) flat = elim (Dict.get flat src_key) [
  | none ↦ overlay variables flat
  | some value ↦ overlay variables (Dict.put (Dict.pop flat src_key) new_key value)
]

-- The part of the file under root_key, where there is one
abbrev pub under_root : String → Value → Value
under_root root_key (dict fs) = elim (Dict.get (to_dict fs) root_key) [
  | none ↦ dict fs
  | some v ↦ if root_key == "" then dict fs else v
]
under_root root_key v = v

-- `transform`; `none` for `parsed` is content that cannot be parsed, and null is an empty file.
unfoldable pub transform :
    (Value → Option (Dict String String))
    → Option Value
    → Dict String String
    → String
    → Option (Dict String String)
unfolding flatten overlay to_dict
transform rust none variables root_key = some []
transform rust (some null) variables root_key = some []
transform rust (some v) variables root_key = do
  flat ← flatten rust (under_root root_key v)
  if is_empty flat then some [] else some (overlay variables flat)

-- `is_nested`
abbrev has_nested : Record → Bool
has_nested [] = false
has_nested ((key, dict fs) ∷ d) = true
has_nested ((key, list vs) ∷ d) = true
has_nested ((key, v) ∷ d) = has_nested d

unfoldable pub is_nested : Value → Bool
unfolding to_dict
is_nested (list vs) = true
is_nested (dict fs) = has_nested (to_dict fs)
is_nested v = false
