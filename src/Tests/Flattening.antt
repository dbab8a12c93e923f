-- ===== src/Tests/Flattening.antt =====
-- Flat keys of a small file, and the theorem on them.
use var_track.Prelude.{◌≡◌, refl, true, none, some, [], ◌∷◌, string_eq, nat_eq}
use var_track.Prelude.Texts.{show}
use var_track.Prelude.Dict
use var_track.Value.{
  to_dict, of_dict, Value, bool, text, list, dict, no_item, item, no_field, field,
}
use var_track.Transform.{
  py_flatten, flatten_loop, push_fields, push_items, below, leaf, nodes, overlay, transform,
  flatten, is_nested,
}
use var_track.Transform.Reference.{leaves}
use var_track.Transform.Shape.{
  split, join, item_at, set_item, number_from, find, put_at, remove, rename_one, rename_values,
  put_changed, file_shape, unflatten, all_parents, parents_of, nest, nest_all,
}
use var_track.Transform.Placing.{find-put_at}
use var_track.Transform.Flattening.{py_flatten-leaves}

abbrev hosts : Value
hosts = list (item (text "a") (item (text "b") no_item))

abbrev sample : Value
sample = dict (
    field "db" (dict (field "host" (text "x") (field "hosts" hosts no_field)))
      (field "debug" (bool true) no_field))

renamed :
    transform (λ v. none) (some sample) (("DB_HOST", "db.host") ∷ []) ""
    ≡ some (("debug", "true") ∷ ("db.hosts.1", "b") ∷ ("db.hosts.0", "a") ∷ ("DB_HOST", "x") ∷ [])
unfolding transform flatten overlay py_flatten flatten_loop push_fields push_items below leaf nodes
    show Dict.get Dict.put Dict.pop string_eq nat_eq
renamed = refl

py_flatten-leaves_example : py_flatten sample "" ≡ some (leaves sample "" [])
py_flatten-leaves_example = py_flatten-leaves sample ""

-- The second host, under its key
find-put_at_example :
    find
      (dict (
        field "db"
          (dict (
            field "host"
              (text "x")
              (field "hosts" (list (item (text "a") (item (text "c") no_item))) no_field)))
          (field "debug" (bool true) no_field)))
      ("db" ∷ "hosts" ∷ "1" ∷ [])
    ≡ some (text "c")
unfolding put_at join item_at set_item number_from Dict.get Dict.put string_eq nat_eq to_dict
    of_dict
find-put_at_example = find-put_at sample ("db" ∷ "hosts" ∷ "1" ∷ []) (text "c") _ refl

-- A file's shape has its renames, and the values that were changed.
shaped :
    file_shape
      (λ v. none)
      (dict (field "db" (dict (field "host" (text "x") no_field)) no_field))
      (("DB.HOST", "***") ∷ [])
      (("DB.HOST", "db.host") ∷ [])
    ≡ some (
        dict (
          field "db"
            (dict no_field)
            (field "DB" (dict (field "HOST" (text "***") no_field)) no_field)))
unfolding file_shape rename_values rename_one put_changed find remove put_at split join is_nested
    flatten py_flatten flatten_loop push_fields push_items below leaf nodes Dict.get Dict.put
    Dict.pop string_eq nat_eq to_dict of_dict
shaped = refl

nested :
    unflatten (("a.b", text "1") ∷ ("a.c", text "2") ∷ [])
    ≡ some (("a", dict (field "b" (text "1") (field "c" (text "2") no_field))) ∷ [])
unfolding unflatten all_parents parents_of nest nest_all split join Dict.get Dict.put Dict.keys
    string_eq to_dict of_dict
nested = refl

clash : unflatten (("a", text "1") ∷ ("a.b", text "2") ∷ []) ≡ none
unfolding unflatten all_parents parents_of nest nest_all split join Dict.get Dict.put Dict.keys
    string_eq to_dict of_dict
clash = refl
