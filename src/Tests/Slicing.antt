-- ===== src/Tests/Slicing.antt =====
-- Slices of small files.
use var_track.Prelude.{◌≡◌, refl, some, [], ◌∷◌, string_eq}
use var_track.Prelude.Dict
use var_track.Value.{Value, text, dict, field, no_field, Record, to_dict, is_dict}
use var_track.Env.Slice.{slice, pattern_2_values, resolve_env_slice}

abbrev plain : Value
plain = dict (field "name" (text "bob") no_field)

abbrev sections : Record
sections =
    ("default", dict (field "a" (text "1") (field "b" (text "2") no_field)))
    ∷ ("prod", dict (field "a" (text "9") no_field))
    ∷ []

abbrev hybrid : Record
hybrid =
    ("prod", dict (field "name" (text "worn") no_field))
    ∷ ("name", text "bob")
    ∷ ("age", text "33")
    ∷ []

-- An environment's section is laid over the default one.
laid : slice sections "prod" ≡ some (("a", text "9") ∷ ("b", text "2") ∷ [])
unfolding slice pattern_2_values Dict.get Dict.update Dict.put to_dict is_dict string_eq
laid = refl

-- A section beside plain values is laid over them.
beside : slice hybrid "prod" ≡ some (("name", text "worn") ∷ ("age", text "33") ∷ [])
unfolding slice pattern_2_values Dict.get Dict.update Dict.put to_dict is_dict string_eq
beside = refl

-- A file without sections stays.
kept : resolve_env_slice plain "prod" ≡ plain
unfolding resolve_env_slice slice pattern_2_values Dict.get Dict.update Dict.put to_dict is_dict
    string_eq
kept = refl
