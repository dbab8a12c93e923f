-- ===== src/Rule/Secrets.antt =====
-- app/pipeline/datasource_settings.py: the credentials of a datasource, `_Secrets`.
use var_track.Prelude.{
  String, not, Option, none, some, List, [], ◌∷◌, ◌++◌, contains, ◌==◌, string_eq, if◌then◌else◌,
}
use var_track.Prelude.Dict
use var_track.Value.{Value, null, text, dict, Record, list_items, dict_fields, to_dict}
use var_track.Rule.Getters.{Conversions, str, value_at, full_name}

-- The names of the secret managers of a wrapper
names_of : Conversions → Record → List String
unfolding full_name
names_of c [] = []
names_of c ((kind, v) ∷ kinds) = full_name c kind (dict_fields v) ∷ names_of c kinds

managers_in : Conversions → List Value → List String
unfolding names_of
managers_in c [] = []
managers_in c (wrapper ∷ wrappers) = names_of c (dict_fields wrapper) ++ managers_in c wrappers

-- The bundle's secret managers. Their order, which only a message shows, is the file's.
abbrev managers : Conversions → Record → List String
unfolding managers_in
managers c bundle = managers_in c (list_items (value_at bundle "secret_managers"))

abbrev only_one : List String → String
only_one (name ∷ []) = name
only_one names = ""

-- The manager that a {ref} is read from: the rule's, or the default one, or the only one; "" where there is
-- none, and `none` where the rule's is not one of the bundle's
unfoldable pub chosen_manager : String → List String → Option String
chosen_manager manager names =
    if not (manager == "")
    then (if contains names manager then some manager else none)
    else if contains names "vault-default"
    then some "vault-default"
    else if only_one names == ""
    then none
    else some (only_one names)

abbrev text_or_null : Option String → Value
text_or_null none = null
text_or_null (some s) = text s

-- `_Secrets.__call__`: null where it gives None
unfoldable pub secret_of : Conversions → Record → String → Value → Value
unfolding to_dict str managers chosen_manager
secret_of c bundle manager (text s) = text s
secret_of c bundle manager (dict fs) =
    let ref = to_dict fs in
    if Dict.has ref "value"
    then text (str c (value_at ref "value"))
    else if Dict.has ref "file"
    then text_or_null (c.read_secret_file (value_at ref "file") (value_at ref "key"))
    else if Dict.has ref "ref"
    then elim (chosen_manager manager (managers c bundle)) [
      | none ↦ null
      | some name ↦ text_or_null (c.read_ref name ref)
    ]
    else null
secret_of c bundle manager v = null
