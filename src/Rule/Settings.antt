-- ===== src/Rule/Settings.antt =====
-- app/pipeline/datasource_settings.py: the settings of a sink that config.cue's datasource gives, laid
-- over a rule.
use var_track.Prelude.{
  String, Option, none, some, List, [], ◌∷◌, ◌++◌, ◌==◌, string_eq, if◌then◌else◌, is_empty,
}
use var_track.Prelude.Dict
use var_track.Prelude.Dict.{Dict, is_some, or_else}
use var_track.Value.{Value, dict, Record, truthy, is_null, list_items, dict_fields, to_dict}
use var_track.Rule.Getters.{Conversions, Getter, str, value_at, mappings, full_name}
use var_track.Rule.Secrets.{secret_of}

unfoldable pub keys_of_all : Dict String (List (String × Getter)) → List String
unfolding Dict.keys
keys_of_all [] = []
keys_of_all ((kind, mapping) ∷ rest) = Dict.keys mapping ++ keys_of_all rest

-- The keys that only config.cue sets, beside those of rule.proto.
abbrev pub setting_keys : List String
setting_keys = keys_of_all mappings

unfoldable pub settings_from :
    Conversions → (Value → Value) → Record → List (String × Getter) → Record → Record
settings_from c secret cfg [] out = out
settings_from c secret cfg ((key, getter) ∷ rest) out =
    let value = getter c secret cfg in
    settings_from c secret cfg rest (if is_null value then out else Dict.put out key value)

unfoldable pub sink_settings : Conversions → Record → String → String → Record → Record
unfolding settings_from secret_of
sink_settings c bundle manager kind cfg =
    settings_from c (secret_of c bundle manager) cfg (or_else (Dict.get mappings kind) []) []

unfoldable find_kind : Conversions → String → Record → Option (String × Record)
unfolding full_name
find_kind c name [] = none
find_kind c name ((kind, dict fs) ∷ kinds) =
    let rest = find_kind c name kinds in
    if full_name c kind (to_dict fs) == name then some (kind, to_dict fs) else rest
find_kind c name ((kind, v) ∷ kinds) = find_kind c name kinds

unfoldable pub find_wrapped : Conversions → String → List Value → Option (String × Record)
unfolding find_kind
find_wrapped c name [] = none
find_wrapped c name (wrapper ∷ wrappers) =
    let rest = find_wrapped c name wrappers in
    elim (find_kind c name (dict_fields wrapper)) [ none ↦ rest | some found ↦ some found ]

unfoldable pub find_datasource : Conversions → Record → String → Option (String × Record)
unfolding find_wrapped
find_datasource c bundle name = find_wrapped c name (list_items (value_at bundle "datasources"))

-- The rule's secret manager, or ""
unfoldable pub manager_of : Conversions → Record → String
unfolding truthy str
manager_of c rule = let v = value_at rule "secret_manager" in if truthy v then str c v else ""

unfoldable pub with_datasource_settings : Conversions → Record → String → Record → Record
unfolding find_datasource sink_settings manager_of
with_datasource_settings c bundle datasource rule =
    if is_empty bundle then rule else elim (find_datasource c bundle datasource) [
      | none ↦ rule
      | some (kind, cfg) ↦ Dict.update rule (sink_settings c bundle (manager_of c rule) kind cfg)
    ]
