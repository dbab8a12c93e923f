-- ===== src/Rule/Renamed.antt =====
-- app/pipeline/renamed_options.py: options that were renamed or removed.
use var_track.Prelude.{
  String, ◌≡◌, refl, ◌||◌, ◌&&◌, Option, none, some, List, [], ◌∷◌, any, contains, ◌==◌, string_eq,
  if◌then◌else◌, arith,
}
use var_track.Prelude.Dict
use var_track.Prelude.Dict.{
  Dict, IsDict, set_default, get-pop, get-put, get-set_default, IsDict-pop, IsDict-put,
}
use var_track.Value.{Value, list, dict, Items, no_item, item, Record, to_dict, of_dict}

abbrev pub removed_options : List String
removed_options = "secrets" ∷ "retry_backoff" ∷ []

unfoldable pub drop_removed : List String → Record → Record
drop_removed [] out = out
drop_removed (key ∷ removed) out =
    let rest = drop_removed removed out in
    let popped = drop_removed removed (Dict.pop out key) in
    if Dict.has out key then popped else rest

-- One turn of the loop over the renamed options
abbrev pub rename_one : String → String → Record → Record
rename_one old current out = elim (Dict.get out old) [
  | none ↦ out
  | some value ↦ set_default (Dict.pop out old) current value
]

unfoldable pub rename_all : Dict String String → Record → Record
rename_all [] out = out
rename_all ((old, current) ∷ renamed) out = rename_all renamed (rename_one old current out)

unfoldable pub with_current_names : Dict String String → Record → Record
unfolding rename_all drop_removed
with_current_names renamed options =
    if any (Dict.has options) (Dict.keys renamed) || any (Dict.has options) removed_options
    then rename_all renamed (drop_removed removed_options options)
    else options

-- The same for a value that may not be a dict
abbrev pub value_with_current_names : Dict String String → Value → Value
value_with_current_names renamed (dict fs) =
    dict (of_dict (with_current_names renamed (to_dict fs)))
value_with_current_names renamed v = v

abbrev all_with_current_names : Dict String String → Items → Items
unfolding with_current_names to_dict of_dict
all_with_current_names renamed no_item = no_item
all_with_current_names renamed (item v vs) =
    item (value_with_current_names renamed v) (all_with_current_names renamed vs)

-- The S3 block of a datasource
abbrev upgrade_wrapper : Dict String String → Value → Value
unfolding with_current_names to_dict of_dict
upgrade_wrapper renamed (dict fs) =
    let wrapper = to_dict fs in
    elim (Dict.get wrapper "s3") [
      | some (dict block) ↦
          dict (of_dict (Dict.put wrapper "s3" (value_with_current_names renamed (dict block))))
      | _ ↦ dict fs
    ]
upgrade_wrapper renamed v = v

abbrev upgrade_wrappers : Dict String String → Items → Items
unfolding upgrade_wrapper
upgrade_wrappers renamed no_item = no_item
upgrade_wrappers renamed (item v vs) =
    item (upgrade_wrapper renamed v) (upgrade_wrappers renamed vs)

-- `d[key] = list(f(items))` where `d[key]` is a list
abbrev change_list : (Items → Items) → String → Record → Record
change_list f key d = elim (Dict.get d key) [
  | some (list vs) ↦ Dict.put d key (list (f vs))
  | _ ↦ d
]

unfoldable pub upgrade_bundle : Dict String String → Record → Record
unfolding all_with_current_names upgrade_wrappers
upgrade_bundle renamed bundle =
    change_list (upgrade_wrappers renamed) "datasources"
      (change_list (all_with_current_names renamed) "rules" bundle)

pub get-drop_removed :
    (removed : List String) (out : Record) (k : String)
    → Dict.get (drop_removed removed out) k ≡ (if contains removed k then none else Dict.get out k)
unfolding drop_removed
get-drop_removed [] out k = refl
get-drop_removed (key ∷ removed) out k = ground (
  arith,
  get-drop_removed removed out k,
  get-drop_removed removed (Dict.pop out key) k,
  get-pop out key k,
)

-- The value under the first old name of `k` that is set.
abbrev pub earliest : Dict String String → Record → String → Option Value
earliest [] options k = none
earliest ((old, current) ∷ renamed) options k =
    let rest = earliest renamed options k in
    if (current == k) && Dict.has options old then Dict.get options old else rest
