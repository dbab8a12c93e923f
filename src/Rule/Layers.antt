-- ===== src/Rule/Layers.antt =====
-- app/pipeline/rule_layers.py: the layers of one rule.
use var_track.Prelude.{
  String, ◌<>◌, Bool, true, false, not, ◌&&◌, ◌||◌, Option, none, some, List, [], ◌∷◌, ◌++◌,
  contains, any, all, ◌==◌, nat_eq, string_eq, if◌then◌else◌, is_empty,
}
use var_track.Prelude.Dict
use var_track.Prelude.Dict.{Dict, is_some, set_default}
use var_track.Prelude.Texts.{codes, rstrip, lstrip}
use var_track.Value.{
  Value, bool, text, list, dict, Fields, no_field, field, no_item, item, Record, truthy, is_dict,
  is_null, list_items, to_dict, of_dict, to_list, of_list, unique,
}
use var_track.Rule.{RuleOptions}
use var_track.Rule.Renamed.{with_current_names}
use var_track.Rule.Getters.{Conversions, str, value_at}
use var_track.Rule.Settings.{find_wrapped, setting_keys}

abbrev pub default_tenant : String
default_tenant = "default"

abbrev pub identity : List String
identity = "platform" ∷ "datasource" ∷ []

abbrev pub admin_only_keys : RuleOptions → List String
admin_only_keys o = o.admin_only ++ setting_keys

-- `_prune_object`
unfoldable pub prune_object : Value → Fields
unfolding truthy
prune_object (dict fs) = fs
prune_object v = field "enabled" (bool (truthy v)) no_field

abbrev pub put_if : String → Option Value → Record → Record
put_if key none out = out
put_if key (some v) out = Dict.put out key v

-- The union of two lists of patterns, the parent's first
unfoldable pub united : Option Value → Option Value → Option Value
unfolding to_list of_list unique
united p (some (list ws)) = elim p [
  | some (list vs) ↦ some (list (of_list (unique [] (to_list vs ++ to_list ws))))
  | _ ↦ none
]
united p c = none

unfoldable pub merged_dicts : String → Record → Record → Record
unfolding united
merged_dicts key p c =
    let both = Dict.update p c in
    let patterns = united (Dict.get p "protection") (Dict.get c "protection") in
    if key == "prune" then put_if "protection" patterns both else both

-- Two dicts are merged_dicts.
unfoldable pub merge_dicts : String → Value → Value → Option Value
unfolding merged_dicts to_dict of_dict
merge_dicts key (dict ps) (dict cs) =
    some (dict (of_dict (merged_dicts key (to_dict ps) (to_dict cs))))
merge_dicts key p c = none

-- What the turn of the loop for `key` puts under it, if anything
unfoldable pub merge_values : String → Value → Value → Option Value
unfolding prune_object merge_dicts is_dict
merge_values key p c =
    let mixed = (is_dict p && not (is_dict c)) || (not (is_dict p) && is_dict c) in
    if (key == "prune") && (mixed && (not (is_null p) && not (is_null c)))
    then merge_dicts key (dict (prune_object p)) (dict (prune_object c))
    else merge_dicts key p c

unfoldable pub merge_keys : List String → Record → Record → Record → Record
unfolding merge_values
merge_keys [] parent child out = out
merge_keys (key ∷ keys) parent child out =
    merge_keys keys parent child
      (put_if key (merge_values key (value_at parent key) (value_at child key)) out)

-- What `dict.fromkeys` takes: a list or a dict cannot be hashed.
abbrev pub is_hashable : Value → Bool
is_hashable (list vs) = false
is_hashable (dict fs) = false
is_hashable v = true

unfoldable pub hashes : Option Value → Option Value → Bool
unfolding to_list
hashes p (some (list ws)) = elim p [
  | some (list vs) ↦ all is_hashable (to_list vs ++ to_list ws)
  | _ ↦ true
]
hashes p c = true

unfoldable pub prunes_hash : Value → Value → Bool
unfolding to_dict hashes
prunes_hash (dict ps) (dict cs) =
    hashes (Dict.get (to_dict ps) "protection") (Dict.get (to_dict cs) "protection")
prunes_hash p c = true

-- That the patterns of the two layers can be hashed, where they are united: else merge_child raises TypeError.
unfoldable pub can_merge : RuleOptions → Record → Record → Bool
unfolding prunes_hash
can_merge o parent child =
    not (contains o.mergeable "prune")
    || prunes_hash (value_at parent "prune") (value_at child "prune")

-- Where can_merge holds; `merge_or_raise` of Rule/Presets raises where it does not.
unfoldable pub merge_child : RuleOptions → Record → Record → Record
unfolding merge_keys
merge_child o parent child = merge_keys o.mergeable parent child (Dict.update parent child)

-- The keys that `force` cannot set
abbrev pub is_blocked : RuleOptions → String → Bool
is_blocked o k = contains (admin_only_keys o ++ identity) k

abbrev pub laid_force : RuleOptions → Record → Value → Record
laid_force o rule (dict fs) =
    Dict.update rule (Dict.keep_keys (λ k. not (is_blocked o k)) (to_dict fs))
laid_force o rule v = rule

unfoldable pub apply_force : RuleOptions → Record → Record
unfolding to_dict
apply_force o rule = laid_force o rule (value_at rule "force")

-- The server of a platform: its endpoint, or github.com
unfoldable pub endpoint_of : Conversions → String → Record → String
unfolding truthy str rstrip
endpoint_of c kind cfg =
    let given = value_at cfg "endpoint" in
    rstrip 47
      (if truthy given then str c given else if kind == "github" then "https://github.com" else "")

-- The clone URL of a platform's repository, or "" without an endpoint
abbrev pub url_of : Conversions → String → Record → String → String
unfolding endpoint_of
url_of c kind cfg repo =
    let endpoint = endpoint_of c kind cfg in
    if endpoint == "" then "" else endpoint <> "/" <> repo <> ".git"

-- One of `*?[`
abbrev pub has_wildcard : String → Bool
has_wildcard repo = any (contains (42 ∷ 63 ∷ 91 ∷ [])) (codes repo)

unfoldable pub clone_url : Conversions → Record → String → Value → String
unfolding find_wrapped rstrip lstrip str
clone_url c bundle platform (list (item v no_item)) =
    let repo = lstrip 47 (rstrip 47 (str c v)) in
    if (repo == "") || (has_wildcard repo || not (contains (codes repo) 47))
    then ""
    else elim (find_wrapped c platform (list_items (value_at bundle "platforms"))) [
      | none ↦ ""
      | some (kind, cfg) ↦ url_of c kind cfg repo
    ]
clone_url c bundle platform v = ""

unfoldable pub with_url : Record → String → Record
with_url rule url = if url == "" then rule else Dict.put rule "repo_url" (text url)

-- `_base`
unfoldable pub base_rule : RuleOptions → Conversions → Record → Record → Record
unfolding with_url clone_url with_current_names str
base_rule o c bundle cue =
    let rule = with_current_names o.renamed cue in
    let platform : String = elim (Dict.get rule "platform") [ none ↦ "" | some v ↦ str c v ] in
    with_url rule (clone_url c bundle platform (value_at rule "repositories"))

-- `_without_admin_only`
abbrev pub without_admin_only : RuleOptions → Record → Record
without_admin_only o = Dict.keep_keys (λ k. not (contains (admin_only_keys o) k))

-- The tenant's layer
unfoldable pub child_of : RuleOptions → Option Record → Record
unfolding with_current_names
child_of o none = []
child_of o (some rule) =
    if is_empty rule then [] else without_admin_only o (with_current_names o.renamed rule)

unfoldable pub layered_rule :
    RuleOptions → Conversions → Record → Record → Option Record → String → Record
unfolding base_rule child_of merge_child apply_force with_current_names
layered_rule o c bundle cue bundle_rule tenant = apply_force o (
    set_default (merge_child o (base_rule o c bundle cue) (child_of o bundle_rule)) "tenant_id"
      (text tenant))
