-- ===== src/Tests/Layering.antt =====
-- The rule of one repository through its layers, and the theorems on it.
use var_track.Prelude.{
  ◌≢◌, ltb, String, ◌≡◌, refl, sym, ap, ◌∙◌, Bool, true, false, ◌&&◌, ◌||◌, Option, none, some,
  List, [], ◌∷◌, ◌==◌, string_eq, nat_eq, if◌then◌else◌, contains, arith, Bool-cases, inl, inr,
}
use var_track.Prelude.Dict
use var_track.Prelude.Dict.{Dict, IsDict}
use var_track.Prelude.Texts.{cut, strip_prefix, strip_suffix, rstrip, lstrip}
use var_track.Value.{
  Value, bool, text, list, dict, Fields, no_field, field, no_item, item, Record, to_dict, of_dict,
  to_list, of_list, truthy, unique, same, is_dict, dict_fields,
}
use var_track.Rule.{RuleOptions}
use var_track.Rule.Getters.{Conversions, str, mappings}
use var_track.Rule.Settings.{find_wrapped, keys_of_all}
use var_track.Rule.Renamed.{with_current_names, rename_all, drop_removed, removed_options, earliest}
use var_track.Rule.Renaming.{get-with_current_names}
use var_track.Rule.Layers.{
  merge_child, merge_keys, merge_values, merge_dicts, merged_dicts, united, prune_object,
  apply_force, base_rule, layered_rule, child_of, clone_url,
}
use var_track.Rule.Protection.{protects, protects-merge_child}
use var_track.Rule.Forcing.{forced}
use var_track.Rule.PresetNames.{Unicode, parse_preset, origin_of, after_at, span, some_run}
use var_track.Rule.Presets.{
  Outside, ok, fault, repo_config_error, recursion_error, resolve_presets, merge_presets, load,
  extends_of, server_of, kept_or_read, git_fetch, read_preset, as_settings, file_eq,
}
use var_track.Rule.Overrides.{
  Context, apply_repo_overrides, first_file, with_file, with_presets, laid_over, applicable,
  as_overrides,
}
use var_track.Rule.Overriding.{
  base, get-apply_repo_overrides-forced, get-apply_repo_overrides_admin,
}
use var_track.Rule.Chains.{knows}
use var_track.Rule.Ending.{GitFaults, Closed, resolve_presets-ends}
use var_track.Rule.Errors.{IsStop, apply_repo_overrides-IsStop}

abbrev pub options : RuleOptions
options = record {
  mergeable = "branch_map" ∷ "prune" ∷ [];
  admin_only = "repositories" ∷ "force" ∷ "tenants" ∷ [];
  repo_overridable = "dry_run" ∷ "prune" ∷ "branch_map" ∷ [];
  renamed = ("env_as_branch", "branch_as_env") ∷ [];
}

abbrev old_options : Record
old_options = ("env_as_branch", bool true) ∷ ("secrets", text "vault") ∷ []

get-with_current_names_example :
    Dict.get (with_current_names options.renamed old_options) "branch_as_env" ≡ (
      if Dict.has options.renamed "branch_as_env" || contains removed_options "branch_as_env"
      then none
      else if Dict.has old_options "branch_as_env"
      then Dict.get old_options "branch_as_env"
      else earliest options.renamed old_options "branch_as_env")
unfolding Dict.get string_eq
get-with_current_names_example =
    get-with_current_names options.renamed old_options "branch_as_env"
      ((refl, tt), (refl, tt), (refl, (refl, tt)))

abbrev pattern_of : String → Value
pattern_of s = dict (field "protection" (list (item (text s) no_item)) no_field)

abbrev parent : Record
parent = ("prune", pattern_of "_vt_*") ∷ []

abbrev pub child : Record
child = ("prune", pattern_of "keep.*") ∷ []

protects-merge_child_example :
    protects (merge_child options parent child) "_vt_*"
    ≡ (protects parent "_vt_*" || protects child "_vt_*")
unfolding Dict.get string_eq to_dict
protects-merge_child_example =
    protects-merge_child options parent child "_vt_*" refl (refl, tt) (refl, tt) refl

abbrev pub conversions : Conversions
conversions = record {
  read_secret_file = λ path key. none;
  read_ref = λ manager ref. none;
  seconds = λ v. v;
  lower = λ s. s;
  shown = λ v. "";
}

abbrev pub letters : Unicode
letters = record { is_word = λ n. ltb 96 n && ltb n 123; is_space = λ n. n == 32 }

-- A repository with a vartrack.json, which extends a preset that extends itself; the ref "broken" has
-- one that extends a preset that is not there.
abbrev files : String → String → String → Option String
files url ref path =
    if path == "vartrack.json"
    then some (if ref == "broken" then "B" else "V")
    else if url == "https://git/team/presets.git"
    then some "P"
    else none

abbrev vartrack_json : Record
vartrack_json =
    ("extends", text "team/presets") ∷ ("dry_run", bool false) ∷ ("repositories", text "all") ∷ []

abbrev preset : Record
preset = ("extends", text "team/presets") ∷ ("prune", bool true) ∷ []

abbrev broken : Record
broken = ("extends", text "no/such") ∷ []

abbrev parsed : String → Option Value
parsed content =
    if content == "V"
    then some (dict (of_dict vartrack_json))
    else if content == "P"
    then some (dict (of_dict preset))
    else if content == "B"
    then some (dict (of_dict broken))
    else none

abbrev pub outside : Outside
outside = record {
  unicode = letters;
  conversions = conversions;
  extract_file = λ url ref path token revision. ok (files url ref path);
  loads = parsed;
  urlparse = λ url. ("https", "bot@git");
}

abbrev pub cue : Record
cue =
    ("platform", text "gitea")
    ∷ ("datasource", text "redis-main")
    ∷ ("repositories", list (item (text "team/app") no_item))
    ∷ ("force", dict (field "dry_run" (bool true) no_field))
    ∷ []

abbrev laid : Record
laid = layered_rule options conversions [] cue (some child) "default"

abbrev context : Context
context = record {
  repo_url = "https://git/team/app.git";
  ref = "main";
  commit_sha = "c1";
  rule_config = laid;
}

abbrev overridden : Context
overridden = record context {
  rule_config =
      ("platform", text "gitea")
      ∷ ("datasource", text "redis-main")
      ∷ ("repositories", list (item (text "team/app") no_item))
      ∷ ("force", dict (field "dry_run" (bool true) no_field))
      ∷ (
        "prune",
        dict (
            field "protection" (list (item (text "keep.*") no_item))
              (field "enabled" (bool true) no_field)),
      )
      ∷ ("tenant_id", text "default")
      ∷ ("dry_run", bool true)
      ∷ [];
}

ran : apply_repo_overrides outside options [] 3 context ≡ ok overridden
unfolding apply_repo_overrides first_file with_file with_presets laid_over applicable as_overrides
    with_current_names rename_all drop_removed layered_rule base_rule child_of clone_url merge_child
    merge_keys merge_values merge_dicts merged_dicts united prune_object apply_force resolve_presets
    merge_presets load parse_preset extends_of server_of kept_or_read git_fetch read_preset
    as_settings origin_of after_at span some_run Dict.get Dict.put Dict.pop Dict.update
    Dict.keep_keys Dict.keys string_eq file_eq to_dict of_dict to_list of_list truthy is_dict unique
    same str cut strip_prefix strip_suffix rstrip lstrip nat_eq mappings keys_of_all
ran = refl

get-apply_repo_overrides-forced_example :
    Dict.get overridden.rule_config "dry_run"
    ≡ Dict.get (forced options (base outside options [] cue (some child) "default")) "dry_run"
unfolding base_rule with_current_names clone_url find_wrapped rstrip lstrip cut mappings keys_of_all
    Dict.get Dict.keys Dict.put Dict.keep_keys string_eq nat_eq str to_dict
get-apply_repo_overrides-forced_example =
    get-apply_repo_overrides-forced outside options [] cue (some child) "default" refl refl
      (refl, tt) 3 context overridden "dry_run" refl refl ran

get-apply_repo_overrides_admin_example :
    Dict.get overridden.rule_config "repositories"
    ≡ Dict.get (base outside options [] cue (some child) "default") "repositories"
unfolding base_rule with_current_names clone_url find_wrapped rstrip lstrip cut mappings keys_of_all
    Dict.get Dict.keys Dict.put string_eq nat_eq str to_dict
get-apply_repo_overrides_admin_example =
    get-apply_repo_overrides_admin outside options [] cue (some child) "default" refl refl
      (refl, tt) 3 context overridden "repositories" refl refl refl refl ran

abbrev known : List String
known = "team/presets" ∷ "no/such" ∷ []

abbrev fields_in : Option Value → Record
fields_in none = []
fields_in (some v) = dict_fields v

-- A parsed text is one of the three.
parsed-holds :
    (P : Record → Bool) (content : String) (fs : Fields)
    → P vartrack_json ≡ true
    → P preset ≡ true
    → P broken ≡ true
    → parsed content ≡ some (dict fs)
    → P (to_dict fs) ≡ true
unfolding to_dict of_dict
parsed-holds P content fs p q r h = elim (Bool-cases (content == "V")) [
  | inl same ↦ ap (λ v. P (fields_in v)) (sym (rw same at h)) ∙ p
  | inr other ↦ elim (Bool-cases (content == "P")) [
    | inl same ↦ ap (λ v. P (fields_in v)) (sym (rw (other, same) at h)) ∙ q
    | inr another ↦ elim (Bool-cases (content == "B")) [
      | inl same ↦ ap (λ v. P (fields_in v)) (sym (rw (other, another, same) at h)) ∙ r
      | inr none_of_them ↦ absurd (ground (arith, h, other, another, none_of_them))
    ]
  ]
]

outside-GitFaults : GitFaults outside
outside-GitFaults url ref path token revision e h = absurd (ground (arith, h))

outside-Closed : Closed outside options [] known
unfolding extends_of truthy to_list Dict.get Dict.pop string_eq
outside-Closed url ref path token content fs e h =
    parsed-holds (λ d. knows known (Dict.pop d "description")) content fs refl refl refl h

resolve_presets-ends_example :
    resolve_presets outside options [] 3 vartrack_json []
      (record { base_url = "https://git"; token = none })
      []
    ≢ fault recursion_error
unfolding extends_of truthy Dict.get string_eq
resolve_presets-ends_example =
    resolve_presets-ends outside options [] known outside-GitFaults outside-Closed 3 vartrack_json
      (record { base_url = "https://git"; token = none }) refl (omega arith)

abbrev broken_context : Context
broken_context = record context { ref = "broken" }

raised : apply_repo_overrides outside options [] 3 broken_context ≡ fault repo_config_error
unfolding apply_repo_overrides first_file with_file with_presets as_overrides layered_rule base_rule
    child_of clone_url merge_child merge_keys merge_values merge_dicts merged_dicts united
    prune_object apply_force resolve_presets merge_presets load parse_preset extends_of server_of
    kept_or_read git_fetch read_preset as_settings origin_of after_at span some_run
    with_current_names rename_all drop_removed Dict.get Dict.put Dict.pop Dict.update Dict.keep_keys
    Dict.keys string_eq file_eq to_dict of_dict to_list of_list truthy is_dict unique same str cut
    strip_prefix strip_suffix rstrip lstrip nat_eq mappings keys_of_all
raised = refl

apply_repo_overrides-IsStop_example : IsStop repo_config_error
unfolding extends_of truthy Dict.get string_eq to_dict
apply_repo_overrides-IsStop_example =
    apply_repo_overrides-IsStop outside options [] known outside-GitFaults outside-Closed 3
      broken_context repo_config_error
      (λ content fs e h. parsed-holds (knows known) content fs refl refl refl h) (omega arith)
      raised
