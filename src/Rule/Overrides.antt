-- ===== src/Rule/Overrides.antt =====
-- app/pipeline/repo_overrides.py: the layer of the repository's own vartrack.json.
use var_track.Prelude.{
  ℕ, String, Option, none, some, List, [], ◌∷◌, contains, string_eq, if◌then◌else◌, is_empty,
}
use var_track.Prelude.Dict
use var_track.Value.{Value, dict, Record, truthy, to_dict}
use var_track.Rule.{RuleOptions}
use var_track.Rule.Renamed.{with_current_names}
use var_track.Rule.Getters.{value_at}
use var_track.Rule.Layers.{apply_force}
use var_track.Rule.PresetNames.{origin_of}
use var_track.Rule.Presets.{
  Outside, Outcome, ok, fault, Fault, preset_error, repo_config_error, ◌>>=◌, resolve_presets,
  merge_or_raise, token_of, PresetCache,
}

abbrev pub vartrack_json_names : List String
vartrack_json_names =
    "vartrack.json" ∷ ".github/vartrack.json" ∷ ".gitea/vartrack.json" ∷ ".gitlab/vartrack.json"
    ∷ []

-- What is read of a PayloadContext
pub record Context : Type 0 where
  pub repo_url : String
  pub ref : String
  pub commit_sha : String
  pub rule_config : Record

-- A PresetError is raised again as a RepoConfigError.
abbrev pub as_repo_config_error : Fault → Fault
as_repo_config_error preset_error = repo_config_error
as_repo_config_error e = e

abbrev pub resolved_to : Outcome (Record × PresetCache) → Outcome Record
resolved_to (ok (settings, cache)) = ok settings
resolved_to (fault e) = fault (as_repo_config_error e)

unfoldable pub as_overrides : Option Value → Outcome Record
unfolding to_dict
as_overrides (some (dict fs)) = ok (to_dict fs)
as_overrides v = fault repo_config_error

module _ (w : Outside) (o : RuleOptions) (bundle : Record) where
  -- The first of the files that is there
  unfoldable pub first_file : Context → List String → Outcome (Option String)
  first_file ctx [] = ok none
  first_file ctx (name ∷ names) =
      let rest = first_file ctx names in
      do
        content ←
            w.extract_file ctx.repo_url ctx.ref name (token_of (value_at ctx.rule_config "token"))
              (some ctx.commit_sha)
        elim content [ some found ↦ ok (some found) | none ↦ rest ]

  -- The presets of a vartrack.json, laid under it
  unfoldable pub with_presets : ℕ → Context → Record → Outcome Record
  unfolding truthy origin_of resolve_presets
  with_presets n ctx overrides =
      let origin =
        origin_of w.urlparse ctx.repo_url (token_of (value_at ctx.rule_config "token")) in
      if truthy (value_at overrides "extends")
      then resolved_to (resolve_presets w o bundle n overrides [] origin [])
      else ok overrides

  -- The keys that a repository may set
  unfoldable pub applicable : Record → Record
  unfolding with_current_names
  applicable overrides =
      Dict.keep_keys (contains o.repo_overridable) (with_current_names o.renamed overrides)

  unfoldable pub laid_over : Context → Record → Outcome Context
  unfolding apply_force merge_or_raise applicable
  laid_over ctx overrides = if is_empty (applicable overrides) then ok ctx else do
    rule ← merge_or_raise o ctx.rule_config (applicable overrides)
    ok (record ctx { rule_config = apply_force o rule })

  abbrev pub overrides_in : String → Outcome Record
  unfolding as_overrides
  overrides_in content = as_overrides (w.loads content)

  -- A file that cannot be fetched leaves the rule as it is; one that cannot be used raises.
  unfoldable pub with_file : ℕ → Context → Outcome (Option String) → Outcome Context
  unfolding overrides_in with_presets laid_over
  with_file n ctx (fault e) = ok ctx
  with_file n ctx (ok none) = ok ctx
  with_file n ctx (ok (some content)) = do
    overrides ← overrides_in content
    settings ← with_presets n ctx overrides
    laid_over ctx settings

  unfoldable pub apply_repo_overrides : ℕ → Context → Outcome Context
  unfolding with_file first_file
  apply_repo_overrides n ctx = with_file n ctx (first_file ctx vartrack_json_names)
