-- ===== src/Task/Collect.antt =====
-- app/tasks/file_collector.py: the files that are read for a push. Git is a parameter.
use var_track.Prelude.{
  ℕ, String, not, Option, none, some, List, [], ◌∷◌, ◌==◌, string_eq, if◌then◌else◌, is_empty, take,
  keep, map,
}
use var_track.Prelude.Order.{sorted_set}
use var_track.Prelude.Dict
use var_track.Prelude.Dict.{Dict}
use var_track.Value.{Value}
use var_track.Sink.{Reply, done, ◌>>=◌}
use var_track.Rule.Getters.{value_at}
use var_track.Rule.Presets.{token_of}
use var_track.Etl.{text_option, map_option}
use var_track.Task.Fields.{PayloadContext, extract_changed_filenames}

-- GitExtractor, as this file calls it, and what tells the order of a set
pub record Git : Type 0 where
  -- repository, ref, path, token and revision
  pub extract_file :
      String → String → String → Option String → Option String → Reply (Option String)
  -- the paths in the place of one; a file that cannot be read has no content
  pub extract_changed_files :
      String
      → String
      → List String
      → Option String
      → Option String
      → Reply (List (String × Option String))
  -- `int(max_changed_files)`, which is 500 where it is not set
  pub max_files : Option Value → Reply ℕ
  pub listed : List String → List String

-- `revision or None`
abbrev pub revision_of : String → Option String
revision_of revision = if revision == "" then none else some revision

abbrev pub vartrack_json : String
vartrack_json = "vartrack.json"

module _ (g : Git) (ctx : PayloadContext) where
  -- The content of a path at the commit
  abbrev pub read : String → Reply (Option String)
  read path =
      g.extract_file ctx.repo_url ctx.ref path (token_of (value_at ctx.rule_config "token"))
        (revision_of ctx.commit_sha)

  abbrev pub with_content : String → Option String → List (String × String) → List (String × String)
  with_content path none others = others
  with_content path (some content) others = (path, content) ∷ others

  -- The second strategy: each path of the map
  unfoldable pub read_all : List String → Reply (List (String × String))
  read_all [] = done []
  read_all (path ∷ paths) =
      let rest = read_all paths in
      do content ← read path; others ← rest; done (with_content path content others)

  -- Files that have content
  abbrev pub not_empty : List (String × Option String) → List (String × String)
  not_empty [] = []
  not_empty ((path, none) ∷ files) = not_empty files
  not_empty ((path, some content) ∷ files) =
      if content == "" then not_empty files else (path, content) ∷ not_empty files

  -- The third strategy: what the push changed, without vartrack.json and up to a number
  unfoldable pub read_changed : Reply (List (String × String))
  unfolding extract_changed_filenames
  read_changed = do
    names ← extract_changed_filenames g.listed ctx.parsed_payload
    max_files ← g.max_files (Dict.get ctx.rule_config "max_changed_files")
    let changed = take max_files (keep (λ f. not (f == vartrack_json)) names)
    files ←
        g.extract_changed_files ctx.repo_url ctx.ref changed
          (token_of (value_at ctx.rule_config "token")) (revision_of ctx.commit_sha)
    done (not_empty files)

  unfoldable pub collect : Reply (List (String × String))
  unfolding read_all read_changed
  collect =
      let file_name = text_option ctx.rule_config "file_name" "" in
      let mapped = map_option ctx.rule_config "file_path_map" in
      if not (file_name == "")
      then (do content ← read file_name; done (with_content file_name content []))
      else if not (is_empty mapped)
      then read_all (sorted_set (map (λ e. e.1) mapped))
      else read_changed
