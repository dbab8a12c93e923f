-- ===== src/Task/Cli.antt =====
-- `process_cli_sync_task` of app/tasks/etl.py, with `file_at_revision` of app/cli_ops.py and
-- `rule_config_for_datasource` of app/pipeline/schema_utils.py. The records of the task for the user
-- interface, log lines, metrics and the time limit are left out.
use var_track.Prelude.{
  String, ◌<>◌, Bool, true, not, ◌&&◌, ◌||◌, none, some, List, [], ◌∷◌, map, keep, is_empty, ◌==◌,
  string_eq, if◌then◌else◌,
}
use var_track.Prelude.Order.{sorted_set}
use var_track.Prelude.Dict
use var_track.Prelude.Dict.{Dict, or_else}
use var_track.Value.{bool, text, Record, same}
use var_track.Sink.{Reply, done, raised}
use var_track.Sync.Files.{SyncResult}
use var_track.Rule.Getters.{Conversions, str, value_at}
use var_track.Rule.Presets.{token_of}
use var_track.Etl.{EtlResult, map_option, text_option, run_stage_etl_content}
use var_track.Task.Fields.{PayloadContext, get_or}
use var_track.Task.Stages.{World, TaskTarget, stage_sync, candidates, build_dry_run_report}
use var_track.Task.Webhook.{TaskResult, failed, completed, dry_run_complete, etl_context}

-- The arguments of the task that it reads
pub record CliTask : Type 0 where
  pub env : String
  pub file_path : String
  pub content : String
  pub format : String
  pub dry_run : Bool
  pub label : String
  pub revision : String
  pub platform : String

-- What the task takes from outside: the tenant's rules, or the error of their manager; and the helpers of
-- cli_ops that read a path as pathlib does
pub record CliTools : Type 0 where
  pub get_all_rules : String → Reply (List Record)
  pub detect_format : String → String
  pub rule_file_for : Record → String → String

-- How a lookup of the rule ends
pub data Lookup : Type 0 where
  found : Record → Lookup
  ambiguous : List String → Lookup
  not_found : Lookup

-- `r.get("datasource") == datasource and (not platform or r.get("platform") == platform)`
abbrev pub is_rule_for : String → String → Record → Bool
is_rule_for datasource platform r =
    same (value_at r "datasource") (text datasource)
    && ((platform == "") || same (value_at r "platform") (text platform))

module _ (c : Conversions) where
  -- The first rule, where all are of one platform
  abbrev pub choose_rule : Record → List String → Lookup
  choose_rule r [] = found r
  choose_rule r (platform ∷ []) = found r
  choose_rule r (first ∷ (second ∷ others)) = ambiguous (first ∷ (second ∷ others))

  abbrev pub platform_name : Record → String
  platform_name r = str c (get_or r "platform" (text ""))

  abbrev pub look_up : List Record → Lookup
  look_up [] = not_found
  look_up (r ∷ rs) = choose_rule r (sorted_set (map platform_name (r ∷ rs)))

  unfoldable pub rule_config_for_datasource : Reply (List Record) → String → String → Lookup
  rule_config_for_datasource (raised e) datasource platform = not_found
  rule_config_for_datasource (done rules) datasource platform =
      look_up (keep (is_rule_for datasource platform) rules)

module _ (w : World) (target : TaskTarget) (t : CliTools) where
  -- `file_at_revision`: path and content, or the ValueError
  unfoldable pub file_at_revision : Record → String → String → Reply (String × String)
  file_at_revision rule env revision =
      let repo_url = text_option rule "repo_url" "" in
      let mapped = or_else (Dict.get (map_option rule "file_path_map") env) "" in
      let path = if mapped == "" then text_option rule "file_name" "" else mapped in
      if repo_url == ""
      then raised "--revision needs a rule that names one repository"
      else if path == ""
      then raised "the rule names no file for the environment"
      else elim (w.git.extract_file repo_url revision path (token_of (value_at rule "token"))
          none) [
            | raised e ↦ raised e
            | done none ↦ raised "the file is not there at the revision"
            | done (some content) ↦ done (path, content)
          ]

  -- The context that stands for a push
  abbrev pub synthetic : CliTask → Record → PayloadContext
  synthetic task rule = record {
    platform = str w.payload.conversions (get_or rule "platform" (text ""));
    repo_url = "local";
    ref = "refs/heads/cli/" <> task.env;
    branch = "cli/" <> task.env;
    commit_sha = if task.label == "" then "cli-push" else task.label;
    tag = none;
    pr_number = none;
    rule_config = rule;
    parsed_payload = [];
  }

  -- The sink and the answer
  abbrev pub CliEnded : Type 0
  CliEnded = w.sink.State × TaskResult

  abbrev pub answer_cli : w.sink.State × Reply (List SyncResult) → CliEnded
  answer_cli (k, done results) = (k, completed results)
  answer_cli (k, raised error) = (k, failed error)

  abbrev pub answer_preview : EtlResult → Reply (Dict String (List String)) → TaskResult
  answer_preview etl (done would_delete) = dry_run_complete (build_dry_run_report etl would_delete)
  answer_preview etl (raised error) = failed error

  -- `rule_config.get("repo_url", "local") if revision else "local"`
  abbrev pub task_repo_url : CliTask → Record → String
  task_repo_url task rule =
      if task.revision == "" then "local" else text_option rule "repo_url" "local"

  -- After the ETL stage
  unfoldable pub after_content : CliTask → Record → w.sink.State → EtlResult → CliEnded
  after_content task rule k etl =
      let ctx = synthetic task rule in
      let repo = task_repo_url task rule in
      if not (is_empty etl.errors)
      then (k, failed "etl errors")
      else if task.dry_run
      then (k, answer_preview etl (candidates w target ctx repo etl))
      else answer_cli (stage_sync w target ctx repo 1 etl k)

  unfoldable pub sync_content :
      CliTask → Record → String → w.sink.State → Reply (String × String) → CliEnded
  unfolding after_content run_stage_etl_content
  sync_content task rule format k (raised error) = (k, failed error)
  sync_content task rule format k (done (path, content)) = after_content task rule k (
      run_stage_etl_content w.tools (etl_context (synthetic task rule)) (t.rule_file_for rule path)
        content (if task.revision == "" then format else t.detect_format path) task.env)

  -- The rule of a dry run is one
  abbrev pub dry_rule : CliTask → Record → Record
  dry_rule task rule = if task.dry_run then Dict.put rule "dry_run" (bool true) else rule

  unfoldable pub with_lookup : CliTask → w.sink.State → Lookup → CliEnded
  unfolding sync_content file_at_revision
  with_lookup task k not_found = (k, failed "no rule")
  with_lookup task k (ambiguous platforms) = (k, failed "rules on several platforms")
  with_lookup task k (found rule) = sync_content task (dry_rule task rule) task.format k (
      if task.revision == ""
      then done (task.file_path, task.content)
      else file_at_revision (dry_rule task rule) task.env task.revision)

  unfoldable pub process_cli_sync_task : CliTask → w.sink.State → CliEnded
  unfolding with_lookup rule_config_for_datasource
  process_cli_sync_task task k = with_lookup task k (
      rule_config_for_datasource w.payload.conversions (t.get_all_rules target.tenant_id)
        target.datasource task.platform)
