-- ===== src/Task/Webhook.antt =====
-- `process_webhook_task` of app/tasks/etl.py: what a push does to a sink, and what the task answers. The
-- records of the task for the user interface, log lines and metrics are left out, and so is the time limit.
use var_track.Prelude.{
  String, Bool, ◌&&◌, ◌||◌, Option, none, some, List, [], ◌==◌, string_eq, if◌then◌else◌, is_empty,
  length,
}
use var_track.Prelude.Dict.{Dict}
use var_track.Value.{Record}
use var_track.Sink.{Reply, done, raised}
use var_track.Sync.Files.{SyncResult}
use var_track.Env.Cache.{Cache}
use var_track.Rule.Presets.{Outcome, ok, fault, repo_config_error}
use var_track.Etl.{EtlContext, EtlResult, flag_option, run_stage_etl}
use var_track.Task.Fields.{PayloadContext, run_stage_payload, trigger_from_headers}
use var_track.Task.Collect.{collect}
use var_track.Task.Stages.{
  World, TaskTarget, stage_sync, candidates, overridden, Report, build_dry_run_report,
}

-- What a task ends with. `crashed` is an exception that the task raises.
pub data TaskResult : Type 0 where
  failed : String → TaskResult
  suspended : TaskResult
  nothing_collected : TaskResult
  dry_run_complete : Report → TaskResult
  completed : List SyncResult → TaskResult
  crashed : String → TaskResult

-- The arguments of the task that it reads
pub record WebhookTask : Type 0 where
  pub platform : String
  pub raw_payload : String
  pub headers : Dict String String
  pub rule_config : Record
  pub dry_run : Bool

-- What the ETL stage reads of a context
abbrev pub etl_context : PayloadContext → EtlContext
etl_context ctx = record {
  branch = ctx.branch;
  tag = ctx.tag;
  pr_number = ctx.pr_number;
  rule_config = ctx.rule_config;
}

module _ (w : World) (target : TaskTarget) where
  -- The cache of pull requests, the sink, and the answer
  abbrev pub Ended : Type 0
  Ended = Cache × (w.sink.State × TaskResult)

  abbrev pub answer_sync : w.sink.State × Reply (List SyncResult) → w.sink.State × TaskResult
  answer_sync (k, done results) = (k, completed results)
  answer_sync (k, raised error) = (k, crashed error)

  abbrev pub answer_report : EtlResult → Reply (Dict String (List String)) → TaskResult
  answer_report etl (done would_delete) = dry_run_complete (build_dry_run_report etl would_delete)
  answer_report etl (raised error) = crashed error

  -- What a prune would delete, where the task has a datasource
  abbrev pub previewed : PayloadContext → EtlResult → Reply (Dict String (List String))
  previewed ctx etl =
      if target.datasource == "" then done [] else candidates w target ctx ctx.repo_url etl

  -- After the ETL stage: a dry run ends with its report.
  unfoldable pub after_etl :
      PayloadContext → Bool → w.sink.State → EtlResult → w.sink.State × TaskResult
  unfolding stage_sync candidates
  after_etl ctx dry_run k etl =
      if is_empty etl.files && is_empty etl.skipped
      then (k, nothing_collected)
      else if dry_run
      then (k, answer_report etl (previewed ctx etl))
      else answer_sync (stage_sync w target ctx ctx.repo_url (length etl.files) etl k)

  abbrev pub with_etl : PayloadContext → Bool → w.sink.State → Cache × Reply EtlResult → Ended
  with_etl ctx dry_run k (cache, raised error) = (cache, (k, crashed error))
  with_etl ctx dry_run k (cache, done etl) = (cache, after_etl ctx dry_run k etl)

  -- A rule's dry_run, after the repository's settings, is as good as the task's.
  unfoldable pub with_rule : WebhookTask → Cache → w.sink.State → Outcome PayloadContext → Ended
  unfolding run_stage_etl collect
  with_rule task cache k (fault repo_config_error) =
      (cache, (k, failed "the vartrack.json cannot be used"))
  with_rule task cache k (fault e) = (cache, (k, crashed "the presets cannot be read"))
  with_rule task cache k (ok ctx) =
      with_etl ctx (task.dry_run || flag_option ctx.rule_config "dry_run") k
        (run_stage_etl w.tools (etl_context ctx) cache (collect w.git ctx))

  abbrev pub is_suspended : WebhookTask → PayloadContext → Bool
  is_suspended task ctx =
      let trigger = trigger_from_headers w.payload.conversions.lower task.headers in
      flag_option ctx.rule_config "suspend" && ((trigger == "webhook") || (trigger == "self_heal"))

  unfoldable pub with_context :
      WebhookTask → Cache → w.sink.State → Reply (Option PayloadContext) → Ended
  unfolding overridden trigger_from_headers with_rule
  with_context task cache k (raised error) = (cache, (k, crashed error))
  with_context task cache k (done none) = (cache, (k, failed "no rule"))
  with_context task cache k (done (some ctx)) =
      if (ctx.repo_url == "") || (ctx.ref == "")
      then (cache, (k, failed "missing repo_url or ref"))
      else if is_suspended task ctx
      then (cache, (k, suspended))
      else with_rule task cache k (overridden w target ctx)

  unfoldable pub process_webhook_task : WebhookTask → Cache → w.sink.State → Ended
  unfolding run_stage_payload with_context
  process_webhook_task task cache k = with_context task cache k (
      run_stage_payload w.payload task.raw_payload task.platform task.rule_config target.datasource
        target.tenant_id)
