-- ===== src/Task/Preview.antt =====
-- What a dry run of a webhook's task says of the real run.
use var_track.Prelude.{
  ℕ, String, ◌≡◌, ◌≢◌, refl, sym, ap, ◌∙◌, Bool, true, ◌||◌, ◌&&◌, Option, none, some, List, [],
  ◌∷◌, ◌++◌, map, arith, length, is_empty, Bool-cases, inl, inr, ◌==◌, string_eq,
}
use var_track.Sink.{Reply, done, raised, done-injective}
use var_track.Payload.{PruneConfig, extract_prune_config}
use var_track.Sync.Files.{EtlFile, SyncResult}
use var_track.Sync.Run.{run_stage_sync}
use var_track.Sync.Results.{paths-run_stage_sync}
use var_track.Env.Cache.{Cache}
use var_track.Rule.Presets.{
  Outcome, ok, fault, preset_error, repo_config_error, recursion_error, type_error, other_error,
}
use var_track.Etl.{EtlResult, Extracted, flag_option, run_stage_etl}
use var_track.Task.Fields.{PayloadContext, run_stage_payload}
use var_track.Task.Collect.{collect}
use var_track.Task.Stages.{
  World, TaskTarget, stage_sync, sync_with, sync_entered, job_for, overridden, files_of,
  written_envs, Report, FileReport, file_report, build_dry_run_report,
}
use var_track.Task.Webhook.{
  TaskResult, completed, dry_run_complete, WebhookTask, etl_context, after_etl, answer_sync,
  answer_report, previewed, with_etl, with_rule, is_suspended, with_context, process_webhook_task,
}

-- The paths that a report speaks of, in order
abbrev pub reported : Report → List String
reported r = map (λ f. f.file) r.files ++ r.skipped

paths_of_reports :
    (fs : List Extracted)
    → map (λ (f : EtlFile). f.file_path) (map (λ f. f.file) fs)
      ≡ map (λ (f : FileReport). f.file) (map file_report fs)
paths_of_reports [] = refl
paths_of_reports (f ∷ fs) = ap (◌∷◌ f.file.file_path) (paths_of_reports fs)

-- Two answers agree on the files, when one is a dry run's and the other a sync's.
abbrev Agree : TaskResult → TaskResult → Type 0
Agree a b =
    (report : Report) (results : List SyncResult)
    → a ≡ dry_run_complete report
    → b ≡ completed results
    → map (λ r. r.file_path) results ≡ reported report

module _ (w : World) (target : TaskTarget) where
  module _ (ctx : PayloadContext) (repo : String) (n : ℕ) (etl : EtlResult) (k : w.sink.State) where
    -- The results of a stage that is done are of the files in order, then of those skipped.
    abbrev InOrder : Reply (List SyncResult) → Type 0
    InOrder r =
        (results : List SyncResult)
        → r ≡ done results
        → map (λ x. x.file_path) results
          ≡ map (λ (f : FileReport). f.file) (map file_report etl.files) ++ etl.skipped

    sync_entered-InOrder :
        (cfg : PruneConfig) (o : Option String)
        → InOrder (sync_entered w target ctx repo n etl k cfg o).1
    sync_entered-InOrder cfg (some error) results e = absurd (ground (arith, e))
    sync_entered-InOrder cfg none results e =
        let out =
          run_stage_sync w.sink (job_for w target ctx repo n) w.secret_digest w.redis w.ledger
            w.registry cfg (files_of etl) etl.skipped k in
        sym (ap (map (λ x. x.file_path)) (done-injective out.1 results e))
        ∙ paths-run_stage_sync w.sink (job_for w target ctx repo n) w.secret_digest w.redis w.ledger
            w.registry cfg (files_of etl) etl.skipped k
        ∙ ap (λ ps. ps ++ etl.skipped) (paths_of_reports etl.files)

    sync_with-InOrder : (o : Option PruneConfig) → InOrder (sync_with w target ctx repo n etl k o).1
    sync_with-InOrder none results e = absurd (ground (arith, e))
    sync_with-InOrder (some cfg) results e =
        sync_entered-InOrder cfg
          (w.enter target.tenant_id target.datasource ctx.rule_config (written_envs (files_of etl)))
          results e

    stage_sync-InOrder : InOrder (stage_sync w target ctx repo n etl k).1
    unfolding stage_sync
    stage_sync-InOrder = sync_with-InOrder (extract_prune_config ctx.rule_config)

  answer_report-ne-completed :
      (etl : EtlResult) (c : Reply (List (String × List String))) (results : List SyncResult)
      → answer_report w target etl c ≢ completed results
  unfolding build_dry_run_report
  answer_report-ne-completed etl (raised error) results e = ground (arith, e)
  answer_report-ne-completed etl (done gone) results e = ground (arith, e)

  answer-Agree :
      (etl : EtlResult) (c : Reply (List (String × List String)))
      (s : w.sink.State × Reply (List SyncResult))
      → ((results : List SyncResult)
          → s.1 ≡ done results
          → map (λ x. x.file_path) results
            ≡ map (λ (f : FileReport). f.file) (map file_report etl.files) ++ etl.skipped)
      → Agree (answer_report w target etl c) (answer_sync w target s).1
  unfolding build_dry_run_report
  answer-Agree etl (raised error) s h report results a b = absurd (ground (arith, a))
  answer-Agree etl (done gone) (k, raised error) h report results a b = absurd (ground (arith, b))
  answer-Agree etl (done gone) (k, done rs) h report results a b = ground (arith, h rs refl, a, b)

  module _ (ctx : PayloadContext) (k : w.sink.State) where
    after_etl-Agree :
        (dry_run : Bool) (etl : EtlResult)
        → Agree (after_etl w target ctx true k etl).1 (after_etl w target ctx dry_run k etl).1
    unfolding after_etl
    after_etl-Agree dry_run etl report results a b =
        let report_of = answer_report w target etl (previewed w target ctx etl) in
        let synced = stage_sync w target ctx ctx.repo_url (length etl.files) etl k in
        elim (Bool-cases (is_empty etl.files && is_empty etl.skipped)) [
          | inl nothing ↦ absurd (ground (arith, a, nothing))
          | inr there ↦ elim (Bool-cases dry_run) [
            | inl dry ↦ absurd (
                answer_report-ne-completed etl (previewed w target ctx etl) results
                  (ground (arith, b, there, dry)))
            | inr real ↦
                answer-Agree etl (previewed w target ctx etl) synced
                  (stage_sync-InOrder ctx ctx.repo_url (length etl.files) etl k) report results
                  (ground (arith, a, there)) (ground (arith, b, there, real))
          ]
        ]

    with_etl-Agree :
        (dry_run : Bool) (r : Cache × Reply EtlResult)
        → Agree (with_etl w target ctx true k r).1.1 (with_etl w target ctx dry_run k r).1.1
    with_etl-Agree dry_run (cache, done etl) report results a b =
        after_etl-Agree dry_run etl report results a b
    with_etl-Agree dry_run (cache, raised error) report results a b = absurd (ground (arith, a))

  module _ (task : WebhookTask) (cache : Cache) (k : w.sink.State) where
    abbrev shadow : WebhookTask
    shadow = record task { dry_run = true }

    with_rule-Agree :
        (o : Outcome PayloadContext)
        → Agree (with_rule w target shadow cache k o).1.1 (with_rule w target task cache k o).1.1
    unfolding with_rule
    with_rule-Agree (fault preset_error) report results a b = absurd (ground (arith, a))
    with_rule-Agree (fault repo_config_error) report results a b = absurd (ground (arith, a))
    with_rule-Agree (fault recursion_error) report results a b = absurd (ground (arith, a))
    with_rule-Agree (fault other_error) report results a b = absurd (ground (arith, a))
    with_rule-Agree (fault type_error) report results a b = absurd (ground (arith, a))
    with_rule-Agree (ok laid) report results a b =
        with_etl-Agree laid k (task.dry_run || flag_option laid.rule_config "dry_run")
          (run_stage_etl w.tools (etl_context laid) cache (collect w.git laid)) report results a b

    with_context-Agree :
        (r : Reply (Option PayloadContext))
        → Agree
            (with_context w target shadow cache k r).1.1
            (with_context w target task cache k r).1.1
    unfolding with_context
    with_context-Agree (raised error) report results a b = absurd (ground (arith, a))
    with_context-Agree (done none) report results a b = absurd (ground (arith, a))
    with_context-Agree (done (some ctx)) report results a b =
        let missing = (ctx.repo_url == "") || (ctx.ref == "") in
        elim (Bool-cases missing) [
          | inl out ↦ absurd (ground (arith, a, out))
          | inr there ↦ elim (Bool-cases (is_suspended w target task ctx)) [
            | inl held ↦ absurd (ground (arith, b, there, held))
            | inr awake ↦
                with_rule-Agree (overridden w target ctx) report results
                  (ground (arith, a, there, awake)) (ground (arith, b, there, awake))
          ]
        ]

    -- Where a webhook's task with its dry_run ends with a report, and the same task otherwise with results, the
    -- results are of the files of the report, in its order, and then of those that it says are skipped.
    pub process_webhook_task-reported :
        (report : Report) (results : List SyncResult)
        → (process_webhook_task w target (record task { dry_run = true }) cache k).1.1
          ≡ dry_run_complete report
        → (process_webhook_task w target task cache k).1.1 ≡ completed results
        → map (λ r. r.file_path) results ≡ reported report
    unfolding process_webhook_task
    process_webhook_task-reported report results =
        with_context-Agree
          (run_stage_payload w.payload task.raw_payload task.platform task.rule_config
            target.datasource target.tenant_id)
          report results
