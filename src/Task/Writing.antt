-- ===== src/Task/Writing.antt =====
-- When a webhook's task touches the sink.
use var_track.Prelude.{
  ℕ, String, ◌≡◌, refl, Bool, false, ◌||◌, ◌&&◌, Option, none, some, List, arith, length, ◌⊎◌, inl,
  inr, if-cases, is_empty, ◌==◌, string_eq,
}
use var_track.Sink.{Reply, done, raised}
use var_track.Sync.Files.{SyncResult}
use var_track.Env.Cache.{Cache}
use var_track.Payload.{PruneConfig, extract_prune_config}
use var_track.Rule.Presets.{
  Outcome, ok, fault, preset_error, repo_config_error, recursion_error, other_error, type_error,
}
use var_track.Etl.{EtlResult, flag_option, run_stage_etl}
use var_track.Task.Fields.{PayloadContext, run_stage_payload}
use var_track.Task.Collect.{collect}
use var_track.Task.Stages.{
  World, TaskTarget, stage_sync, sync_with, sync_entered, overridden, files_of, written_envs,
}
use var_track.Task.Webhook.{
  TaskResult, completed, WebhookTask, etl_context, after_etl, answer_sync, with_etl, with_rule,
  is_suspended, with_context, process_webhook_task, Ended,
}

module _ (w : World) (target : TaskTarget) where
  -- The stage raises before it touches the sink, or it is done.
  pub stage_sync-cases :
      (ctx : PayloadContext) (repo : String) (n : ℕ) (etl : EtlResult) (k : w.sink.State)
      → let out = stage_sync w target ctx repo n etl k in
        (out.0 ≡ k) ⊎ ((results : List SyncResult) × (out.1 ≡ done results))
  unfolding stage_sync
  stage_sync-cases ctx repo n etl k = with_settings (extract_prune_config ctx.rule_config)
    where
      entered :
          (cfg : PruneConfig) (o : Option String)
          → let out = sync_entered w target ctx repo n etl k cfg o in
            (out.0 ≡ k) ⊎ ((results : List SyncResult) × (out.1 ≡ done results))
      entered cfg none = inr (_, refl)
      entered cfg (some error) = inl refl

      with_settings :
          (o : Option PruneConfig)
          → let out = sync_with w target ctx repo n etl k o in
            (out.0 ≡ k) ⊎ ((results : List SyncResult) × (out.1 ≡ done results))
      with_settings none = inl refl
      with_settings (some cfg) =
          entered cfg (
            w.enter target.tenant_id target.datasource ctx.rule_config
              (written_envs (files_of etl)))

  -- That a task writes: its stages, and the end of the last
  pub data Writes (task : WebhookTask) (cache : Cache) (k : w.sink.State)
      (out : w.sink.State × TaskResult) : Type 0 where
    writes :
        (ctx laid : PayloadContext) (etl : EtlResult) (results : List SyncResult)
        → run_stage_payload w.payload task.raw_payload task.platform task.rule_config
            target.datasource target.tenant_id
          ≡ done (some ctx)
        → is_suspended w target task ctx ≡ false
        → overridden w target ctx ≡ ok laid
        → (task.dry_run || flag_option laid.rule_config "dry_run") ≡ false
        → (run_stage_etl w.tools (etl_context laid) cache (collect w.git laid)).1 ≡ done etl
        → stage_sync w target laid laid.repo_url (length etl.files) etl k ≡ (out.0, done results)
        → out.1 ≡ completed results
        → Writes task cache k out

  -- The stage is done with results, which the task answers with.
  abbrev Answered : w.sink.State × Reply (List SyncResult) → w.sink.State × TaskResult → Type 0
  Answered s out =
      (results : List SyncResult) × ((s ≡ (out.0, done results)) × (out.1 ≡ completed results))

  answer_sync-completed :
      (s : w.sink.State × Reply (List SyncResult)) (k : w.sink.State)
      → (s.0 ≡ k) ⊎ ((results : List SyncResult) × (s.1 ≡ done results))
      → ((answer_sync w target s).0 ≡ k) ⊎ Answered s (answer_sync w target s)
  answer_sync-completed (k', done results) k h = inr (results, (refl, refl))
  answer_sync-completed (k', raised error) k (inl same) = inl same
  answer_sync-completed (k', raised error) k (inr (results, e)) = absurd (ground (arith, e))

  -- The end of a task: the sink is as it was, or no dry run has synced the files.
  abbrev TaskEnds :
      PayloadContext → Bool → w.sink.State → EtlResult → w.sink.State × TaskResult → Type 0
  TaskEnds ctx dry_run k etl out =
      (out.0 ≡ k)
      ⊎ ((dry_run ≡ false)
          × Answered (stage_sync w target ctx ctx.repo_url (length etl.files) etl k) out)

  after_etl-TaskEnds :
      (ctx : PayloadContext) (dry_run : Bool) (k : w.sink.State) (etl : EtlResult)
      → TaskEnds ctx dry_run k etl (after_etl w target ctx dry_run k etl)
  unfolding after_etl
  after_etl-TaskEnds ctx dry_run k etl =
      if-cases (TaskEnds ctx dry_run k etl) (is_empty etl.files && is_empty etl.skipped) _ _
        (λ nothing. inl refl)
        (λ there.
          if-cases (TaskEnds ctx dry_run k etl) dry_run _ _ (λ dry. inl refl) (λ real. synced real))
    where
      synced :
          dry_run ≡ false
          → TaskEnds ctx dry_run k etl
              (answer_sync w target (stage_sync w target ctx ctx.repo_url (length etl.files) etl k))
      synced real =
          elim (answer_sync-completed
            (stage_sync w target ctx ctx.repo_url (length etl.files) etl k) k
            (stage_sync-cases ctx ctx.repo_url (length etl.files) etl k)) [
              | inl same ↦ inl same
              | inr wrote ↦ inr (real, wrote)
            ]

  module _ (task : WebhookTask) (cache : Cache) (k : w.sink.State) (ctx : PayloadContext)
      (parsed : run_stage_payload w.payload task.raw_payload task.platform task.rule_config
          target.datasource target.tenant_id
        ≡ done (some ctx))
      (awake : is_suspended w target task ctx ≡ false) where
    with_etl-Writes :
        (laid : PayloadContext)
        → overridden w target ctx ≡ ok laid
        → (r : Cache × Reply EtlResult)
        → (run_stage_etl w.tools (etl_context laid) cache (collect w.git laid)).1 ≡ r.1
        → let out =
            (with_etl w target laid
              (task.dry_run || flag_option laid.rule_config "dry_run")
              k
              r).1 in
          (out.0 ≡ k) ⊎ Writes task cache k out
    with_etl-Writes laid over (cache', raised error) e = inl refl
    with_etl-Writes laid over (cache', done etl) e =
        elim (after_etl-TaskEnds laid (task.dry_run || flag_option laid.rule_config "dry_run") k
          etl) [
            | inl same ↦ inl same
            | inr (real, (results, (wrote, told))) ↦
                inr (writes ctx laid etl results parsed awake over real e wrote told)
          ]

    with_rule-Writes :
        (o : Outcome PayloadContext)
        → overridden w target ctx ≡ o
        → let out = (with_rule w target task cache k o).1 in (out.0 ≡ k) ⊎ Writes task cache k out
    unfolding with_rule
    with_rule-Writes (fault preset_error) over = inl refl
    with_rule-Writes (fault repo_config_error) over = inl refl
    with_rule-Writes (fault recursion_error) over = inl refl
    with_rule-Writes (fault other_error) over = inl refl
    with_rule-Writes (fault type_error) over = inl refl
    with_rule-Writes (ok laid) over =
        with_etl-Writes laid over
          (run_stage_etl w.tools (etl_context laid) cache (collect w.git laid)) refl

  abbrev Fate : WebhookTask → Cache → w.sink.State → Ended w target → Type 0
  Fate task cache k out = (out.1.0 ≡ k) ⊎ Writes task cache k out.1

  with_context-Writes :
      (task : WebhookTask) (cache : Cache) (k : w.sink.State) (r : Reply (Option PayloadContext))
      → run_stage_payload w.payload task.raw_payload task.platform task.rule_config
          target.datasource target.tenant_id
        ≡ r
      → let out = (with_context w target task cache k r).1 in (out.0 ≡ k) ⊎ Writes task cache k out
  unfolding with_context
  with_context-Writes task cache k (raised error) parsed = inl refl
  with_context-Writes task cache k (done none) parsed = inl refl
  with_context-Writes task cache k (done (some ctx)) parsed =
      if-cases (Fate task cache k) ((ctx.repo_url == "") || (ctx.ref == "")) _ _
        (λ missing. inl refl)
        (λ there.
          if-cases (Fate task cache k) (is_suspended w target task ctx) _ _ (λ held. inl refl)
            (λ awake.
              with_rule-Writes task cache k ctx parsed awake (overridden w target ctx) refl))

  -- A webhook's task leaves the sink as it was, or the push has a rule, which is not suspended for its
  -- trigger, and with the repository's settings neither it nor the task is a dry run; then the files that
  -- the ETL stage keeps were synced, and the task answers with the results that the sync gave.
  pub process_webhook_task-Writes :
      (task : WebhookTask) (cache : Cache) (k : w.sink.State)
      → let out = (process_webhook_task w target task cache k).1 in
        (out.0 ≡ k) ⊎ Writes task cache k out
  unfolding process_webhook_task
  process_webhook_task-Writes task cache k =
      with_context-Writes task cache k
        (run_stage_payload w.payload task.raw_payload task.platform task.rule_config
          target.datasource target.tenant_id)
        refl
