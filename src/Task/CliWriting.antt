-- ===== src/Task/CliWriting.antt =====
-- When the task of the command line touches the sink.
use var_track.Prelude.{
  String, ◌≡◌, ◌≢◌, refl, true, false, not, List, [], ◌∷◌, arith, ◌⊎◌, inl, inr, if-cases, is_empty,
  ◌==◌, string_eq, if◌then◌else◌,
}
use var_track.Value.{Record}
use var_track.Sink.{Reply, done, raised}
use var_track.Sync.Files.{SyncResult}
use var_track.Etl.{EtlResult, run_stage_etl_content}
use var_track.Task.Stages.{World, TaskTarget, stage_sync}
use var_track.Task.Webhook.{completed, etl_context}
use var_track.Task.Writing.{stage_sync-cases}
use var_track.Task.Choosing.{IsTheRule, found-IsTheRule}
use var_track.Task.Cli.{
  CliTask, CliTools, Lookup, found, ambiguous, not_found, rule_config_for_datasource,
  file_at_revision, synthetic, answer_cli, task_repo_url, after_content, sync_content, with_lookup,
  process_cli_sync_task, CliEnded,
}

is_equal : {a b : String} → (a == b) ≡ true → a ≡ b
is_equal h = ground (arith, h)

is_other : {a b : String} → (a == b) ≡ false → a ≢ b
is_other h = ground (arith, h)

module _ (w : World) (target : TaskTarget) (t : CliTools) where
  -- What the task syncs: its own file, or the file of the rule at the revision
  abbrev pub IsSource : CliTask → Record → String → String → String → Type 0
  IsSource task rule path content format =
      ((task.revision ≡ "")
        × ((path ≡ task.file_path) × ((content ≡ task.content) × (format ≡ task.format))))
      ⊎ ((task.revision ≢ "")
          × ((file_at_revision w target t rule task.env task.revision ≡ done (path, content))
              × (format ≡ t.detect_format path)))

  -- The ETL stage of the task's content
  abbrev pub stage_of : CliTask → Record → String → String → String → EtlResult
  stage_of task rule path content format =
      run_stage_etl_content w.tools (etl_context (synthetic w target t task rule))
        (t.rule_file_for rule path) content format task.env

  -- That the task writes: its stages, and the end of the last
  pub data CliWrites (task : CliTask) (k : w.sink.State) (out : CliEnded w target t) : Type 0 where
    cli_writes :
        (rule : Record) (path content format : String) (results : List SyncResult)
        → IsTheRule w target t task rule
        → task.dry_run ≡ false
        → IsSource task rule path content format
        → (stage_of task rule path content format).errors ≡ []
        → stage_sync w target
            (synthetic w target t task rule)
            (task_repo_url w target t task rule)
            1
            (stage_of task rule path content format)
            k
          ≡ (out.0, done results)
        → out.1 ≡ completed results
        → CliWrites task k out

  -- The stage is done with results, which the task answers with.
  abbrev CliAnswered : w.sink.State × Reply (List SyncResult) → CliEnded w target t → Type 0
  CliAnswered s out =
      (results : List SyncResult) × ((s ≡ (out.0, done results)) × (out.1 ≡ completed results))

  -- The sink is as it was, or no dry run has synced the file.
  abbrev CliEnds : CliTask → Record → w.sink.State → EtlResult → CliEnded w target t → Type 0
  CliEnds task rule k etl out =
      (out.0 ≡ k)
      ⊎ ((task.dry_run ≡ false)
          × ((etl.errors ≡ [])
              × CliAnswered
                  (stage_sync w target (synthetic w target t task rule)
                    (task_repo_url w target t task rule) 1 etl k)
                  out))

  answer_cli-completed :
      (s : w.sink.State × Reply (List SyncResult)) (k : w.sink.State)
      → (s.0 ≡ k) ⊎ ((results : List SyncResult) × (s.1 ≡ done results))
      → ((answer_cli w target t s).0 ≡ k) ⊎ CliAnswered s (answer_cli w target t s)
  answer_cli-completed (k', done results) k h = inr (results, (refl, refl))
  answer_cli-completed (k', raised error) k (inl same) = inl same
  answer_cli-completed (k', raised error) k (inr (results, e)) = absurd (ground (arith, e))

  no_errors : (xs : List String) → not (is_empty xs) ≡ false → xs ≡ []
  no_errors [] e = refl
  no_errors (x ∷ xs) e = absurd (ground (arith, e))

  after_content-CliEnds :
      (task : CliTask) (rule : Record) (k : w.sink.State) (etl : EtlResult)
      → CliEnds task rule k etl (after_content w target t task rule k etl)
  unfolding after_content
  after_content-CliEnds task rule k etl =
      let ctx = synthetic w target t task rule in
      let repo = task_repo_url w target t task rule in
      if-cases (CliEnds task rule k etl) (not (is_empty etl.errors)) _ _ (λ erred. inl refl)
        (λ clean.
          if-cases (CliEnds task rule k etl) task.dry_run _ _ (λ dry. inl refl)
            (λ real.
              elim (answer_cli-completed (stage_sync w target ctx repo 1 etl k) k
                (stage_sync-cases w target ctx repo 1 etl k)) [
                  | inl same ↦ inl same
                  | inr wrote ↦ inr (real, (no_errors etl.errors clean, wrote))
                ]))

  module _ (task : CliTask) (k : w.sink.State) where
    abbrev CliFate : CliEnded w target t → Type 0
    CliFate out = (out.0 ≡ k) ⊎ CliWrites task k out

    sync_content-CliWrites :
        (rule : Record) (path content format : String)
        → IsTheRule w target t task rule
        → task.dry_run ≡ false
        → IsSource task rule path content format
        → CliFate (after_content w target t task rule k (stage_of task rule path content format))
    sync_content-CliWrites rule path content format known real source =
        elim (after_content-CliEnds task rule k (stage_of task rule path content format)) [
          | inl same ↦ inl same
          | inr (_, (clean, (results, (wrote, told)))) ↦
              inr (cli_writes rule path content format results known real source clean wrote told)
        ]

    sync_content-dry_run :
        (rule : Record) (format : String) (r : Reply (String × String))
        → task.dry_run ≡ true
        → (sync_content w target t task rule format k r).0 ≡ k
    unfolding sync_content
    sync_content-dry_run rule format (raised error) dry = refl
    sync_content-dry_run rule format (done (path, content)) dry =
        let etl =
          run_stage_etl_content w.tools (etl_context (synthetic w target t task rule))
            (t.rule_file_for rule path) content
            (if task.revision == "" then format else t.detect_format path) task.env in
        elim (after_content-CliEnds task rule k etl) [
          | inl same ↦ same
          | inr (real, wrote) ↦ absurd (ground (arith, real, dry))
        ]

    -- With the task's own file, and with one of the repository
    given-CliWrites :
        (rule : Record)
        → IsTheRule w target t task rule
        → task.dry_run ≡ false
        → (task.revision == "") ≡ true
        → CliFate
            (sync_content w target t task rule task.format k (done (task.file_path, task.content)))
    unfolding sync_content
    given-CliWrites rule known real own =
        sync_content-CliWrites rule task.file_path task.content
          (if task.revision == "" then task.format else t.detect_format task.file_path) known real
          (inl (is_equal own, (refl, (refl, ground (arith, own)))))

    read-CliWrites :
        (rule : Record) (r : Reply (String × String))
        → IsTheRule w target t task rule
        → task.dry_run ≡ false
        → (task.revision == "") ≡ false
        → file_at_revision w target t rule task.env task.revision ≡ r
        → CliFate (sync_content w target t task rule task.format k r)
    unfolding sync_content
    read-CliWrites rule (raised error) known real other e = inl refl
    read-CliWrites rule (done (path, content)) known real other e =
        sync_content-CliWrites rule path content
          (if task.revision == "" then task.format else t.detect_format path) known real
          (inr (is_other other, (e, ground (arith, other))))

    with_lookup-CliWrites :
        (o : Lookup)
        → ((rule : Record) → o ≡ found rule → IsTheRule w target t task rule)
        → CliFate (with_lookup w target t task k o)
    unfolding with_lookup
    with_lookup-CliWrites not_found known = inl refl
    with_lookup-CliWrites (ambiguous platforms) known = inl refl
    with_lookup-CliWrites (found rule) known =
        let read : Record → Reply (String × String) = λ r.
          if task.revision == ""
          then done (task.file_path, task.content)
          else file_at_revision w target t r task.env task.revision in
        let ended : Record → CliEnded w target t =
          λ r. sync_content w target t task r task.format k (read r) in
        if-cases (λ r. CliFate (ended r)) task.dry_run _ _
          (λ dry. inl (sync_content-dry_run _ task.format (read _) dry))
          (λ real.
            if-cases (λ r. CliFate (sync_content w target t task rule task.format k r))
              (task.revision == "") _ _ (λ own. given-CliWrites rule (known rule refl) real own)
              (λ other. read-CliWrites rule _ (known rule refl) real other refl))

    -- The task of the command line leaves the sink as it was; or it is no dry run, and a rule of the tenant is
    -- for its datasource and platform, all rules for these being of one platform; then the ETL stage has no
    -- errors for the task's file, or for the rule's file at the revision where there is one, the third stage
    -- has synced what it gives, and the task answers with the results of that stage.
    pub process_cli_sync_task-CliWrites :
        let out = process_cli_sync_task w target t task k in (out.0 ≡ k) ⊎ CliWrites task k out
    unfolding process_cli_sync_task
    process_cli_sync_task-CliWrites =
        with_lookup-CliWrites
          (rule_config_for_datasource w.payload.conversions (t.get_all_rules target.tenant_id)
            target.datasource task.platform)
          (λ rule e. found-IsTheRule w target t task rule (t.get_all_rules target.tenant_id) refl e)
