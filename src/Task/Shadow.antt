-- ===== src/Task/Shadow.antt =====
-- A rule that config.cue forces to be a dry run never writes.
use var_track.Prelude.{
  String, ◌≡◌, refl, ap, ◌∙◌, true, false, Option, some, arith, inl, inr, contains, is_empty,
  string_eq, if-cases,
}
use var_track.Prelude.Dict
use var_track.Prelude.Dict.{IsDict}
use var_track.Value.{Value, Record, truthy, dict_fields, or_null}
use var_track.Sink.{done, >>=-done}
use var_track.Env.Cache.{Cache}
use var_track.Rule.Getters.{Conversions, value_at}
use var_track.Rule.Layers.{admin_only_keys}
use var_track.Rule.Forcing.{forced}
use var_track.Rule.Presets.{Outcome, ok, fault}
use var_track.Rule.Overrides.{Context, apply_repo_overrides}
use var_track.Rule.Overriding.{layered, base, get-apply_repo_overrides-forced}
use var_track.Etl.{flag_option}
use var_track.Task.Fields.{
  PayloadContext, run_stage_payload, rule_given, context_from, dict_of, extract_ref, text_of,
  extract_branch, extract_tag, extract_pr_number,
}
use var_track.Task.Stages.{World, TaskTarget, overridden}
use var_track.Task.Webhook.{WebhookTask, process_webhook_task}
use var_track.Task.Writing.{writes, process_webhook_task-Writes}

flag_option-get :
    (rule : Record) (key : String) (v : Value)
    → Dict.get rule key ≡ some v
    → flag_option rule key ≡ truthy v
unfolding truthy
flag_option-get rule key v e = ap (λ o. truthy (or_null o)) e

context_from-rule :
    (c : Conversions) (platform : String) (rule payload : Record) (ctx : PayloadContext)
    → context_from c platform rule payload ≡ done ctx
    → ctx.rule_config ≡ rule
unfolding context_from
context_from-rule c platform rule payload ctx e =
    let P : PayloadContext → Type 0 = λ x. x.rule_config ≡ rule in
    >>=-done P (extract_ref c payload platform) _
      (λ ref _. >>=-done P (text_of ref) _ (λ s _.
        >>=-done P (extract_branch c payload platform) _ (λ branch _.
          >>=-done P (extract_tag c payload platform) _
            (λ tag _. >>=-done P (extract_pr_number c payload) _ (λ pr _ x h. ground (arith, h))))))
      ctx e

module _ (w : World) (target : TaskTarget) (task : WebhookTask) where
  -- The rule that a task works with, before the repository's settings
  abbrev pub task_rule : Record
  task_rule =
      rule_given w.payload (w.payload.conversions.lower task.platform) task.rule_config
        target.datasource target.tenant_id

  run_stage_payload-rule :
      (ctx : PayloadContext)
      → run_stage_payload w.payload task.raw_payload task.platform task.rule_config
          target.datasource target.tenant_id
        ≡ done (some ctx)
      → ctx.rule_config ≡ task_rule
  unfolding run_stage_payload
  run_stage_payload-rule ctx e =
      let P : Option PayloadContext → Type 0 =
        λ o. (x : PayloadContext) → o ≡ some x → x.rule_config ≡ task_rule in
      >>=-done P (w.payload.loads task.raw_payload) _
        (λ body _ o.
          if-cases (λ r. r ≡ done o → P o) (is_empty task_rule) _ _
            (λ none_given h x is. absurd (ground (arith, h, is)))
            (λ given.
              >>=-done P (dict_of body) _
                (λ payload _.
                  >>=-done P
                    (context_from w.payload.conversions (w.payload.conversions.lower task.platform)
                      task_rule payload)
                    (λ y. done (some y))
                    (λ made same q h x is.
                      context_from-rule w.payload.conversions
                        (w.payload.conversions.lower task.platform) task_rule payload x
                        (ground (arith, same, h, is))))
                o))
        (some ctx) e ctx refl

module _ (w : World) (target : TaskTarget) (cue : Record) (r : Option Record)
    (tenant : String) where
  -- config.cue's rule and the tenant's, laid over each other
  abbrev pub cue_rule : Record
  cue_rule = base w.outside w.options w.bundle cue r tenant

  module _ (set : contains (admin_only_keys w.options) "force" ≡ true)
      (kept : contains w.options.repo_overridable "force" ≡ false)
      (unique_keys : IsDict (dict_fields (value_at cue_rule "force"))) where
    overridden-dry_run :
        (ctx laid : PayloadContext) (v : Value)
        → ctx.rule_config ≡ layered w.outside w.options w.bundle cue r tenant
        → Dict.get (forced w.options cue_rule) "dry_run" ≡ some v
        → overridden w target ctx ≡ ok laid
        → Dict.get laid.rule_config "dry_run" ≡ some v
    unfolding overridden
    overridden-dry_run ctx laid v e f over =
        by_outcome (apply_repo_overrides w.outside w.options w.bundle w.calls context) refl
      where
        context : Context
        context = record {
          repo_url = ctx.repo_url;
          ref = ctx.ref;
          commit_sha = ctx.commit_sha;
          rule_config = ctx.rule_config;
        }

        by_outcome :
            (o : Outcome Context)
            → apply_repo_overrides w.outside w.options w.bundle w.calls context ≡ o
            → Dict.get laid.rule_config "dry_run" ≡ some v
        by_outcome (fault m) p = absurd (ground (arith, over, p))
        by_outcome (ok out) p = ground (
          arith,
          over,
          p,
          f,
          get-apply_repo_overrides-forced w.outside w.options w.bundle cue r tenant set kept
              unique_keys w.calls context out "dry_run" e (ground (arith, f)) p,
        )

    -- When config.cue's rule forces dry_run, no webhook's task changes the sink, whatever the tenant's
    -- bundle.json and the repository's vartrack.json say; where only config.cue sets `force`, each key of
    -- which is there once.
    pub process_webhook_task-forced :
        (task : WebhookTask) (cache : Cache) (k : w.sink.State) (v : Value)
        → task_rule w target task ≡ layered w.outside w.options w.bundle cue r tenant
        → Dict.get (forced w.options cue_rule) "dry_run" ≡ some v
        → truthy v ≡ true
        → (process_webhook_task w target task cache k).1.0 ≡ k
    process_webhook_task-forced task cache k v e f on =
        elim (process_webhook_task-Writes w target task cache k) [
          | inl same ↦ same
          | inr (writes ctx laid etl results parsed awake over real stage synced told) ↦ absurd (
              ground (
                arith,
                real,
                on,
                flag_option-get laid.rule_config "dry_run" v (
                    overridden-dry_run ctx laid v
                      (run_stage_payload-rule w target task ctx parsed ∙ e) f over),
              ))
        ]
