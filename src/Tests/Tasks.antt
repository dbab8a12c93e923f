-- ===== src/Tests/Tasks.antt =====
-- The tasks on a push of one file, and the theorems on them.
use var_track.Prelude.{
  ◌≡◌, refl, true, false, none, some, List, [], ◌∷◌, map, string_eq, nat_eq, In, ◌⊎◌, ◌↔◌,
}
use var_track.Prelude.Dict
use var_track.Prelude.Dict.{Dict}
use var_track.Prelude.Texts.{cut, rstrip, lstrip}
use var_track.Value.{
  Value, bool, text, dict, no_field, field, Record, truthy, to_dict, same, is_dict,
}
use var_track.Sink.{done, unspecified, git_upsert_all}
use var_track.Sync.Files.{SyncResult}
use var_track.Prelude.Order.{sorted_set}
use var_track.Env.Slice.{resolve_env_slice, slice}
use var_track.Sync.Files.{write_file, note_written, result, ok, decide_sync_mode}
use var_track.Sync.Run.{run_files, prune_all}
use var_track.Prune.Environment.{prune_environment}
use var_track.Prune.Stale.{key_space_id}
use var_track.Env.Resolver.{resolve, via_maps, via_tag}
use var_track.Transform.Shape.{file_shape}
use var_track.Rule.Presets.{Outside}
use var_track.Rule.Presets
use var_track.Rule.Layers.{base_rule, clone_url}
use var_track.Rule.Overriding.{layered}
use var_track.Rule.Renamed.{with_current_names}
use var_track.Rule.Settings.{find_wrapped, keys_of_all}
use var_track.Rule.Getters.{mappings, str}
use var_track.Etl.{Tools, valid}
use var_track.Task.Collect.{Git}
use var_track.Task.Stages.{World, TaskTarget, Report, stage_sync, build_dry_run_report}
use var_track.Task.Webhook.{
  WebhookTask, process_webhook_task, after_etl, completed, dry_run_complete,
}
use var_track.Task.Writing.{Writes, process_webhook_task-Writes}
use var_track.Task.Shadow.{process_webhook_task-forced}
use var_track.Task.Preview.{reported, process_webhook_task-reported}
use var_track.Task.Cli.{CliTask, CliTools, process_cli_sync_task}
use var_track.Task.CliWriting.{CliWrites, process_cli_sync_task-CliWrites}
use var_track.Task.Heal.{
  HealRequest, HealTools, sync_all, is_healed, branches_of, heal_of, heals_of, work_of, start, once,
}
use var_track.Task.Heal.Healing.{IsStarted, sync_all-Started}
use var_track.Tests.Memory.{Store, memory_redis, registry, hash_sink}
use var_track.Tests.Layering.{options, conversions, outside, cue, child}
use var_track.Tests.Extracting.{tools, cache}

abbrev store : Store
store = record { targets = []; sets = [] }

-- A push to "main", and Git with a file "a.json" and no vartrack.json
abbrev push : Value
push = dict (field "ref" (text "refs/heads/main") (field "after" (text "c1") no_field))

abbrev git : Git
git = record {
  extract_file = λ repo ref path token revision. done (some "{}");
  extract_changed_files = λ repo ref paths token revision. done (map (λ p. (p, some "{}")) paths);
  max_files = λ v. done 500;
  listed = λ names. names;
}

-- A parser that gives one host, and no schemas
abbrev plain_tools : Tools
plain_tools = record tools {
  parse = λ format content path. done (dict (field "host" (text "x") no_field));
  schema_dir = none;
}

abbrev world_of : Outside → Record → World
world_of files rule = record {
  payload = record {
    conversions = conversions;
    loads = λ raw. done push;
    rule_from_bundle = λ platform datasource tenant. rule;
  };
  git = git;
  outside = files;
  options = options;
  bundle = [];
  calls = 3;
  tools = plain_tools;
  sink = hash_sink;
  secret_digest = λ s. s;
  redis = memory_redis;
  ledger = store;
  registry = registry;
  parse_sync_mode = λ v. unspecified;
  enter = λ tenant datasource rule envs. none;
}

abbrev rule : Record
rule = ("repo_url", text "https://git/team/app.git") ∷ ("file_name", text "a.json") ∷ []

abbrev quiet : World
quiet =
    world_of (record outside { extract_file = λ url ref path token revision. Presets.ok none }) rule

abbrev target : TaskTarget
target = record { datasource = "redis-main"; tenant_id = "default" }

abbrev task : WebhookTask
task = record {
  platform = "gitea";
  raw_payload = "{}";
  headers = [];
  rule_config = [];
  dry_run = false;
}

process_webhook_task-Writes_example :
    ((process_webhook_task quiet target task cache []).1.0 ≡ [])
    ⊎ Writes quiet target task cache [] (process_webhook_task quiet target task cache []).1
process_webhook_task-Writes_example = process_webhook_task-Writes quiet target task cache []

-- The rule of config.cue and its layers, which force a dry run, with the vartrack.json that says otherwise
abbrev forcing : World
forcing = world_of outside (layered outside options [] cue (some child) "default")

process_webhook_task-forced_example :
    (process_webhook_task forcing target task cache (("old", "1") ∷ [])).1.0 ≡ ("old", "1") ∷ []
unfolding base_rule with_current_names clone_url find_wrapped rstrip lstrip cut mappings keys_of_all
    Dict.get Dict.keys Dict.put Dict.keep_keys string_eq nat_eq str to_dict truthy
process_webhook_task-forced_example =
    process_webhook_task-forced forcing target cue (some child) "default" refl refl (refl, tt) task
      cache (("old", "1") ∷ []) (bool true) refl refl refl

-- The file of the rule, which the command line syncs
abbrev cli : CliTools
cli = record {
  get_all_rules = λ tenant. done ((("datasource", text "redis-main") ∷ rule) ∷ []);
  detect_format = λ path. "json";
  rule_file_for = λ rule path. "a.json";
}

abbrev cli_task : CliTask
cli_task = record {
  env = "prod";
  file_path = "new.json";
  content = "{}";
  format = "json";
  dry_run = false;
  label = "";
  revision = "";
  platform = "";
}

process_cli_sync_task-CliWrites_example :
    ((process_cli_sync_task quiet target cli cli_task []).0 ≡ [])
    ⊎ CliWrites quiet target cli cli_task [] (process_cli_sync_task quiet target cli cli_task [])
process_cli_sync_task-CliWrites_example =
    process_cli_sync_task-CliWrites quiet target cli cli_task []

written : (process_cli_sync_task quiet target cli cli_task []).0 ≡ ("host", "x") ∷ []
unfolding process_cli_sync_task file_shape same string_eq sorted_set resolve_env_slice slice is_dict
    Dict.put stage_sync run_files write_file prune_all note_written prune_environment Dict.update
written = refl

abbrev report : Report
report = record {
  files =
      record {
        file = "a.json";
        env = "default";
        root_key = "vartrack";
        keys = 1;
        validation = valid;
        sample = ("host", "x") ∷ [];
      }
      ∷ [];
  skipped = [];
  total_files = 1;
  total_keys = 1;
  would_delete = [];
}

abbrev results : List SyncResult
results =
    record (result "a.json" "default" ok "vartrack") {
      sync_mode = some git_upsert_all;
      written = 1;
      key_space = "RedisSink|redis:6379/0|default";
    }
    ∷ []

shadowed :
    (process_webhook_task quiet target (record task { dry_run = true }) cache []).1.1
    ≡ dry_run_complete report
unfolding process_webhook_task file_shape same string_eq sorted_set resolve_env_slice slice is_dict
    Dict.put stage_sync run_files write_file prune_all note_written prune_environment Dict.update
    after_etl resolve via_maps nat_eq via_tag decide_sync_mode key_space_id build_dry_run_report
shadowed = refl

synced : (process_webhook_task quiet target task cache []).1.1 ≡ completed results
unfolding process_webhook_task file_shape same string_eq sorted_set resolve_env_slice slice is_dict
    Dict.put stage_sync run_files write_file prune_all note_written prune_environment Dict.update
    after_etl resolve via_maps nat_eq via_tag decide_sync_mode key_space_id build_dry_run_report
synced = refl

process_webhook_task-reported_example : map (λ r. r.file_path) results ≡ reported report
process_webhook_task-reported_example =
    process_webhook_task-reported quiet target task cache [] report results shadowed synced

-- A rule with two branches, and one that is suspended
abbrev healed : Record
healed =
    ("self_heal", bool true)
    ∷ (
      "branch_map",
      dict (field "main" (text "production") (field "develop" (text "staging") no_field)),
    )
    ∷ rule

abbrev held : Record
held = ("suspend", bool true) ∷ healed

abbrev everything : HealRequest
everything = record { tenant_id = none; datasource = none; platform = none }

-- A queue that takes everything
abbrev heal_tools : HealTools
heal_tools = record { commit = λ _ branch. done "c1"; apply_async = λ heal. done tt }

sync_all-Started_example :
    In
      (heal_of everything (healed, "develop") "c1")
      (sync_all heal_tools [] everything (held ∷ healed ∷ [])).started
    ↔ IsStarted heal_tools everything
        (held ∷ healed ∷ [])
        (heal_of everything (healed, "develop") "c1")
sync_all-Started_example =
    sync_all-Started heal_tools [] everything (held ∷ healed ∷ [])
      (heal_of everything (healed, "develop") "c1")

-- Both branches are healed, and those of the suspended rule are not.
branches :
    map (λ h. h.ref) (sync_all heal_tools [] everything (held ∷ healed ∷ [])).started
    ≡ "refs/heads/main" ∷ "refs/heads/develop" ∷ []
unfolding sync_all heals_of work_of start is_healed branches_of once truthy Dict.get Dict.keys
    string_eq to_dict
branches = refl
