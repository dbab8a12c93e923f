-- ===== src/Task/Stages.antt =====
-- The stages as the tasks of app/tasks/etl.py call them: the third stage with what it does before its files,
-- the candidates of a prune, the settings of a repository, and the report of a dry run.
use var_track.Prelude.{
  ℕ, String, ◌+◌, not, Option, none, some, List, [], ◌∷◌, map, keep, length, take, is_empty,
  string_eq,
}
use var_track.Prelude.Dict
use var_track.Prelude.Dict.{Dict}
use var_track.Value.{Value, Record}
use var_track.Ledger.{Redis}
use var_track.Payload.{PruneConfig, extract_prune_config}
use var_track.Sink.{Reply, done, raised, SyncMode, Sink}
use var_track.Prune.Stale.{Registry}
use var_track.Sync.Files.{EtlFile, SyncResult, Job}
use var_track.Sync.Run.{run_stage_sync}
use var_track.Sync.Candidates.{prune_candidates}
use var_track.Rule.{RuleOptions}
use var_track.Rule.Presets.{Outside, Outcome, ok, fault}
use var_track.Rule.Overrides.{apply_repo_overrides}
use var_track.Etl.{Tools, EtlResult, Extracted, Validation}
use var_track.Task.Fields.{PayloadTools, PayloadContext}
use var_track.Task.Collect.{Git}

-- What the tasks work with. The sink is the datasource's, for the rule.
pub record World : Type 1 where
  pub payload : PayloadTools
  pub git : Git
  pub outside : Outside
  pub options : RuleOptions
  -- config.cue, and how many calls the resolution of presets may take
  pub bundle : Record
  pub calls : ℕ
  pub tools : Tools
  pub sink : Sink
  pub secret_digest : String → String
  pub redis : Redis
  pub ledger : redis.State
  pub registry : Registry
  pub parse_sync_mode : Option Value → SyncMode
  -- what stops the third stage before its first file: a busy lock, or a sink that cannot be opened;
  -- the tenant, the datasource, the rule and the environments of the files
  pub enter : String → String → Record → List String → Option String

-- The datasource and the tenant of a task
pub record TaskTarget : Type 0 where
  pub datasource : String
  pub tenant_id : String

abbrev pub files_of : EtlResult → List EtlFile
files_of etl = map (λ f. f.file) etl.files

-- `[f.env for f in files if f.flat_data]`
abbrev pub written_envs : List EtlFile → List String
written_envs files = map (λ f. f.env) (keep (λ f. not (is_empty f.flat_data)) files)

module _ (w : World) (target : TaskTarget) where
  abbrev pub job_for : PayloadContext → String → ℕ → Job
  job_for ctx repo total_sources = record {
    rule = ctx.rule_config;
    configured_mode = w.parse_sync_mode (Dict.get ctx.rule_config "sync_mode");
    datasource = target.datasource;
    tenant_id = target.tenant_id;
    total_sources = total_sources;
    ctx_repo_url = ctx.repo_url;
    branch = ctx.branch;
    commit_sha = ctx.commit_sha;
    repo = repo;
  }

  -- The sink after the stage, and the results
  abbrev pub Synced : Type 0
  Synced = w.sink.State × Reply (List SyncResult)

  abbrev pub all_done : w.sink.State × List SyncResult → Synced
  all_done (k, results) = (k, done results)

  abbrev pub sync_entered :
      PayloadContext → String → ℕ → EtlResult → w.sink.State → PruneConfig → Option String → Synced
  sync_entered ctx repo total_sources etl k cfg (some error) = (k, raised error)
  sync_entered ctx repo total_sources etl k cfg none = all_done (
      run_stage_sync w.sink (job_for ctx repo total_sources) w.secret_digest w.redis w.ledger
        w.registry cfg (files_of etl) etl.skipped k)

  abbrev pub sync_with :
      PayloadContext → String → ℕ → EtlResult → w.sink.State → Option PruneConfig → Synced
  sync_with ctx repo total_sources etl k none = (k, raised "the prune settings cannot be read")
  sync_with ctx repo total_sources etl k (some cfg) =
      sync_entered ctx repo total_sources etl k cfg
        (w.enter target.tenant_id target.datasource ctx.rule_config (written_envs (files_of etl)))

  -- `run_stage_sync`, from the repository that the files are recorded under
  unfoldable pub stage_sync : PayloadContext → String → ℕ → EtlResult → w.sink.State → Synced
  unfolding extract_prune_config run_stage_sync
  stage_sync ctx repo total_sources etl k =
      sync_with ctx repo total_sources etl k (extract_prune_config ctx.rule_config)

  -- `prune_candidates`, which reads no sink
  unfoldable pub candidates :
      PayloadContext → String → EtlResult → Reply (Dict String (List String))
  unfolding extract_prune_config prune_candidates
  candidates ctx repo etl = elim (extract_prune_config ctx.rule_config) [
    | none ↦ raised "the prune settings cannot be read"
    | some cfg ↦ done (
        prune_candidates w.redis w.ledger w.registry (w.registry.sink_class target.datasource) cfg
          w.payload.conversions w.bundle (job_for ctx repo (length etl.files)) (files_of etl))
  ]

  -- `apply_repo_overrides` of a payload's context
  unfoldable pub overridden : PayloadContext → Outcome PayloadContext
  unfolding apply_repo_overrides
  overridden ctx =
      elim (apply_repo_overrides w.outside w.options w.bundle w.calls (record {
        repo_url = ctx.repo_url;
        ref = ctx.ref;
        commit_sha = ctx.commit_sha;
        rule_config = ctx.rule_config;
      })) [ fault e ↦ fault e | ok out ↦ ok (record ctx { rule_config = out.rule_config }) ]

-- One file of a dry run's report
pub record FileReport : Type 0 where
  pub file : String
  pub env : String
  pub root_key : String
  pub keys : ℕ
  pub validation : Validation
  -- the first five
  pub sample : Dict String String

pub record Report : Type 0 where
  pub files : List FileReport
  pub skipped : List String
  pub total_files : ℕ
  pub total_keys : ℕ
  pub would_delete : Dict String (List String)

abbrev pub file_report : Extracted → FileReport
file_report f = record {
  file = f.file.file_path;
  env = f.file.env;
  root_key = f.file.root_key;
  keys = length f.file.flat_data;
  validation = f.validation;
  sample = take 5 f.file.flat_data;
}

abbrev pub sum_keys : List Extracted → ℕ
sum_keys [] = 0
sum_keys (f ∷ files) = length f.file.flat_data + sum_keys files

-- `_build_dry_run_report`
unfoldable pub build_dry_run_report : EtlResult → Dict String (List String) → Report
build_dry_run_report etl would_delete = record {
  files = map file_report etl.files;
  skipped = etl.skipped;
  total_files = length etl.files;
  total_keys = sum_keys etl.files;
  would_delete = would_delete;
}
