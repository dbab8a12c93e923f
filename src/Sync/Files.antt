-- ===== src/Sync/Files.antt =====
-- The data of `run_stage_sync` of app/pipeline/stage_sync.py and app/pipeline/models.py, and the write
-- of one file. Metrics and log lines are left out: they change nothing, and are caught where they raise.
use var_track.Prelude.{
  ℕ, String, false, Option, none, some, List, [], ltb, length, is_empty, string_eq, if◌then◌else◌,
}
use var_track.Prelude.Dict
use var_track.Prelude.Dict.{Dict, or_else}
use var_track.Value.{Value, Record}
use var_track.Ledger.{Live}
use var_track.Ledger.Names.{inventory_key}
use var_track.Sink.{
  Reply, done, raised, SyncMode, unspecified, auto, git_upsert_all, git_smart_repair, WriteCall,
  Wrote, Sink,
}
use var_track.Prune.Stale.{Written, key_space_id}

-- ETLFile: what the sync stage reads of one.
pub record EtlFile : Type 0 where
  pub file_path : String
  pub env : String
  pub flat_data : Dict String String
  pub root_key : String
  pub logger_fields : List String
  pub shape : Value

pub data Status : Type 0 where
  ok empty validation_failed error skipped aborted : Status

pub record SyncResult : Type 0 where
  pub file_path : String
  pub env : String
  pub status : Status
  pub sync_mode : Option SyncMode
  pub written : ℕ
  pub pruned : ℕ
  pub error : String
  pub root_key : String
  pub replaced : ℕ
  pub replaced_by : String
  pub key_space : String
  pub shared_with : Option (List String)
  pub prune_pending : Option (List String)
  pub prune_skipped : List String
  pub prune_would_delete : List String
  pub prune_error : String

-- A result with its first four fields and the defaults of the others.
abbrev pub result : String → String → Status → String → SyncResult
result file_path env status root_key = record {
  file_path = file_path;
  env = env;
  status = status;
  sync_mode = none;
  written = 0;
  pruned = 0;
  error = "";
  root_key = root_key;
  replaced = 0;
  replaced_by = "";
  key_space = "";
  shared_with = none;
  prune_pending = none;
  prune_skipped = [];
  prune_would_delete = [];
  prune_error = "";
}

abbrev pub result_of : EtlFile → Status → SyncResult
result_of f status = result f.file_path f.env status f.root_key

abbrev pub aborted_result : EtlFile → SyncResult
aborted_result f = record (result_of f aborted) {
  error = "aborted due to earlier write failure + rollback";
}

unfoldable pub decide_sync_mode : ℕ → SyncMode → SyncMode
decide_sync_mode key_count unspecified =
    if ltb 500 key_count then git_smart_repair else git_upsert_all
decide_sync_mode key_count auto = if ltb 500 key_count then git_smart_repair else git_upsert_all
decide_sync_mode key_count forced = forced

-- The sync's own settings: of the context, the rule and the caller.
pub record Job : Type 0 where
  pub rule : Record
  pub configured_mode : SyncMode
  pub datasource : String
  pub tenant_id : String
  pub total_sources : ℕ
  pub ctx_repo_url : String
  pub branch : String
  pub commit_sha : String
  -- the repository that the files are recorded under
  pub repo : String

-- `written_by_env`
abbrev pub WrittenByEnv : Type 0
WrittenByEnv = Dict String Written

unfoldable pub note_written : Job → EtlFile → WrittenByEnv → WrittenByEnv
note_written job f w =
    let here = or_else (Dict.get w f.env) [] in
    Dict.put w f.env (Dict.put here (inventory_key job.repo f.file_path) (f.file_path, f.flat_data))

module _ (K : Sink) (job : Job) where
  -- `_recorded_key_space`
  abbrev recorded_key_space : String → String
  recorded_key_space env = or_else (key_space_id K.cls job.rule job.tenant_id env) ""

  abbrev pub take_snapshot :
      Option (K.State → String → String → String → Reply K.Docs) → K.State → EtlFile → Reply K.Docs
  take_snapshot none k f = done K.no_docs
  take_snapshot (some snapshot) k f = snapshot k job.datasource f.env f.file_path

  -- The values before the write, for the change log.
  abbrev pub read_old : K.State → EtlFile → Reply (Dict String Live)
  read_old k f =
      if is_empty f.logger_fields
      then done []
      else K.read_values k false f.logger_fields job.datasource f.env

  abbrev pub write_call : EtlFile → WriteCall
  write_call f = record {
    flat_data = f.flat_data;
    shape = f.shape;
    sync_mode = decide_sync_mode (length f.flat_data) job.configured_mode;
    datasource = job.datasource;
    env = f.env;
    repo = job.ctx_repo_url;
    branch = job.branch;
    commit_sha = job.commit_sha;
    file_path = f.file_path;
    tenant_id = job.tenant_id;
    total_sources = job.total_sources;
  }

  abbrev pub ok_result : EtlFile → Wrote → SyncResult
  ok_result f w = record (result_of f ok) {
    sync_mode = some (decide_sync_mode (length f.flat_data) job.configured_mode);
    written = w.written;
    key_space = recorded_key_space f.env;
    replaced = w.replaced;
    replaced_by = if ltb 0 w.replaced then w.strategy else "";
  }

  abbrev pub after_read : K.State → EtlFile → Reply (Dict String Live) → K.State × Reply Wrote
  after_read k f (raised e) = (k, raised e)
  after_read k f (done old) = K.write k (write_call f)

  abbrev pub with_docs : K.Docs → Reply Wrote → Reply (K.Docs × Wrote)
  with_docs docs (raised e) = raised e
  with_docs docs (done w) = done (docs, w)

  -- The `try` block of one file: the state, and the snapshot with what the write returned.
  abbrev pub after_snapshot : K.State → EtlFile → Reply K.Docs → K.State × Reply (K.Docs × Wrote)
  after_snapshot k f (raised e) = (k, raised e)
  after_snapshot k f (done docs) =
      let wrote = after_read k f (read_old k f) in (wrote.0, with_docs docs wrote.1)

  unfoldable pub write_file : K.State → EtlFile → K.State × Reply (K.Docs × Wrote)
  write_file k f = after_snapshot k f (take_snapshot K.snapshot_file_data k f)
