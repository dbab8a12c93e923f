-- ===== src/Sync/Run.antt =====
-- The loop of `run_stage_sync` over the files, the rollback, and the prune after the last file.
use var_track.Prelude.{
  String, Bool, true, false, ◌&&◌, Option, none, some, List, [], ◌∷◌, ◌++◌, map, is_empty, ◌==◌,
  string_eq, if◌then◌else◌,
}
use var_track.Ledger.{Redis}
use var_track.Payload.{PruneConfig}
use var_track.Sink.{Reply, done, raised, Wrote, Sink}
use var_track.Prune.Stale.{Registry}
use var_track.Prune.Environment.{PruneOutcome, prune_environment}
use var_track.Sync.Files.{
  EtlFile, Status, ok, empty, error, skipped, SyncResult, result, result_of, aborted_result, Job,
  WrittenByEnv, note_written, ok_result, write_file,
}

module _ (K : Sink) (job : Job) where
  -- One element of `written_files`.
  pub record Undo : Type 0 where
    pub env : String
    pub file_path : String
    pub snapshot : K.Docs

  -- One round of the rollback. An error of it is logged, and the rollback goes on.
  unfoldable pub undo :
      Option {0} (K.State → String → String → String → K.Docs → K.State × Reply (Unit {0}))
      → K.State
      → Undo
      → K.State
  undo none k u = (K.delete_file_data k job.datasource u.env u.file_path).0
  undo (some restore) k u = (restore k job.datasource u.env u.file_path u.snapshot).0

  unfoldable pub roll_back : K.State → List Undo → K.State
  unfolding undo
  roll_back k [] = k
  roll_back k (u ∷ us) = roll_back (undo K.restore_file_data k u) us

  -- What the loop leaves from a file on: the state, the results, and, if no write failed, what was
  -- written.
  pub record Progress : Type 0 where
    pub state : K.State
    pub results : List SyncResult
    pub written : Option WrittenByEnv

  abbrev pub error_result : EtlFile → String → SyncResult
  error_result f e = record (result_of f error) { error = e }

  -- A sync of the later files, from a state, the files to undo and what was written.
  abbrev pub Later : Type 0
  Later = K.State → List Undo → WrittenByEnv → Progress

  abbrev pub first : SyncResult → Progress → Progress
  first r p = record p { results = r ∷ p.results }

  unfoldable pub after_write :
      EtlFile
      → List EtlFile
      → Later
      → List Undo
      → WrittenByEnv
      → K.State × Reply (K.Docs × Wrote)
      → Progress
  after_write f fs later us w (k, done (docs, wrote)) = first (ok_result K job f wrote) (
      later k (us ++ record { env = f.env; file_path = f.file_path; snapshot = docs } ∷ [])
        (note_written job f w))
  after_write f fs later us w (k, raised e) = record {
    state = roll_back k us;
    results = error_result f e ∷ map aborted_result fs;
    written = none;
  }

  unfoldable pub run_files : List EtlFile → K.State → List Undo → WrittenByEnv → Progress
  unfolding after_write
  run_files [] k us w = record { state = k; results = []; written = some w }
  run_files (f ∷ fs) k us w =
      let later = run_files fs in
      if is_empty f.flat_data
      then first (result_of f empty) (later k us w)
      else after_write f fs later us w (write_file K job k f)

  abbrev pub is_ok : Status → Bool
  is_ok ok = true
  is_ok _ = false

  abbrev pub with_prune : PruneOutcome → SyncResult → SyncResult
  with_prune o r = record r {
    pruned = o.pruned;
    shared_with = some o.shared_with;
    prune_pending = o.pending;
    prune_skipped = o.skipped;
    prune_would_delete = o.would_delete;
    prune_error = o.error;
  }

  -- The outcome goes to the last file of the environment that was written, if there is one.
  unfoldable pub attach_last : String → PruneOutcome → List SyncResult → Bool × List SyncResult
  attach_last env o [] = (false, [])
  attach_last env o (r ∷ rs) =
      let (found, rest) = attach_last env o rs in
      if found
      then (true, r ∷ rest)
      else if r.env == env && is_ok r.status
      then (true, with_prune o r ∷ rest)
      else (false, r ∷ rest)

  abbrev pub attach : String → Option PruneOutcome → List SyncResult → List SyncResult
  attach env none rs = rs
  attach env (some o) rs = (attach_last env o rs).1

  module _ (secret_digest : String → String) (R : Redis) (s : R.State) (reg : Registry)
      (cfg : PruneConfig) where
    unfoldable pub prune_all : WrittenByEnv → K.State → List SyncResult → K.State × List SyncResult
    prune_all [] k rs = (k, rs)
    prune_all ((env, written) ∷ w) k rs =
        let pruned =
          prune_environment secret_digest K R s reg job.rule cfg k job.tenant_id job.datasource env
            written in
        prune_all w pruned.0 (attach env pruned.1 rs)

    unfoldable pub finish : Progress → Option WrittenByEnv → K.State × List SyncResult
    finish p none = (p.state, p.results)
    finish p (some w) = prune_all w p.state p.results

    abbrev pub skipped_result : String → SyncResult
    skipped_result path = result path "unknown" skipped ""

    -- The body under the locks, and the results of the files that the ETL stage skipped.
    unfoldable pub run_stage_sync : List EtlFile → List String → K.State → K.State × List SyncResult
    unfolding finish
    run_stage_sync files skipped_paths k =
        let p = run_files files k [] [] in
        let (k', results) = finish p p.written in (k', results ++ map skipped_result skipped_paths)
