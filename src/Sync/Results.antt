-- ===== src/Sync/Results.antt =====
-- What `run_stage_sync` reports.
use var_track.Prelude.{
  String, ◌≡◌, sym, ◌∙◌, ap, refl, Bool, true, false, Option, none, some, List, [], ◌∷◌, ◌++◌, map,
  is_empty, arith, string_eq, if-cases, any,
}
use mathlib.Core.List.{map-append}
use mathlib.Core.Path.{ap₂}
use var_track.Ledger.{Redis}
use var_track.Payload.{PruneConfig}
use var_track.Prune.Stale.{Registry}
use var_track.Prune.Environment.{PruneOutcome, prune_environment}
use var_track.Sink.{Reply, done, raised, Wrote, Sink}
use var_track.Sync.Files.{
  EtlFile, Status, error, SyncResult, aborted_result, Job, WrittenByEnv, write_file,
}
use var_track.Sync.Run.{
  Undo, Progress, after_write, run_files, Later, attach_last, attach, prune_all, finish,
  run_stage_sync, skipped_result,
}

-- What a result says besides its counts: its file and its status.
abbrev pub outline : SyncResult → String × Status
outline r = (r.file_path, r.status)

abbrev pub outlines : List SyncResult → List (String × Status)
outlines = map outline

abbrev pub is_error : SyncResult → Bool
is_error r = elim r.status [ error ↦ true | _ ↦ false ]

-- The paths of the results.
abbrev paths : List SyncResult → List String
paths = map (λ r. r.file_path)

abbrev pub file_paths : List EtlFile → List String
file_paths = map (λ f. f.file_path)

module _ (K : Sink) (job : Job) where
  paths-aborted : (fs : List EtlFile) → paths (map aborted_result fs) ≡ file_paths fs
  paths-aborted [] = refl
  paths-aborted (f ∷ fs) = ap (◌∷◌ f.file_path) (paths-aborted fs)

  abbrev Reports : List EtlFile → Later K job → Type 0
  Reports fs later =
      (k : K.State) (us : List (Undo K job)) (w : WrittenByEnv)
      → paths (later k us w).results ≡ file_paths fs

  paths-after_write :
      (f : EtlFile) (fs : List EtlFile) (later : Later K job) (us : List (Undo K job))
      (w : WrittenByEnv) (o : K.State × Reply (K.Docs × Wrote))
      → Reports fs later
      → paths (after_write K job f fs later us w o).results ≡ file_paths (f ∷ fs)
  unfolding after_write
  paths-after_write f fs later us w (k, done (docs, wrote)) h = ap (◌∷◌ f.file_path) (h k _ _)
  paths-after_write f fs later us w (k, raised e) h = ap (◌∷◌ f.file_path) (paths-aborted fs)

  paths-run_files : (fs : List EtlFile) → Reports fs (run_files K job fs)
  unfolding run_files
  paths-run_files [] k us w = refl
  paths-run_files (f ∷ fs) k us w =
      if-cases (λ (p : Progress K job). paths p.results ≡ file_paths (f ∷ fs))
        (is_empty f.flat_data) _ _ (λ _. ap (◌∷◌ f.file_path) (paths-run_files fs k us w))
        (λ _.
          paths-after_write f fs (run_files K job fs) us w (write_file K job k f)
            (paths-run_files fs))

  -- Without a failed write no result is an error.
  abbrev Clean : Later K job → Type 0
  Clean later =
      (k : K.State) (us : List (Undo K job)) (w : WrittenByEnv)
      → any is_error (later k us w).results ≡ true
      → (later k us w).written ≡ none

  -- A prune changes neither the files nor the statuses.
  outlines-attach_last :
      (env : String) (o : PruneOutcome) (rs : List SyncResult)
      → outlines (attach_last K job env o rs).1 ≡ outlines rs
  unfolding attach_last
  outlines-attach_last env o [] = refl
  outlines-attach_last env o (r ∷ rs) = ground (arith, outlines-attach_last env o rs)

  outlines-attach :
      (env : String) (o : Option PruneOutcome) (rs : List SyncResult)
      → outlines (attach K job env o rs) ≡ outlines rs
  outlines-attach env none rs = refl
  outlines-attach env (some o) rs = outlines-attach_last env o rs

  paths_of_outlines :
      (rs : List SyncResult) → paths rs ≡ map (λ (o : String × Status). o.0) (outlines rs)
  paths_of_outlines [] = refl
  paths_of_outlines (r ∷ rs) = ap (◌∷◌ r.file_path) (paths_of_outlines rs)

  module _ (secret_digest : String → String) (R : Redis) (s : R.State) (reg : Registry)
      (cfg : PruneConfig) where
    outlines-prune_all :
        (w : WrittenByEnv) (k : K.State) (rs : List SyncResult)
        → outlines (prune_all K job secret_digest R s reg cfg w k rs).1 ≡ outlines rs
    unfolding prune_all
    outlines-prune_all [] k rs = refl
    outlines-prune_all ((env, written) ∷ w) k rs =
        let pruned =
          prune_environment secret_digest K R s reg job.rule cfg k job.tenant_id job.datasource env
            written in
        outlines-prune_all w pruned.0 (attach K job env pruned.1 rs)
        ∙ outlines-attach env pruned.1 rs

    outlines-finish :
        (p : Progress K job) (w : Option WrittenByEnv)
        → outlines (finish K job secret_digest R s reg cfg p w).1 ≡ outlines p.results
    unfolding finish
    outlines-finish p none = refl
    outlines-finish p (some w) = outlines-prune_all w p.state p.results

    paths-skipped :
        (skipped_paths : List String)
        → paths (map (skipped_result K job secret_digest R s reg cfg) skipped_paths) ≡ skipped_paths
    paths-skipped [] = refl
    paths-skipped (x ∷ xs) = ap (◌∷◌ x) (paths-skipped xs)

    -- The run of the files, inside a sync.
    abbrev progress : List EtlFile → K.State → Progress K job
    progress files k = run_files K job files k [] []

    -- Every file has one result, in the order of the files, whatever fails; the skipped ones follow.
    pub paths-run_stage_sync :
        (files : List EtlFile) (skipped_paths : List String) (k : K.State)
        → map
            (λ r. r.file_path)
            (run_stage_sync K job secret_digest R s reg cfg files skipped_paths k).1
          ≡ map (λ f. f.file_path) files ++ skipped_paths
    unfolding run_stage_sync
    paths-run_stage_sync files skipped_paths k =
        let p = progress files k in
        let rs = (finish K job secret_digest R s reg cfg p p.written).1 in
        map-append _ rs _
        ∙ ap₂ ◌++◌
            (paths_of_outlines rs
              ∙ ap (map (λ (o : String × Status). o.0)) (outlines-finish p p.written)
              ∙ sym (paths_of_outlines p.results)
              ∙ paths-run_files files k [] [])
            (paths-skipped skipped_paths)
