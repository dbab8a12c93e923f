-- ===== src/Sync/Candidates.antt =====
-- `prune_candidates` of app/pipeline/stage_sync.py: the keys that a dry run says a sync would find stale.
use mathlib.Core.Option.{some-injective}
use var_track.Prelude.{
  String, ◌≡◌, not, ◌||◌, Option, none, some, List, [], ◌∷◌, arith, is_empty, if◌then◌else◌,
  Bool-cases, inl, inr,
}
use var_track.Prelude.Dict.{Dict}
use var_track.Value.{Record}
use var_track.Ledger.{Redis}
use var_track.Payload.{PruneConfig}
use var_track.Sink.{Sink, Reply, done, raised, Wrote}
use var_track.Prune.Stale.{SinkClass, Registry, Stale, Written, stale_keys}
use var_track.Prune.Environment.{PruneOutcome, unprotected}
use var_track.Rule.Getters.{Conversions}
use var_track.Rule.Settings.{with_datasource_settings}
use var_track.Sync.Files.{EtlFile, Job, WrittenByEnv, note_written, write_file}
use var_track.Sync.Run.{Undo, run_files, after_write}

-- `written_by_env` of the files, from what is there.
unfoldable pub written_by_env : Job → List EtlFile → WrittenByEnv → WrittenByEnv
written_by_env job [] w = w
written_by_env job (f ∷ fs) w =
    if is_empty f.flat_data
    then written_by_env job fs w
    else written_by_env job fs (note_written job f w)

module _ (R : Redis) (s : R.State) (reg : Registry) (cls : SinkClass) (rule : Record)
    (cfg : PruneConfig) where
  -- The candidates of one environment: none where the ledger cannot be read.
  unfoldable pub env_candidates : String → String → String → Written → List String
  env_candidates tenant datasource env written =
      elim (stale_keys R s reg cls rule tenant datasource env written) [
        | none ↦ []
        | some stale ↦ unprotected cfg stale.keys
      ]

  unfoldable pub all_candidates : String → String → WrittenByEnv → Dict String (List String)
  all_candidates tenant datasource [] = []
  all_candidates tenant datasource ((env, written) ∷ w) =
      let keys = env_candidates tenant datasource env written in
      let rest = all_candidates tenant datasource w in
      if is_empty keys then rest else (env, keys) ∷ rest

-- `cls` is `sink_class(datasource)`, `cfg` the rule's prune settings, and the bundle is config.cue.
unfoldable pub prune_candidates :
    (R : Redis)
    → R.State
    → Registry
    → Option SinkClass
    → PruneConfig
    → Conversions
    → Record
    → Job
    → List EtlFile
    → Dict String (List String)
unfolding with_datasource_settings
prune_candidates R s reg none cfg c bundle job files = []
prune_candidates R s reg (some cls) cfg c bundle job files =
    let rule = with_datasource_settings c bundle job.datasource job.rule in
    if not cfg.enabled || not (cls.prunes_keys rule)
    then []
    else all_candidates R s reg cls rule cfg job.tenant_id job.datasource
        (written_by_env job files [])

-- What a prune of one environment would delete.
abbrev pub would_delete_of : Option PruneOutcome → List String
would_delete_of none = []
would_delete_of (some o) = o.would_delete

module _ (secret_digest : String → String) (K : Sink) where
  -- What a dry run of a prune gives, from the stale keys.
  abbrev Simulated : PruneConfig → K.State → Option Stale → K.State × Option PruneOutcome → Type 0
  Simulated cfg k stale out =
      (would_delete_of out.1 ≡ (elim stale [ none ↦ [] | some r ↦ unprotected cfg r.keys ]))
      × (out.0 ≡ k)

module _ (K : Sink) (job : Job) where
  after_write-written :
      (f : EtlFile) (fs : List EtlFile) (us : List (Undo K job)) (w w' : WrittenByEnv)
      (o : K.State × Reply (K.Docs × Wrote))
      → ((k : K.State) (us : List (Undo K job)) (v : WrittenByEnv)
          → (run_files K job fs k us v).written ≡ some w'
          → written_by_env job fs v ≡ w')
      → (after_write K job f fs (run_files K job fs) us w o).written ≡ some w'
      → written_by_env job fs (note_written job f w) ≡ w'
  unfolding after_write
  after_write-written f fs us w w' (k, done (docs, wrote)) later e =
      later k _ (note_written job f w) e
  after_write-written f fs us w w' (k, raised m) later e = absurd (ground (arith, e))

  -- What a sync whose every write succeeded says was written is what the dry run counts on, for the same
  -- files.
  pub written-run_files :
      (files : List EtlFile) (k : K.State) (us : List (Undo K job)) (w w' : WrittenByEnv)
      → (run_files K job files k us w).written ≡ some w'
      → written_by_env job files w ≡ w'
  unfolding run_files written_by_env
  written-run_files [] k us w w' e = some-injective w w' e
  written-run_files (f ∷ fs) k us w w' e = elim (Bool-cases (is_empty f.flat_data)) [
    | inl nothing ↦ rw nothing (written-run_files fs k us w w' (rw nothing at e))
    | inr some_keys ↦ rw some_keys (
        after_write-written f fs us w w' (write_file K job k f)
          (λ k' us' v. written-run_files fs k' us' v w') (rw some_keys at e))
  ]
