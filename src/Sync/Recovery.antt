-- ===== src/Sync/Recovery.antt =====
-- The theorem on a sync whose write fails: what is undone, and what is reported.
use var_track.Prelude.{
  String, ◌≡◌, refl, sym, ap, ◌∙◌, true, false, not, ◌⊎◌, inl, inr, none, List, [], ◌∷◌, ◌++◌, map,
  keep, is_empty, if-cases, All, string_eq,
}
use mathlib.Core.List.{map-append, append_assoc, append-nil}
use mathlib.Core.Path.{ap₂}
use var_track.Sink.{Reply, done, raised, Wrote, Sink}
use var_track.Sync.Files.{
  EtlFile, ok, empty, SyncResult, result_of, aborted_result, Job, WrittenByEnv, note_written,
  ok_result, write_file,
}
use var_track.Sync.Run.{Undo, roll_back, Progress, error_result, after_write, run_files}

-- The status of a result when its write did not fail.
abbrev pub IsFine : SyncResult → Type 0
IsFine r = (r.status ≡ ok) ⊎ (r.status ≡ empty)

-- The files that a sync writes: those with keys
abbrev pub written_files : List EtlFile → List (String × String)
written_files files = map (λ f. (f.env, f.file_path)) (keep (λ f. not (is_empty f.flat_data)) files)

module _ (K : Sink) (job : Job) where
  abbrev pub undo_places : List (Undo K job) → List (String × String)
  undo_places = map (λ u. (u.env, u.file_path))

  -- How a run with a failed write went: the files before it, which were written or empty, the file whose
  -- write raised, and the files after it. From the sink as that write left it, the files before it that
  -- were written, and no others, were rolled back.
  pub record RolledBack (earlier : List (String × String)) (files : List EtlFile) (state : K.State)
      (reported : List SyncResult) : Type 0 where
    pub before : List EtlFile
    pub failing : EtlFile
    pub after : List EtlFile
    pub message : String
    pub early : List SyncResult
    pub at : K.State
    pub undone : List (Undo K job)
    pub split : files ≡ before ++ failing ∷ after
    pub results : reported ≡ early ++ error_result K job failing message ∷ map aborted_result after
    pub early_fine : All IsFine early
    pub early_files : map (λ r. r.file_path) early ≡ map (λ f. f.file_path) before
    pub raises : (write_file K job at failing).1 ≡ raised message
    pub undone_files : undo_places undone ≡ earlier ++ written_files before
    pub restored : state ≡ roll_back K job (write_file K job at failing).0 undone

  -- A file that went well, before a run that failed.
  extend :
      (earlier later : List (String × String)) (x : EtlFile) (files : List EtlFile) (r : SyncResult)
      (state : K.State) (reported : List SyncResult)
      → IsFine r
      → r.file_path ≡ x.file_path
      → ((before : List EtlFile)
          → later ++ written_files before ≡ earlier ++ written_files (x ∷ before))
      → RolledBack later files state reported
      → RolledBack earlier (x ∷ files) state (r ∷ reported)
  extend earlier later x files r state reported fine same moved b = record {
    before = x ∷ b.before;
    failing = b.failing;
    after = b.after;
    message = b.message;
    early = r ∷ b.early;
    at = b.at;
    undone = b.undone;
    split = ap (◌∷◌ x) b.split;
    results = ap (◌∷◌ r) b.results;
    early_fine = (fine, b.early_fine);
    early_files = ap₂ ◌∷◌ same b.early_files;
    raises = b.raises;
    undone_files = b.undone_files ∙ moved b.before;
    restored = b.restored;
  }

  abbrev Recovers : List EtlFile → Type 0
  Recovers files =
      (k : K.State) (us : List (Undo K job)) (w : WrittenByEnv)
      → let p = run_files K job files k us w in
        p.written ≡ none → RolledBack (undo_places us) files p.state p.results

  moved_empty :
      (earlier : List (String × String)) (x : EtlFile)
      → is_empty x.flat_data ≡ true
      → (before : List EtlFile)
      → earlier ++ written_files before ≡ earlier ++ written_files (x ∷ before)
  moved_empty earlier x e before = rw e refl

  abbrev undo_of : EtlFile → K.Docs → Undo K job
  undo_of x docs = record { env = x.env; file_path = x.file_path; snapshot = docs }

  moved_written :
      (us : List (Undo K job)) (x : EtlFile) (docs : K.Docs)
      → is_empty x.flat_data ≡ false
      → (before : List EtlFile)
      → undo_places (us ++ undo_of x docs ∷ []) ++ written_files before
        ≡ undo_places us ++ written_files (x ∷ before)
  moved_written us x docs e before =
      rw
        (
          e,
          map-append {B = String × String} (λ (u : Undo K job). (u.env, u.file_path)) us
              (undo_of x docs ∷ []),
        )
        (append_assoc (undo_places us) ((x.env, x.file_path) ∷ []) (written_files before))

  after_write-RolledBack :
      (x : EtlFile) (xs : List EtlFile) (k : K.State) (us : List (Undo K job)) (w : WrittenByEnv)
      → is_empty x.flat_data ≡ false
      → Recovers xs
      → (o : K.State × Reply (K.Docs × Wrote)) → write_file K job k x ≡ o
      → let p = after_write K job x xs (run_files K job xs) us w o in
        p.written ≡ none → RolledBack (undo_places us) (x ∷ xs) p.state p.results
  unfolding after_write
  after_write-RolledBack x xs k us w there ih (k', raised e) wrote failed = record {
    before = [];
    failing = x;
    after = xs;
    message = e;
    early = [];
    at = k;
    undone = us;
    split = refl;
    results = refl;
    early_fine = tt;
    early_files = refl;
    raises = ap (λ o. o.1) wrote;
    undone_files = sym (append-nil (undo_places us));
    restored = ap (λ o. roll_back K job o.0 us) (sym wrote);
  }
  after_write-RolledBack x xs k us w there ih (k', done (docs, out)) wrote failed =
      extend (undo_places us) (undo_places (us ++ undo_of x docs ∷ [])) x xs (ok_result K job x out)
        _ _ (inl refl) refl (moved_written us x docs there)
        (ih k' (us ++ undo_of x docs ∷ []) (note_written job x w) failed)

  pub run_files-RolledBack : (files : List EtlFile) → Recovers files
  unfolding run_files
  run_files-RolledBack [] k us w failed = cc
  run_files-RolledBack (x ∷ xs) k us w failed =
      if-cases
        (λ (p : Progress K job).
          p.written ≡ none → RolledBack (undo_places us) (x ∷ xs) p.state p.results)
        (is_empty x.flat_data) _ _
        (λ nothing f.
          extend (undo_places us) (undo_places us) x xs (result_of x empty) _ _ (inr refl) refl
            (moved_empty (undo_places us) x nothing) (run_files-RolledBack xs k us w f))
        (λ there.
          after_write-RolledBack x xs k us w there (run_files-RolledBack xs) (write_file K job k x)
            refl)
        failed
