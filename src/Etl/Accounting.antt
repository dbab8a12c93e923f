-- ===== src/Etl/Accounting.antt =====
-- Where each collected file is after the ETL stage.
use mathlib.Core.List.{Perm, perm_middle}
use mathlib.Core.List.Perm
use mathlib.Core.Path.{subst}
use var_track.Prelude.{String, ◌≡◌, refl, true, none, List, [], ◌∷◌, ◌++◌, map}
use var_track.Value.{Value}
use var_track.Sink.{done, done-injective}
use var_track.Env.Cache.{Cache}
use var_track.Env.Slice.{resolve_env_slice}
use var_track.Etl.{
  Tools, EtlContext, Step, next, skip, fail, Extracted, EtlResult, etl_file, etl_files,
  run_stage_etl, add, extract_root, text_option, default_root_key,
}
use var_track.Etl.Strictness.{finish_of_next, finish_file-path}

-- The paths of the files that a result speaks of
abbrev pub paths : EtlResult → List String
paths r = map (λ f. f.file.file_path) r.files ++ (r.skipped ++ r.errors)

-- The file's content can be parsed, and json can write its part for every environment.
abbrev pub IsParsed : Tools → EtlContext → String × String → Type 0
IsParsed t ctx (path, content) =
    (v : Value) × ((t.parse none content path ≡ done v)
      × ((root : Value) (env : String)
          → extract_root (text_option ctx.rule_config "root_key" default_root_key) v ≡ next root
          → t.can_dump (resolve_env_slice root env) ≡ true))

Perm-add :
    (path : String) (s : Step Extracted) (r : EtlResult) (rest : List String)
    → ((f : Extracted) → s ≡ next f → f.file.file_path ≡ path)
    → Perm (paths r) rest
    → Perm (paths (add path s r)) (path ∷ rest)
Perm-add path (next f) r rest same h = rw (same f refl) (Perm.cons path h)
Perm-add path skip r rest same h =
    Perm.trans (perm_middle (map (λ f. f.file.file_path) r.files) (r.skipped ++ r.errors))
      (Perm.cons path h)
Perm-add path fail r rest same h =
    Perm.trans
      (Perm.append_left (map (λ f. f.file.file_path) r.files) (perm_middle r.skipped r.errors))
      (Perm.trans (perm_middle (map (λ f. f.file.file_path) r.files) (r.skipped ++ r.errors))
        (Perm.cons path h))

module _ (t : Tools) (ctx : EtlContext) where
  Perm-etl_files :
      (cache : Cache) (files : List (String × String))
      → Perm (paths (etl_files t ctx cache files).1) (map (λ f. f.0) files)
  unfolding etl_files
  Perm-etl_files cache [] = Perm.refl []
  Perm-etl_files cache (f ∷ fs) =
      Perm-add f.0 (etl_file t ctx cache f).1 (etl_files t ctx (etl_file t ctx cache f).0 fs).1
        (map (λ f. f.0) fs)
        (λ x kept.
          let (env, (p, (_, end))) = finish_of_next t ctx cache f x kept in
          finish_file-path t ctx.rule_config f.0 env p x end)
        (Perm-etl_files (etl_file t ctx cache f).0 fs)

  -- Each collected file is in exactly one of the result's files, skipped and errors, as often as it was
  -- collected, and nothing else is there.
  pub Perm-run_stage_etl :
      (cache : Cache) (files : List (String × String)) (r : EtlResult)
      → (run_stage_etl t ctx cache (done files)).1 ≡ done r
      → Perm (paths r) (map (λ f. f.0) files)
  unfolding run_stage_etl
  Perm-run_stage_etl cache files r e =
      subst (λ x. Perm (paths x) (map (λ f. f.0) files)) (done-injective _ _ e)
        (Perm-etl_files cache files)
