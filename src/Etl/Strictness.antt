-- ===== src/Etl/Strictness.antt =====
-- What validation decides in the ETL stage, and how its two variants differ.
use mathlib.Core.Path.{subst}
use var_track.Prelude.{
  String, ◌≡◌, refl, ap, ◌∙◌, map, Bool, true, false, Option, none, some, List, [], ◌∷◌, arith, All,
  Option-cases, Bool-cases, inl, inr, string_eq,
}
use var_track.Prelude.Dict.{Dict}
use var_track.Value.{Value, Record}
use var_track.Sink.{Reply, done, raised, Reply-cases, done-injective}
use var_track.Env.Cache.{Cache}
use var_track.Env.Resolver.{resolve}
use var_track.Secrets.{SecretFields}
use var_track.Etl.{
  shape_of, Tools, EtlContext, Step, next, skip, fail, ◌>>=◌, Prepared, Extracted, extracted,
  finish_file, finish_content, keep_file, keep_content, root_label, validate, find_schema,
  Validation, valid, warn, flag_option, map_option, prepare, etl_file, run_stage_etl,
  run_stage_etl_content, no_files, add, etl_files, push_of, EtlResult,
}

All-add :
    (P : Extracted → Type 0) (path : String) (s : Step Extracted) (r : EtlResult)
    → ((f : Extracted) → s ≡ next f → P f)
    → All P r.files
    → All P (add path s r).files
All-add P path (next f) r one h = (one f refl, h)
All-add P path skip r one h = h
All-add P path fail r one h = h

module _ (P : Extracted → Type 0) (t : Tools) (ctx : EtlContext) where
  -- What holds of a file whenever a round keeps it
  abbrev pub EachFile : Type 0
  EachFile =
      (cache : Cache) (file : String × String) (f : Extracted)
      → (etl_file t ctx cache file).1 ≡ next f
      → P f

  All-etl_files :
      EachFile
      → (cache : Cache) (files : List (String × String))
      → All P (etl_files t ctx cache files).1.files
  unfolding etl_files
  All-etl_files each cache [] = tt
  All-etl_files each cache (f ∷ fs) =
      All-add P f.0 (etl_file t ctx cache f).1 (etl_files t ctx (etl_file t ctx cache f).0 fs).1
        (each cache f) (All-etl_files each (etl_file t ctx cache f).0 fs)

  -- The kept files have what holds of each kept file.
  pub All-run_stage_etl :
      EachFile
      → (cache : Cache) (collected : Reply (List (String × String))) (r : EtlResult)
      → (run_stage_etl t ctx cache collected).1 ≡ done r
      → All P r.files
  unfolding run_stage_etl
  All-run_stage_etl each cache (raised m) r e = absurd (ground (arith, e))
  All-run_stage_etl each cache (done files) r e =
      subst (λ x. All P x.files) (done-injective _ _ e) (All-etl_files each cache files)

-- A step that goes on from another went on from its result.
pub >>=-eq-next :
    {A B : Type 0} (s : Step A) (go : A → Step B) (b : B)
    → s >>= go ≡ next b
    → (a : A) × ((s ≡ next a) × (go a ≡ next b))
>>=-eq-next (next a) go b e = (a, (refl, e))
>>=-eq-next skip go b e = absurd (ground (arith, e))
>>=-eq-next fail go b e = absurd (ground (arith, e))

-- Without strictness `validate` never raises.
pub validate-lenient :
    (t : Tools) (name : String) (flat : Dict String String) → validate t false name flat ≡ none
unfolding validate
validate-lenient t name flat = elim (Option-cases (find_schema t name)) [
  | inl absent ↦ ground (arith, absent)
  | inr (schema, found) ↦ elim (Option-cases (t.run_cue_vet flat schema name)) [
    | inl passed ↦ ground (arith, found, passed)
    | inr (error, failed) ↦ ground (arith, found, failed)
  ]
]

module _ (t : Tools) (rule : Record) where
  -- What is read of a file that is kept
  extracted-eq :
      (path env label : String) (v : Validation) (error : String) (p : Prepared) (f : Extracted)
      → extracted t rule path env label v error p ≡ next f
      → (f.file.file_path ≡ path) × ((f.file.flat_data ≡ p.flat) × (f.validation ≡ v))
  extracted-eq path env label v error p f e =
      elim (Reply-cases (shape_of t p.part p.flat (map_option rule "variables_map"))) [
        | inl (shape, h) ↦ ground (arith, e, h)
        | inr (m, h) ↦ absurd (ground (arith, e, h))
      ]

  -- A file is kept as valid, and only where `validate` does not raise.
  keep_file-valid :
      (path env : String) (p : Prepared) (f : Extracted) (o : Option String)
      → validate t (flag_option rule "strict_validation") (t.base_name path) p.flat ≡ o
      → keep_file t rule path env p o ≡ next f
      → (validate t
            (flag_option rule "strict_validation")
            (t.base_name f.file.file_path)
            f.file.flat_data
          ≡ none)
        × (f.validation ≡ valid)
  unfolding keep_file
  keep_file-valid path env p f none passed e =
      let (same_path, (same_flat, v)) = extracted-eq path env (root_label rule) valid "" p f e in
      (rw (same_path, same_flat) passed, v)
  keep_file-valid path env p f (some error) failed e =
      elim (Bool-cases (flag_option rule "strict_validation")) [
        | inl strict ↦ absurd (ground (arith, e, strict))
        | inr lenient ↦
            absurd (ground (arith, lenient, failed, validate-lenient t (t.base_name path) p.flat))
      ]

  pub finish_file-valid :
      (path env : String) (p : Prepared) (f : Extracted)
      → finish_file t rule path env p ≡ next f
      → (validate t
            (flag_option rule "strict_validation")
            (t.base_name f.file.file_path)
            f.file.flat_data
          ≡ none)
        × (f.validation ≡ valid)
  unfolding finish_file
  finish_file-valid path env p f e = keep_file-valid path env p f _ refl e

  keep_file-path :
      (path env : String) (p : Prepared) (f : Extracted) (o : Option String)
      → keep_file t rule path env p o ≡ next f
      → f.file.file_path ≡ path
  unfolding keep_file
  keep_file-path path env p f none e = (extracted-eq path env (root_label rule) valid "" p f e).0
  keep_file-path path env p f (some error) e =
      elim (Bool-cases (flag_option rule "strict_validation")) [
        | inl strict ↦ absurd (ground (arith, e, strict))
        | inr lenient ↦ (extracted-eq path env (root_label rule) warn "" p f (rw lenient at e)).0
      ]

  pub finish_file-path :
      (path env : String) (p : Prepared) (f : Extracted)
      → finish_file t rule path env p ≡ next f
      → f.file.file_path ≡ path
  unfolding finish_file
  finish_file-path path env p f e = keep_file-path path env p f _ e

  -- What the two variants of the stage keep alike of a file
  abbrev pub Core : Type 0
  Core = String × (String × (Dict String String × (List String × (Value × SecretFields))))

  abbrev pub core : Extracted → Core
  core f = (
    f.file.file_path,
    (f.file.env, (f.file.flat_data, (f.file.logger_fields, (f.file.shape, f.secret_fields)))),
  )

  abbrev core_of : Step Extracted → Step Core
  core_of (next f) = next (core f)
  core_of skip = skip
  core_of fail = fail

  core-extracted :
      (path env label label' : String) (v v' : Validation) (error error' : String) (p : Prepared)
      → core_of (extracted t rule path env label v error p)
        ≡ core_of (extracted t rule path env label' v' error' p)
  core-extracted path env label label' v v' error error' p =
      elim (Reply-cases (shape_of t p.part p.flat (map_option rule "variables_map"))) [
        | inl (shape, h) ↦ ground (arith, h)
        | inr (m, h) ↦ ground (arith, h)
      ]

  core-keep :
      (path env : String) (p : Prepared) (strict : Bool)
      → flag_option rule "strict_validation" ≡ strict
      → core_of (keep_file t rule path env p (validate t strict (t.base_name path) p.flat))
        ≡ core_of (keep_content t rule path env p (validate t true (t.base_name path) p.flat))
  unfolding keep_file keep_content
  core-keep path env p true h = elim (Option-cases (validate t true (t.base_name path) p.flat)) [
    | inl passed ↦ rw passed (core-extracted path env (root_label rule) _ valid valid "" "" p)
    | inr (error, failed) ↦ ground (arith, failed, h)
  ]
  core-keep path env p false h =
      let plain = validate-lenient t (t.base_name path) p.flat in
      elim (Option-cases (validate t true (t.base_name path) p.flat)) [
        | inl passed ↦
            rw (passed, plain) (core-extracted path env (root_label rule) _ valid valid "" "" p)
        | inr (error, failed) ↦
            rw (failed, plain, h)
              (core-extracted path env (root_label rule) _ valid warn "" error p)
      ]

  core-finish :
      (path env : String) (p : Prepared)
      → core_of (finish_file t rule path env p) ≡ core_of (finish_content t rule path env p)
  unfolding finish_file finish_content
  core-finish path env p = core-keep path env p (flag_option rule "strict_validation") refl

  core->>= :
      (s : Step Prepared) (path env : String)
      → core_of (s >>= finish_file t rule path env) ≡ core_of (s >>= finish_content t rule path env)
  core->>= (next p) path env = core-finish path env p
  core->>= skip path env = refl
  core->>= fail path env = refl

-- The format tells only how the content is parsed.
prepare-format :
    (t : Tools) (rule : Record) (path content env format : String)
    → t.parse (some format) content path ≡ t.parse none content path
    → prepare t rule none path content env ≡ prepare t rule (some format) path content env
unfolding prepare
prepare-format t rule path content env format same = rw same refl

-- What a round keeps, it kept at its end.
pub finish_of_next :
    (t : Tools) (ctx : EtlContext) (cache : Cache) (file : String × String) (f : Extracted)
    → (etl_file t ctx cache file).1 ≡ next f
    → (env : String) × ((p : Prepared) × ((prepare t ctx.rule_config none file.0 file.1 env
            ≡ next p)
          × (finish_file t ctx.rule_config file.0 env p ≡ next f)))
unfolding etl_file
finish_of_next t ctx cache (path, content) f e =
    let env = (resolve (push_of ctx path) cache).1 in
    (
      env,
      >>=-eq-next (prepare t ctx.rule_config none path content env)
          (finish_file t ctx.rule_config path env) f e,
    )

module _ (t : Tools) (ctx : EtlContext) (cache : Cache) (collected : Reply (List (String × String)))
    (r : EtlResult) where
  -- With strict_validation every file that run_stage_etl keeps passes `validate`, as it is kept, with its
  -- secrets.
  pub run_stage_etl-IsValid :
      flag_option ctx.rule_config "strict_validation" ≡ true
      → (run_stage_etl t ctx cache collected).1 ≡ done r
      → All (λ f. validate t true (t.base_name f.file.file_path) f.file.flat_data ≡ none) r.files
  run_stage_etl-IsValid strict =
      All-run_stage_etl
        (λ f. validate t true (t.base_name f.file.file_path) f.file.flat_data ≡ none) t ctx
        (λ cache file f kept.
          let (env, (p, (_, end))) = finish_of_next t ctx cache file f kept in
          rw strict at ((finish_file-valid t ctx.rule_config file.0 env p f end).0))
        cache collected r

  -- run_stage_etl says of every file that it keeps that it is valid, whatever cue says of it: the warning is
  -- never given.
  pub run_stage_etl-valid :
      (run_stage_etl t ctx cache collected).1 ≡ done r → All (λ f. f.validation ≡ valid) r.files
  run_stage_etl-valid =
      All-run_stage_etl (λ f. f.validation ≡ valid) t ctx
        (λ cache file f kept.
          let (env, (p, (_, end))) = finish_of_next t ctx cache file f kept in
          (finish_file-valid t ctx.rule_config file.0 env p f end).1)
        cache collected r

-- What two results keep alike
abbrev pub SameCore : Tools → Record → EtlResult → EtlResult → Type 0
SameCore t rule r r' =
    (map (core t rule) r.files ≡ map (core t rule) r'.files)
    × ((r.skipped ≡ r'.skipped) × (r.errors ≡ r'.errors))

SameCore-add :
    (t : Tools) (rule : Record) (path : String) (s s' : Step Extracted) (r : EtlResult)
    → core_of t rule s ≡ core_of t rule s'
    → SameCore t rule (add path s r) (add path s' r)
SameCore-add t rule path (next f) (next g) r e = ground (arith, e)
SameCore-add t rule path (next f) skip r e = absurd (ground (arith, e))
SameCore-add t rule path (next f) fail r e = absurd (ground (arith, e))
SameCore-add t rule path skip (next g) r e = absurd (ground (arith, e))
SameCore-add t rule path skip skip r e = (refl, (refl, refl))
SameCore-add t rule path skip fail r e = absurd (ground (arith, e))
SameCore-add t rule path fail (next g) r e = absurd (ground (arith, e))
SameCore-add t rule path fail skip r e = absurd (ground (arith, e))
SameCore-add t rule path fail fail r e = (refl, (refl, refl))

-- For a file that both parse to the same, run_stage_etl, of that file alone, and run_stage_etl_content, with
-- the environment that the push gives it, keep, skip or fail it alike, and keep the same keys, values, shape
-- and fields of the schema.
pub etl_files-run_stage_etl_content :
    (t : Tools) (ctx : EtlContext) (cache : Cache) (path content format : String)
    → t.parse (some format) content path ≡ t.parse none content path
    → SameCore t ctx.rule_config
        (etl_files t ctx cache ((path, content) ∷ [])).1
        (run_stage_etl_content t ctx path content format (resolve (push_of ctx path) cache).1)
unfolding etl_files etl_file run_stage_etl_content
etl_files-run_stage_etl_content t ctx cache path content format same =
    let env = (resolve (push_of ctx path) cache).1 in
    SameCore-add t ctx.rule_config path
      (prepare t ctx.rule_config none path content env >>= finish_file t ctx.rule_config path env)
      (prepare t ctx.rule_config (some format) path content env
        >>= finish_content t ctx.rule_config path env)
      no_files
      (core->>= t ctx.rule_config (prepare t ctx.rule_config none path content env) path env
        ∙ ap (λ s. core_of t ctx.rule_config (s >>= finish_content t ctx.rule_config path env))
            (prepare-format t ctx.rule_config path content env format same))
