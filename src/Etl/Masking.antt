-- ===== src/Etl/Masking.antt =====
-- A dry run shows no secret that it fetched.
use var_track.Prelude.{
  String, ◌≡◌, true, false, Option, none, some, List, [], ◌∷◌, arith, All, is_empty, Bool-cases,
  inl, inr, string_eq,
}
use var_track.Prelude.Dict
use var_track.Prelude.Dict.{Dict, or_else}
use var_track.Value.{Value, Record}
use var_track.Sink.{Reply, done, Reply-cases}
use var_track.Env.Cache.{Cache}
use var_track.Env.Slice.{resolve_env_slice}
use var_track.Secrets.{Managers, SecretFields, effective_secrets, resolve_secrets, mask_secrets}
use var_track.Secrets.Resolving.{get-mask_secrets}
use var_track.Etl.{
  shape_of, Tools, EtlContext, Step, try, next, skip, fail, ◌>>=◌, Prepared, Extracted, EtlResult,
  extracted, finish_file, keep_file, root_label, Validation, valid, warn, flag_option, text_option,
  map_option, put_secrets, prepare_flat, prepare, sorted_by_key, find_schema, no_schema,
  run_stage_etl, extract_root, transform_part, default_root_key,
}
use var_track.Etl.Strictness.{>>=-eq-next, All-run_stage_etl, finish_of_next}

-- Every value under a secret field is masked.
abbrev pub IsMasked : SecretFields → Dict String String → Type 0
IsMasked fields flat =
    (k v : String) → Dict.has fields k ≡ true → Dict.get flat k ≡ some v → v ≡ "***"

mask_secrets-IsMasked :
    (fields : SecretFields) (flat : Dict String String) → IsMasked fields (mask_secrets fields flat)
mask_secrets-IsMasked fields flat k v secret here =
    ground (arith, get-mask_secrets fields flat k, secret, here)

-- What holds of every result of the next step holds of the result of both.
after_next :
    {A B : Type 0} (P : B → Type 0) (s : Step A) (go : A → Step B)
    → ((a : A) (b : B) → go a ≡ next b → P b)
    → (b : B) → s >>= go ≡ next b
    → P b
after_next P (next a) go each b e = each a b e
after_next P skip go each b e = absurd (ground (arith, e))
after_next P fail go each b e = absurd (ground (arith, e))

module _ (t : Tools) (rule : Record) (managers : Managers)
    (known : effective_secrets t.vault t.bundle rule ≡ done managers)
    (some_manager : is_empty managers ≡ false) (dry : flag_option rule "dry_run" ≡ true) where
  put_secrets-IsMasked :
      (fields : SecretFields) (flat out : Dict String String)
      → put_secrets t rule fields flat ≡ next out
      → IsMasked fields out
  unfolding put_secrets Dict.get
  put_secrets-IsMasked [] flat out e k v secret here = absurd (ground (arith, secret))
  put_secrets-IsMasked (f ∷ fields) flat out e k v secret here =
      mask_secrets-IsMasked (f ∷ fields) (resolve_secrets t.vault managers (f ∷ fields) flat) k v
        secret (ground (arith, e, known, some_manager, dry, here))

  prepare_flat-IsMasked :
      (path : String) (part : Value) (flat : Dict String String) (p : Prepared)
      → prepare_flat t rule path part flat ≡ next p
      → IsMasked p.secret_fields p.flat
  unfolding prepare_flat
  prepare_flat-IsMasked path part flat p e = elim (Bool-cases (is_empty flat)) [
    | inl nothing ↦ absurd (ground (arith, e, nothing))
    | inr there ↦
        let schema = or_else (find_schema t (t.base_name path)) no_schema in
        let (full, (put, end)) =
          >>=-eq-next (put_secrets t rule schema.secret_fields (sorted_by_key flat)) _ p
            (rw there at e) in
        λ k v secret here.
          put_secrets-IsMasked schema.secret_fields (sorted_by_key flat) full put k v
            (ground (arith, end, secret)) (ground (arith, end, here))
  ]

  prepare-IsMasked :
      (format : Option String) (path content env : String) (p : Prepared)
      → prepare t rule format path content env ≡ next p
      → IsMasked p.secret_fields p.flat
  unfolding prepare
  prepare-IsMasked format path content env p e =
      after_next (λ q. IsMasked q.secret_fields q.flat) (try (t.parse format content path)) _
        (λ parsed.
          after_next (λ q. IsMasked q.secret_fields q.flat)
            (extract_root (text_option rule "root_key" default_root_key) parsed) _
            (λ root.
              after_next (λ q. IsMasked q.secret_fields q.flat)
                (transform_part t (map_option rule "variables_map") (t.parse none content path)
                  (resolve_env_slice root env))
                _ (λ flat. prepare_flat-IsMasked path (resolve_env_slice root env) flat)))
        p e

  extracted-IsMasked :
      (path env label : String) (v : Validation) (error : String) (p : Prepared) (f : Extracted)
      → IsMasked p.secret_fields p.flat
      → extracted t rule path env label v error p ≡ next f
      → IsMasked f.secret_fields f.file.flat_data
  extracted-IsMasked path env label v error p f h e k w secret here =
      elim (Reply-cases (shape_of t p.part p.flat (map_option rule "variables_map"))) [
        | inl (shape, s) ↦ h k w (ground (arith, e, s, secret)) (ground (arith, e, s, here))
        | inr (m, s) ↦ absurd (ground (arith, e, s))
      ]

  keep_file-IsMasked :
      (path env : String) (p : Prepared) (f : Extracted)
      → IsMasked p.secret_fields p.flat
      → (o : Option String) → keep_file t rule path env p o ≡ next f
      → IsMasked f.secret_fields f.file.flat_data
  unfolding keep_file
  keep_file-IsMasked path env p f h none e =
      extracted-IsMasked path env (root_label rule) valid "" p f h e
  keep_file-IsMasked path env p f h (some m) e =
      elim (Bool-cases (flag_option rule "strict_validation")) [
        | inl strict ↦ absurd (ground (arith, e, strict))
        | inr lenient ↦
            extracted-IsMasked path env (root_label rule) warn "" p f h (rw lenient at e)
      ]

  finish_file-IsMasked :
      (path env : String) (p : Prepared) (f : Extracted)
      → IsMasked p.secret_fields p.flat
      → finish_file t rule path env p ≡ next f
      → IsMasked f.secret_fields f.file.flat_data
  unfolding finish_file
  finish_file-IsMasked path env p f h = keep_file-IsMasked path env p f h _

-- For a rule with dry_run, no file that run_stage_etl keeps has a value under a key that its schema marks
-- with @secret other than "***", when there is a secret manager.
pub run_stage_etl-IsMasked :
    (t : Tools) (ctx : EtlContext) (cache : Cache) (collected : Reply (List (String × String)))
    (r : EtlResult) (managers : Managers)
    → effective_secrets t.vault t.bundle ctx.rule_config ≡ done managers
    → is_empty managers ≡ false
    → flag_option ctx.rule_config "dry_run" ≡ true
    → (run_stage_etl t ctx cache collected).1 ≡ done r
    → All (λ f. IsMasked f.secret_fields f.file.flat_data) r.files
run_stage_etl-IsMasked t ctx cache collected r managers known some_manager dry =
    All-run_stage_etl (λ f. IsMasked f.secret_fields f.file.flat_data) t ctx
      (λ cache file f kept.
        let (env, (p, (before, end))) = finish_of_next t ctx cache file f kept in
        finish_file-IsMasked t ctx.rule_config managers known some_manager dry file.0 env p f
          (prepare-IsMasked t ctx.rule_config managers known some_manager dry none file.0 file.1 env
            p before)
          end)
      cache collected r
