-- ===== src/Etl/Totality.antt =====
-- When a round of the ETL stage fails: the flattening always ends, so only a parser or the secret managers of
-- config.cue can fail.
use var_track.Prelude.{
  String, ◌≡◌, refl, true, ◌≢◌, Option, none, some, [], ◌∷◌, arith, is_empty, Option-cases,
  Bool-cases, inl, inr, string_eq,
}
use var_track.Prelude.Dict
use var_track.Prelude.Dict.{Dict, or_else}
use var_track.Value.{Value, null, bool, num, text, list, dict, Record, to_dict}
use var_track.Sink.{Reply, done}
use var_track.Transform.{transform, flatten, under_root, is_nested}
use var_track.Transform.Shape.{file_shape, rename_values, put_changed, texts, dict_value}
use var_track.Transform.Flattening.{py_flatten-leaves}
use var_track.Secrets.{Managers, SecretFields, effective_secrets}
use var_track.Etl.{
  shape_of, Tools, Step, next, skip, fail, ◌>>=◌, transform_part, enough, parsed_again,
  extract_root, put_secrets, prepare_flat, prepare, find_schema, no_schema, sorted_by_key,
  text_option, map_option, Prepared, extracted, finish_file, keep_file, root_label, Validation,
  default_root_key, flag_option, valid, warn,
}
use var_track.Env.Slice.{resolve_env_slice}

flatten-total : (rust : Value → Option (Dict String String)) (v : Value) → flatten rust v ≢ none
unfolding flatten
flatten-total rust v e = elim (Option-cases (rust v)) [
  | inl absent ↦ ground (arith, e, absent, py_flatten-leaves v "")
  | inr (flat, known) ↦ ground (arith, e, known)
]

-- The flattening ends, and so does the transformation of any file.
pub transform-total :
    (rust : Value → Option (Dict String String)) (p : Option Value) (variables : Dict String String)
    (root_key : String)
    → transform rust p variables root_key ≢ none
unfolding transform
transform-total rust none variables root_key e = ground (arith, e)
transform-total rust (some null) variables root_key e = ground (arith, e)
transform-total rust (some (dict fs)) variables root_key e =
    ground (arith, e, flatten-total rust (under_root root_key (dict fs)))
transform-total rust (some (list vs)) variables root_key e =
    ground (arith, e, flatten-total rust (list vs))
transform-total rust (some (bool b)) variables root_key e =
    ground (arith, e, flatten-total rust (bool b))
transform-total rust (some (num n)) variables root_key e =
    ground (arith, e, flatten-total rust (num n))
transform-total rust (some (text s)) variables root_key e =
    ground (arith, e, flatten-total rust (text s))

-- A shape is always made.
pub shape_of-total :
    (t : Tools) (part : Value) (flat variables : Dict String String)
    → (shape : Value) × (shape_of t part flat variables ≡ done shape)
unfolding file_shape
shape_of-total t part flat variables = elim (Bool-cases (is_nested part)) [
  | inl nested ↦ elim (Option-cases (flatten t.rust (rename_values variables part))) [
    | inl absent ↦ absurd (flatten-total t.rust (rename_values variables part) absent)
    | inr (original, known) ↦
        (put_changed original flat (rename_values variables part), ground (arith, nested, known))
  ]
  | inr plain ↦ (dict_value (texts flat), ground (arith, plain))
]

-- A step is not a failure, and the next one is none after it.
pub >>=-ne-fail :
    {A B : Type 0} (s : Step A) (go : A → Step B)
    → s ≢ fail
    → ((a : A) → s ≡ next a → go a ≢ fail)
    → s >>= go ≢ fail
>>=-ne-fail (next a) go ok later e = later a refl e
>>=-ne-fail skip go ok later e = ground (arith, e)
>>=-ne-fail fail go ok later e = ok refl

enough-ne-fail : (o : Option (Dict String String)) → o ≢ none → enough o ≢ fail
enough-ne-fail none h e = h refl
enough-ne-fail (some flat) h e = ground (arith, e)

transform_part-ne-fail :
    (t : Tools) (variables : Dict String String) (again : Reply Value) (v : Value)
    → t.can_dump v ≡ true
    → transform_part t variables again v ≢ fail
unfolding transform_part
transform_part-ne-fail t variables again null written =
    enough-ne-fail _ (transform-total t.rust (parsed_again again) variables "")
transform_part-ne-fail t variables again (bool b) written =
    enough-ne-fail _ (transform-total t.rust (parsed_again again) variables "")
transform_part-ne-fail t variables again (num n) written =
    enough-ne-fail _ (transform-total t.rust (parsed_again again) variables "")
transform_part-ne-fail t variables again (text s) written =
    enough-ne-fail _ (transform-total t.rust (parsed_again again) variables "")
transform_part-ne-fail t variables again (list vs) written =
    rw written (enough-ne-fail _ (transform-total t.rust (some (list vs)) variables ""))
transform_part-ne-fail t variables again (dict fs) written =
    rw written (enough-ne-fail _ (transform-total t.rust (some (dict fs)) variables ""))

extract_root-ne-fail : (root_key : String) (v : Value) → extract_root root_key v ≢ fail
unfolding extract_root
extract_root-ne-fail root_key null e = ground (arith, e)
extract_root-ne-fail root_key (bool b) e = ground (arith, e)
extract_root-ne-fail root_key (num n) e = ground (arith, e)
extract_root-ne-fail root_key (text s) e = ground (arith, e)
extract_root-ne-fail root_key (list vs) e = ground (arith, e)
extract_root-ne-fail root_key (dict fs) e = elim (Option-cases (Dict.get (to_dict fs) root_key)) [
  | inl absent ↦ ground (arith, e, absent)
  | inr (v, known) ↦ ground (arith, e, known)
]

module _ (t : Tools) (rule : Record) where
  put_secrets-ne-fail :
      (managers : Managers)
      → effective_secrets t.vault t.bundle rule ≡ done managers
      → (fields : SecretFields) (flat : Dict String String) → put_secrets t rule fields flat ≢ fail
  unfolding put_secrets
  put_secrets-ne-fail managers h [] flat e = ground (arith, e)
  put_secrets-ne-fail managers h (f ∷ fields) flat e = ground (arith, e, h)

  prepare_flat-ne-fail :
      (managers : Managers)
      → effective_secrets t.vault t.bundle rule ≡ done managers
      → (path : String) (part : Value) (flat : Dict String String)
      → prepare_flat t rule path part flat ≢ fail
  unfolding prepare_flat
  prepare_flat-ne-fail managers h path part flat e = elim (Bool-cases (is_empty flat)) [
    | inl nothing ↦ ground (arith, e, nothing)
    | inr there ↦
        let schema = or_else (find_schema t (t.base_name path)) no_schema in
        >>=-ne-fail (put_secrets t rule schema.secret_fields (sorted_by_key flat)) _
          (put_secrets-ne-fail managers h schema.secret_fields (sorted_by_key flat))
          (λ full _ x. ground (arith, x)) (rw there at e)
  ]

  pub prepare-ne-fail :
      (managers : Managers) (parsed : Value)
      → effective_secrets t.vault t.bundle rule ≡ done managers
      → (format : Option String) (path content env : String)
      → t.parse format content path ≡ done parsed
      → ((root : Value)
          → extract_root (text_option rule "root_key" default_root_key) parsed ≡ next root
          → t.can_dump (resolve_env_slice root env) ≡ true)
      → prepare t rule format path content env ≢ fail
  unfolding prepare
  prepare-ne-fail managers parsed h format path content env k written e =
      >>=-ne-fail (extract_root (text_option rule "root_key" default_root_key) parsed) _
        (extract_root-ne-fail (text_option rule "root_key" default_root_key) parsed)
        (λ root known.
          >>=-ne-fail _ _
            (transform_part-ne-fail t _ _ (resolve_env_slice root env) (written root known))
            (λ flat _. prepare_flat-ne-fail managers h path (resolve_env_slice root env) flat))
        (rw k at e)

  -- The step after the file is validated does not fail.
  extracted-ne-fail :
      (path env label : String) (validation : Validation) (error : String) (p : Prepared)
      → extracted t rule path env label validation error p ≢ fail
  extracted-ne-fail path env label validation error p e =
      let (shape, h) = shape_of-total t p.part p.flat (map_option rule "variables_map") in
      ground (arith, e, h)

  keep_file-ne-fail :
      (path env : String) (p : Prepared) (error : Option String)
      → keep_file t rule path env p error ≢ fail
  unfolding keep_file
  keep_file-ne-fail path env p none e = extracted-ne-fail path env (root_label rule) valid "" p e
  keep_file-ne-fail path env p (some error) e =
      elim (Bool-cases (flag_option rule "strict_validation")) [
        | inl strict ↦ ground (arith, e, strict)
        | inr lenient ↦ extracted-ne-fail path env (root_label rule) warn "" p (rw lenient at e)
      ]

  pub finish_file-ne-fail :
      (path env : String) (p : Prepared) → finish_file t rule path env p ≢ fail
  unfolding finish_file
  finish_file-ne-fail path env p = keep_file-ne-fail path env p _
