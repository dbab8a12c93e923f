-- ===== src/Etl.antt =====
-- app/pipeline/stage_etl.py and `validate` of app/pipeline/validator.py: each collected file parsed, cut down
-- to its part for the environment, flattened, with its secrets, and validated. Log lines and metrics are
-- left out. The parsers, the file system, the cue tool and the secret managers are parameters. The options
-- of a rule have the types of rule.proto.
use var_track.Prelude.{
  String, ◌<>◌, Bool, true, false, not, Option, none, some, List, [], ◌∷◌, ◌==◌, string_eq,
  if◌then◌else◌, is_empty,
}
use var_track.Prelude.Order.{text_ltb}
use var_track.Prelude.Dict
use var_track.Prelude.Dict.{Dict, or_else}
use var_track.Value.{Value, null, bool, num, text, list, dict, Record, truthy, dict_fields, to_dict}
use var_track.Sink.{Reply, done, raised}
use var_track.Sync.Files.{EtlFile}
use var_track.Env.Cache.{Cache}
use var_track.Env.Resolver.{Push, resolve}
use var_track.Env.Slice.{resolve_env_slice}
use var_track.Transform.{transform}
use var_track.Transform.Shape.{file_shape}
use var_track.Rule.Getters.{value_at}
use var_track.Secrets.{
  Vault, SecretFields, Managers, resolve_secrets, mask_secrets, effective_secrets,
}
pub mod Totality
pub mod Accounting
pub mod Strictness
pub mod Masking

-- What a schema says of fields: `parse_secret_fields` and `parse_logger_fields`
pub record Schema : Type 0 where
  pub secret_fields : SecretFields
  pub logger_fields : List String

-- What stands outside. The schemas are those of the tenant.
pub record Tools : Type 0 where
  -- content and path; `none` for the format where it is told by the path (`load`), else `load_as`
  pub parse : Option String → String → String → Reply Value
  -- that `json.dumps` writes the data: it raises for the dates of YAML and TOML
  pub can_dump : Value → Bool
  -- `py_flatten_bfs`
  pub rust : Value → Option (Dict String String)
  -- `Path(file_path).name`
  pub base_name : String → String
  -- the schema directory: the file of this name in it, where it is there; `none` for no directory
  pub schema_dir : Option (String → Option Schema)
  -- `_is_cue_available`
  pub has_cue : Bool
  -- `_run_cue_vet`: flat data, schema and file name; the error, if there is one
  pub run_cue_vet : Dict String String → Schema → String → Option String
  pub vault : Vault
  -- the config.cue that secret managers are read from
  pub bundle : Record

-- What the stage reads of a PayloadContext
pub record EtlContext : Type 0 where
  pub branch : String
  pub tag : Option String
  pub pr_number : Option String
  pub rule_config : Record

pub data Validation : Type 0 where
  valid warn : Validation

-- ETLFile
pub record Extracted : Type 0 where
  pub file : EtlFile
  pub validation : Validation
  pub error : String
  pub secret_fields : SecretFields

-- ETLResult
pub record EtlResult : Type 0 where
  pub files : List Extracted
  pub skipped : List String
  pub errors : List String

-- How a round of the loop goes on: to the next step, or past the file, or to the `except` of the loop
pub data Step (A : Type 0) : Type 0 where
  next : A → Step A
  skip : Step A
  fail : Step A

infixl 5 ◌>>=◌
abbrev pub ◌>>=◌ : {A B : Type 0} → Step A → (A → Step B) → Step B
◌>>=◌ (next x) go = go x
◌>>=◌ skip go = skip
◌>>=◌ fail go = fail

abbrev pub try : {A : Type 0} → Reply A → Step A
try (done a) = next a
try (raised e) = fail

abbrev pub default_root_key : String
default_root_key = "vartrack"

-- The options of a rule, and what they are when they are not set
abbrev pub text_option : Record → String → String → String
text_option rule key default = elim (Dict.get rule key) [
  | none ↦ default
  | some (text s) ↦ s
  | some v ↦ ""
]

abbrev pub flag_option : Record → String → Bool
unfolding truthy
flag_option rule key = truthy (value_at rule key)

-- A map of texts to texts
abbrev pub texts_of : Record → Dict String String
texts_of [] = []
texts_of ((k, text s) ∷ d) = (k, s) ∷ texts_of d
texts_of ((k, v) ∷ d) = texts_of d

abbrev pub map_option : Record → String → Dict String String
unfolding to_dict
map_option rule key = texts_of (dict_fields (value_at rule key))

-- `sorted(flat_data.items())`: no key is there twice
unfoldable pub insert_pair : String × String → Dict String String → Dict String String
insert_pair p [] = p ∷ []
insert_pair p (q ∷ d) =
    let rest = insert_pair p d in if text_ltb p.0 q.0 then p ∷ q ∷ d else q ∷ rest

unfoldable pub sorted_by_key : Dict String String → Dict String String
unfolding insert_pair
sorted_by_key [] = []
sorted_by_key (p ∷ d) = insert_pair p (sorted_by_key d)

-- `_find_schema`
unfoldable pub find_schema : Tools → String → Option Schema
find_schema t name = elim t.schema_dir [
  | none ↦ none
  | some dir ↦ elim (dir (name <> ".cue")) [ some schema ↦ some schema | none ↦ dir "default.cue" ]
]

-- `validate`: the error, where it raises
unfoldable pub validate : Tools → Bool → String → Dict String String → Option String
unfolding find_schema
validate t strict name flat = elim (find_schema t name) [
  | none ↦ none
  | some schema ↦ if not t.has_cue then none else elim (t.run_cue_vet flat schema name) [
    | none ↦ none
    | some error ↦
        if error == ""
        then none
        else if strict
        then some ("CUE validation failed for " <> name <> ": " <> error)
        else none
  ]
]

-- The part of a file under root_key; the whole file where the default key is not there
unfoldable pub extract_root : String → Value → Step Value
unfolding to_dict
extract_root root_key (dict fs) =
    if root_key == "" then next (dict fs) else elim (Dict.get (to_dict fs) root_key) [
      | some v ↦ next v
      | none ↦ if root_key == default_root_key then next (dict fs) else skip
    ]
extract_root root_key v = next v

-- The turns of the flattening are enough, so that the first case never is.
abbrev pub enough : Option (Dict String String) → Step (Dict String String)
enough none = fail
enough (some flat) = next flat

abbrev pub parsed_again : Reply Value → Option Value
parsed_again (done v) = some v
parsed_again (raised e) = none

-- `json.dumps` and `transform` of the parsed part; one that is neither a dict nor a list is not written, and
-- is parsed again from the content.
unfoldable pub transform_part :
    Tools → Dict String String → Reply Value → Value → Step (Dict String String)
unfolding transform
transform_part t variables again (dict fs) =
    if t.can_dump (dict fs) then enough (transform t.rust (some (dict fs)) variables "") else fail
transform_part t variables again (list vs) =
    if t.can_dump (list vs) then enough (transform t.rust (some (list vs)) variables "") else fail
transform_part t variables again v = enough (transform t.rust (parsed_again again) variables "")

-- The flat data with its secrets; masked in a dry run
unfoldable pub put_secrets :
    Tools → Record → SecretFields → Dict String String → Step (Dict String String)
put_secrets t rule [] flat = next flat
put_secrets t rule (f ∷ fields) flat = do
  managers ← try (effective_secrets t.vault t.bundle rule)
  if is_empty managers
      then next flat
      else let resolved = resolve_secrets t.vault managers (f ∷ fields) flat in
        next (if flag_option rule "dry_run" then mask_secrets (f ∷ fields) resolved else resolved)

-- `file_shape`, whose first case never is
abbrev pub shape_or : Option Value → Reply Value
shape_or none = raised "the shape has no flat keys"
shape_or (some v) = done v

abbrev pub shape_of : Tools → Value → Dict String String → Dict String String → Reply Value
shape_of t part flat variables = shape_or (file_shape t.rust part flat variables)

-- What the two variants of the stage do alike, and what they have then: the parsed part, the flat data and
-- what its schema says
pub record Prepared : Type 0 where
  pub part : Value
  pub flat : Dict String String
  pub secret_fields : SecretFields
  pub logger_fields : List String

abbrev pub no_schema : Schema
no_schema = record { secret_fields = []; logger_fields = [] }

-- A file's flat data, sorted and with its secrets; a file without any is skipped.
unfoldable pub prepare_flat : Tools → Record → String → Value → Dict String String → Step Prepared
unfolding sorted_by_key find_schema put_secrets
prepare_flat t rule path part flat =
    if is_empty flat
    then skip
    else let schema = or_else (find_schema t (t.base_name path)) no_schema in
      do
        full ← put_secrets t rule schema.secret_fields (sorted_by_key flat)
        next (record {
          part = part;
          flat = full;
          secret_fields = schema.secret_fields;
          logger_fields = schema.logger_fields;
        })

unfoldable pub prepare : Tools → Record → Option String → String → String → String → Step Prepared
unfolding extract_root transform_part prepare_flat
prepare t rule format path content env = do
  parsed ← try (t.parse format content path)
  root ← extract_root (text_option rule "root_key" default_root_key) parsed
  let part = resolve_env_slice root env
  flat ← transform_part t (map_option rule "variables_map") (t.parse none content path) part
  prepare_flat t rule path part flat

abbrev pub extracted :
    Tools → Record → String → String → String → Validation → String → Prepared → Step Extracted
extracted t rule path env root_key validation error p = do
  shape ← try (shape_of t p.part p.flat (map_option rule "variables_map"))
  next (record {
    file = record {
      file_path = path;
      env = env;
      flat_data = p.flat;
      root_key = root_key;
      logger_fields = p.logger_fields;
      shape = shape;
    };
    validation = validation;
    error = error;
    secret_fields = p.secret_fields;
  })

-- `root_key or "(whole file)"`
abbrev pub root_label : Record → String
root_label rule =
    let root_key = text_option rule "root_key" default_root_key in
    if root_key == "" then "(whole file)" else root_key

-- The end of a round, by what `validate` raises: a file that is not valid is skipped, or kept with a warning
unfoldable pub keep_file :
    Tools → Record → String → String → Prepared → Option String → Step Extracted
keep_file t rule path env p none = extracted t rule path env (root_label rule) valid "" p
keep_file t rule path env p (some e) =
    if flag_option rule "strict_validation"
    then skip
    else extracted t rule path env (root_label rule) warn "" p

unfoldable pub finish_file : Tools → Record → String → String → Prepared → Step Extracted
unfolding validate keep_file
finish_file t rule path env p =
    keep_file t rule path env p
      (validate t (flag_option rule "strict_validation") (t.base_name path) p.flat)

unfoldable pub keep_content :
    Tools → Record → String → String → Prepared → Option String → Step Extracted
keep_content t rule path env p none =
    extracted t rule path env (text_option rule "root_key" default_root_key) valid "" p
keep_content t rule path env p (some e) =
    if flag_option rule "strict_validation"
    then skip
    else extracted t rule path env (text_option rule "root_key" default_root_key) warn e p

-- Validated strictly, so that a failure is seen
unfoldable pub finish_content : Tools → Record → String → String → Prepared → Step Extracted
unfolding validate keep_content
finish_content t rule path env p =
    keep_content t rule path env p (validate t true (t.base_name path) p.flat)

-- What the rule and the push say of a file's environment
abbrev pub push_of : EtlContext → String → Push
push_of ctx path = record {
  branch = some ctx.branch;
  file_path = some path;
  pr_number = ctx.pr_number;
  tag = ctx.tag;
  branch_map = map_option ctx.rule_config "branch_map";
  file_path_map = map_option ctx.rule_config "file_path_map";
  branch_as_env = flag_option ctx.rule_config "branch_as_env";
  pr_as_env = flag_option ctx.rule_config "pr_as_env";
  tag_as_env = flag_option ctx.rule_config "tag_as_env";
}

-- One round of the loop, with the cache of pull requests
unfoldable pub etl_file : Tools → EtlContext → Cache → String × String → Cache × Step Extracted
unfolding prepare finish_file
etl_file t ctx cache (path, content) =
    let (cache', env) = resolve (push_of ctx path) cache in
    (
      cache',
      do
        p ← prepare t ctx.rule_config none path content env
        finish_file t ctx.rule_config path env p,
    )

abbrev pub add : String → Step Extracted → EtlResult → EtlResult
add path (next f) r = record r { files = f ∷ r.files }
add path skip r = record r { skipped = path ∷ r.skipped }
add path fail r = record r { errors = path ∷ r.errors }

abbrev pub no_files : EtlResult
no_files = record { files = []; skipped = []; errors = [] }

unfoldable pub etl_files : Tools → EtlContext → Cache → List (String × String) → Cache × EtlResult
unfolding etl_file
etl_files t ctx cache [] = (cache, no_files)
etl_files t ctx cache (f ∷ fs) =
    let (cache', step) = etl_file t ctx cache f in
    let (cache'', rest) = etl_files t ctx cache' fs in (cache'', add f.0 step rest)

-- `run_stage_etl`, of the files that `collect` gives, or its error
unfoldable pub run_stage_etl :
    Tools → EtlContext → Cache → Reply (List (String × String)) → Cache × Reply EtlResult
unfolding etl_files
run_stage_etl t ctx cache (raised e) = (cache, raised e)
run_stage_etl t ctx cache (done files) =
    let (cache', result) = etl_files t ctx cache files in (cache', done result)

-- `run_stage_etl_content`: file, content, format and environment
unfoldable pub run_stage_etl_content :
    Tools → EtlContext → String → String → String → String → EtlResult
unfolding prepare finish_content
run_stage_etl_content t ctx path content format env =
    add path
      (do
        p ← prepare t ctx.rule_config (some format) path content env
        finish_content t ctx.rule_config path env p)
      no_files
