-- ===== src/Tests/Extracting.antt =====
-- The ETL stage on a file with a secret, and the theorems on it.
use mathlib.Core.List.{Perm}
use var_track.Prelude.{
  String, ◌≡◌, refl, true, none, some, List, [], ◌∷◌, ◌==◌, string_eq, nat_eq, option_eq, map,
  if◌then◌else◌, All,
}
use var_track.Prelude.Order.{text_ltb}
use var_track.Prelude.Dict
use var_track.Prelude.Dict.{Dict}
use var_track.Prelude.Texts.{cut, strip_prefix, strip_suffix, show}
use var_track.Value.{
  Value, null, bool, text, list, dict, no_item, item, no_field, field, Record, truthy, to_dict,
  of_dict, to_list, is_dict,
}
use var_track.Sink.{done, raised}
use var_track.Env.Cache.{Cache}
use var_track.Env.Resolver.{resolve, via_maps, via_tag}
use var_track.Env.Slice.{resolve_env_slice, slice}
use var_track.Transform.Shape.{file_shape}
use var_track.Transform.{
  transform, flatten, py_flatten, flatten_loop, push_fields, push_items, below, leaf, nodes,
  overlay,
}
use var_track.Rule.Getters.{str}
use var_track.Rule.PresetNames.{lstrip_spaces, rstrip_spaces}
use var_track.Secrets.{
  Vault, Manager, Managers, resolve_secrets, resolve_field, mask_secrets, secret_location,
  value_ref, strip, effective_secrets, secret_managers_from_bundle, manager_wrappers,
  manager_entries, manager_entry,
}
use var_track.Etl.{
  Tools, Schema, EtlContext, EtlResult, valid, run_stage_etl, run_stage_etl_content, etl_files,
  etl_file, prepare, prepare_flat, put_secrets, transform_part, extract_root, finish_file,
  keep_file, validate, find_schema, sorted_by_key, insert_pair, push_of,
}
use var_track.Etl.Strictness.{
  run_stage_etl-IsValid, run_stage_etl-valid, etl_files-run_stage_etl_content, SameCore,
}
use var_track.Etl.Masking.{IsMasked, run_stage_etl-IsMasked}
use var_track.Etl.Accounting.{Perm-run_stage_etl, paths}

abbrev pub vault : Vault
vault = record {
  conversions = record {
    read_secret_file = λ path key. none;
    read_ref = λ name ref. none;
    seconds = λ v. v;
    lower = λ s. s;
    shown = λ v. "";
  };
  auth_of = λ cfg name. done null;
  to_int = λ v. done 2;
  seconds = λ v. 10;
  fetch = λ m path key. done "hunter2";
  is_space = λ n. n == 32;
}

-- config.cue with one secret manager
abbrev bundle : Record
bundle =
    (
      "secret_managers",
      list (
          item
            (dict
              (field "vault" (dict (field "endpoint" (text "https://vault") no_field)) no_field))
            no_item),
    )
    ∷ []

abbrev schema : Schema
schema = record { secret_fields = ("password", none) ∷ []; logger_fields = [] }

-- {"vartrack": {"host": "x", "password": ""}}
abbrev document : Value
document = dict (
    field "vartrack" (dict (field "password" (text "") (field "host" (text "x") no_field)))
      no_field)

-- A file "b.json" cannot be parsed; cue has nothing against a host.
abbrev pub tools : Tools
tools = record {
  parse = λ format content path. if path == "b.json" then raised "no JSON" else done document;
  can_dump = λ v. true;
  rust = λ v. none;
  base_name = λ path. path;
  schema_dir = some (λ name. if name == "default.cue" then some schema else none);
  has_cue = true;
  run_cue_vet = λ flat s name. if Dict.get flat "host" == some "x" then none else some "no host";
  vault = vault;
  bundle = bundle;
}

abbrev context_of : Record → EtlContext
context_of rule = record { branch = "main"; tag = none; pr_number = none; rule_config = rule }

abbrev pub cache : Cache
cache = []

abbrev collected : List (String × String)
collected = ("a.json", "{}") ∷ ("b.json", "{") ∷ []

-- A dry run's rule, and one that validates strictly
abbrev dry : EtlContext
dry = context_of (("dry_run", bool true) ∷ [])

abbrev strict : EtlContext
strict = context_of (("strict_validation", bool true) ∷ [])

abbrev result_for : EtlContext → EtlResult
result_for ctx = (etl_files tools ctx cache collected).1

abbrev manager : Manager
manager = record {
  vault_addr = text "https://vault";
  mount_point = text "secret";
  path_prefix = text "";
  kv_version = 2;
  namespace = null;
  auth = null;
  verify_ssl = true;
  ssl_ca = null;
  timeout = 10;
}

abbrev managers : Managers
managers = ("vault", manager) ∷ ("default", manager) ∷ []

found : effective_secrets vault bundle dry.rule_config ≡ done managers
unfolding effective_secrets secret_managers_from_bundle manager_wrappers manager_entries
    manager_entry str truthy to_dict Dict.get Dict.put string_eq to_list
found = refl

masked :
    (map (λ f. f.file.flat_data) (result_for dry).files
      ≡ (("host", "x") ∷ ("password", "***") ∷ []) ∷ [])
    × ((result_for dry).errors ≡ "b.json" ∷ [])
unfolding etl_files etl_file prepare prepare_flat put_secrets transform_part extract_root
    finish_file keep_file validate find_schema sorted_by_key insert_pair text_ltb resolve via_maps
    resolve_env_slice slice transform flatten py_flatten flatten_loop push_fields push_items below
    leaf nodes overlay effective_secrets secret_managers_from_bundle manager_wrappers
    manager_entries manager_entry resolve_secrets resolve_field mask_secrets secret_location
    value_ref strip lstrip_spaces rstrip_spaces strip_prefix cut strip_suffix str truthy to_dict
    of_dict Dict.get Dict.put Dict.update string_eq nat_eq option_eq show via_tag is_dict to_list
    file_shape
masked = (refl, refl)

run_stage_etl-IsMasked_example :
    All (λ f. IsMasked f.secret_fields f.file.flat_data) (result_for dry).files
unfolding run_stage_etl truthy Dict.get string_eq
run_stage_etl-IsMasked_example =
    run_stage_etl-IsMasked tools dry cache (done collected) (result_for dry) managers found refl
      refl refl

run_stage_etl-IsValid_example :
    All
      (λ f. validate tools true f.file.file_path f.file.flat_data ≡ none)
      (result_for strict).files
unfolding run_stage_etl truthy Dict.get string_eq
run_stage_etl-IsValid_example =
    run_stage_etl-IsValid tools strict cache (done collected) (result_for strict) refl refl

run_stage_etl-valid_example : All (λ f. f.validation ≡ valid) (result_for dry).files
unfolding run_stage_etl
run_stage_etl-valid_example =
    run_stage_etl-valid tools dry cache (done collected) (result_for dry) refl

etl_files-run_stage_etl_content_example :
    SameCore tools dry.rule_config (etl_files tools dry cache (("a.json", "{}") ∷ [])).1 (
      run_stage_etl_content tools dry "a.json" "{}" "json" (resolve (push_of dry "a.json") cache).1)
etl_files-run_stage_etl_content_example =
    etl_files-run_stage_etl_content tools dry cache "a.json" "{}" "json" refl

Perm-run_stage_etl_example : Perm (paths (result_for dry)) ("a.json" ∷ "b.json" ∷ [])
unfolding run_stage_etl
Perm-run_stage_etl_example = Perm-run_stage_etl tools dry cache collected (result_for dry) refl
