-- ===== src/Secrets.antt =====
-- app/pipeline/secret_resolver.py: the fields of a file that a schema marks with @secret, and the values
-- that a secret manager has for them. What is read out of a schema's text, and the calls of Vault, are
-- parameters.
use var_track.Prelude.{
  ℕ, String, ◌<>◌, Bool, true, false, not, ◌&&◌, ◌||◌, Option, none, some, List, [], ◌∷◌, ◌==◌,
  string_eq, nat_eq, if◌then◌else◌, is_empty, any, ◌>>=◌,
}
use var_track.Prelude.Dict
use var_track.Prelude.Dict.{Dict, or_else}
use var_track.Prelude.Texts.{codes, cut, lstrip, rstrip, strip_prefix, strip_suffix}
use var_track.Value.{
  Value, null, bool, num, text, dict, Record, truthy, or_null, list_items, dict_fields, to_dict,
}
use var_track.Sink.{Reply, done, raised}
use var_track.Rule.Getters.{Conversions, str, value_at}
use var_track.Rule.PresetNames.{lstrip_spaces, rstrip_spaces}
pub mod Resolving

-- A secret manager in the form of the module, whose type is always "vault".
pub record Manager : Type 0 where
  pub vault_addr : Value
  pub mount_point : Value
  pub path_prefix : Value
  pub kv_version : ℕ
  pub namespace : Value
  pub auth : Value
  pub verify_ssl : Bool
  pub ssl_ca : Value
  pub timeout : ℕ

-- What stands outside: the auth block of a manager and its whole numbers, which may raise; `_seconds` with
-- its default of 10; the value of a secret; and `str.isspace` of a character.
pub record Vault : Type 0 where
  pub conversions : Conversions
  pub auth_of : Record → String → Reply Value
  pub to_int : Value → Reply ℕ
  pub seconds : Value → ℕ
  -- `_fetch_from_sm`: manager, path and key
  pub fetch : Manager → Value → String → Reply String
  pub is_space : ℕ → Bool

-- The fields that a schema marks, each with the name of its manager, if it has one
abbrev pub SecretFields : Type 0
SecretFields = Dict String (Option String)

abbrev pub Managers : Type 0
Managers = Dict String Manager

-- `a or b`
abbrev pub or_value : Value → Value → Value
unfolding truthy
or_value a b = if truthy a then a else b

module _ (v : Vault) where
  -- `text.strip()`
  unfoldable pub strip : String → String
  unfolding lstrip_spaces rstrip_spaces
  strip s = lstrip_spaces v.is_space (rstrip_spaces v.is_space s)

  -- `[^#()]+`
  abbrev pub plain : String → Bool
  plain s = not (s == "") && not (any (λ n. (n == 35) || ((n == 40) || (n == 41))) (codes s))

  -- `_VALUE_REF_RE`: the path and the key of an "@secret(path#key)"
  unfoldable pub value_ref : String → Option (String × String)
  unfolding strip strip_prefix strip_suffix cut
  value_ref s = do
    inner ← strip_prefix "@secret(" (strip s)
    (path, key) ← if strip_suffix ")" inner == inner then none else cut "#" (strip_suffix ")" inner)
    if plain path && plain key then some (path, key) else none

  -- `.strip("/")`
  abbrev pub strip_slashes : String → String
  unfolding lstrip rstrip
  strip_slashes s = lstrip 47 (rstrip 47 s)

  -- The path under the manager's mount point
  abbrev pub under_mount : Manager → String → String
  unfolding strip_prefix str
  under_mount m path =
      or_else
        (strip_prefix
          (strip_slashes (str v.conversions (or_value m.mount_point (text "secret"))) <> "/") path)
        path

  -- `_secret_location`
  unfoldable pub secret_location : String → String → Manager → Value × String
  unfolding value_ref strip
  secret_location value field m = elim (value_ref value) [
    | none ↦ (m.path_prefix, field)
    | some (path, key) ↦ (text (under_mount m (strip_slashes (strip path))), strip key)
  ]

  -- What a field's value becomes: a fetch that raises leaves it
  abbrev pub fetched : String → Reply String → String
  fetched old (done new) = new
  fetched old (raised e) = old

  -- The name of a field's manager
  abbrev pub manager_name : Option String → String
  manager_name none = "default"
  manager_name (some ref) = if ref == "" then "default" else ref

  -- One round of the loop of `resolve_secrets`
  unfoldable pub resolve_field :
      Managers → String → Option String → Dict String String → Dict String String
  unfolding secret_location
  resolve_field managers field ref result = elim (Dict.get result field) [
    | none ↦ result
    | some value ↦ elim (Dict.get managers (manager_name ref)) [
      | none ↦ result
      | some m ↦
          let (path, key) = secret_location value field m in
          Dict.put result field (fetched value (v.fetch m path key))
    ]
  ]

  unfoldable pub resolve_secrets : Managers → SecretFields → Dict String String → Dict String String
  resolve_secrets managers [] result = result
  resolve_secrets managers ((field, ref) ∷ fields) result =
      resolve_secrets managers fields (resolve_field managers field ref result)

  -- One entry of the bundle's secret_managers: the managers by name, and all of them in order
  abbrev pub Found : Type 0
  Found = Managers × List Manager

  abbrev pub add_manager : Found → Record → String → Value → Reply ℕ → Reply Found
  unfolding truthy str
  add_manager found cfg name auth (raised e) = raised e
  add_manager (out, entries) cfg name auth (done kv_version) =
      let tag = str v.conversions (or_value (value_at cfg "tag") (text "")) in
      let m : Manager = record {
        vault_addr = or_else (Dict.get cfg "endpoint") (text "");
        mount_point = or_value (value_at cfg "mount_point") (text "secret");
        path_prefix = or_value (value_at cfg "path_prefix") (text "");
        kv_version = kv_version;
        namespace = or_value (value_at cfg "namespace") null;
        auth = auth;
        verify_ssl = elim (Dict.get cfg "verify_ssl") [ some (bool b) ↦ b | _ ↦ true ];
        ssl_ca = or_value (value_at cfg "ssl_ca") null;
        timeout = v.seconds (value_at cfg "timeout");
      } in
      let named = Dict.put out name m in
      done (if tag == "" then named else Dict.put named tag m, m ∷ entries)

  abbrev pub with_auth : Found → Record → String → Reply Value → Reply Found
  unfolding truthy
  with_auth found cfg name (raised e) = done found
  with_auth found cfg name (done auth) =
      let version = value_at cfg "kv_version" in
      add_manager found cfg name auth (if truthy version then v.to_int version else done 2)

  unfoldable pub manager_entry : Found → String → Value → Reply Found
  unfolding truthy str
  manager_entry found kind (dict fs) =
      let cfg = to_dict fs in
      let tag = str v.conversions (or_value (value_at cfg "tag") (text "")) in
      let name = if tag == "" then "vault" else "vault-" <> tag in
      if kind == "vault" then with_auth found cfg name (v.auth_of cfg name) else done found
  manager_entry found kind _ = done found

  unfoldable pub manager_entries : Record → Found → Reply Found
  manager_entries [] found = done found
  manager_entries ((kind, cfg) ∷ wrapper) found = elim (manager_entry found kind cfg) [
    | raised e ↦ raised e
    | done found' ↦ manager_entries wrapper found'
  ]

  unfoldable pub manager_wrappers : List Value → Found → Reply Found
  manager_wrappers [] found = done found
  manager_wrappers (w ∷ ws) found = elim (manager_entries (dict_fields w) found) [
    | raised e ↦ raised e
    | done found' ↦ manager_wrappers ws found'
  ]

  -- A manager that is alone is the default one.
  abbrev pub with_default : Found → Managers
  with_default (out, m ∷ []) = if Dict.has out "default" then out else Dict.put out "default" m
  with_default (out, entries) = out

  unfoldable pub secret_managers_from_bundle : Record → Reply Managers
  unfolding manager_wrappers
  secret_managers_from_bundle bundle =
      elim (manager_wrappers (list_items (value_at bundle "secret_managers")) ([], [])) [
        | raised e ↦ raised e
        | done found ↦ done (with_default found)
      ]

  -- The rule's own manager as the default one
  abbrev pub choose : Record → Managers → Managers
  unfolding str truthy
  choose rule from_cue =
      let chosen = str v.conversions (or_value (value_at rule "secret_manager") (text "")) in
      elim (Dict.get from_cue chosen) [
        | none ↦ from_cue
        | some m ↦ if chosen == "" then from_cue else Dict.put from_cue "default" m
      ]

  unfoldable pub effective_secrets : Record → Record → Reply Managers
  unfolding secret_managers_from_bundle
  effective_secrets bundle rule = elim (secret_managers_from_bundle bundle) [
    | raised e ↦ raised e
    | done from_cue ↦ done (choose rule from_cue)
  ]

-- `mask_secrets`
unfoldable pub mask_secrets : SecretFields → Dict String String → Dict String String
mask_secrets [] result = result
mask_secrets ((field, ref) ∷ fields) result =
    mask_secrets fields (if Dict.has result field then Dict.put result field "***" else result)
