-- ===== src/Rule/Getters.antt =====
-- app/pipeline/datasource_settings.py: how a setting of a sink is read from config.cue's datasource.
-- `null` stands for a value that comes out as None.
use var_track.Prelude.{
  Option, String, ◌<>◌, not, ◌&&◌, none, some, List, [], ◌∷◌, ◌==◌, string_eq, if◌then◌else◌,
}
use var_track.Prelude.Dict
use var_track.Prelude.Dict.{Dict, is_some, or_else}
use var_track.Prelude.Texts.{rstrip, strip_prefix}
use var_track.Value.{
  Value, null, bool, text, dict, Record, truthy, is_null, or_null, list_items, dict_fields, to_dict,
}

-- What stands outside: the files and the secret managers that hold credentials, `_seconds` (sums of
-- floats), `str.lower`, and `str` of a value that is no text.
pub record Conversions : Type 0 where
  -- path and key; `none` where it raises an OSError or a ValueError
  pub read_secret_file : Value → Value → Option String
  -- the secret manager and the SecretRef; `none` where it raises
  pub read_ref : String → Record → Option String
  pub seconds : Value → Value
  pub lower : String → String
  pub shown : Value → String

-- `str(v)`
unfoldable pub str : Conversions → Value → String
str c (text s) = s
str c v = c.shown v

-- `d.get(key)`
abbrev pub value_at : Record → String → Value
value_at d key = or_null (Dict.get d key)

-- "{kind}" or "{kind}-{tag}"
unfoldable pub full_name : Conversions → String → Record → String
unfolding truthy str
full_name c kind cfg =
    let tag = value_at cfg "tag" in if truthy tag then kind <> "-" <> str c tag else kind

-- What a getter takes beside the config: the resolver of credentials
abbrev pub Getter : Type 0
Getter = Conversions → (Value → Value) → Record → Value

abbrev field_as : String → (Conversions → Value → Value) → Getter
field_as name convert c secret cfg = elim (Dict.get cfg name) [ none ↦ null | some v ↦ convert c v ]

abbrev field_of : String → Getter
field_of name = field_as name (λ c v. v)

abbrev secret_field : String → Getter
secret_field name c secret cfg = elim (Dict.get cfg name) [ none ↦ null | some v ↦ secret v ]

abbrev seconds_field : String → Getter
seconds_field name = field_as name (λ c v. c.seconds v)

-- `lambda v: v or None`
abbrev set_field : String → Getter
unfolding truthy
set_field name = field_as name (λ c v. if truthy v then v else null)

abbrev negated : Conversions → Value → Value
unfolding truthy
negated c v = bool (not (truthy v))

-- `lambda v: None if v == unspecified else v`
abbrev specified : String → Conversions → Value → Value
specified unspecified c (text s) = if s == unspecified then null else text s
specified unspecified c v = v

abbrev upgrade_strategy : Conversions → Value → Value
unfolding str
upgrade_strategy c v = elim (specified "UPGRADE_STRATEGY_UNSPECIFIED" c v) [
  | null ↦ if is_null v then text (c.lower (str c v)) else null
  | w ↦ text (c.lower (str c w))
]

unfoldable mongo_uri : Getter
unfolding truthy str
mongo_uri c secret cfg =
    let endpoint = value_at cfg "endpoint" in
    let host = value_at cfg "host" in
    let user = value_at cfg "username" in
    let password = secret (value_at cfg "password") in
    let port = value_at cfg "port" in
    let creds =
      if truthy user && truthy password then str c user <> ":" <> str c password <> "@" else "" in
    if truthy endpoint
    then endpoint
    else if not (truthy host)
    then null
    else text (
        "mongodb://" <> creds <> str c host <> ":" <> (if truthy port then str c port else "27017"))

unfoldable linux_file_path : Getter
unfolding truthy str rstrip strip_prefix
linux_file_path c secret cfg = elim (list_items (value_at cfg "file_paths")) [
  | [] ↦ null
  | first ∷ others ↦
      let path = str c first in
      let base = value_at cfg "base_directory" in
      if truthy base && not (is_some (strip_prefix "/" path))
      then text (rstrip 47 (str c base) <> "/" <> path)
      else text path
]

unfoldable ssh_key_path : Getter
unfolding truthy
ssh_key_path c secret cfg = elim (value_at (dict_fields (value_at cfg "ssh_key")) "private_key") [
  | dict fs ↦
      let key = to_dict fs in
      if Dict.has key "file" && not (truthy (value_at key "key")) then value_at key "file" else null
  | v ↦ null
]

unfoldable pub mappings : Dict String (List (String × Getter))
unfolding mongo_uri linux_file_path ssh_key_path
mappings =
    (
      "mongo",
      ("mongo_uri", mongo_uri)
          ∷ ("database", field_of "database")
          ∷ ("collection", field_of "collection")
          ∷ ("env_as_collection", field_of "env_as_collection")
          ∷ ("update_strategy", field_of "update_strategy")
          ∷ ("mongo_tls", field_of "ssl")
          ∷ ("mongo_tls_ca_file", field_of "ssl_ca_path")
          ∷ ("mongo_tls_insecure", field_of "ssl_allow_invalid_certificates")
          ∷ [],
    )
    ∷ (
      "redis",
      ("redis_hosts", field_of "hosts")
          ∷ ("redis_db", field_of "database")
          ∷ ("redis_password", secret_field "password")
          ∷ (
            "redis_data_structure",
            field_as "data_structure" (specified "DATA_STRUCTURE_UNSPECIFIED"),
          )
          ∷ ("redis_hash_key", field_of "hash_key")
          ∷ ("redis_key_prefix", field_of "key_prefix")
          ∷ ("redis_ttl_seconds", seconds_field "ttl")
          ∷ ("update_strategy", field_of "update_strategy")
          ∷ [],
    )
    ∷ (
      "zookeeper",
      ("zk_hosts", field_of "hosts")
          ∷ ("zk_base_path", field_of "base_path")
          ∷ ("zk_username", field_of "username")
          ∷ ("zk_password", secret_field "password")
          ∷ ("zk_timeout_secs", seconds_field "session_timeout")
          ∷ ("update_strategy", field_of "update_strategy")
          ∷ [],
    )
    ∷ (
      "s3",
      ("s3_bucket", field_of "bucket")
          ∷ ("s3_region", field_of "region")
          ∷ ("s3_endpoint_url", set_field "endpoint")
          ∷ ("s3_access_key_id", secret_field "access_key_id")
          ∷ ("s3_secret_access_key", secret_field "secret_access_key")
          ∷ ("s3_key_prefix", field_of "prefix")
          ∷ ("s3_one_file_per_key", field_of "one_file_per_key")
          ∷ ("update_strategy", field_of "update_strategy")
          ∷ ("s3_session_token", secret_field "session_token")
          ∷ ("s3_sse", field_of "server_side_encryption")
          ∷ ("s3_kms_key_id", field_of "kms_key_id")
          ∷ ("s3_enable_versioning", field_of "enable_versioning")
          ∷ ("s3_force_path_style", field_of "force_path_style")
          ∷ ("s3_content_type", field_of "content_type")
          ∷ ("s3_file_pattern", field_of "file_pattern")
          ∷ ("s3_timeout_secs", seconds_field "timeout")
          ∷ ("s3_verify_ssl", field_of "verify_ssl")
          ∷ ("s3_ssl_ca_cert", field_of "ssl_ca_cert")
          ∷ [],
    )
    ∷ (
      "configmap",
      ("k8s_namespace", field_of "namespace")
          ∷ ("k8s_configmap_name", field_of "configmap_name")
          ∷ ("k8s_kubeconfig_path", field_of "kubeconfig_path")
          ∷ ("k8s_api_server", field_of "api_server")
          ∷ ("k8s_token", secret_field "token")
          ∷ ("k8s_verify_ssl", field_as "insecure_skip_verify" negated)
          ∷ ("env_as_namespace", field_of "env_as_namespace")
          ∷ ("env_as_name_suffix", field_of "env_as_name_suffix")
          ∷ [],
    )
    ∷ (
      "helm",
      ("helm_namespace", field_of "namespace")
          ∷ ("helm_release_name", field_of "release_name")
          ∷ ("helm_chart", field_of "chart_name")
          ∷ ("helm_chart_version", field_of "chart_version")
          ∷ ("helm_repo", field_of "chart_repo")
          ∷ ("helm_upgrade_strategy", field_as "upgrade_strategy" upgrade_strategy)
          ∷ ("helm_kubeconfig_path", field_of "kubeconfig_path")
          ∷ ("helm_context", field_of "context")
          ∷ ("helm_values_prefix", field_of "values_prefix")
          ∷ ("helm_wait", field_of "wait")
          ∷ ("helm_wait_timeout", field_of "wait_timeout")
          ∷ ("helm_force", field_of "force")
          ∷ ("helm_cleanup_on_fail", field_of "cleanup_on_fail")
          ∷ ("helm_atomic", field_of "atomic")
          ∷ ("helm_no_hooks", field_of "no_hooks")
          ∷ ("helm_max_history", field_of "max_history")
          ∷ [],
    )
    ∷ (
      "linux_server",
      ("ssh_host", field_of "host")
          ∷ ("ssh_port", field_of "port")
          ∷ ("ssh_user", field_of "username")
          ∷ ("ssh_password", secret_field "password")
          ∷ ("ssh_key_path", ssh_key_path)
          ∷ ("ssh_known_hosts_file", field_of "known_hosts_file")
          ∷ ("file_path", linux_file_path)
          ∷ ("env_as_dir", field_of "env_as_path")
          ∷ ("ssh_host_key_verification", set_field "host_key_verification")
          ∷ ("ssh_connect_timeout_secs", seconds_field "connection_timeout")
          ∷ ("ssh_command_timeout_secs", seconds_field "command_timeout")
          ∷ ("ssh_max_retries", field_of "max_retries")
          ∷ ("ssh_retry_backoff_secs", seconds_field "retry_backoff")
          ∷ ("ssh_compression", field_of "enable_compression")
          ∷ ("ssh_use_sftp", field_of "use_sftp")
          ∷ ("ssh_use_sudo", field_of "use_sudo")
          ∷ ("ssh_sudo_password", secret_field "sudo_password")
          ∷ ("file_mode", set_field "file_mode")
          ∷ ("file_owner", field_of "file_owner")
          ∷ ("create_directories", field_of "create_directories")
          ∷ ("backup_before_write", field_of "backup_before_write")
          ∷ ("backup_suffix", set_field "backup_suffix")
          ∷ ("validation_command", field_of "validation_command")
          ∷ ("rollback_on_validation_fail", field_of "rollback_on_validation_fail")
          ∷ ("post_write_commands", field_of "post_write_commands")
          ∷ ("continue_on_command_error", field_of "continue_on_command_error")
          ∷ [],
    )
    ∷ (
      "vercel",
      ("vercel_token", secret_field "token")
          ∷ ("vercel_project_id", field_of "project_id")
          ∷ ("vercel_team_id", field_of "team_id")
          ∷ ("vercel_targets", field_of "targets")
          ∷ ("vercel_api_url", field_of "api_url")
          ∷ [],
    )
    ∷ []
