-- ===== src/Env/Slice.antt =====
-- app/pipeline/env_slice.py: the part of a parsed file that is for one environment.
use var_track.Prelude.{
  String, Bool, false, not, ◌&&◌, ◌||◌, Option, none, some, [], ◌∷◌, any, all, keep, is_empty, ◌==◌,
  string_eq, if◌then◌else◌,
}
use var_track.Prelude.Dict
use var_track.Prelude.Dict.{Dict, or_else}
use var_track.Value.{Value, null, dict, Record, is_dict, to_dict, of_dict}

-- The patterns of the module's comment.
pub data Pattern : Type 0 where
  pattern_1 pattern_2 pattern_3 no_pattern : Pattern

-- `env in d or "default" in d`
abbrev pub names_env : Record → String → Bool
names_env d env = Dict.has d env || Dict.has d "default"

-- A value that has a key for the environment, or for "default".
abbrev pub is_keyed : String → Value → Bool
is_keyed env (dict fs) = names_env (to_dict fs) env
is_keyed env _ = false

-- `dict(d.get(key, {}))`, where the value is a dict if it is there
abbrev pub section : Record → String → Record
section d key = elim (Dict.get d key) [ some (dict fs) ↦ to_dict fs | _ ↦ [] ]

-- `value.get(env, value.get("default"))`
abbrev pub for_env : String → Value → Value
for_env env (dict fs) =
    or_else (Dict.get (to_dict fs) env) (or_else (Dict.get (to_dict fs) "default") null)
for_env env v = v

unfoldable pub pattern_2_values : String → Record → Record
pattern_2_values env [] = []
pattern_2_values env ((k, v) ∷ d) =
    (k, if is_keyed env v then for_env env v else v) ∷ pattern_2_values env d

abbrev pub scalars : Record → Record
scalars = keep (λ e. not (is_dict e.1))

abbrev pub env_dicts : Record → Record
env_dicts = keep (λ e. is_dict e.1)

abbrev pub all_dicts : Record → Bool
all_dicts = all (λ e. is_dict e.1)

unfoldable pub detect_record : Record → String → Pattern
detect_record d env =
    if all_dicts d && names_env d env
    then pattern_1
    else if any (λ e. is_keyed env e.1) d
    then pattern_2
    else if not (is_empty (env_dicts d))
        && (not (is_empty (scalars d)) && names_env (env_dicts d) env)
    then pattern_3
    else no_pattern

-- `None` where no pattern matches, and the data comes back as it is.
unfoldable pub slice : Record → String → Option Record
unfolding pattern_2_values
slice d env =
    if all_dicts d && names_env d env
    then some (Dict.update (section d "default") (section d env))
    else if any (λ e. is_keyed env e.1) d
    then some (pattern_2_values env d)
    else if not (is_empty (env_dicts d))
        && (not (is_empty (scalars d)) && names_env (env_dicts d) env)
    then some (
        Dict.update (Dict.update (scalars d) (section (env_dicts d) "default"))
          (section (env_dicts d) env))
    else none

abbrev pub sliced : Value → Option Record → Value
sliced v none = v
sliced v (some d) = dict (of_dict d)

unfoldable pub resolve_env_slice : Value → String → Value
resolve_env_slice (dict fs) env =
    if env == "" then dict fs else sliced (dict fs) (slice (to_dict fs) env)
resolve_env_slice v env = v

unfoldable pub detect_pattern : Value → String → Pattern
detect_pattern (dict fs) env = if env == "" then no_pattern else detect_record (to_dict fs) env
detect_pattern v env = no_pattern
