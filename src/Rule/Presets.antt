-- ===== src/Rule/Presets.antt =====
-- app/pipeline/presets.py: presets, resolved into the layer that extends them.
use var_track.Prelude.{
  ℕ, zero, suc, String, ◌<>◌, Bool, false, not, ◌&&◌, ◌||◌, Option, none, some, List, [], ◌∷◌, ◌++◌,
  contains, ◌==◌, string_eq, Eq, if◌then◌else◌,
}
use var_track.Prelude.Dict
use var_track.Prelude.Dict.{Dict, is_some, or_else}
use var_track.Prelude.Texts.{strip_prefix}
use var_track.Value.{Value, text, list, dict, Record, truthy, list_items, to_dict, to_list, of_list}
use var_track.Rule.{RuleOptions}
use var_track.Rule.Getters.{Conversions, value_at}
use var_track.Rule.Settings.{find_wrapped}
use var_track.Rule.Layers.{merge_child, can_merge, endpoint_of}
use var_track.Rule.Secrets.{secret_of}
use var_track.Rule.PresetNames.{Unicode, Preset, Origin, parse_preset}

-- What a call can raise. The texts of the messages are left out.
pub data Fault : Type 0 where
  preset_error repo_config_error recursion_error type_error other_error : Fault

pub data Outcome {ℓ} (R : Type ℓ) : Type ℓ where
  fault : Fault → Outcome R
  ok : R → Outcome R

infixl 5 ◌>>=◌
abbrev pub ◌>>=◌ {ℓ κ} : {R : Type ℓ} {S : Type κ} → Outcome R → (R → Outcome S) → Outcome S
fault stop >>= next = fault stop
ok value >>= next = next value

-- `merge_child`, which raises where patterns cannot be hashed
unfoldable pub merge_or_raise : RuleOptions → Record → Record → Outcome Record
unfolding merge_child can_merge
merge_or_raise o parent child =
    if can_merge o parent child then ok (merge_child o parent child) else fault type_error

-- A call that gives None where it cannot go on
abbrev pub or_fault {ℓ} : {A : Type ℓ} → Fault → Option A → Outcome A
or_fault e none = fault e
or_fault e (some a) = ok a

-- What stands outside: the characters, git, the JSON parser, and the conversions of config.cue's values.
pub record Outside : Type 0 where
  pub unicode : Unicode
  pub conversions : Conversions
  -- repository, ref, path, token and revision
  pub extract_file :
      String → String → String → Option String → Option String → Outcome (Option String)
  pub loads : String → Option Value
  pub urlparse : String → String × String

-- Where a preset file is: (url, ref, file)
pub record FileId : Type 0 where
  pub url : String
  pub ref : String
  pub file : String

FileId-discrete : Discrete FileId
unfolding string_eq
FileId-discrete = hlevel (string_eq.dec)

instance unfoldable pub file_eq : Eq FileId
unfolding FileId-discrete
file_eq = record { dec = FileId-discrete }

abbrev pub PresetCache : Type 0
PresetCache = Dict FileId Record

abbrev pub token_of : Value → Option String
token_of (text s) = some s
token_of v = none

-- The settings beside "extends"
abbrev pub own : Record → Record
own config = Dict.keep_keys (λ k. not (k == "extends")) config

-- The presets that a config names
abbrev pub names_in : Value → Outcome (List Value)
names_in (text s) = ok (text s ∷ [])
names_in (list vs) = ok (to_list vs)
names_in v = fault preset_error

unfoldable pub extends_of : Record → Outcome (List Value)
unfolding truthy to_list
extends_of config = let v = value_at config "extends" in if truthy v then names_in v else ok []

-- A preset already in the chain is skipped.
abbrev pub in_chain : List String → Value → Bool
in_chain chain (text name) = contains chain name
in_chain chain v = false

unfoldable pub as_settings : Option Value → Outcome Record
unfolding to_dict
as_settings (some (dict fs)) = ok (Dict.pop (to_dict fs) "description")
as_settings v = fault preset_error

module _ (w : Outside) (o : RuleOptions) (bundle : Record) where
  -- `_git_fetch`
  unfoldable pub git_fetch : String → String → String → Option String → Outcome (Option String)
  unfolding strip_prefix
  git_fetch repo_url ref path token =
      let is_full = is_some (strip_prefix "refs/" ref) in
      let full_ref = if is_full then ref else "refs/heads/" <> ref in
      do
        content ← w.extract_file repo_url full_ref path token none
        (if not (is_some content) && not is_full
            then w.extract_file repo_url ("refs/tags/" <> ref) path token none
            else ok content)

  abbrev pub platform_token : Record → Option String
  unfolding truthy secret_of
  platform_token cfg =
      let given = value_at cfg "token" in
      if truthy given then token_of (secret_of w.conversions bundle "" given) else none

  -- `_platform`: the server of a platform of config.cue
  unfoldable pub platform : String → Outcome Origin
  unfolding find_wrapped endpoint_of platform_token
  platform name = do
    (kind, cfg) ←
        or_fault preset_error
          (find_wrapped w.conversions name (list_items (value_at bundle "platforms")))
    ok (record { base_url = endpoint_of w.conversions kind cfg; token = platform_token cfg })

  unfoldable pub server_of : Preset → Origin → Outcome Origin
  unfolding platform
  server_of preset origin =
      if (preset.source == "") || (preset.source == "local")
      then ok origin
      else platform preset.source

  abbrev pub file_id : Preset → Origin → FileId
  file_id preset server = record {
    url = server.base_url <> "/" <> preset.repo <> ".git";
    ref = preset.ref;
    file = preset.file;
  }

  -- The file's settings, without its description
  unfoldable pub read_preset : Option String → Outcome Record
  unfolding as_settings
  read_preset none = fault preset_error
  read_preset (some content) = as_settings (w.loads content)

  unfoldable pub kept_or_read :
      FileId → Option String → PresetCache → Option Record → Outcome (Record × PresetCache)
  unfolding git_fetch read_preset
  kept_or_read id token cache (some settings) = ok (settings, cache)
  kept_or_read id token cache none = do
    settings ← (git_fetch id.url id.ref id.file token >>= read_preset)
    ok (settings, Dict.put cache id settings)

  -- A file that is in the cache is not fetched again.
  abbrev pub cached : FileId → Option String → PresetCache → Outcome (Record × PresetCache)
  unfolding kept_or_read
  cached id token cache = kept_or_read id token cache (Dict.get cache id)

  -- `_load`: the preset, the server that it is on, and the cache
  unfoldable pub load : String → Origin → PresetCache → Outcome (Record × Origin × PresetCache)
  unfolding parse_preset server_of cached
  load name origin cache = do
    preset ← or_fault preset_error (parse_preset w.unicode name)
    server ← server_of preset origin
    (settings, next) ← cached (file_id preset server) server.token cache
    ok (settings, server, next)

  abbrev pub Resolve : Type 0
  Resolve = Record → List String → Origin → PresetCache → Outcome (Record × PresetCache)

  -- The loop over the presets of a config. `str` of a name that is no text is no name of a preset.
  unfoldable pub merge_presets :
      Resolve
      → List Value
      → List String
      → Origin
      → Record
      → PresetCache
      → Outcome (Record × PresetCache)
  unfolding load merge_or_raise
  merge_presets resolve_presets [] chain origin so_far cache = ok (so_far, cache)
  merge_presets resolve_presets (text name ∷ names) chain origin so_far cache =
      let rest = merge_presets resolve_presets names chain origin in
      if contains chain name then rest so_far cache else do
        (preset, server, loaded) ← load name origin cache
        (settings, next) ← resolve_presets preset (chain ++ name ∷ []) server loaded
        both ← merge_or_raise o so_far settings
        rest both next
  merge_presets resolve_presets (v ∷ names) chain origin so_far cache = fault preset_error

  -- `Resolver.resolve`, in calls at most as deep as the number
  unfoldable pub resolve_presets : ℕ → Resolve
  unfolding extends_of merge_presets merge_or_raise
  resolve_presets zero config chain origin cache = fault recursion_error
  resolve_presets (suc n) config chain origin cache = do
    names ← extends_of config
    (so_far, next) ← merge_presets (resolve_presets n) names chain origin [] cache
    settings ← merge_or_raise o so_far (own config)
    ok (settings, next)

  -- `_as_list`
  abbrev as_list : Value → List Value
  unfolding truthy to_list
  as_list (list vs) = to_list vs
  as_list v = if truthy v then v ∷ [] else []

  -- The rules of the file, with the presets of the file's own "extends" before the rule's
  unfoldable pub resolve_rules :
      ℕ → List Value → List Value → Option Origin → PresetCache → Outcome (List Record)
  unfolding resolve_presets as_list to_dict of_list
  resolve_rules n top [] origin cache = ok []
  resolve_rules n top (dict fs ∷ rules) origin cache =
      let rule = to_dict fs in
      let wanted = top ++ as_list (value_at rule "extends") in
      elim wanted [
        | [] ↦ do rest ← resolve_rules n top rules origin cache; ok (rule ∷ rest)
        | name ∷ others ↦ elim origin [
          | none ↦ fault preset_error
          | some server ↦ do
            (resolved, next) ←
                resolve_presets n (Dict.put rule "extends" (list (of_list (name ∷ others)))) []
                  server cache
            rest ← resolve_rules n top rules (some server) next
            ok (resolved ∷ rest)
        ]
      ]
  resolve_rules n top (v ∷ rules) origin cache = resolve_rules n top rules origin cache

  unfoldable pub resolve_bundle_rules : ℕ → Value → Option Origin → Outcome (List Record)
  unfolding resolve_rules as_list to_dict to_list
  resolve_bundle_rules n (list rules) origin = resolve_rules n [] (to_list rules) origin []
  resolve_bundle_rules n (dict fs) origin =
      let whole = to_dict fs in
      resolve_rules n (as_list (value_at whole "extends")) (list_items (value_at whole "rules"))
        origin []
  resolve_bundle_rules n v origin = fault preset_error
