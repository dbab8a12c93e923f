-- ===== src/Rule/PresetNames.antt =====
-- app/pipeline/presets.py: the names of presets, and the servers they are on. The regular expression is
-- written out: at each of its groups the next character alone decides. What Unicode says of a character
-- is a parameter.
use var_track.Prelude.{
  ℕ, String, ◌<>◌, Bool, ◌&&◌, ◌||◌, Option, none, some, ◌==◌, nat_eq, string_eq, if◌then◌else◌,
  ◌>>=◌,
}
use Prim.Native.Char.{code}
use var_track.Prelude.Dict.{or_else}
use var_track.Prelude.Texts.{cut, strip_prefix, strip_suffix, rstrip, lstrip}

pub record Unicode : Type 0 where
  pub is_word : ℕ → Bool
  pub is_space : ℕ → Bool

pub record Preset : Type 0 where
  pub source : String
  pub repo : String
  pub file : String
  pub ref : String

-- The Git server of the file that names presets
pub record Origin : Type 0 where
  pub base_url : String
  pub token : Option String

-- What stands after the last `@`, if there is one
unfoldable pub after_at : String → Option String
after_at String.[] = none
after_at (String.◌∷◌ c s) = elim (after_at s) [
  | some rest ↦ some rest
  | none ↦ if code c == 64 then some s else none
]

-- `Origin.of`; `urlparse` gives the scheme and the netloc
unfoldable pub origin_of : (String → String × String) → String → Option String → Origin
unfolding after_at
origin_of urlparse repo_url token =
    let (scheme, netloc) = urlparse repo_url in
    record { base_url = scheme <> "://" <> or_else (after_at netloc) netloc; token = token }

-- The longest beginning of characters that pass, and the rest
unfoldable pub span : (ℕ → Bool) → String → String × String
span p String.[] = ("", "")
span p (String.◌∷◌ c s) =
    let (run, rest) = span p s in
    if p (code c) then (String.◌∷◌ c run, rest) else ("", String.◌∷◌ c s)

-- The same, of at least one character
unfoldable pub some_run : (ℕ → Bool) → String → Option (String × String)
unfolding span
some_run p s = let (run, rest) = span p s in if run == "" then none else some (run, rest)

unfoldable pub lstrip_spaces : (ℕ → Bool) → String → String
lstrip_spaces p String.[] = ""
lstrip_spaces p (String.◌∷◌ c s) =
    let rest = lstrip_spaces p s in if p (code c) then rest else String.◌∷◌ c s

unfoldable pub rstrip_spaces : (ℕ → Bool) → String → String
rstrip_spaces p String.[] = ""
rstrip_spaces p (String.◌∷◌ c s) =
    let rest = rstrip_spaces p s in if p (code c) && (rest == "") then "" else String.◌∷◌ c rest

abbrev with_json : String → String
unfolding strip_suffix
with_json file = if strip_suffix ".json" file == file then file <> ".json" else file

module _ (u : Unicode) where
  -- `[\w.-]` and `[\w./-]`
  abbrev pub in_name : ℕ → Bool
  in_name n = u.is_word n || ((n == 46) || (n == 45))

  abbrev pub in_path : ℕ → Bool
  in_path n = in_name n || (n == 47)

  -- The whole of a text, when it is one run
  abbrev whole : (ℕ → Bool) → String → Option String
  unfolding some_run
  whole p s = do (run, rest) ← some_run p s; if rest == "" then some run else none

  -- `(?:(?P<source>[\w.-]+)>)?`
  abbrev pub source_part : String → Option (String × String)
  unfolding cut some_run
  source_part s = elim (cut ">" s) [
    | none ↦ some ("", s)
    | some (before, after) ↦ do source ← whole in_name before; some (source, after)
  ]

  -- `(?P<repo>[\w.-]+/[\w.-]+)`
  abbrev pub repo_part : String → Option (String × String)
  unfolding strip_prefix some_run
  repo_part s = do
    (org, after) ← some_run in_name s
    second ← strip_prefix "/" after
    (name, rest) ← some_run in_name second
    some (org <> "/" <> name, rest)

  -- `:name`, `//path`, or neither: the file and the rest
  abbrev pub file_part : String → Option (String × String)
  unfolding strip_prefix some_run rstrip lstrip
  file_part s = elim (strip_prefix "//" s) [
    | some after ↦ do (path, rest) ← some_run in_path after; some (lstrip 47 (rstrip 47 path), rest)
    | none ↦ elim (strip_prefix ":" s) [
      | some after ↦ some_run in_name after
      | none ↦ some ("default", s)
    ]
  ]

  -- `(?:#(?P<ref>[\w./-]+))?$`
  abbrev pub ref_part : String → Option String
  unfolding strip_prefix some_run
  ref_part s =
      if s == ""
      then some "main"
      else elim (strip_prefix "#" s) [ none ↦ none | some after ↦ whole in_path after ]

  -- `none` where it raises a PresetError
  unfoldable pub parse_preset : String → Option Preset
  unfolding lstrip_spaces rstrip_spaces source_part repo_part file_part ref_part with_json
  parse_preset name = do
    (source, after_source) ← source_part (lstrip_spaces u.is_space (rstrip_spaces u.is_space name))
    (repo, after_repo) ← repo_part after_source
    (file, after_file) ← file_part after_repo
    ref ← ref_part after_file
    some (record { source = source; repo = repo; file = with_json file; ref = ref })
