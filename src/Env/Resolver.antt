-- ===== src/Env/Resolver.antt =====
-- app/pipeline/env_resolver.py: the environment of a file, from the push and the rule.
use var_track.Prelude.{
  String, Bool, true, false, Option, none, some, ◌<>◌, ◌==◌, string_eq, if◌then◌else◌,
}
use var_track.Prelude.Texts.{strip_prefix}
use var_track.Prelude.Dict
use var_track.Prelude.Dict.{Dict, or_else}
use var_track.Env.Cache.{Cache, lookup}

-- The arguments of `resolve`. A map that is None is an empty one.
pub record Push : Type 0 where
  pub branch : Option String
  pub file_path : Option String
  pub pr_number : Option String
  pub tag : Option String
  pub branch_map : Dict String String
  pub file_path_map : Dict String String
  pub branch_as_env : Bool
  pub pr_as_env : Bool
  pub tag_as_env : Bool

-- A text that is there and not empty: what Python takes for true.
abbrev pub given : Option String → Option String
given none = none
given (some s) = if s == "" then none else some s

-- `map[key]`, where the key is given and there
abbrev pub mapped : Dict String String → Option String → Option String
mapped d none = none
mapped d (some key) = Dict.get d key

unfoldable pub via_maps : Push → Option String
via_maps p = elim (mapped p.branch_map (given p.branch)) [
  | some env ↦ some env
  | none ↦ elim (mapped p.file_path_map (given p.file_path)) [
    | some env ↦ some env
    | none ↦ if p.branch_as_env then given p.branch else none
  ]
]

-- The number of the pull request: the push's, or the one that the cache has for the branch.
abbrev pub pr_or_lookup : Push → Cache → Option String → Cache × Option String
pr_or_lookup p c (some n) = (c, some n)
pr_or_lookup p c none = lookup p.branch c

unfoldable pub effective_pr : Push → Cache → Cache × Option String
effective_pr p c = pr_or_lookup p c p.pr_number

unfoldable pub via_tag : Push → Option String
via_tag p =
    if p.tag_as_env
    then elim (given p.tag) [
      | none ↦ none
      | some tag ↦ some (or_else (strip_prefix "refs/tags/" tag) tag)
    ]
    else none

-- What is left when no pull request gives the environment.
abbrev pub tag_or_default : Push → String
tag_or_default p = or_else (via_tag p) "default"

abbrev pub pr_or_tag : Push → Option String → String
pr_or_tag p none = tag_or_default p
pr_or_tag p (some n) = "pr-" <> n

-- The pull request's number as an environment, if the rule says so.
abbrev pub resolve_pr : Push → Cache → Bool → Cache × String
resolve_pr p c true = let (c', n) = effective_pr p c in (c', pr_or_tag p (given n))
resolve_pr p c false = (c, tag_or_default p)

abbrev pub resolve_from : Push → Cache → Option String → Cache × String
resolve_from p c (some env) = (c, env)
resolve_from p c none = resolve_pr p c p.pr_as_env

-- `resolve`, with the cache that it looks into and may reorder.
unfoldable pub resolve : Push → Cache → Cache × String
resolve p c = resolve_from p c (via_maps p)
