-- ===== src/Env/Cache.antt =====
-- app/pipeline/pr_branch_cache.py: the branches of open pull requests, least recently used first. Every
-- method holds the lock, so a run is a sequence of calls.
use var_track.Prelude.{
  ℕ, String, Option, none, some, [], ◌∷◌, ◌++◌, length, leb, ◌==◌, string_eq, if◌then◌else◌,
}
use var_track.Prelude.Dict
use var_track.Prelude.Dict.{Dict}

-- An OrderedDict: the branch, and the number of its pull request.
abbrev pub Cache : Type 0
Cache = Dict String String

-- `move_to_end` of an entry that is there, with its value.
unfoldable pub move_to_end : Cache → String → String → Cache
move_to_end c branch pr = Dict.pop c branch ++ (branch, pr) ∷ []

-- `popitem(last=False)`: `none` where the dict is empty and it raises.
unfoldable pub pop_first : Cache → Option Cache
pop_first [] = none
pop_first (entry ∷ c) = some c

-- A new entry, in the place of the oldest one where the cache is full.
unfoldable pub add_entry : ℕ → String → String → Cache → Option Cache
unfolding pop_first
add_entry capacity branch pr c =
    if leb capacity (length c)
    then elim (pop_first c) [ none ↦ none | some rest ↦ some (rest ++ (branch, pr) ∷ []) ]
    else some (c ++ (branch, pr) ∷ [])

-- A branch that is empty, or no number, changes nothing.
unfoldable pub register : ℕ → String → Option String → Cache → Option Cache
register capacity branch none c = some c
register capacity branch (some pr) c =
    if branch == ""
    then some c
    else if Dict.has c branch
    then some (move_to_end c branch pr)
    else add_entry capacity branch pr c

unfoldable pub evict : String → Cache → Cache
evict branch c = Dict.pop c branch

abbrev pub found : Cache → String → Option String → Cache × Option String
found c branch none = (c, none)
found c branch (some pr) = (move_to_end c branch pr, some pr)

unfoldable pub lookup : Option String → Cache → Cache × Option String
lookup none c = (c, none)
lookup (some branch) c = if branch == "" then (c, none) else found c branch (Dict.get c branch)
