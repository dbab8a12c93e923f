-- ===== src/Tests/Resolving.antt =====
-- A branch with an open pull request, in a full cache of two, and the theorems on it.
use var_track.Prelude.{◌≡◌, refl, true, false, none, some, [], ◌∷◌, ◌<>◌, string_eq}
use var_track.Prelude.Dict
use var_track.Prelude.Dict.{Dict}
use var_track.Env.Cache.{Cache, register, evict, add_entry, pop_first}
use var_track.Env.Resolver.{Push, via_maps, resolve, tag_or_default}
use var_track.Env.Resolving.{
  Registered, register-Registered, resolve-registered, starts, pushes, evicts,
}

abbrev full : Cache
full = ("feature/old", "40") ∷ ("feature/new", "41") ∷ []

abbrev after : Cache
after = ("feature/new", "41") ∷ ("feature/login", "42") ∷ []

abbrev push : Push
push = record {
  branch = some "feature/login";
  file_path = some "a.yaml";
  pr_number = none;
  tag = none;
  branch_map = ("main", "production") ∷ [];
  file_path_map = [];
  branch_as_env = false;
  pr_as_env = true;
  tag_as_env = false;
}

registered : register 2 "feature/login" (some "42") full ≡ some after
unfolding register add_entry pop_first string_eq Dict.get
registered = refl

register-Registered_example : Registered 2 "feature/login" "42" after
unfolding string_eq
register-Registered_example =
    register-Registered 2 "feature/login" "42" full after refl refl registered

-- The branch stays registered while it is pushed and another one is evicted.
abbrev later : Cache
later = evict "feature/new" (resolve push after).0

resolve-registered_example :
    ((resolve push later).1 ≡ "pr-" <> "42")
    × ((resolve push (evict "feature/login" later)).1 ≡ tag_or_default push)
unfolding string_eq via_maps Dict.get
resolve-registered_example =
    resolve-registered 2 push full after later "feature/login" "42" refl refl refl refl refl refl
      refl registered (evicts "feature/new" refl (pushes push starts))
