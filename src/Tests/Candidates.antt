-- ===== src/Tests/Candidates.antt =====
-- A dry run of a sync of one file, and the theorems on it.
use var_track.Prelude.{String, [], ◌∷◌, string_eq}
use var_track.Prelude.Dict.{Dict}
use var_track.Tests.Memory.{Store, target_of}

-- "prod" held A and B.
abbrev store : Store
store = record {
  targets =
      (
        "vt:ui:target:acme:redis:prod",
        target_of "prod" "a.yaml" "RedisSink|redis:6379/0|prod" (("A", "1") ∷ ("B", "2") ∷ []),
      )
      ∷ [];
  sets = ("vt:ui:targets:acme", "redis|prod" ∷ []) ∷ [];
}

abbrev hash : Dict String String
hash = ("A", "1") ∷ ("B", "2") ∷ []
