-- ===== src/Access/Seeing.antt =====
-- Which rules a signed-in user sees.
use var_track.Prelude.{String, ◌≡◌, Bool, true, not, ◌&&◌, List, string_eq}
use var_track.Prelude.Dict.{Dict}
use var_track.Access.{Permission, UserViewer, matches, permission}

-- Who may write may read.
abbrev pub IsOrdered : Permission → Type 0
IsOrdered p = p.write ≡ true → p.read ≡ true

module _ (u : UserViewer) (platform : String) (include exclude : List String) where
  -- A named repository that the user can read, and one that a pattern fits
  abbrev pub opens : String → Bool
  opens repo = not (matches u repo exclude) && (permission u platform repo).read

  abbrev pub opens_by_pattern : String × Permission → Bool
  opens_by_pattern (repo, p) = (matches u repo include && not (matches u repo exclude)) && p.read
