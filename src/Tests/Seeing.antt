-- ===== src/Tests/Seeing.antt =====
-- A rule of two patterns, and a user who reads one repository.
use var_track.Prelude.{◌≡◌, refl, true, false, ◌||◌, [], ◌∷◌, ◌==◌, string_eq, nat_eq}
use var_track.Prelude.Dict
use var_track.Value.{text, list, item, no_item, Record, to_list}
use var_track.Access.{
  UserViewer, included, excluded_by, named_repos, permission, accessible_repos, rule_permission,
  named_permission, pattern_permission, from_overrides,
}

abbrev user : UserViewer
user = record {
  is_admin = false;
  identities = "gitea" ∷ [];
  answer = λ platform repo. record { read = repo == "team/app"; write = false };
  repos = λ platform. ("team/app", record { read = true; write = true }) ∷ [];
  fnmatchcase = λ repo pattern. (repo == pattern) || (pattern == "team/*");
  lower = λ s. s;
}

abbrev rule : Record
rule =
    ("platform", text "gitea")
    ∷ ("repositories", list (item (text "team/old") (item (text "team/*") no_item)))
    ∷ []

-- It is seen by its pattern.
seen : (rule_permission user rule []).read ≡ true
unfolding rule_permission named_permission pattern_permission accessible_repos named_repos included
    excluded_by permission from_overrides Dict.get string_eq nat_eq to_list
seen = refl
