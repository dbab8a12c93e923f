-- ===== src/Access.antt =====
-- app/ui/access.py: the rules and environments that a signed-in user sees. What a Git platform answers, by way
-- of the cache of answers and the user's token, is a parameter; so are `fnmatchcase` and `str.lower`. The
-- options of a rule have the types of rule.proto.
use var_track.Prelude.{
  String, Bool, true, false, not, ◌&&◌, ◌||◌, Option, none, some, List, [], ◌∷◌, ◌++◌, any, keep,
  contains, is_empty, ◌==◌, string_eq, nat_eq, if◌then◌else◌,
}
use var_track.Prelude.Dict
use var_track.Prelude.Dict.{Dict}
use var_track.Prelude.Texts.{codes}
use var_track.Value.{Value, text, Record, truthy, list_items, dict_fields}
use var_track.Ledger.Names.{repo_name}
use var_track.Rule.Getters.{value_at}
use var_track.Etl.{text_option, flag_option}
use var_track.Task.Fields.{texts_in}
use var_track.Task.Heal.{once}
pub mod Seeing

pub record Permission : Type 0 where
  pub read : Bool
  pub write : Bool

abbrev pub no_access : Permission
no_access = record { read = false; write = false }

abbrev pub full_access : Permission
full_access = record { read = true; write = true }

-- `a | b`
abbrev pub either_of : Permission → Permission → Permission
either_of a b = record { read = a.read || b.read; write = a.write || b.write }

-- What a signed-in user brings. `answer` and `repos` are what the platforms that the user has connected say.
pub record UserViewer : Type 0 where
  pub is_admin : Bool
  pub identities : List String
  -- platform and repository
  pub answer : String → String → Permission
  pub repos : String → Dict String Permission
  pub fnmatchcase : String → String → Bool
  pub lower : String → String

-- What is read of a record of the ledger
pub record TargetRecord : Type 0 where
  pub datasource : String
  pub repository : String

abbrev pub is_glob : String → Bool
is_glob pattern = any (λ n. (n == 42) || ((n == 63) || (n == 91))) (codes pattern)

-- The overrides that are enabled add to both lists.
unfoldable pub from_overrides : String → List Value → List String
unfolding truthy
from_overrides key [] = []
from_overrides key (v ∷ vs) =
    let override = dict_fields v in
    let rest = from_overrides key vs in
    if truthy (value_at override "enable")
    then texts_in (list_items (value_at override key)) ++ rest
    else rest

abbrev pub list_option : Record → String → List String
list_option rule key = texts_in (list_items (value_at rule key))

unfoldable pub included : Record → List String
unfolding from_overrides
included rule =
    let named =
      list_option rule "repositories"
      ++ from_overrides "match_repositories" (list_items (value_at rule "overrides")) in
    let url = text_option rule "repo_url" "" in
    if is_empty named && not (url == "") then repo_name url ∷ [] else named

unfoldable pub excluded_by : Record → List String
unfolding from_overrides
excluded_by rule =
    list_option rule "exclude_repositories"
    ++ from_overrides "exclude_repositories" (list_items (value_at rule "overrides"))

-- The repositories that the rule's environments were synced from
abbrev pub synced_from : Record → List TargetRecord → List String
synced_from rule [] = []
synced_from rule (r ∷ records) =
    let rest = synced_from rule records in
    if (r.datasource == text_option rule "datasource" "") && not (r.repository == "")
    then r.repository ∷ rest
    else rest

unfoldable pub named_repos : Record → List TargetRecord → List String
unfolding included once
named_repos rule records =
    once [] (keep (λ p. not (is_glob p)) (included rule) ++ synced_from rule records)

module _ (u : UserViewer) where
  abbrev pub matches : String → List String → Bool
  matches repo patterns = any (λ p. u.fnmatchcase (u.lower repo) (u.lower p)) patterns

  unfoldable pub permission : String → String → Permission
  permission platform repo =
      if u.is_admin
      then full_access
      else if contains u.identities platform
      then u.answer platform repo
      else no_access

  unfoldable pub accessible_repos : String → Dict String Permission
  accessible_repos platform = if contains u.identities platform then u.repos platform else []

  -- The loop over the named repositories, which ends at the first that gives write access
  unfoldable pub named_permission : String → List String → List String → Permission → Permission
  unfolding permission
  named_permission platform exclude [] perm = perm
  named_permission platform exclude (repo ∷ repos) perm =
      let asked = either_of perm (permission platform repo) in
      let skipped = named_permission platform exclude repos perm in
      let later = named_permission platform exclude repos asked in
      if matches repo exclude then skipped else if asked.write then asked else later

  -- The loop over what the user can access
  unfoldable pub pattern_permission :
      List String → List String → Dict String Permission → Permission → Permission
  pattern_permission include exclude [] perm = perm
  pattern_permission include exclude ((repo, p) ∷ repos) perm =
      pattern_permission include exclude repos
        (if matches repo include && not (matches repo exclude) then either_of perm p else perm)

  unfoldable pub rule_permission : Record → List TargetRecord → Permission
  unfolding named_permission pattern_permission accessible_repos named_repos included excluded_by
  rule_permission rule records =
      let platform = text_option rule "platform" "" in
      let exclude = excluded_by rule in
      let named = named_permission platform exclude (named_repos rule records) no_access in
      if u.is_admin
      then full_access
      else if not (contains u.identities platform)
      then no_access
      else if not named.read && (not named.write && any is_glob (included rule))
      then pattern_permission (included rule) exclude (accessible_repos platform) named
      else named

  unfoldable pub can_see_target : Record → TargetRecord → Bool
  unfolding permission rule_permission
  can_see_target rule record_of_env =
      if u.is_admin
      then true
      else if record_of_env.repository == ""
      then (rule_permission rule []).read
      else (permission (text_option rule "platform" "") record_of_env.repository).read

  unfoldable pub visible_rules : List Record → List TargetRecord → List (Record × Permission)
  unfolding rule_permission
  visible_rules [] records = []
  visible_rules (rule ∷ rules) records =
      let perm = rule_permission rule records in
      let rest = visible_rules rules records in
      if u.is_admin
      then (rule, full_access) ∷ rest
      else if perm.read
      then (rule, perm) ∷ rest
      else rest
