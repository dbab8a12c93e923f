-- ===== src/Tests/Tenants.antt =====
-- The rules of one tenant, and the theorem on them.
use var_track.Prelude.{none, ◌≡◌, refl, true, List, [], ◌∷◌, string_eq}
use var_track.Prelude.Dict
use var_track.Value.{
  text, bool, list, dict, no_item, item, Record, of_dict, to_dict, to_list, same, is_dict,
}
use var_track.Rule.{RuleOptions}
use var_track.Rule.Getters.{Conversions, mappings}
use var_track.Rule.Settings.{keys_of_all}
use var_track.Rule.Tenants.{Claim, find, cue_rules, tenant_rules, rule_for}
use var_track.Rule.Tenancy.{find-tenant_rules}

abbrev options : RuleOptions
options = record {
  mergeable = "branch_map" ∷ "prune" ∷ [];
  admin_only = "repositories" ∷ "force" ∷ "tenants" ∷ [];
  repo_overridable = "dry_run" ∷ [];
  renamed = ("env_as_branch", "branch_as_env") ∷ [];
}

abbrev conversions : Conversions
conversions = record {
  read_secret_file = λ path key. none;
  read_ref = λ manager ref. none;
  seconds = λ v. v;
  lower = λ s. s;
  shown = λ v. "";
}

abbrev cue : Record
cue =
    ("platform", text "gitea")
    ∷ ("datasource", text "redis-main")
    ∷ ("tenants", list (item (text "blue") no_item))
    ∷ []

abbrev bundle : Record
bundle = ("rules", list (item (dict (of_dict cue)) no_item)) ∷ []

abbrev rule : Record
rule = ("platform", text "gitea") ∷ ("datasource", text "redis-main") ∷ ("prune", bool true) ∷ []

abbrev claims : List Claim
claims = ("blue", text "gitea", text "redis-main") ∷ []

find-tenant_rules_example :
    find
      (tenant_rules options conversions bundle "blue" (rule ∷ []) claims)
      (text "gitea")
      (text "redis-main")
    ≡ rule_for options conversions bundle "blue" "gitea" "redis-main"
        (find (rule ∷ []) (text "gitea") (text "redis-main"))
        claims
unfolding cue_rules Dict.get to_dict of_dict to_list string_eq same mappings keys_of_all is_dict
find-tenant_rules_example =
    find-tenant_rules options conversions bundle "blue" "gitea" "redis-main"
      ((refl, tt), (refl, tt), (refl, (refl, tt))) (refl, refl, refl, refl, refl, refl, refl)
      (refl, refl, refl, refl, refl, refl, refl) (rule ∷ []) claims ((refl, (refl, (refl, tt))), tt)
      (refl, tt)
