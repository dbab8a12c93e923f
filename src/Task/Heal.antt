-- ===== src/Task/Heal.antt =====
-- `sync_all_task` of app/tasks/etl.py: which tasks a heal starts. The rules are those that it was given, or
-- those of the bundles. The commits are asked for by several threads; the order in which they answer is not
-- modelled: the tasks are in the order of the work.
use var_track.Prelude.{
  String, ◌<>◌, Bool, true, false, not, ◌&&◌, Option, none, some, List, [], ◌∷◌, ◌++◌, map, keep,
  is_empty, contains, ◌==◌, string_eq, if◌then◌else◌,
}
use var_track.Prelude.Dict
use var_track.Prelude.Dict.{Dict}
use var_track.Value.{Value, text, Record, same, truthy, dict_fields, or_null}
use var_track.Sink.{Reply, done, raised}
use var_track.Rule.Getters.{Conversions, str, value_at}
use var_track.Etl.{flag_option, text_option}
pub mod Healing

-- A rule to heal, and one of its branches
abbrev pub Item : Type 0
Item = Record × String

-- What the task asks for: `none` is all
pub record HealRequest : Type 0 where
  pub tenant_id : Option String
  pub datasource : Option String
  pub platform : Option String

-- One `process_webhook_task` that is started, with the trigger "self_heal"
pub record Heal : Type 0 where
  pub platform : String
  pub datasource : String
  pub ref : String
  pub commit_sha : String
  pub repo_url : String
  pub rule_config : Record
  pub tenant_id : String

abbrev pub given_text : Option String → Option String
given_text none = none
given_text (some s) = if s == "" then none else some s

-- `not wanted or r.get(key) == wanted`
abbrev pub fits : Option String → Record → String → Bool
fits none rule key = true
fits (some wanted) rule key = same (value_at rule key) (text wanted)

unfoldable pub is_healed : HealRequest → Record → Bool
unfolding truthy same
is_healed request rule =
    (flag_option rule "self_heal" && not (flag_option rule "suspend"))
    && (fits (given_text request.datasource) rule "datasource"
        && fits (given_text request.platform) rule "platform")

-- `dict.fromkeys(branches)`: each branch once, in order
unfoldable pub once : List String → List String → List String
once seen [] = []
once seen (b ∷ bs) =
    let rest = once seen bs in
    let later = once (b ∷ seen) bs in if contains seen b then rest else b ∷ later

unfoldable pub branches_of : Record → List String
unfolding once
branches_of rule =
    let mapped = Dict.keys (dict_fields (value_at rule "branch_map")) in
    once [] (if is_empty mapped then text_option rule "branch" "main" ∷ [] else mapped)

unfoldable pub work_of : List Record → List Item
unfolding branches_of
work_of [] = []
work_of (rule ∷ rules) = map (λ b. (rule, b)) (branches_of rule) ++ work_of rules

-- `rule.get("tenant_id") or tenant_id or "default"`
abbrev pub tenant_for : HealRequest → Record → String
tenant_for request rule =
    let own = text_option rule "tenant_id" "" in
    if not (own == "")
    then own
    else elim (given_text request.tenant_id) [ some id ↦ id | none ↦ "default" ]

abbrev pub heal_of : HealRequest → Item → String → Heal
heal_of request (rule, branch) sha = record {
  platform = text_option rule "platform" "github";
  datasource = text_option rule "datasource" "";
  ref = "refs/heads/" <> branch;
  commit_sha = sha;
  repo_url = text_option rule "repo_url" "";
  rule_config = rule;
  tenant_id = tenant_for request rule;
}

-- What a heal did: the tasks that it started, and the repositories that it logs as errors
pub record Healed : Type 0 where
  pub started : List Heal
  pub errors : List String

abbrev pub with_error : String → Healed → Healed
with_error repo_url h = record h { errors = repo_url ∷ h.errors }

-- `apply_async`, which may raise; then the repository is among the errors.
abbrev pub dispatched : Heal → Reply (Unit {0}) → Healed → Healed
dispatched heal (done _) h = record h { started = heal ∷ h.started }
dispatched heal (raised e) h = with_error heal.repo_url h

-- An item whose commit is known is started; for a branch that cannot be read the repository is an error.
unfoldable pub start :
    (Heal → Reply (Unit {0})) → HealRequest → Item → Reply String → Healed → Healed
start apply_async request item (raised e) others =
    with_error (text_option item.0 "repo_url" "?") others
start apply_async request item (done sha) others =
    let heal = heal_of request item sha in dispatched heal (apply_async heal) others

-- What the heal takes from outside: the commit of a rule's branch, and the queue
pub record HealTools : Type 0 where
  pub commit : Record → String → Reply String
  pub apply_async : Heal → Reply (Unit {0})

unfoldable pub heals_of : HealTools → HealRequest → List Item → Healed
unfolding start
heals_of t request [] = record { started = []; errors = [] }
heals_of t request (item ∷ work) =
    start t.apply_async request item (t.commit item.0 item.1) (heals_of t request work)

unfoldable pub sync_all : HealTools → List Record → HealRequest → List Record → Healed
unfolding heals_of work_of is_healed
sync_all t bundle_rules request rules =
    let all = if is_empty rules then bundle_rules else rules in
    heals_of t request (work_of (keep (is_healed request) all))
