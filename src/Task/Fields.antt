-- ===== src/Task/Fields.antt =====
-- The extractors of app/tasks/payload.py, `run_stage_payload` of app/pipeline/stage_payload.py, and the
-- trigger of a task, of app/ui/ledger.py. A body that does not have the form that a platform sends raises
-- where the source does.
use var_track.Prelude.{
  String, ◌<>◌, Bool, ◌||◌, ◌&&◌, Option, none, some, List, [], ◌∷◌, ◌++◌, ◌==◌, string_eq,
  if◌then◌else◌, is_empty,
}
use var_track.Prelude.Dict
use var_track.Prelude.Dict.{Dict, or_else, is_some}
use var_track.Prelude.Texts.{strip_prefix}
use var_track.Value.{
  Value, text, list, dict, no_item, item, no_field, Record, truthy, to_dict, to_list,
}
use var_track.Sink.{Reply, done, raised, ◌>>=◌}
use var_track.Rule.Getters.{Conversions, str, value_at}

-- `d.get(key, default)`
abbrev pub get_or : Record → String → Value → Value
get_or d key default = or_else (Dict.get d key) default

-- `v.get(…)`: the dict, or the error where it is none
unfoldable pub dict_of : Value → Reply Record
unfolding to_dict
dict_of (dict fs) = done (to_dict fs)
dict_of v = raised "no attribute 'get'"

-- The items of a list that is iterated over, or the error where it is none
unfoldable pub items_of : Value → Reply (List Value)
unfolding to_list
items_of (list vs) = done (to_list vs)
items_of v = raised "not a list"

-- `v[0]`
unfoldable pub first_of : Value → Reply Value
first_of (list (item v vs)) = done v
first_of v = raised "no item 0"

-- `v.removeprefix(…)`: the text, or the error where it is none
unfoldable pub text_of : Value → Reply String
text_of (text s) = done s
text_of v = raised "no attribute 'removeprefix'"

-- `s.removeprefix(p)`
abbrev pub remove_prefix : String → String → String
unfolding strip_prefix
remove_prefix p s = or_else (strip_prefix p s) s

module _ (c : Conversions) where
  unfoldable pub bitbucket_ref : Record → Reply Value
  unfolding truthy dict_of first_of str
  bitbucket_ref payload = do
    push ← dict_of (get_or payload "push" (dict no_field))
    let changes = get_or push "changes" (list no_item)
    if truthy changes
        then (do
          change ← first_of changes
          fields ← dict_of change
          new ← dict_of (get_or fields "new" (dict no_field))
          done (text ("refs/heads/" <> str c (get_or new "name" (text "")))))
        else done (get_or payload "ref" (text ""))

  unfoldable pub extract_ref : Record → String → Reply Value
  unfolding bitbucket_ref
  extract_ref payload platform =
      if platform == "bitbucket"
      then bitbucket_ref payload
      else done (get_or payload "ref" (text ""))

  -- A field of a dict, as a text, where it is set
  abbrev pub field_of_dict : Value → String → Option String
  unfolding truthy str to_dict
  field_of_dict (dict fs) key =
      let v = value_at (to_dict fs) key in if truthy v then some (str c v) else none
  field_of_dict v key = none

  unfoldable pub extract_repo_url : Record → String
  extract_repo_url payload = elim (field_of_dict (value_at payload "repository") "clone_url") [
    | some url ↦ url
    | none ↦ or_else (field_of_dict (value_at payload "project") "git_http_url") ""
  ]

  unfoldable pub extract_branch : Record → String → Reply String
  unfolding extract_ref text_of
  extract_branch payload platform = do
    ref ← extract_ref payload platform
    s ← text_of ref
    done (remove_prefix "refs/heads/" s)

  unfoldable pub extract_tag : Record → String → Reply (Option String)
  unfolding extract_ref text_of strip_prefix
  extract_tag payload platform = do
    ref ← extract_ref payload platform
    s ← text_of ref
    done (strip_prefix "refs/tags/" s)

  unfoldable pub extract_pr_number : Record → Reply (Option String)
  unfolding truthy dict_of str
  extract_pr_number payload =
      let asked = value_at payload "pull_request" in
      let pr = if truthy asked then asked else value_at payload "object_attributes" in
      if truthy pr
      then (do
        fields ← dict_of pr
        let number = value_at fields "number"
        let num = if truthy number then number else value_at fields "iid"
        done (if truthy num then some (str c num) else none))
      else done none

-- A commit that is no text is null: GitLab has none for a branch that is deleted.
abbrev pub commit_text : Value → String
commit_text (text s) = s
commit_text v = ""

unfoldable pub extract_commit : Record → String
extract_commit payload =
    commit_text (get_or payload "after" (get_or payload "checkout_sha" (text "")))

-- The texts of a list
abbrev pub texts_in : List Value → List String
texts_in [] = []
texts_in (text s ∷ vs) = s ∷ texts_in vs
texts_in (v ∷ vs) = texts_in vs

-- The names under one key of a commit
abbrev pub names_under : Record → String → Reply (List String)
unfolding items_of
names_under commit key = do vs ← items_of (get_or commit key (list no_item)); done (texts_in vs)

unfoldable pub commit_names : List Value → Reply (List String)
unfolding dict_of
commit_names [] = done []
commit_names (v ∷ vs) =
    let rest = commit_names vs in
    do
      commit ← dict_of v
      added ← names_under commit "added"
      modified ← names_under commit "modified"
      removed ← names_under commit "removed"
      others ← rest
      done (added ++ (modified ++ (removed ++ others)))

-- The names of the set; in which order a set is listed is told by `listed`.
unfoldable pub extract_changed_filenames :
    (List String → List String) → Record → Reply (List String)
unfolding items_of commit_names dict_of
extract_changed_filenames listed payload = do
  commits ← items_of (get_or payload "commits" (list no_item))
  names ← commit_names commits
  if is_empty names
      then (if Dict.has payload "object_attributes"
          then (do
            fields ← dict_of (value_at payload "object_attributes")
            files ← items_of (get_or fields "files" (list no_item))
            done (listed (texts_in files)))
          else done (listed []))
      else done (listed names)

-- PayloadContext
pub record PayloadContext : Type 0 where
  pub platform : String
  pub repo_url : String
  pub ref : String
  pub branch : String
  pub commit_sha : String
  pub tag : Option String
  pub pr_number : Option String
  pub rule_config : Record
  pub parsed_payload : Record

-- What the stage takes from outside: `json.loads`, and the rule of the tenant's bundle, if there is one
pub record PayloadTools : Type 0 where
  pub conversions : Conversions
  pub loads : String → Reply Value
  -- platform, datasource and tenant; empty where there is none, or the lookup raises
  pub rule_from_bundle : String → String → String → Record

-- `rule_config.get("repo_url")`, or the url of the pushed repository
abbrev pub url_for : Conversions → Record → Record → String
unfolding truthy str
url_for c rule payload =
    let url = value_at rule "repo_url" in
    if truthy url then str c url else extract_repo_url c payload

unfoldable pub context_from : Conversions → String → Record → Record → Reply PayloadContext
unfolding extract_ref extract_branch extract_tag extract_pr_number extract_commit text_of
context_from c platform rule payload = do
  ref ← extract_ref c payload platform
  ref_text ← text_of ref
  branch ← extract_branch c payload platform
  tag ← extract_tag c payload platform
  pr_number ← extract_pr_number c payload
  done (record {
    platform = platform;
    repo_url = url_for c rule payload;
    ref = ref_text;
    branch = branch;
    commit_sha = extract_commit payload;
    tag = tag;
    pr_number = pr_number;
    rule_config = rule;
    parsed_payload = payload;
  })

-- The rule that the task was given, or the one of the bundle
abbrev pub rule_given : PayloadTools → String → Record → String → String → Record
rule_given t platform rule datasource tenant_id =
    if is_empty rule then t.rule_from_bundle platform datasource tenant_id else rule

-- The body, the platform, the rule that the task was given, the datasource and the tenant
unfoldable pub run_stage_payload :
    PayloadTools → String → String → Record → String → String → Reply (Option PayloadContext)
unfolding dict_of context_from
run_stage_payload t raw_payload platform rule datasource tenant_id = do
  body ← t.loads raw_payload
  let lower = t.conversions.lower platform
  let found = rule_given t lower rule datasource tenant_id
  if is_empty found then done none else (do
    payload ← dict_of body
    ctx ← context_from t.conversions lower found payload
    done (some ctx))

abbrev pub is_trigger : String → Bool
is_trigger v = (v == "webhook") || ((v == "cli") || ((v == "self_heal") || (v == "ui")))

-- `trigger_from_headers`
unfoldable pub trigger_from_headers : (String → String) → Dict String String → String
trigger_from_headers lower [] = "webhook"
trigger_from_headers lower ((k, v) ∷ headers) =
    let rest = trigger_from_headers lower headers in
    if (lower k == "x-vartrack-trigger") && is_trigger v then v else rest
