-- ===== src/Ledger/Record.antt =====
-- `record_target` of app/ui/ledger.py: what a sync leaves in the ledger for the next one. Of the JSON
-- document only the fields that prune reads are kept; the names of the push, which are only shown, are not.
use Prim.Native.Char.{code}
use Prim.Native.String.{String}
use var_track.Prelude.{
  Bool, Option, none, some, List, [], ◌∷◌, ◌++◌, contains, ◌==◌, string_eq, nat_eq, if◌then◌else◌,
  keep, not, ◌<>◌,
}
use var_track.Prelude.Order.{sorted_set}
use var_track.Prelude.Dict
use var_track.Prelude.Dict.{Dict, or_else}
use var_track.Ledger.{Entry, Pending, Target, Redis, redis_key, entries_of, no_target}
use var_track.Ledger.Names.{inventory_key}

-- What a sync says of the file that it wrote.
pub record FileSync : Type 0 where
  pub tenant : String
  pub datasource : String
  pub env : String
  pub repo_url : String
  pub file_path : String
  pub flat_data : Dict String String
  pub secret_fields : List String
  pub pending_prune : Option (List String)
  pub key_space : Option String

-- A value as it is stored: a secret's is not.
abbrev pub shown : List String → String → String → String
shown secrets k v = if contains secrets k then "***" else v

unfoldable pub desired_of : List String → Dict String String → Dict String String
desired_of secrets [] = []
desired_of secrets ((k, v) ∷ d) = (k, shown secrets k v) ∷ desired_of secrets d

unfoldable pub digests_of :
    (String → String) → List String → Dict String String → Dict String String
digests_of secret_digest secrets [] = []
digests_of secret_digest secrets ((k, v) ∷ d) =
    let rest = digests_of secret_digest secrets d in
    if contains secrets k then (k, secret_digest v) ∷ rest else rest

-- The loops over `by_file.values()` and over an entry's keys: `desired` and `digests`.
abbrev pub set_digest : Option String → String → Dict String String → Dict String String
set_digest none k digests = Dict.pop digests k
set_digest (some d) k digests = Dict.put digests k d

unfoldable pub merge_items :
    Dict String String
    → Dict String String
    → Dict String String × Dict String String
    → Dict String String × Dict String String
merge_items entry_digests [] acc = acc
merge_items entry_digests ((k, v) ∷ items) (desired, digests) =
    merge_items entry_digests items
      (Dict.put desired k v, set_digest (Dict.get entry_digests k) k digests)

unfoldable pub merge :
    Dict String Entry
    → Dict String String × Dict String String
    → Dict String String × Dict String String
unfolding merge_items
merge [] acc = acc
merge ((name, entry) ∷ entries) acc =
    merge entries (merge_items entry.secret_digests entry.desired acc)

-- `s.split(",")`
unfoldable pub split_commas : String → List String
split_commas String.[] = "" ∷ []
split_commas (String.◌∷◌ c s) = elim (split_commas s) [
  | [] ↦ String.◌∷◌ c String.[] ∷ []
  | p ∷ ps ↦ if code c == b',' then "" ∷ p ∷ ps else String.◌∷◌ c p ∷ ps
]

abbrev paths_of : String → Option String → List String
paths_of name none = keep (λ n. not (n == "")) (split_commas name)
paths_of name (some file) =
    if file == "" then keep (λ n. not (n == "")) (split_commas name) else file ∷ []

unfoldable pub file_names : Dict String Entry → List String
unfolding split_commas
file_names [] = []
file_names ((name, entry) ∷ entries) = paths_of name entry.file ++ file_names entries

-- The pending deletion of a key that is not in the new desired state.
abbrev pending_for : Option Pending → Option String → Option String → Option Pending
pending_for (some p) value digest = some p
pending_for none none digest = none
pending_for none (some v) digest = some (record { value = some v; digest = digest })

abbrev with_pending : String → Option Pending → Dict String Pending → Dict String Pending
with_pending k none rest = rest
with_pending k (some p) rest = (k, p) ∷ rest

unfoldable pub pending_of :
    Dict String Pending → Target → Dict String String → List String → Dict String Pending
pending_of prev_pending prev desired [] = []
pending_of prev_pending prev desired (k ∷ ks) =
    let rest = pending_of prev_pending prev desired ks in
    if Dict.has desired k
    then rest
    else with_pending k
        (pending_for (Dict.get prev_pending k) (Dict.get prev.desired k)
          (Dict.get prev.secret_digests k))
        rest

module _ (secret_digest : String → String) where
  abbrev pub new_entry : FileSync → Entry
  new_entry f = record {
    file = some f.file_path;
    desired = desired_of f.secret_fields f.flat_data;
    secret_digests = digests_of secret_digest f.secret_fields f.flat_data;
  }

  -- `by_file`: the entries of the other files, and then this one's.
  unfoldable pub by_file : FileSync → Option Target → Dict String Entry
  by_file f prev =
      let entry_key = inventory_key f.repo_url f.file_path in
      Dict.put (Dict.pop (Dict.pop (entries_of prev) f.file_path) entry_key) entry_key (new_entry f)

  -- The document that replaces `prev`.
  unfoldable pub target_after : FileSync → Option Target → Target
  unfolding merge file_names
  target_after f found =
      let prev = or_else found no_target in
      let entries = by_file f found in
      let (desired, digests) = merge entries ([], []) in
      let wanted = or_else f.pending_prune (Dict.keys prev.pending_prune) in
      record {
        datasource = f.datasource;
        env = f.env;
        files = sorted_set (file_names entries);
        desired = desired;
        secret_digests = digests;
        desired_by_file = some entries;
        pending_prune = pending_of prev.pending_prune prev desired (sorted_set wanted);
        key_space = elim f.key_space [ none ↦ prev.key_space | some space ↦ some space ];
      }

-- The writes to Redis. A call that raises (`false`) may have written.
pub record Writes (R : Redis) : Type 0 where
  pub set : R.State → String → Target → R.State × Bool
  pub sadd : R.State → String → String → R.State × Bool

-- `record_target`: best effort, so an error ends it without a word.
unfoldable pub record_target :
    (String → String) → (R : Redis) → Writes R → R.State → FileSync → R.State
record_target secret_digest R W s f =
    let key = redis_key ("target" ∷ f.tenant ∷ f.datasource ∷ f.env ∷ []) in
    elim (R.get s key) [
      | none ↦ s
      | some found ↦
          let (s1, stored) = W.set s key (target_after secret_digest f found) in
          if stored
          then (W.sadd s1 (redis_key ("targets" ∷ f.tenant ∷ []))
              (f.datasource <> ("|" <> f.env))).0
          else s1
    ]
