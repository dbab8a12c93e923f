-- ===== src/Ledger.antt =====
-- app/ui/ledger.py: what was last written to each (tenant, datasource, environment). The reads,
-- and how the state of one key is judged.
pub mod Names
pub mod Record
pub mod Merging
pub mod Recording
use Prim.Native.Char.{code}
use mathlib.Core.Option
use var_track.Prelude.{
  ℕ, nat_eq, contains, ◌>>=◌, ◌++◌, String, ◌<>◌, ◌==◌, string_eq, Option, none, some, List, [],
  ◌∷◌, map, if◌then◌else◌, is_empty,
}
use var_track.Prelude.Texts.{cut}
use var_track.Prelude.Order.{sorted_set}
use var_track.Prelude.Dict.{Dict}

-- One file's share of a target, an element of `desiredByFile`. Entries recorded before they named
-- their file have no `file`.
pub record Entry : Type 0 where
  pub file : Option String
  pub desired : Dict String String
  pub secret_digests : Dict String String

-- A key that a sync wanted to delete and could not.
pub record Pending : Type 0 where
  pub value : Option String
  pub digest : Option String

-- `vt:ui:target:…`: what prune reads of it. `none` is a field that the record lacks; `desired`,
-- `secret_digests`, `files` and `pending_prune` are read as empty where they are absent.
pub record Target : Type 0 where
  pub datasource : String
  pub env : String
  pub files : List String
  pub desired : Dict String String
  pub secret_digests : Dict String String
  pub desired_by_file : Option (Dict String Entry)
  pub pending_prune : Dict String Pending
  pub key_space : Option String

-- A target that is not there has no field.
abbrev pub no_target : Target
no_target = record {
  datasource = "";
  env = "";
  files = [];
  desired = [];
  secret_digests = [];
  desired_by_file = none;
  pending_prune = [];
  key_space = none;
}

-- Redis, on the JSON that it holds: `none` is a call that raises. It is a server that the program
-- talks to, so it is a parameter.
pub record Redis : Type 1 where
  pub State : Type 0
  pub get : State → String → Option (Option Target)
  pub mget : State → List String → Option (List (Option Target))
  pub smembers : State → String → Option (List String)

-- `sep.join(parts)`
unfoldable pub join : String → List String → String
join sep [] = ""
join sep (p ∷ []) = p
join sep (p ∷ q ∷ ps) = p <> (sep <> join sep (q ∷ ps))

unfoldable pub redis_key : List String → String
unfolding join
redis_key parts = "vt:ui:" <> join ":" parts

-- `member.split("|", 1)`
split_bar : String → List String
unfolding cut
split_bar m = elim (cut "|" m) [ none ↦ m ∷ [] | some (a, b) ↦ a ∷ b ∷ [] ]

-- What a sink answers for one key; `Unreadable` is a value that it never gives back.
pub data Live : Type 0 where
  value : String → Live
  unreadable : Live

pub data KeyState : Type 0 where
  unreadable missing synced drifted : KeyState

-- A secret is compared by its digest.
unfoldable pub key_state : (String → String) → String → Option Live → Option String → KeyState
key_state secret_digest desired_value none digest = KeyState.missing
key_state secret_digest desired_value (some Live.unreadable) digest = KeyState.unreadable
key_state secret_digest desired_value (some (Live.value live)) none =
    if live == desired_value then synced else drifted
key_state secret_digest desired_value (some (Live.value live)) (some digest) =
    if secret_digest live == digest then synced else drifted

-- A target recorded before per-file tracking is one entry.
abbrev entries_of_record : Target → Dict String Entry
entries_of_record t = elim t.desired_by_file [
  | some by_file ↦ by_file
  | none ↦
      if is_empty t.desired
      then []
      else (
        join "," t.files,
        record { file = none; desired = t.desired; secret_digests = t.secret_digests },
      )
        ∷ []
]

unfoldable pub entries_of : Option Target → Dict String Entry
unfolding join
entries_of none = []
entries_of (some t) = entries_of_record t

env_of : String → List String → Option (List String)
env_of datasource (d ∷ e ∷ []) = some (if d == datasource then e ∷ [] else [])
env_of datasource (d ∷ _) = if d == datasource then none else some []
env_of datasource [] = some []

envs_of : String → List String → Option (List String)
unfolding env_of split_bar
envs_of datasource [] = some []
envs_of datasource (m ∷ ms) = do
  here ← env_of datasource (split_bar m)
  rest ← envs_of datasource ms
  some (here ++ rest)

-- Python's `[x for x in xs if x]` on what `mget` answers.
abbrev somes {ℓ} : {A : Type ℓ} → List (Option A) → List A
somes [] = []
somes (none ∷ xs) = somes xs
somes (some x ∷ xs) = x ∷ somes xs

module _ (R : Redis) (s : R.State) where
  unfoldable pub get_target : String → String → String → Option (Option Target)
  unfolding redis_key
  get_target tenant datasource env = R.get s (redis_key ("target" ∷ tenant ∷ datasource ∷ env ∷ []))

  -- The environments that a datasource has been synced to.
  unfoldable pub list_envs : String → String → Option (List String)
  unfolding redis_key envs_of
  list_envs tenant datasource = do
    members ← R.smembers s (redis_key ("targets" ∷ tenant ∷ []))
    envs ← envs_of datasource members
    some (sorted_set envs)

  unfoldable pub list_targets : String → Option (List Target)
  unfolding redis_key split_bar
  list_targets tenant = do
    found ← R.smembers s (redis_key ("targets" ∷ tenant ∷ []))
    let members = sorted_set found
    let keys = map (λ m. redis_key ("target" ∷ tenant ∷ split_bar m)) members
    if is_empty members then some [] else do raws ← R.mget s keys; some (somes raws)
