-- ===== src/Prune/Environment.antt =====
-- `_prune_environment`: the stale keys of one environment are deleted, but for those that are
-- protected and those that something else changed.
use var_track.Prelude.{
  ℕ, String, Bool, true, false, not, ◌||◌, Option, none, some, List, [], keep, any, is_empty,
  string_eq, if◌then◌else◌,
}
use var_track.Prelude.Order.{sorted_set}
use var_track.Prelude.Dict
use var_track.Prelude.Dict.{Dict}
use var_track.Value.{Record}
use var_track.Glob.{fnmatch}
use var_track.Ledger.{KeyState, unreadable, missing, synced, drifted, Live, Redis, key_state}
use var_track.Payload.{PruneConfig}
use var_track.Sink.{Reply, done, raised, Sink}
use var_track.Prune.Stale.{Registry, Stale, Written, stale_keys}

pub record PruneOutcome : Type 0 where
  pub pruned : ℕ
  pub pending : Option (List String)
  pub skipped : List String
  pub would_delete : List String
  pub error : String
  pub shared_with : List String

-- `PruneOutcome(pending=…, shared_with=…)`
abbrev pub outcome : List String → List String → PruneOutcome
outcome pending shared = record {
  pruned = 0;
  pending = some pending;
  skipped = [];
  would_delete = [];
  error = "";
  shared_with = shared;
}

unfoldable pub is_protected : PruneConfig → String → Bool
is_protected cfg key = any (fnmatch key) cfg.protection

-- The stale keys that are not protected, sorted.
unfoldable pub unprotected : PruneConfig → List String → List String
unprotected cfg keys = sorted_set (keep (λ key. not (is_protected cfg key)) keys)

-- What is done with one stale key. A key without an expected value is not ours to delete.
pub data Verdict : Type 0 where
  delete skip leave : Verdict

abbrev verdict_of_state : KeyState → Verdict
verdict_of_state drifted = skip
verdict_of_state missing = leave
verdict_of_state synced = delete
verdict_of_state unreadable = delete

-- `expected` is what `expected[key]` gives: `_stale_keys` lists every stale key in it.
unfoldable pub verdict :
    (String → String) → Option (Option String × Option String) → Option Live → Verdict
verdict secret_digest (some (some value, digest)) live =
    verdict_of_state (key_state secret_digest value live digest)
verdict secret_digest (some (none, digest)) live = skip
verdict secret_digest none live = skip

abbrev pub is_delete : Verdict → Bool
is_delete delete = true
is_delete _ = false

abbrev pub is_skip : Verdict → Bool
is_skip skip = true
is_skip _ = false

-- What the deletion of `to_delete` makes of the outcome.
abbrev pub settle : List String → List String → List String → Reply ℕ → PruneOutcome
settle to_delete skipped shared (done pruned) = record (outcome [] shared) {
  pruned = pruned;
  skipped = skipped;
}
settle to_delete skipped shared (raised e) = record (outcome to_delete shared) {
  skipped = skipped;
  error = e;
}

module _ (secret_digest : String → String) (K : Sink) where
  abbrev pub verdict_on : Stale → Dict String Live → String → Verdict
  verdict_on stale live key =
      verdict secret_digest (Dict.get stale.expected key) (Dict.get live key)

  abbrev pub deletable : Stale → Dict String Live → List String → List String
  deletable stale live = keep (λ key. is_delete (verdict_on stale live key))

  abbrev pub skippable : Stale → Dict String Live → List String → List String
  skippable stale live = keep (λ key. is_skip (verdict_on stale live key))

  -- From what the read answered to the deletion.
  unfoldable pub delete_live :
      K.State
      → Stale
      → List String
      → String
      → String
      → List String
      → Reply (Dict String Live)
      → K.State × Option PruneOutcome
  delete_live k stale keys datasource env shared (raised e) = (k, some (outcome keys shared))
  delete_live k stale keys datasource env shared (done live) =
      let to_delete = deletable stale live keys in
      let skipped = skippable stale live keys in
      let deletion = K.delete_keys k to_delete datasource env in
      if is_empty to_delete
      then (k, some (record (outcome [] shared) { skipped = skipped }))
      else (deletion.0, some (settle to_delete skipped shared deletion.1))

  unfoldable pub delete_stale :
      K.State → Stale → List String → String → String → List String → K.State × Option PruneOutcome
  delete_stale k stale keys datasource env shared =
      delete_live k stale keys datasource env shared (K.read_values k true keys datasource env)

  -- With the stale keys at hand; `none` is a ledger that cannot be read.
  unfoldable pub prune_stale :
      PruneConfig → K.State → Option Stale → String → String → K.State × Option PruneOutcome
  prune_stale cfg k none datasource env = (k, none)
  prune_stale cfg k (some stale) datasource env =
      let shared = sorted_set stale.sharers in
      let keys = unprotected cfg stale.keys in
      if is_empty keys
      then (k, some (outcome [] shared))
      else if cfg.dry_run
      then (k, some (record (outcome keys shared) { would_delete = keys }))
      else delete_stale k stale keys datasource env shared

  module _ (R : Redis) (s : R.State) (reg : Registry) (rule : Record) where
    unfoldable pub prune_environment :
        PruneConfig → K.State → String → String → String → Written → K.State × Option PruneOutcome
    prune_environment cfg k tenant datasource env written =
        if not cfg.enabled || not (K.cls.prunes_keys rule)
        then (k, none)
        else prune_stale cfg k (stale_keys R s reg K.cls rule tenant datasource env written)
            datasource env
