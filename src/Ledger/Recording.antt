-- ===== src/Ledger/Recording.antt =====
-- What a recorded target says.
use var_track.Prelude.{
  String, ◌≡◌, not, ◌&&◌, ◌||◌, Option, none, some, List, [], ◌∷◌, ◌++◌, arith, contains, ◌==◌,
  string_eq, if◌then◌else◌,
}
use var_track.Prelude.Order.{sorted_set, contains-sorted_set}
use var_track.Prelude.Dict
use var_track.Prelude.Dict.{Dict, IsDict, or_else, is_some, get-put, get-pop, contains-keys}
use var_track.Ledger.{Entry, Target, entries_of, no_target, synced, key_state, value}
use var_track.Prune.Stale.{inventory}
use var_track.Ledger.Names.{inventory_key}
use var_track.Ledger.Record.{FileSync, shown, merge_items, merge, new_entry, by_file, target_after}
use var_track.Ledger.Merging.{
  put-absent, merge_items-own, has-merge, merge-append, desired_of-IsDict, get-desired_of,
  get-digests_of, pending-keys,
}

module _ (secret_digest : String → String) (f : FileSync) (prev : Option Target) where
  abbrev doc : Target
  doc = target_after secret_digest f prev

  abbrev entry_key : String
  entry_key = inventory_key f.repo_url f.file_path

  -- The entries of the other files.
  abbrev others : Dict String Entry
  others = Dict.pop (Dict.pop (entries_of prev) f.file_path) entry_key

  by_file-append :
      by_file secret_digest f prev ≡ others ++ (entry_key, new_entry secret_digest f) ∷ []
  unfolding by_file
  by_file-append =
      put-absent others entry_key (new_entry secret_digest f)
        (ground (arith, get-pop (Dict.pop (entries_of prev) f.file_path) entry_key entry_key))

  -- A key is in the desired state of the recorded target exactly when some file of its inventory has it.
  pub target_after-inventory :
      (k : String)
      → contains (inventory (entries_of (some (target_after secret_digest f prev)))) k
        ≡ Dict.has (target_after secret_digest f prev).desired k
  unfolding target_after entries_of Dict.get
  target_after-inventory k = ground (arith, has-merge (by_file secret_digest f prev) ([], []) k)

  -- The entry of the recorded file is the one that the sync wrote, an entry under its bare path is gone,
  -- and the entries of other files are as before.
  pub target_after-entries :
      (name : String)
      → Dict.get (entries_of (some (target_after secret_digest f prev))) name ≡ (
          if name == inventory_key f.repo_url f.file_path
          then some (new_entry secret_digest f)
          else if name == f.file_path
          then none
          else Dict.get (entries_of prev) name)
  unfolding target_after entries_of by_file
  target_after-entries name = ground (
    arith,
    get-put others entry_key name (new_entry secret_digest f),
    get-pop (Dict.pop (entries_of prev) f.file_path) entry_key name,
    get-pop (entries_of prev) f.file_path name,
  )

module _ (secret_digest : String → String) (f : FileSync) (prev : Option Target) where
  -- The keys that wait to be deleted are those that were asked for, or that waited before where nothing
  -- was asked, of which no file holds one any more and of which it is known what was last written.
  pub target_after-pending :
      (k : String)
      → let old = or_else prev no_target in
        let wanted = or_else f.pending_prune (Dict.keys old.pending_prune) in
        contains (Dict.keys (target_after secret_digest f prev).pending_prune) k ≡ (
          contains wanted k
          && (not (Dict.has (target_after secret_digest f prev).desired k)
              && (Dict.has old.pending_prune k || Dict.has old.desired k)))
  unfolding target_after
  target_after-pending k =
      let old = or_else prev no_target in
      let wanted = or_else f.pending_prune (Dict.keys old.pending_prune) in
      ground (
        arith,
        pending-keys old.pending_prune old (target_after secret_digest f prev).desired
            (sorted_set wanted) k,
        contains-sorted_set wanted k,
      )

  merged :
      merge (by_file secret_digest f prev) ([], [])
      ≡ merge_items
          (new_entry secret_digest f).secret_digests
          (new_entry secret_digest f).desired
          (merge (others secret_digest f prev) ([], []))
  unfolding merge
  merged = rw (by_file-append secret_digest f prev) (
      merge-append (others secret_digest f prev)
        ((inventory_key f.repo_url f.file_path, new_entry secret_digest f) ∷ []) ([], []))

  state_synced :
      (secrets : List String) (k v : String)
      → key_state secret_digest
          (shown secrets k v)
          (some (value v))
          (if contains secrets k then some (secret_digest v) else none)
        ≡ synced
  unfolding key_state
  state_synced secrets k v = ground arith

  -- What a sync wrote is recorded so that the next look at it finds it synced, for a file whose keys
  -- are each there once: a secret is recorded as its mask and compared by its digest, any other value is
  -- recorded as it is.
  pub target_after-synced :
      (k v : String)
      → IsDict f.flat_data
      → Dict.get f.flat_data k ≡ some v
      → let t = target_after secret_digest f prev in
        (Dict.get t.desired k ≡ some (shown f.secret_fields k v))
        × (key_state secret_digest
              (shown f.secret_fields k v)
              (some (value v))
              (Dict.get t.secret_digests k)
            ≡ synced)
  unfolding target_after
  target_after-synced k v u h =
      let secrets = f.secret_fields in
      let entry = new_entry secret_digest f in
      let earlier = merge (others secret_digest f prev) ([], []) in
      let own =
        merge_items-own entry.secret_digests entry.desired earlier k (shown secrets k v)
          (desired_of-IsDict secrets f.flat_data u) (get-desired_of secrets f.flat_data k v h) in
      let same = merged in
      (
        rw same own.0,
        rw same (
            rw own.1 (
              rw (get-digests_of secret_digest secrets f.flat_data k)
                (rw h (state_synced secrets k v)))),
      )
