-- ===== src/Prune/Deletion.antt =====
-- What `_prune_environment` deletes, skips and leaves.
use var_track.Prelude.{
  String, ◌≡◌, refl, ◌⊎◌, true, false, not, ◌&&◌, Option, none, some, List, arith, contains,
  contains-keep, is_empty, string_eq, option_eq, inl, inr, Bool-cases,
}
use var_track.Prelude.Order.{contains-sorted_set}
use var_track.Prelude.Dict
use var_track.Prelude.Dict.{Dict, or_else}
use var_track.Ledger.{Live, key_state, value}
use var_track.Payload.{PruneConfig}
use var_track.Sink.{Reply, done, raised, Sink}
use var_track.Prune.Stale.{Stale}
use var_track.Prune.Environment.{
  is_delete, is_protected, unprotected, verdict, verdict_on, deletable, delete_live, delete_stale,
}

contains-unprotected :
    (cfg : PruneConfig) (keys : List String) (k : String)
    → contains (unprotected cfg keys) k ≡ (contains keys k && not (is_protected cfg k))
unfolding unprotected
contains-unprotected cfg keys k =
    rw contains-sorted_set (contains-keep (λ key. not (is_protected cfg key)) keys k)

-- The sink still holds what varTrack wrote, or never tells: `digest` is that of a secret.
abbrev pub Unchanged :
    (String → String) → Option (Option String × Option String) → Option Live → Type 0
Unchanged secret_digest expected live =
    (written : String) × (digest : Option String) × (expected ≡ some (some written, digest))
    × ((live ≡ some Live.unreadable)
        ⊎ ((now : String) × (live ≡ some (value now))
            × ((digest ≡ none) × (now ≡ written) ⊎ (digest ≡ some (secret_digest now)))))

delete-Unchanged :
    (secret_digest : String → String) (expected : Option (Option String × Option String))
    (live : Option Live)
    → is_delete (verdict secret_digest expected live) ≡ true
    → Unchanged secret_digest expected live
unfolding verdict key_state
delete-Unchanged secret_digest (some (some w, none)) (some (value now)) h =
    (w, none, refl, inr (now, refl, inl (refl, ground arith)))
delete-Unchanged secret_digest (some (some w, some d)) (some (value now)) h =
    (w, some d, refl, inr (now, refl, inr (ground arith)))
delete-Unchanged secret_digest (some (some w, d)) (some Live.unreadable) h = (w, d, refl, inl refl)
delete-Unchanged secret_digest (some (some w, d)) none h = ground arith
delete-Unchanged secret_digest (some (none, d)) live h = ground arith
delete-Unchanged secret_digest none live h = ground arith

module _ (secret_digest : String → String) (K : Sink) where
  -- One call of `delete_keys`, on `keys`, each of which may go.
  pub record Deletion (cfg : PruneConfig) (stale : Stale) (datasource env : String) (k k' : K.State)
      : Type 0 where
    pub live : Dict String Live
    pub keys : List String
    pub read : K.read_values k true (unprotected cfg stale.keys) datasource env ≡ done live
    pub deleted : k' ≡ (K.delete_keys k keys datasource env).0
    pub is_stale : (key : String) → contains keys key ≡ true → contains stale.keys key ≡ true
    pub is_free : (key : String) → contains keys key ≡ true → is_protected cfg key ≡ false
    pub is_unchanged :
        (key : String)
        → contains keys key ≡ true
        → Unchanged secret_digest (Dict.get stale.expected key) (Dict.get live key)

  module _ (cfg : PruneConfig) (stale : Stale) (datasource env : String) (k : K.State)
      (shared : List String) where
    abbrev stale_list : List String
    stale_list = unprotected cfg stale.keys

    contains-deletable :
        (live : Dict String Live) (key : String)
        → contains (deletable secret_digest K stale live stale_list) key ≡ true
        → (contains stale.keys key ≡ true)
          × (is_protected cfg key ≡ false)
          × (is_delete (verdict_on secret_digest K stale live key) ≡ true)
    contains-deletable live key p = ground (
      arith,
      contains-keep (λ x. is_delete (verdict_on secret_digest K stale live x)) stale_list key,
      contains-unprotected cfg stale.keys key,
    )

    delete_stale-Deletion :
        (live : Dict String Live)
        → K.read_values k true stale_list datasource env ≡ done live
        → Deletion cfg stale datasource env k
            (K.delete_keys k (deletable secret_digest K stale live stale_list) datasource env).0
    delete_stale-Deletion live e = record {
      live = live;
      keys = deletable secret_digest K stale live stale_list;
      read = e;
      deleted = refl;
      is_stale = λ key p. (contains-deletable live key p).0;
      is_free = λ key p. (contains-deletable live key p).1;
      is_unchanged = λ key p. delete-Unchanged secret_digest _ _ (contains-deletable live key p).2;
    }

    delete_live_cases :
        (r : Reply (Dict String Live))
        → K.read_values k true stale_list datasource env ≡ r
        → let k' = (delete_live secret_digest K k stale stale_list datasource env shared r).0 in
          (k' ≡ k) ⊎ Deletion cfg stale datasource env k k'
    unfolding delete_live
    delete_live_cases (raised e) read = inl refl
    delete_live_cases (done live) read =
        elim (Bool-cases (is_empty (deletable secret_digest K stale live stale_list))) [
          | inl nothing ↦ inl (rw nothing)
          | inr more ↦ inr (rw more (delete_stale-Deletion live read))
        ]

    pub delete_stale_cases :
        let k' = (delete_stale secret_digest K k stale stale_list datasource env shared).0 in
        (k' ≡ k) ⊎ Deletion cfg stale datasource env k k'
    unfolding delete_stale
    delete_stale_cases = delete_live_cases _ refl
