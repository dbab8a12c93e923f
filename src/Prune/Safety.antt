-- ===== src/Prune/Safety.antt =====
-- What `_stale_keys` lists: keys that varTrack recorded for the environment, and none that a file, an
-- environment or another target still holds.
use var_track.Prelude.{
  String, ◌≡◌, sym, ◌∙◌, ap, true, false, not, ◌&&◌, Option, some, List, ◌∷◌, ◌++◌, arith, contains,
  contains-append, contains-keep, keep, string_eq, >>=-eq-some,
}
use mathlib.Core.Option.{some-injective}
use var_track.Prelude.Dict
use var_track.Prelude.Dict.{Dict, or_else}
use var_track.Value.{Record}
use var_track.Ledger.{Target, Redis, entries_of, list_envs, get_target}
use var_track.Prune.Stale.{
  SinkClass, Registry, TargetId, target_eq, Held, Stale, Written, inventory, key_space_id,
  keys_held_elsewhere, kept_entries, flat_keys, no_target, expected_values, other_envs, stale_keys,
}

-- The keys of a target's record: of its files, and those that wait to be deleted.
abbrev pub recorded_keys : Option Target → List String
recorded_keys found =
    inventory (entries_of found) ++ Dict.keys (or_else found no_target).pending_prune

module _ (R : Redis) (s : R.State) (reg : Registry) (cls : SinkClass) (rule : Record)
    (tenant datasource env : String) (written : Written) where
  abbrev pub self : TargetId
  self = record { tenant = tenant; datasource = datasource; env = env }

  -- The keys that are not stale.
  abbrev pub new_keys : Option Target → List String → List String → List String
  new_keys found same elsewhere =
      inventory (kept_entries written (entries_of found))
      ++ (flat_keys written ++ (same ++ elsewhere))

  -- The steps of a call that did not raise.
  pub record StaleRun (r : Stale) : Type 0 where
    pub found : Option Target
    pub space : String
    pub envs : List String
    pub seen : List TargetId
    pub same : List String
    pub held : Held
    pub read : get_target R s tenant datasource env ≡ some found
    pub placed : key_space_id cls rule tenant env ≡ some space
    pub listed : list_envs R s tenant datasource ≡ some envs
    pub shared : other_envs R s reg cls rule tenant datasource env space envs ≡ some (seen, same)
    pub elsewhere : keys_held_elsewhere R s reg cls space (self ∷ seen) tenant ≡ some held
    pub keys :
        r.keys
        ≡ keep (λ key. not (contains (new_keys found same held.held) key)) (recorded_keys found)
    pub expected : expected_values (or_else found no_target) r.keys ≡ some r.expected

  -- The record that the last line builds.
  last_line :
      (t : Target) (built r : Stale)
      → expected_values t built.keys ≡ some built.expected
      → built ≡ r
      → expected_values t r.keys ≡ some r.expected
  last_line t built r e same = rw same at e

  pub stale_keys-run :
      (r : Stale) → stale_keys R s reg cls rule tenant datasource env written ≡ some r → StaleRun r
  unfolding stale_keys
  stale_keys-run r e =
      let (found, e1, k1) = >>=-eq-some (get_target R s tenant datasource env) _ e in
      let (space, e2, k2) = >>=-eq-some (key_space_id cls rule tenant env) _ k1 in
      let (envs, e3, k3) = >>=-eq-some (list_envs R s tenant datasource) _ k2 in
      let (others, e4, k4) =
        >>=-eq-some (other_envs R s reg cls rule tenant datasource env space envs) _ k3 in
      let (h, e5, k5) =
        >>=-eq-some (keys_held_elsewhere R s reg cls space (self ∷ others.0) tenant) _ k4 in
      let (x, e6, k6) = >>=-eq-some (expected_values (or_else found no_target) _) _ k5 in
      record {
        found = found;
        space = space;
        envs = envs;
        seen = others.0;
        same = others.1;
        held = h;
        read = e1;
        placed = e2;
        listed = e3;
        shared = e4;
        elsewhere = e5;
        keys = ap (λ (x : Stale). x.keys) (sym (some-injective _ r k6));
        expected = last_line (or_else found no_target) _ r e6 (some-injective _ r k6);
      }

  contains-stale :
      {r : Stale} (run : StaleRun r) (k : String)
      → contains r.keys k ≡ (
          contains (recorded_keys run.found) k
          && not (contains (new_keys run.found run.same run.held.held) k))
  contains-stale run k = rw run.keys (contains-keep _ (recorded_keys run.found) k)

  not-new :
      {r : Stale} (run : StaleRun r) (k : String)
      → contains r.keys k ≡ true
      → contains (new_keys run.found run.same run.held.held) k ≡ false
  not-new run k p = ground (arith, contains-stale run k)

  pub split-new :
      {r : Stale} (run : StaleRun r) (k : String)
      → contains r.keys k ≡ true
      → (contains (inventory (kept_entries written (entries_of run.found))) k ≡ false)
        × (contains (flat_keys written) k ≡ false)
        × (contains run.same k ≡ false)
        × (contains run.held.held k ≡ false)
  split-new run k p = ground (
    arith,
    not-new run k p,
    contains-append (inventory (kept_entries written (entries_of run.found)))
        (flat_keys written ++ (run.same ++ run.held.held)) k,
    contains-append (flat_keys written) (run.same ++ run.held.held) k,
    contains-append run.same run.held.held k,
  )

  -- The target that the call read is the one that the ledger holds.
  pub same-found :
      {r : Stale} (run : StaleRun r) {found : Option Target}
      → get_target R s tenant datasource env ≡ some found
      → run.found ≡ found
  same-found run {found} e = some-injective run.found found (sym run.read ∙ e)

  -- A stale key was recorded for the environment before: it is in the inventory of its last syncs, or
  -- it waits there to be deleted.
  pub stale-recorded :
      (r : Stale) (found : Option Target) (k : String)
      → stale_keys R s reg cls rule tenant datasource env written ≡ some r
      → get_target R s tenant datasource env ≡ some found
      → contains r.keys k ≡ true
      → contains (recorded_keys found) k ≡ true
  stale-recorded r found k e g p =
      let run = stale_keys-run r e in
      rw (sym (same-found run g)) (ground (arith, contains-stale run k))

  -- No stale key is in a file that the sync wrote, nor in an entry of the environment that it kept.
  pub stale-not_of_files :
      (r : Stale) (found : Option Target) (k : String)
      → stale_keys R s reg cls rule tenant datasource env written ≡ some r
      → get_target R s tenant datasource env ≡ some found
      → contains r.keys k ≡ true
      → (contains (flat_keys written) k ≡ false)
        × (contains (inventory (kept_entries written (entries_of found))) k ≡ false)
  stale-not_of_files r found k e g p =
      let run = stale_keys-run r e in
      let (kept, flat, _, _) = split-new run k p in (flat, rw (sym (same-found run g)) kept)
