-- ===== src/Prune/Totality.antt =====
-- `_stale_keys` finds what it looks up in a target that `record_target` left.
use var_track.Prelude.{
  String, ◌≡◌, refl, Bool, true, not, ◌||◌, Option, none, some, List, [], ◌∷◌, arith, contains,
  contains-append, contains-keep, keep, string_eq,
}
use mathlib.Core.Option
use var_track.Prelude.Dict
use var_track.Prelude.Dict.{Dict, or_else, is_some, contains-keys}
use var_track.Value.{Record}
use var_track.Ledger.{Target, Pending, Redis, entries_of, get_target, list_envs}
use var_track.Ledger.Record.{FileSync, target_after}
use var_track.Ledger.Recording.{target_after-inventory}
use var_track.Prune.Stale.{
  SinkClass, Registry, TargetId, Held, Stale, Written, inventory, key_space_id, keys_held_elsewhere,
  expected_value, expected_values, other_envs, stale_keys,
}
use var_track.Prune.Safety.{recorded_keys, new_keys, self}

-- What is known of the target's keys: each was written, or waits to be deleted.
abbrev IsKnown : Target → String → Type 0
IsKnown t k = (Dict.has t.desired k || Dict.has t.pending_prune k) ≡ true

known_value :
    (t : Target) (k : String) (desired : Option String) (pending : Option Pending)
    → (is_some desired || is_some pending) ≡ true
    → (e : Option String × Option String) × (elim desired [
      | some v ↦ some (some v, Dict.get t.secret_digests k)
      | none ↦ Option.map (λ (p : Pending). (p.value, p.digest)) pending
    ]
        ≡ some e)
known_value t k (some v) pending h = ((some v, Dict.get t.secret_digests k), refl)
known_value t k none (some p) h = ((p.value, p.digest), refl)
known_value t k none none h = absurd (ground (arith, h))

expected_value-known :
    (t : Target) (k : String)
    → IsKnown t k
    → (e : Option String × Option String) × (expected_value t k ≡ some e)
unfolding expected_value
expected_value-known t k h = known_value t k (Dict.get t.desired k) (Dict.get t.pending_prune k) h

expected_values-known :
    (t : Target) (keys : List String)
    → ((k : String) → contains keys k ≡ true → IsKnown t k)
    → (out : Dict String (Option String × Option String)) × (expected_values t keys ≡ some out)
unfolding expected_values
expected_values-known t [] h = ([], refl)
expected_values-known t (k ∷ keys) h =
    let (e, first) = expected_value-known t k (h k (ground arith)) in
    let (out, rest) = expected_values-known t keys (λ j m. h j (ground (arith, m))) in
    ((k, e) ∷ out, rw (first, rest) refl)

module _ (R : Redis) (s : R.State) (reg : Registry) (cls : SinkClass) (rule : Record)
    (tenant datasource env : String) (written : Written) where
  -- A key of the record is known.
  recorded-IsKnown :
      (secret_digest : String → String) (f : FileSync) (prev : Option Target)
      (fresh : String → Bool) (k : String)
      → let t = target_after secret_digest f prev in
        contains (keep fresh (recorded_keys (some t))) k ≡ true → IsKnown t k
  recorded-IsKnown secret_digest f prev fresh k m =
      let t = target_after secret_digest f prev in
      ground (
        arith,
        m,
        contains-keep fresh (recorded_keys (some t)) k,
        contains-append (inventory (entries_of (some t))) (Dict.keys t.pending_prune) k,
        target_after-inventory secret_digest f prev k,
        contains-keys t.pending_prune k,
      )

  -- When the target is one that record_target left, and Redis, the rules and the sink's class answer,
  -- _stale_keys returns: no lookup of an expected value fails.
  pub stale_keys-returns :
      (secret_digest : String → String) (f : FileSync) (prev : Option Target) (space : String)
      (envs : List String) (others : List TargetId × List String) (h : Held)
      → get_target R s tenant datasource env ≡ some (some (target_after secret_digest f prev))
      → key_space_id cls rule tenant env ≡ some space
      → list_envs R s tenant datasource ≡ some envs
      → other_envs R s reg cls rule tenant datasource env space envs ≡ some others
      → keys_held_elsewhere R s reg cls space
          (self R s reg cls rule tenant datasource env written ∷ others.0)
          tenant
        ≡ some h
      → (r : Stale) × (stale_keys R s reg cls rule tenant datasource env written ≡ some r)
  unfolding stale_keys
  stale_keys-returns secret_digest f prev space envs others h g p l o e =
      let t = target_after secret_digest f prev in
      let fresh : String → Bool = λ key. not (
        contains (new_keys R s reg cls rule tenant datasource env written (some t) others.1 h.held)
          key) in
      let (out, looked) =
        expected_values-known t (keep fresh (recorded_keys (some t)))
          (recorded-IsKnown secret_digest f prev fresh) in
      rw (g, p, l, o, e)
        (
          record {
            keys = keep fresh (recorded_keys (some t));
            expected = out;
            sharers = h.sharers;
          },
          rw looked refl,
        )
