-- ===== src/Prune/Account.antt =====
-- Every stale key is accounted for.
use mathlib.Core.Option.{some-injective}
use var_track.Prelude.{
  ℕ, String, ◌≡◌, sym, ap, ◌∙◌, refl, ◌⊎◌, true, false, Option, none, some, List, [], ◌∷◌, arith,
  contains, contains-keep, is_empty, string_eq, inl, inr, Bool-cases, if◌then◌else◌,
}
use var_track.Prelude.Dict
use var_track.Prelude.Dict.{Dict}
use var_track.Prelude.Order.{sorted_set}
use var_track.Ledger.{Live, key_state, value}
use var_track.Payload.{PruneConfig}
use var_track.Sink.{Reply, done, raised, Sink}
use var_track.Prune.Stale.{Stale}
use var_track.Prune.Environment.{
  PruneOutcome, Verdict, is_delete, is_skip, unprotected, verdict, verdict_on, deletable, skippable,
  settle, delete_live, delete_stale, prune_stale,
}

-- Only a key that the sink does not hold is left without a word.
verdict_leave :
    (secret_digest : String → String) (expected : Option (Option String × Option String))
    (live : Option Live)
    → is_delete (verdict secret_digest expected live) ≡ false
    → is_skip (verdict secret_digest expected live) ≡ false
    → live ≡ none
unfolding verdict key_state
verdict_leave secret_digest (some (some w, none)) (some (value now)) h q = ground arith
verdict_leave secret_digest (some (some w, some d)) (some (value now)) h q = ground arith
verdict_leave secret_digest (some (some w, d)) (some Live.unreadable) h q = ground arith
verdict_leave secret_digest (some (some w, d)) none h q = refl
verdict_leave secret_digest (some (none, d)) live h q = ground arith
verdict_leave secret_digest none live h q = ground arith

one_verdict : (v : Verdict) → is_delete v ≡ true → is_skip v ≡ false
one_verdict v h = ground arith

not-empty : (xs : List String) (a : String) → contains xs a ≡ true → is_empty xs ≡ false
not-empty [] a h = ground arith
not-empty (x ∷ xs) a h = refl

module _ (secret_digest : String → String) (K : Sink) (datasource env : String) (k : K.State) where
  delete_live-skipped :
      (stale : Stale) (keys shared : List String) (live : Dict String Live) (o : PruneOutcome)
      → (delete_live secret_digest K k stale keys datasource env shared (done live)).1 ≡ some o
      → o.skipped ≡ skippable secret_digest K stale live keys
  unfolding delete_live
  delete_live-skipped stale keys shared live o e =
      elim (Bool-cases (is_empty (deletable secret_digest K stale live keys))) [
        | inl nothing ↦
            ap (λ (x : PruneOutcome). x.skipped) (sym (some-injective _ o (rw nothing at e)))
        | inr more ↦
            settled (K.delete_keys k (deletable secret_digest K stale live keys) datasource env).1
              (rw more at e)
      ]
    where
      settled :
          (reply : Reply ℕ)
          → ◌≡◌ {A = Option PruneOutcome}
              (some (
                settle
                  (deletable secret_digest K stale live keys)
                  (skippable secret_digest K stale live keys)
                  shared
                  reply))
              (some o)
          → o.skipped ≡ skippable secret_digest K stale live keys
      settled (done n) e = ap (λ (x : PruneOutcome). x.skipped) (sym (some-injective _ o e))
      settled (raised m) e = ap (λ (x : PruneOutcome). x.skipped) (sym (some-injective _ o e))

  prune_stale-wet :
      (cfg : PruneConfig) (stale : Stale)
      → is_empty (unprotected cfg stale.keys) ≡ false
      → cfg.dry_run ≡ false
      → prune_stale secret_digest K cfg k (some stale) datasource env
        ≡ delete_stale secret_digest K k stale
            (unprotected cfg stale.keys)
            datasource
            env
            (sorted_set stale.sharers)
  unfolding prune_stale
  prune_stale-wet cfg stale more wet = ground arith

  prune_stale-skipped :
      (cfg : PruneConfig) (stale : Stale) (live : Dict String Live) (o : PruneOutcome)
      (key : String)
      → cfg.dry_run ≡ false
      → K.read_values k true (unprotected cfg stale.keys) datasource env ≡ done live
      → (prune_stale secret_digest K cfg k (some stale) datasource env).1 ≡ some o
      → contains (unprotected cfg stale.keys) key ≡ true
      → o.skipped ≡ skippable secret_digest K stale live (unprotected cfg stale.keys)
  unfolding delete_stale
  prune_stale-skipped cfg stale live o key wet read e m =
      let keys = unprotected cfg stale.keys in
      let runs = prune_stale-wet cfg stale (not-empty keys key m) wet in
      delete_live-skipped stale keys (sorted_set stale.sharers) live o (rw read at (rw runs at e))

  delete_live-deleted :
      (stale : Stale) (keys shared : List String) (live : Dict String Live)
      → let to_delete = deletable secret_digest K stale live keys in
        (delete_live secret_digest K k stale keys datasource env shared (done live)).0
        ≡ (if is_empty to_delete then k else (K.delete_keys k to_delete datasource env).0)
  unfolding delete_live
  delete_live-deleted stale keys shared live =
      elim (Bool-cases (is_empty (deletable secret_digest K stale live keys))) [
        | inl nothing ↦ rw nothing refl
        | inr more ↦ rw more refl
      ]

  prune_stale-deleted :
      (cfg : PruneConfig) (stale : Stale) (live : Dict String Live)
      → is_empty (unprotected cfg stale.keys) ≡ false
      → cfg.dry_run ≡ false
      → K.read_values k true (unprotected cfg stale.keys) datasource env ≡ done live
      → let to_delete = deletable secret_digest K stale live (unprotected cfg stale.keys) in
        (prune_stale secret_digest K cfg k (some stale) datasource env).0
        ≡ (if is_empty to_delete then k else (K.delete_keys k to_delete datasource env).0)
  unfolding delete_stale
  prune_stale-deleted cfg stale live more wet read =
      ap (λ (x : K.State × Option PruneOutcome). x.0) (prune_stale-wet cfg stale more wet)
      ∙ ap
          (λ (r : Reply (Dict String Live)).
            (delete_live secret_digest K k stale (unprotected cfg stale.keys) datasource env
              (sorted_set stale.sharers) r).0)
          read
      ∙ delete_live-deleted stale (unprotected cfg stale.keys) (sorted_set stale.sharers) live

  -- Where a stale key is: deleted, skipped, or not in the sink
  abbrev pub Accounted : Dict String Live → List String → PruneOutcome → String → Type 0
  Accounted live to_delete o key =
      let deleted = contains to_delete key in
      let skipped = contains o.skipped key in
      ((deleted ≡ true) × (skipped ≡ false))
      ⊎ ((deleted ≡ false) × (skipped ≡ true))
      ⊎ ((deleted ≡ false) × (skipped ≡ false) × (Dict.get live key ≡ none))

  -- A prune that is no dry run, has stale keys that are not protected and can read the sink makes one call of
  -- `delete_keys`, or none where it has nothing to delete, and leaves the sink as that call does. Every stale key that is not protected is, and is
  -- only, one of these: in that call, in the outcome's `skipped`, or not in the sink.
  pub prune_stale-accounts :
      (cfg : PruneConfig) (stale : Stale) (live : Dict String Live) (o : PruneOutcome)
      → is_empty (unprotected cfg stale.keys) ≡ false
      → cfg.dry_run ≡ false
      → K.read_values k true (unprotected cfg stale.keys) datasource env ≡ done live
      → (prune_stale secret_digest K cfg k (some stale) datasource env).1 ≡ some o
      → (to_delete : List String) × ((prune_stale secret_digest K cfg k
            (some stale)
            datasource
            env).0
          ≡ (if is_empty to_delete then k else (K.delete_keys k to_delete datasource env).0))
        × ((key : String)
            → contains (unprotected cfg stale.keys) key ≡ true
            → Accounted live to_delete o key)
  prune_stale-accounts cfg stale live o more wet read e =
      let keys = unprotected cfg stale.keys in
      (
        deletable secret_digest K stale live keys,
        prune_stale-deleted cfg stale live more wet read,
        λ key m.
            let v = verdict_on secret_digest K stale live key in
            let told = prune_stale-skipped cfg stale live o key wet read e m in
            let in_deletable =
              contains-keep (λ x. is_delete (verdict_on secret_digest K stale live x)) keys key in
            let in_skippable =
              contains-keep (λ x. is_skip (verdict_on secret_digest K stale live x)) keys key in
            rw told (
              ground (
                arith,
                in_deletable,
                in_skippable,
                m,
                one_verdict v,
                verdict_leave secret_digest (Dict.get stale.expected key) (Dict.get live key),
              )),
      )
