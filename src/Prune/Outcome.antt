-- ===== src/Prune/Outcome.antt =====
-- The properties of one call of `_prune_environment`.
use mathlib.Core.Option.{some-injective}
use var_track.Prelude.{
  String, ◌≡◌, sym, refl, ◌⊎◌, true, false, not, ◌||◌, Option, none, some, List, [], ◌∷◌, arith,
  contains, is_empty, string_eq, option_eq, >>=-eq-some, inl, inr, if-cases,
}
use var_track.Prelude.Dict
use var_track.Prelude.Dict.{Dict, or_else}
use var_track.Prelude.Order.{sorted_set}
use var_track.Value.{Record}
use var_track.Ledger.{Target, Redis}
use var_track.Payload.{PruneConfig}
use var_track.Sink.{Sink}
use var_track.Prune.Stale.{
  Registry, Stale, Written, expected_value, expected_values, stale_keys, no_target,
}
use var_track.Prune.Safety.{stale_keys-run}
use var_track.Prune.Environment.{PruneOutcome, unprotected, prune_stale, prune_environment}
use var_track.Prune.Deletion.{Deletion, delete_stale_cases}

has-expected_values :
    (t : Target) (keys : List String) (out : Dict String (Option String × Option String))
    (k : String)
    → expected_values t keys ≡ some out
    → contains keys k ≡ true
    → Dict.has out k ≡ true
unfolding expected_values Dict.get
has-expected_values t [] out k e p = ground arith
has-expected_values t (x ∷ keys) out k e p =
    let (v, e1, k1) = >>=-eq-some (expected_value t x) _ e in
    let (rest, e2, k2) = >>=-eq-some (expected_values t keys) _ k1 in
    let o : (x, v) ∷ rest ≡ out = some-injective ((x, v) ∷ rest) out k2 in
    rw (sym o) (ground (arith, has-expected_values t keys rest k e2))

module _ (secret_digest : String → String) (K : Sink) where
  module _ (cfg : PruneConfig) (datasource env : String) (k : K.State) where
    abbrev Safe : Stale → K.State → Type 0
    Safe stale k' =
        (k' ≡ k) ⊎ (cfg.dry_run ≡ false) × Deletion secret_digest K cfg stale datasource env k k'

    prune_stale_cases :
        (stale : Stale)
        → Safe stale (prune_stale secret_digest K cfg k (some stale) datasource env).0
    unfolding prune_stale
    prune_stale_cases stale =
        if-cases (λ (o : K.State × Option PruneOutcome). Safe stale o.0)
          (is_empty (unprotected cfg stale.keys)) _ _ (λ _. inl refl)
          (λ _.
            if-cases (λ (o : K.State × Option PruneOutcome). Safe stale o.0) cfg.dry_run _ _
              (λ _. inl refl)
              (λ wet. deletes_only wet (
                delete_stale_cases secret_digest K cfg stale datasource env k
                  (sorted_set stale.sharers))))
      where
        deletes_only :
            {k' : K.State}
            → cfg.dry_run ≡ false
            → (k' ≡ k) ⊎ Deletion secret_digest K cfg stale datasource env k k'
            → Safe stale k'
        deletes_only wet (inl same) = inl same
        deletes_only wet (inr deletion) = inr (wet, deletion)

  module _ (R : Redis) (s : R.State) (reg : Registry) (rule : Record) where
    -- What is left of a call that may delete.
    abbrev pub Deletes : PruneConfig → String → String → Option Stale → K.State → K.State → Type 0
    Deletes cfg datasource env read k k' =
        (k' ≡ k)
        ⊎ ((stale : Stale) × (read ≡ some stale)
            × (cfg.enabled ≡ true)
            × (cfg.dry_run ≡ false)
            × Deletion secret_digest K cfg stale datasource env k k')

    prune_read_cases :
        (cfg : PruneConfig) (datasource env : String) (read : Option Stale) (k : K.State)
        → cfg.enabled ≡ true
        → Deletes cfg datasource env read k
            (prune_stale secret_digest K cfg k read datasource env).0
    unfolding prune_stale
    prune_read_cases cfg datasource env none k on = inl refl
    prune_read_cases cfg datasource env (some stale) k on =
        elim (prune_stale_cases cfg datasource env k stale) [
          | inl same ↦ inl same
          | inr (wet, deletion) ↦ inr (stale, refl, on, wet, deletion)
        ]

    -- A prune leaves the sink as it was, or makes one call of `delete_keys`. Then pruning is enabled and
    -- no dry run, and each key that the call gets is stale and not protected, and the sink still holds
    -- under it what varTrack wrote, or never tells.
    pub prune_environment-Deletes :
        (cfg : PruneConfig) (tenant datasource env : String) (written : Written) (k : K.State)
        → Deletes cfg datasource env
            (stale_keys R s reg K.cls rule tenant datasource env written)
            k
            (prune_environment secret_digest K R s reg rule cfg k tenant datasource env written).0
    unfolding prune_environment
    prune_environment-Deletes cfg tenant datasource env written k =
        let read = stale_keys R s reg K.cls rule tenant datasource env written in
        if-cases (λ (o : K.State × Option PruneOutcome). Deletes cfg datasource env read k o.0)
          (not cfg.enabled || not (K.cls.prunes_keys rule)) _ _ (λ _. inl refl)
          (λ on. prune_read_cases cfg datasource env read k (ground arith))

    -- Every key that a prune lists has an expected value: `expected[key]` does not raise.
    pub stale-has-expected :
        (tenant datasource env : String) (written : Written) (r : Stale) (key : String)
        → stale_keys R s reg K.cls rule tenant datasource env written ≡ some r
        → contains r.keys key ≡ true
        → Dict.has r.expected key ≡ true
    stale-has-expected tenant datasource env written r key e p =
        let run = stale_keys-run R s reg K.cls rule tenant datasource env written r e in
        has-expected_values (or_else run.found no_target) r.keys r.expected key run.expected p
