-- ===== src/Rule/Errors.antt =====
-- What apply_repo_overrides raises.
use mathlib.Core.Path.{subst}
use var_track.Prelude.{
  ℕ, ◌<◌, String, ◌≡◌, ◌≢◌, refl, ap, ◌⊎◌, inl, inr, true, Option, none, some, List, length, arith,
  Bool-cases, if-cases, is_empty,
}
use var_track.Value.{Value, null, bool, num, text, list, dict, Fields, Record, to_dict, truthy}
use var_track.Rule.{RuleOptions}
use var_track.Rule.Layers.{can_merge, apply_force}
use var_track.Rule.Getters.{value_at}
use var_track.Rule.PresetNames.{origin_of}
use var_track.Rule.Presets.{
  Outside, Outcome, ok, fault, Fault, preset_error, repo_config_error, recursion_error, type_error,
  other_error, ◌>>=◌, PresetCache, token_of, merge_or_raise,
}
use var_track.Rule.Chains.{knows}
use var_track.Rule.Ending.{GitFaults, Closed, resolve_presets-ends}
use var_track.Rule.Overrides.{
  Context, with_file, with_presets, as_overrides, overrides_in, as_repo_config_error, resolved_to,
  apply_repo_overrides, first_file, laid_over, applicable, vartrack_json_names,
}

-- A RepoConfigError, an error of git, or the TypeError of patterns that cannot be hashed
abbrev pub IsStop : Fault → Type 0
IsStop e = (e ≡ repo_config_error) ⊎ (e ≡ other_error) ⊎ (e ≡ type_error)

abbrev Stops : {A : Type 0} → Outcome A → Type 0
Stops (ok a) = Unit
Stops (fault e) = IsStop e

Stops->>= :
    {A B : Type 0} (m : Outcome A) (f : A → Outcome B)
    → Stops m
    → ((a : A) → m ≡ ok a → Stops (f a))
    → Stops (m >>= f)
Stops->>= (ok a) f h k = k a refl
Stops->>= (fault e) f h k = h

as_repo_config_error-IsStop : (e : Fault) → e ≢ recursion_error → IsStop (as_repo_config_error e)
as_repo_config_error-IsStop preset_error h = inl refl
as_repo_config_error-IsStop repo_config_error h = inl refl
as_repo_config_error-IsStop recursion_error h = absurd (h refl)
as_repo_config_error-IsStop other_error h = inr (inl refl)
as_repo_config_error-IsStop type_error h = inr (inr refl)

resolved_to-Stops :
    (m : Outcome (Record × PresetCache)) → m ≢ fault recursion_error → Stops (resolved_to m)
resolved_to-Stops (ok (settings, cache)) h = tt
resolved_to-Stops (fault e) h = as_repo_config_error-IsStop e (λ p. h (ap fault p))

as_overrides-Stops : (v : Option Value) → Stops (as_overrides v)
unfolding as_overrides
as_overrides-Stops (some (dict fs)) = tt
as_overrides-Stops none = inl refl
as_overrides-Stops (some null) = inl refl
as_overrides-Stops (some (bool b)) = inl refl
as_overrides-Stops (some (num n)) = inl refl
as_overrides-Stops (some (text s)) = inl refl
as_overrides-Stops (some (list vs)) = inl refl

as_overrides-dict :
    (v : Option Value) (d : Record)
    → as_overrides v ≡ ok d
    → (fs : Fields) × (v ≡ some (dict fs)) × (to_dict fs ≡ d)
unfolding as_overrides
as_overrides-dict (some (dict fs)) d h = (fs, refl, ground (arith, h))
as_overrides-dict none d h = absurd (ground (arith, h))
as_overrides-dict (some null) d h = absurd (ground (arith, h))
as_overrides-dict (some (bool b)) d h = absurd (ground (arith, h))
as_overrides-dict (some (num n)) d h = absurd (ground (arith, h))
as_overrides-dict (some (text s)) d h = absurd (ground (arith, h))
as_overrides-dict (some (list vs)) d h = absurd (ground (arith, h))

-- The vartrack.json that is found names known presets.
abbrev pub NamesKnown : Outside → RuleOptions → Record → List String → Context → Type 0
NamesKnown w o bundle known ctx =
    (content : String) (fs : Fields)
    → first_file w o bundle ctx vartrack_json_names ≡ ok (some content)
    → w.loads content ≡ some (dict fs)
    → knows known (to_dict fs) ≡ true

module _ (w : Outside) (o : RuleOptions) (bundle : Record) (known : List String) (git : GitFaults w)
    (closed : Closed w o bundle known) where
  laid_over-Stops : (ctx : Context) (s : Record) → Stops (laid_over w o bundle ctx s)
  unfolding laid_over merge_or_raise
  laid_over-Stops ctx s =
      if-cases Stops (is_empty (applicable w o bundle s)) _ _ (λ _. tt)
        (λ _.
          if-cases
            (λ (m : Outcome Record).
              Stops (m >>= (λ rule. ok (record ctx { rule_config = apply_force o rule }))))
            (can_merge o ctx.rule_config (applicable w o bundle s)) _ _ (λ _. tt)
            (λ _. inr (inr refl)))

  with_presets-Stops :
      (n : ℕ) (ctx : Context) (d : Record)
      → knows known d ≡ true
      → length known < n
      → Stops (with_presets w o bundle n ctx d)
  unfolding with_presets
  with_presets-Stops n ctx d k bound = elim (Bool-cases (truthy (value_at d "extends"))) [
    | inr without ↦ rw without tt
    | inl extends ↦ rw extends (
        resolved_to-Stops _ (
          resolve_presets-ends w o bundle known git closed n d
            (origin_of w.urlparse ctx.repo_url (token_of (value_at ctx.rule_config "token"))) k
            bound))
  ]

  with_file-Stops :
      (n : ℕ) (ctx : Context) (found : Outcome (Option String))
      → ((content : String) (fs : Fields)
          → found ≡ ok (some content)
          → w.loads content ≡ some (dict fs)
          → knows known (to_dict fs) ≡ true)
      → length known < n
      → Stops (with_file w o bundle n ctx found)
  unfolding with_file
  with_file-Stops n ctx (fault e) h bound = tt
  with_file-Stops n ctx (ok none) h bound = tt
  with_file-Stops n ctx (ok (some content)) h bound =
      Stops->>= (overrides_in w o bundle content) _ (as_overrides-Stops (w.loads content)) (λ d e.
        let (fs, f, same) = as_overrides-dict (w.loads content) d e in
        Stops->>= (with_presets w o bundle n ctx d) _
          (with_presets-Stops n ctx d (rw (← same) (h content fs refl f)) bound)
          (λ s g. laid_over-Stops ctx s))

  -- An error of apply_repo_overrides is a RepoConfigError, an error of git while it reads presets, or the
  -- TypeError of merge_child on a protection pattern that is a list or a dict: no PresetError gets out, and the resolution of presets ends, in as many calls as one more than there are
  -- names of presets; when git holds only presets that name these, and so does the vartrack.json.
  pub apply_repo_overrides-IsStop :
      (n : ℕ) (ctx : Context) (e : Fault)
      → NamesKnown w o bundle known ctx
      → length known < n
      → apply_repo_overrides w o bundle n ctx ≡ fault e
      → IsStop e
  unfolding apply_repo_overrides
  apply_repo_overrides-IsStop n ctx e h bound raised =
      subst Stops raised
        (with_file-Stops n ctx (first_file w o bundle ctx vartrack_json_names) h bound)
