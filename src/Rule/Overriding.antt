-- ===== src/Rule/Overriding.antt =====
-- What a vartrack.json can change in the rule of its repository.
use var_track.Prelude.{
  ℕ, String, ◌≡◌, refl, ap, ◌∙◌, ◌⊎◌, inl, inr, true, false, Option, none, some, contains, ◌==◌,
  string_eq, if◌then◌else◌, is_empty, arith, sym, Bool-cases,
}
use var_track.Prelude.Dict
use var_track.Prelude.Dict.{Dict, IsDict, IsDict-keep_keys, get-keep_keys, set_default}
use var_track.Value.{Record, or_null, dict_fields}
use var_track.Rule.{RuleOptions}
use var_track.Rule.Renamed.{with_current_names}
use var_track.Rule.Getters.{value_at}
use var_track.Rule.Layers.{
  merge_child, can_merge, apply_force, admin_only_keys, base_rule, layered_rule,
}
use var_track.Rule.Merging.{get-merge_child_other}
use var_track.Rule.Forcing.{
  forced, get-apply_force, forced-same, get-layered_rule-forced, get-layered_rule_admin,
  force_apart,
}
use var_track.Rule.Presets.{Outside, Outcome, ok, fault, merge_or_raise}
use var_track.Rule.Chains.{>>=-eq-ok}
use var_track.Rule.Overrides.{
  Context, applicable, laid_over, with_file, with_presets, apply_repo_overrides, first_file,
  vartrack_json_names, overrides_in,
}

ok-injective : (a b : Context) → Outcome.ok a ≡ ok b → a ≡ b
ok-injective a b e = cc

module _ (w : Outside) (o : RuleOptions) (bundle : Record) where
  has-applicable :
      (overrides : Record) (k : String)
      → contains o.repo_overridable k ≡ false
      → Dict.has (applicable w o bundle overrides) k ≡ false
  unfolding applicable
  has-applicable overrides k h = ground (
    arith,
    get-keep_keys (contains o.repo_overridable) (with_current_names o.renamed overrides) k,
    h,
  )

  -- A rule over which nothing is laid, or settings that a repository may set, and the forced keys again
  abbrev IsLaid : Context → Context → Type 0
  IsLaid ctx out =
      (out ≡ ctx)
      ⊎ ((c : Record) × ((k : String)
            → contains o.repo_overridable k ≡ false
            → Dict.has c k ≡ false)
          × (out.rule_config ≡ apply_force o (merge_child o ctx.rule_config c)))

  laid_over-IsLaid :
      (ctx out : Context) (overrides : Record)
      → laid_over w o bundle ctx overrides ≡ ok out
      → IsLaid ctx out
  unfolding laid_over merge_or_raise
  laid_over-IsLaid ctx out overrides h =
      let c = applicable w o bundle overrides in
      elim (Bool-cases (is_empty c)) [
        | inl nothing ↦ inl (ground (arith, rw nothing at h))
        | inr there ↦ elim (Bool-cases (can_merge o ctx.rule_config c)) [
          | inl merges ↦ inr (
            c,
            has-applicable overrides,
            ap (λ (x : Context). x.rule_config)
                (sym (ok-injective _ out (rw (there, merges) at h))),
          )
          | inr clashes ↦ absurd (ground (arith, rw (there, clashes) at h))
        ]
      ]

  with_file-IsLaid :
      (n : ℕ) (ctx out : Context) (found : Outcome (Option String))
      → with_file w o bundle n ctx found ≡ ok out
      → IsLaid ctx out
  unfolding with_file
  with_file-IsLaid n ctx out (fault e) h = inl (ground (arith, h))
  with_file-IsLaid n ctx out (ok none) h = inl (ground (arith, h))
  with_file-IsLaid n ctx out (ok (some content)) h =
      let (overrides, _, k) = >>=-eq-ok (overrides_in w o bundle content) _ h in
      let (settings, _, l) = >>=-eq-ok (with_presets w o bundle n ctx overrides) _ k in
      laid_over-IsLaid ctx out settings l

module _ (w : Outside) (o : RuleOptions) (bundle cue : Record) (r : Option Record)
    (tenant : String) where
  abbrev pub layered : Record
  layered = layered_rule o w.conversions bundle cue r tenant

  abbrev pub base : Record
  base = base_rule o w.conversions bundle cue

  module _ (set : contains (admin_only_keys o) "force" ≡ true)
      (kept : contains o.repo_overridable "force" ≡ false)
      (unique_keys : IsDict (dict_fields (value_at base "force"))) where
    -- Where a vartrack.json is laid over the rule, the keys of `force` are as it says.
    get-laid :
        (c : Record) (k : String)
        → Dict.has c "force" ≡ false
        → Dict.get (apply_force o (merge_child o layered c)) k ≡ (
            if Dict.has (forced o base) k
            then Dict.get (forced o base) k
            else Dict.get (merge_child o layered c) k)
    get-laid c k h =
        let over = merge_child o layered c in
        let e : Dict.get over "force" ≡ Dict.get base "force" =
          get-merge_child_other o layered c "force" h
          ∙ get-layered_rule_admin o w.conversions bundle cue r tenant "force" set force_apart in
        get-apply_force o over k (rw (ap (λ v. dict_fields (or_null v)) e) unique_keys)
        ∙ rw (forced-same o over base e) refl

    -- Laid or not, a key that a repository may not set is as in the layered rule.
    get-laid_other :
        (ctx out : Context) (k : String)
        → ctx.rule_config ≡ layered
        → contains o.repo_overridable k ≡ false
        → IsLaid w o bundle ctx out
        → Dict.get out.rule_config k ≡ Dict.get layered k
    get-laid_other ctx out k e h (inl same) =
        ap (λ d. Dict.get d.rule_config k) same ∙ ap (λ d. Dict.get d k) e
    get-laid_other ctx out k e h (inr (c, without, laid)) = ground (
      arith,
      ap (λ d. Dict.get d k) laid,
      ap (λ d. Dict.get (apply_force o (merge_child o d c)) k) e,
      get-laid c k (without "force" kept),
      get-merge_child_other o layered c k (without k h),
      get-layered_rule-forced o w.conversions bundle cue r tenant k set unique_keys,
    )

    get-laid_forced :
        (ctx out : Context) (k : String)
        → ctx.rule_config ≡ layered
        → Dict.has (forced o base) k ≡ true
        → IsLaid w o bundle ctx out
        → Dict.get out.rule_config k ≡ Dict.get (forced o base) k
    get-laid_forced ctx out k e m (inl same) =
        ap (λ d. Dict.get d.rule_config k) same
        ∙ ap (λ d. Dict.get d k) e
        ∙ get-layered_rule-forced o w.conversions bundle cue r tenant k set unique_keys m
    get-laid_forced ctx out k e m (inr (c, without, laid)) = ground (
      arith,
      ap (λ d. Dict.get d k) laid,
      ap (λ d. Dict.get (apply_force o (merge_child o d c)) k) e,
      get-laid c k (without "force" kept),
      m,
    )

    -- A key that a repository may not set is as in the rule of config.cue and the tenant, whatever its
    -- vartrack.json says, when apply_repo_overrides returns; where only config.cue sets `force`, each key
    -- of which is there once.
    pub get-apply_repo_overrides_other :
        (n : ℕ) (ctx out : Context) (k : String)
        → ctx.rule_config ≡ layered
        → contains o.repo_overridable k ≡ false
        → apply_repo_overrides w o bundle n ctx ≡ ok out
        → Dict.get out.rule_config k ≡ Dict.get layered k
    unfolding apply_repo_overrides
    get-apply_repo_overrides_other n ctx out k e h ran =
        get-laid_other ctx out k e h (
          with_file-IsLaid w o bundle n ctx out (first_file w o bundle ctx vartrack_json_names) ran)

    -- A key that config.cue's rule forces has the forced value, whatever the tenant's bundle.json and the
    -- repository's vartrack.json say, when apply_repo_overrides returns; where only config.cue sets
    -- `force`, each key of which is there once.
    pub get-apply_repo_overrides-forced :
        (n : ℕ) (ctx out : Context) (k : String)
        → ctx.rule_config ≡ layered
        → Dict.has (forced o base) k ≡ true
        → apply_repo_overrides w o bundle n ctx ≡ ok out
        → Dict.get out.rule_config k ≡ Dict.get (forced o base) k
    unfolding apply_repo_overrides
    get-apply_repo_overrides-forced n ctx out k e m ran =
        get-laid_forced ctx out k e m (
          with_file-IsLaid w o bundle n ctx out (first_file w o bundle ctx vartrack_json_names) ran)

    -- A key that only config.cue sets is as its rule says, whatever the tenant's bundle.json, `force` and
    -- the repository's vartrack.json say, when apply_repo_overrides returns; for a key that a repository
    -- may not set and that is not tenant_id, where only config.cue sets `force`, each key of which is there
    -- once.
    pub get-apply_repo_overrides_admin :
        (n : ℕ) (ctx out : Context) (k : String)
        → ctx.rule_config ≡ layered
        → contains (admin_only_keys o) k ≡ true
        → contains o.repo_overridable k ≡ false
        → (k == "tenant_id") ≡ false
        → apply_repo_overrides w o bundle n ctx ≡ ok out
        → Dict.get out.rule_config k ≡ Dict.get base k
    get-apply_repo_overrides_admin n ctx out k e m h apart ran =
        get-apply_repo_overrides_other n ctx out k e h ran
        ∙ get-layered_rule_admin o w.conversions bundle cue r tenant k m apart
