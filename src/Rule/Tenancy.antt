-- ===== src/Rule/Tenancy.antt =====
-- The two ways to the rules of a tenant: all of them, and one of them.
use mathlib.Core.Path.{ap₂}
use var_track.Prelude.{
  String, ◌≡◌, refl, sym, ap, ◌∙◌, inl, inr, Bool, true, false, not, ◌||◌, ◌&&◌, Option, none, some,
  List, [], ◌∷◌, contains, string_eq, if◌then◌else◌, is_empty, arith, All, Bool-cases, if-cases,
}
use var_track.Prelude.Dict
use var_track.Prelude.Dict.{Dict, IsDict, is_some}
use var_track.Value.{Value, text, Record, or_null, same, among}
use var_track.Rule.{RuleOptions}
use var_track.Rule.Renaming.{IsRenaming}
use var_track.Rule.Getters.{Conversions, value_at}
use var_track.Rule.Layers.{layered_rule, admin_only_keys}
use var_track.Rule.Identity.{
  IsPlain, text-same, same-like, same-text_sym, get-layered_plain, get-bare_plain,
}
use var_track.Rule.Tenants.{
  cue_rules, is_for, find, allowed, tenants_of, owner, first_or, Claim, is_claimed, unclaimed,
  layer_of, layered_rules, bare_rules, tenant_rules, without_layer, rule_over, rule_for,
}
use var_track.Rule.Finding.{find-append, find-is_for, find-none, IsSingle}

module _ (o : RuleOptions) (c : Conversions) (bundle : Record) (tenant platform datasource : String)
    (renaming : IsRenaming o.renamed) (plain_platform : IsPlain o "platform")
    (plain_datasource : IsPlain o "datasource") where
  -- Layered or not, a rule is for what it was for.
  is_for-bare :
      (cue : Record)
      → is_for (text platform) (text datasource) (layered_rule o c bundle cue none tenant)
        ≡ is_for (text platform) (text datasource) cue
  is_for-bare cue =
      rw
        (
          get-bare_plain o c bundle cue tenant "platform" renaming plain_platform,
          get-bare_plain o c bundle cue tenant "datasource" renaming plain_datasource,
        )
        refl

  same-layered :
      (cue rule : Record) (k s : String)
      → IsPlain o k
      → IsDict rule
      → same (value_at cue k) (value_at rule k) ≡ true
      → same (value_at (layered_rule o c bundle cue (some rule) tenant) k) (text s)
        ≡ same (value_at rule k) (text s)
  same-layered cue rule k s plain u h =
      ap (λ v. same (or_null v) (text s))
        (get-layered_plain o c bundle cue rule tenant k renaming plain u)
      ∙ if-cases (λ v. same (or_null v) (text s) ≡ same (value_at rule k) (text s))
          (not (contains (admin_only_keys o) k) && Dict.has rule k) (Dict.get rule k)
          (Dict.get cue k) (λ g. refl) (λ g. same-like (value_at cue k) (value_at rule k) s h)

  is_for-layered :
      (cue rule : Record)
      → IsDict rule
      → is_for (value_at rule "platform") (value_at rule "datasource") cue ≡ true
      → is_for (text platform) (text datasource) (layered_rule o c bundle cue (some rule) tenant)
        ≡ is_for (text platform) (text datasource) rule
  is_for-layered cue rule u h =
      let p = same-layered cue rule "platform" platform plain_platform u (ground (arith, h)) in
      let d =
        same-layered cue rule "datasource" datasource plain_datasource u (ground (arith, h)) in
      ground (arith, p, d)

  -- What the rule found in a bundle.json gives over the one found in config.cue
  abbrev over : Option Record → Option Record → Option Record
  over none r = none
  over (some cue) none = none
  over (some cue) (some rule) =
      if allowed cue tenant then some (layered_rule o c bundle cue (some rule) tenant) else none

  over-none : (found : Option Record) → none ≡ over found none
  over-none none = refl
  over-none (some cue) = refl

  over-blocked :
      (cue : Record) (r : Option Record) → allowed cue tenant ≡ false → over (some cue) r ≡ none
  over-blocked cue none h = refl
  over-blocked cue (some rule) h = rw h refl

  -- config.cue's rule for a rule that is for the platform and the datasource
  find-mine :
      (cues : List Record) (rule : Record)
      → is_for (text platform) (text datasource) rule ≡ true
      → find cues (value_at rule "platform") (value_at rule "datasource")
        ≡ find cues (text platform) (text datasource)
  find-mine cues rule h =
      let p = text-same platform (value_at rule "platform") (ground (arith, h)) in
      let d = text-same datasource (value_at rule "datasource") (ground (arith, h)) in
      ap₂ (find cues) p d

  abbrev mine : Record → Bool
  mine rule = is_for (text platform) (text datasource) rule

  abbrev found_in : List Record → Option Record
  found_in rules = find rules (text platform) (text datasource)

  find-mine_layer :
      (cues rules : List Record) (rule : Record) (found : Option Record) (rest : List Record)
      → IsDict rule
      → mine rule ≡ true
      → find cues (value_at rule "platform") (value_at rule "datasource") ≡ found
      → found_in rest ≡ over found (found_in rules)
      → found_in (layer_of o c bundle tenant rule found rest) ≡ over found (some rule)
  unfolding find layer_of
  find-mine_layer cues rules rule none rest u m e h = h
  find-mine_layer cues rules rule (some cue) rest u m e h = elim (Bool-cases (allowed cue tenant)) [
    | inl may ↦
        let l =
          is_for-layered cue rule u
            (find-is_for cues (value_at rule "platform") (value_at rule "datasource") cue e) in
        rw may (rw (l ∙ m) refl)
    | inr may_not ↦ rw may_not (h ∙ over-blocked cue (found_in rules) may_not)
  ]

  find-other_layer :
      (cues : List Record) (rule : Record) (found : Option Record) (rest : List Record)
      → IsDict rule
      → mine rule ≡ false
      → find cues (value_at rule "platform") (value_at rule "datasource") ≡ found
      → found_in (layer_of o c bundle tenant rule found rest) ≡ found_in rest
  unfolding find layer_of
  find-other_layer cues rule none rest u m e = refl
  find-other_layer cues rule (some cue) rest u m e = elim (Bool-cases (allowed cue tenant)) [
    | inl may ↦
        let l =
          is_for-layered cue rule u
            (find-is_for cues (value_at rule "platform") (value_at rule "datasource") cue e) in
        rw may (rw (l ∙ m) refl)
    | inr may_not ↦ rw may_not refl
  ]

  find-layered_rules :
      (cues rules : List Record)
      → All IsDict rules
      → found_in (layered_rules o c bundle tenant cues rules)
        ≡ over (found_in cues) (found_in rules)
  unfolding layered_rules find
  find-layered_rules cues [] u = over-none (found_in cues)
  find-layered_rules cues (rule ∷ rules) (first, u) =
      let rest = layered_rules o c bundle tenant cues rules in
      let found = find cues (value_at rule "platform") (value_at rule "datasource") in
      let later = find-layered_rules cues rules u in
      elim (Bool-cases (mine rule)) [
        | inl m ↦
            let e = find-mine cues rule m in
            rw m (
              find-mine_layer cues rules rule found rest first m refl
                (later ∙ ap (λ f. over f (found_in rules)) (sym e))
              ∙ ap (λ f. over f (some rule)) e)
        | inr m ↦ rw m (find-other_layer cues rule found rest first m refl ∙ later)
      ]

  -- The config.cue rule that has no layer
  abbrev bare : List Claim → Option Record → Option Record
  bare claims none = none
  bare claims (some cue) = without_layer o c bundle tenant cue claims

  -- One more rule of config.cue before the others
  found-bare_rule :
      (cue : Record) (cues : List Record)
      → found_in (bare_rules o c bundle tenant (cue ∷ cues)) ≡ (
          if same (owner cue) (text tenant) && mine cue
          then some (layered_rule o c bundle cue none tenant)
          else found_in (bare_rules o c bundle tenant cues))
  unfolding bare_rules find
  found-bare_rule cue cues = elim (Bool-cases (same (owner cue) (text tenant))) [
    | inl owned ↦ rw owned (rw (is_for-bare cue) refl)
    | inr other ↦ rw other refl
  ]

  find-bare_rules :
      (cues : List Record) (claims : List Claim)
      → IsSingle (text platform) (text datasource) cues
      → found_in (bare_rules o c bundle tenant (unclaimed cues claims))
        ≡ bare claims (found_in cues)
  unfolding bare_rules find without_layer
  find-bare_rules [] claims s = refl
  find-bare_rules (cue ∷ cues) claims (single, s) =
      let later = find-bare_rules cues claims s in
      let kept = unclaimed cues claims in
      elim (Bool-cases (is_claimed cue claims)) [
        | inl taken ↦ elim (Bool-cases (mine cue)) [
          | inl m ↦
              let absent =
                find-none cues (text platform) (text datasource) (ground (arith, single, m)) in
              rw (taken, m) (later ∙ ap (bare claims) absent ∙ ground (arith, taken))
          | inr m ↦ rw (taken, m) later
        ]
        | inr free ↦ elim (Bool-cases (mine cue)) [
          | inl m ↦
              let absent =
                find-none cues (text platform) (text datasource) (ground (arith, single, m)) in
              rw (free, m)
                (found-bare_rule cue kept
                  ∙ ground (arith, free, m, later ∙ ap (bare claims) absent))
          | inr m ↦ rw (free, m) (found-bare_rule cue kept ∙ ground (arith, m, later))
        ]
      ]

  not_owner : (cue : Record) → allowed cue tenant ≡ false → same (owner cue) (text tenant) ≡ false
  unfolding owner
  not_owner cue h = go (tenants_of cue) h
    where
      go :
          (vs : List Value)
          → (is_empty vs || among vs (text tenant)) ≡ false
          → same (first_or (text "default") vs) (text tenant) ≡ false
      go [] h = absurd (ground (arith, h))
      go (v ∷ vs) h = ground (arith, h, same-text_sym v tenant)

  rule_over-bare :
      (found r : Option Record) (claims : List Claim)
      → (if is_some (over found r) then over found r else bare claims found)
        ≡ rule_over o c bundle tenant found r claims
  unfolding rule_over without_layer
  rule_over-bare none r claims = refl
  rule_over-bare (some cue) none claims = refl
  rule_over-bare (some cue) (some rule) claims = elim (Bool-cases (allowed cue tenant)) [
    | inl may ↦ rw may refl
    | inr may_not ↦ rw may_not (ground (arith, not_owner cue may_not))
  ]

  -- The rule that rule_for gives for a platform and a datasource is the first one for them of the tenant's
  -- rules; when platform and datasource are neither renamed, merged, removed nor forced, renames are not
  -- chained, each key of a tenant's rule is there once, and config.cue has no two rules for them.
  pub find-tenant_rules :
      (rules : List Record) (claims : List Claim)
      → All IsDict rules
      → IsSingle (text platform) (text datasource) (cue_rules bundle)
      → find (tenant_rules o c bundle tenant rules claims) (text platform) (text datasource)
        ≡ rule_for o c bundle tenant platform datasource
            (find rules (text platform) (text datasource))
            claims
  unfolding tenant_rules rule_for
  find-tenant_rules rules claims u s = elim (Bool-cases (is_empty (cue_rules bundle))) [
    | inl bare_bundle ↦ rw bare_bundle refl
    | inr some_rules ↦
        let cues = cue_rules bundle in
        rw some_rules (
          find-append (layered_rules o c bundle tenant cues rules)
            (bare_rules o c bundle tenant (unclaimed cues claims)) (text platform) (text datasource)
          ∙ rw (find-layered_rules cues rules u, find-bare_rules cues claims s)
              (rule_over-bare (found_in cues) (found_in rules) claims))
  ]
