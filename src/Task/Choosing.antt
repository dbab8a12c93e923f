-- ===== src/Task/Choosing.antt =====
-- The rule that `rule_config_for_datasource` of app/pipeline/schema_utils.py gives: the only one, but for
-- others of its platform.
use var_track.Prelude.{
  String, ◌≡◌, sym, ◌∙◌, true, List, [], ◌∷◌, arith, ◌⊎◌, inl, keep, map, In, In-keep, In-keep_of,
  In-map, contains_of_In, contains, string_eq,
}
use var_track.Prelude.Order.{sorted_set, contains-sorted_set}
use var_track.Value.{Record, text, same}
use var_track.Sink.{Reply, done, raised}
use var_track.Rule.Getters.{Conversions, value_at}
use var_track.Task.Stages.{World, TaskTarget}
use var_track.Task.Cli.{
  CliTask, CliTools, found, rule_config_for_datasource, is_rule_for, choose_rule, platform_name,
  look_up,
}

found-injective : (r s : Record) → found r ≡ found s → r ≡ s
found-injective r s e = cc

only : (p a b : String) → contains (p ∷ []) a ≡ true → contains (p ∷ []) b ≡ true → a ≡ b
only p a b h k = ground (arith, h, k)

module _ (c : Conversions) where
  -- A rule is chosen where all names are one.
  choose_rule-same :
      (r rule : Record) (names : List String)
      → choose_rule c r names ≡ found rule
      → (r ≡ rule) × ((a b : String) → contains names a ≡ true → contains names b ≡ true → a ≡ b)
  choose_rule-same r rule [] e = (found-injective r rule e, λ a b h k. absurd (ground (arith, h)))
  choose_rule-same r rule (p ∷ []) e = (found-injective r rule e, only p)
  choose_rule-same r rule (p ∷ (q ∷ others)) e = absurd (ground (arith, e))

  name-In :
      (r : Record) (rs : List Record)
      → In r rs
      → contains (sorted_set (map (platform_name c) rs)) (platform_name c r) ≡ true
  name-In r rs h =
      contains-sorted_set (map (platform_name c) rs) (platform_name c r)
      ∙ contains_of_In (platform_name c r) (map (platform_name c) rs)
          (In-map (platform_name c) r rs h)

  look_up-only :
      (rs : List Record) (rule : Record)
      → look_up c rs ≡ found rule
      → In rule rs × ((other : Record) → In other rs → platform_name c other ≡ platform_name c rule)
  look_up-only [] rule e = absurd (ground (arith, e))
  look_up-only (r ∷ rs) rule e =
      let (same, one) = choose_rule-same r rule (sorted_set (map (platform_name c) (r ∷ rs))) e in
      let there : In rule (r ∷ rs) = inl (sym same) in
      (there, λ other h. one _ _ (name-In other (r ∷ rs) h) (name-In rule (r ∷ rs) there))

module _ (w : World) (target : TaskTarget) (t : CliTools) where
  -- The tenant's rule for the datasource and the platform: one of its rules, and every other rule for them
  -- is of the same platform.
  pub record IsTheRule (task : CliTask) (rule : Record) : Type 0 where
    pub rules : List Record
    pub known : t.get_all_rules target.tenant_id ≡ done rules
    pub there : In rule rules
    pub of_datasource : same (value_at rule "datasource") (text target.datasource) ≡ true
    pub of_platform :
        (task.platform ≡ "") ⊎ (same (value_at rule "platform") (text task.platform) ≡ true)
    pub unambiguous :
        (other : Record)
        → In other rules
        → same (value_at other "datasource") (text target.datasource) ≡ true
        → (task.platform ≡ "") ⊎ (same (value_at other "platform") (text task.platform) ≡ true)
        → platform_name w.payload.conversions other ≡ platform_name w.payload.conversions rule

  -- The test of the lookup, both ways
  is_rule_for-parts :
      (platform : String) (r : Record)
      → is_rule_for target.datasource platform r ≡ true
      → (same (value_at r "datasource") (text target.datasource) ≡ true)
        × ((platform ≡ "") ⊎ (same (value_at r "platform") (text platform) ≡ true))
  is_rule_for-parts platform r h = ground (arith, h)

  is_rule_for-of_parts :
      (platform : String) (r : Record)
      → same (value_at r "datasource") (text target.datasource) ≡ true
      → (platform ≡ "") ⊎ (same (value_at r "platform") (text platform) ≡ true)
      → is_rule_for target.datasource platform r ≡ true
  is_rule_for-of_parts platform r h k = ground (arith, h, k)

  pub found-IsTheRule :
      (task : CliTask) (rule : Record) (r : Reply (List Record))
      → t.get_all_rules target.tenant_id ≡ r
      → rule_config_for_datasource w.payload.conversions r target.datasource task.platform
        ≡ found rule
      → IsTheRule task rule
  unfolding rule_config_for_datasource
  found-IsTheRule task rule (raised m) known e = absurd (ground (arith, e))
  found-IsTheRule task rule (done rules) known e =
      let fits : Record → _ = is_rule_for target.datasource task.platform in
      let (chosen, one) = look_up-only w.payload.conversions (keep fits rules) rule e in
      let (there, fit) = In-keep fits rule rules chosen in
      let (datasource, platform) = is_rule_for-parts task.platform rule fit in
      record {
        rules = rules;
        known = known;
        there = there;
        of_datasource = datasource;
        of_platform = platform;
        unambiguous = λ other h d p.
            one other
              (In-keep_of fits other rules h (is_rule_for-of_parts task.platform other d p));
      }
