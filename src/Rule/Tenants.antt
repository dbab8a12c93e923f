-- ===== src/Rule/Tenants.antt =====
-- app/pipeline/rule_layers.py: whose rule is whose, and the rules of a tenant.
use var_track.Prelude.{
  String, Bool, false, not, ◌&&◌, ◌||◌, Option, none, some, List, [], ◌∷◌, ◌++◌, any, keep,
  string_eq, if◌then◌else◌, is_empty,
}
use var_track.Value.{Value, text, Record, is_dict, list_items, dict_fields, same, among, unique}
use var_track.Rule.{RuleOptions}
use var_track.Rule.Getters.{Conversions, value_at}
use var_track.Rule.Layers.{layered_rule, default_tenant}

abbrev to_rules : List Value → List Record
to_rules [] = []
to_rules (v ∷ vs) = let rest = to_rules vs in if is_dict v then dict_fields v ∷ rest else rest

unfoldable pub cue_rules : Record → List Record
cue_rules bundle = to_rules (list_items (value_at bundle "rules"))

-- Whether a rule is for a platform and a datasource
abbrev pub is_for : Value → Value → Record → Bool
is_for platform datasource rule =
    same (value_at rule "platform") platform && same (value_at rule "datasource") datasource

-- `_find`
unfoldable pub find : List Record → Value → Value → Option Record
find [] platform datasource = none
find (rule ∷ rules) platform datasource =
    let rest = find rules platform datasource in
    if is_for platform datasource rule then some rule else rest

abbrev pub tenants_of : Record → List Value
tenants_of cue = list_items (value_at cue "tenants")

-- `_allowed`
abbrev pub allowed : Record → String → Bool
allowed cue tenant = is_empty (tenants_of cue) || among (tenants_of cue) (text tenant)

abbrev pub first_or : Value → List Value → Value
first_or default [] = default
first_or default (v ∷ vs) = v

unfoldable pub owner : Record → Value
owner cue = first_or (text default_tenant) (tenants_of cue)

abbrev owner_values : List Record → List Value
unfolding owner
owner_values [] = []
owner_values (cue ∷ cues) = owner cue ∷ owner_values cues

unfoldable pub owners : Record → List Value
unfolding cue_rules owner_values unique
owners bundle = unique [] (owner_values (cue_rules bundle))

-- `_usable`
abbrev pub usable : Option Record → String → Bool
usable none tenant = false
usable (some cue) tenant = allowed cue tenant

-- The tenant, platform and datasource of a rule of a bundle.json
abbrev pub Claim : Type 0
Claim = String × Value × Value

-- `_claimed`
abbrev pub is_claimed : Record → List Claim → Bool
is_claimed cue claims = any (λ (t, p, d). is_for p d cue && allowed cue t) claims

abbrev pub unclaimed : List Record → List Claim → List Record
unclaimed cues claims = keep (λ cue. not (is_claimed cue claims)) cues

module _ (o : RuleOptions) (c : Conversions) (bundle : Record) (tenant : String) where
  -- A rule of the bundle.json over the one that config.cue has for it
  unfoldable pub layer_of : Record → Option Record → List Record → List Record
  unfolding layered_rule
  layer_of rule none rest = rest
  layer_of rule (some cue) rest =
      if allowed cue tenant then layered_rule o c bundle cue (some rule) tenant ∷ rest else rest

  -- The rules of the tenant's bundle.json, each over config.cue's
  unfoldable pub layered_rules : List Record → List Record → List Record
  unfolding find layer_of
  layered_rules cues [] = []
  layered_rules cues (rule ∷ rules) =
      layer_of rule (find cues (value_at rule "platform") (value_at rule "datasource"))
        (layered_rules cues rules)

  -- config.cue's rules without a layer
  unfoldable pub bare_rules : List Record → List Record
  unfolding layered_rule owner
  bare_rules [] = []
  bare_rules (cue ∷ cues) =
      let rest = bare_rules cues in
      if same (owner cue) (text tenant)
      then layered_rule o c bundle cue none tenant ∷ rest
      else rest

  unfoldable pub tenant_rules : List Record → List Claim → List Record
  unfolding cue_rules layered_rules bare_rules
  tenant_rules rules claims =
      let cues = cue_rules bundle in
      if is_empty cues
      then rules
      else layered_rules cues rules ++ bare_rules (unclaimed cues claims)

  unfoldable pub without_layer : Record → List Claim → Option Record
  unfolding layered_rule owner
  without_layer cue claims =
      if not (same (owner cue) (text tenant)) || is_claimed cue claims
      then none
      else some (layered_rule o c bundle cue none tenant)

  -- The rule over the one that config.cue has for it
  unfoldable pub rule_over : Option Record → Option Record → List Claim → Option Record
  unfolding layered_rule without_layer
  rule_over none r claims = none
  rule_over (some cue) none claims = without_layer cue claims
  rule_over (some cue) (some rule) claims =
      if allowed cue tenant then some (layered_rule o c bundle cue (some rule) tenant) else none

  unfoldable pub rule_for : String → String → Option Record → List Claim → Option Record
  unfolding cue_rules rule_over find
  rule_for platform datasource r claims =
      let cues = cue_rules bundle in
      if is_empty cues then r else rule_over (find cues (text platform) (text datasource)) r claims
