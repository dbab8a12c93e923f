-- ===== src/Rule/Forcing.antt =====
-- The order of the layers: what each of them can set.
use var_track.Prelude.{
  String, ◌≡◌, refl, ap, ◌∙◌, true, false, not, Option, none, some, [], ◌∷◌, contains,
  contains-append, ◌==◌, string_eq, if◌then◌else◌, arith,
}
use var_track.Prelude.Dict
use var_track.Prelude.Dict.{
  Dict, IsDict, set_default, IsDict-keep_keys, get-keep_keys, get-update, get-update_other,
  get-set_default,
}
use var_track.Value.{Value, null, bool, num, text, list, dict, Record, or_null, dict_fields}
use var_track.Rule.{RuleOptions}
use var_track.Rule.Renamed.{with_current_names}
use var_track.Rule.Getters.{Conversions, value_at}
use var_track.Rule.Layers.{
  merge_child, apply_force, laid_force, is_blocked, admin_only_keys, base_rule, child_of,
  layered_rule, identity,
}
use var_track.Rule.Merging.{get-merge_child_other}

-- The keys of `force` that are laid over the rule
abbrev pub forced : RuleOptions → Record → Record
forced o rule = Dict.keep_keys (λ k. not (is_blocked o k)) (dict_fields (value_at rule "force"))

laid_force-update :
    (o : RuleOptions) (rule : Record) (v : Value)
    → laid_force o rule v
      ≡ Dict.update rule (Dict.keep_keys (λ k. not (is_blocked o k)) (dict_fields v))
unfolding Dict.update Dict.keep_keys
laid_force-update o rule (dict fs) = refl
laid_force-update o rule null = refl
laid_force-update o rule (bool b) = refl
laid_force-update o rule (num n) = refl
laid_force-update o rule (text t) = refl
laid_force-update o rule (list vs) = refl

-- A key that `force` does not set, or cannot set, is as it was.
pub get-apply_force_other :
    (o : RuleOptions) (rule : Record) (k : String)
    → Dict.has (forced o rule) k ≡ false
    → Dict.get (apply_force o rule) k ≡ Dict.get rule k
unfolding apply_force
get-apply_force_other o rule k h =
    rw (laid_force-update o rule (value_at rule "force"))
      (get-update_other rule (forced o rule) k h)

pub get-apply_force :
    (o : RuleOptions) (rule : Record) (k : String)
    → IsDict (dict_fields (value_at rule "force"))
    → Dict.get (apply_force o rule) k
      ≡ (if Dict.has (forced o rule) k then Dict.get (forced o rule) k else Dict.get rule k)
unfolding apply_force
get-apply_force o rule k u =
    rw (laid_force-update o rule (value_at rule "force"))
      (get-update rule (forced o rule) k (IsDict-keep_keys _ _ u))

pub has-forced :
    (o : RuleOptions) (rule : Record) (k : String)
    → is_blocked o k ≡ true
    → Dict.has (forced o rule) k ≡ false
has-forced o rule k h =
    ground
      (arith, get-keep_keys (λ j. not (is_blocked o j)) (dict_fields (value_at rule "force")) k, h)

has-child_of :
    (o : RuleOptions) (r : Option Record) (k : String)
    → contains (admin_only_keys o) k ≡ true
    → Dict.has (child_of o r) k ≡ false
unfolding child_of Dict.get
has-child_of o none k h = refl
has-child_of o (some []) k h = refl
has-child_of o (some (f ∷ rule)) k h = ground (
  arith,
  get-keep_keys (λ j. not (contains (admin_only_keys o) j))
      (with_current_names o.renamed (f ∷ rule)) k,
  h,
)

-- The rule before its `force` is laid over it
abbrev pub unforced : RuleOptions → Conversions → Record → Record → Option Record → String → Record
unforced o c bundle cue r tenant =
    set_default (merge_child o (base_rule o c bundle cue) (child_of o r)) "tenant_id" (text tenant)

get-unforced_admin :
    (o : RuleOptions) (c : Conversions) (bundle cue : Record) (r : Option Record)
    (tenant k : String)
    → contains (admin_only_keys o) k ≡ true
    → (k == "tenant_id") ≡ false
    → Dict.get (unforced o c bundle cue r tenant) k ≡ Dict.get (base_rule o c bundle cue) k
get-unforced_admin o c bundle cue r tenant k h apart =
    let base = base_rule o c bundle cue in
    ground (
      arith,
      get-set_default (merge_child o base (child_of o r)) "tenant_id" k (text tenant),
      get-merge_child_other o base (child_of o r) k (has-child_of o r k h),
      apart,
    )

-- What only config.cue sets: under such a key the layered rule has what config.cue's rule has, whatever
-- the tenant's bundle.json and `force` say; when the key is not tenant_id.
pub get-layered_rule_admin :
    (o : RuleOptions) (c : Conversions) (bundle cue : Record) (r : Option Record)
    (tenant k : String)
    → contains (admin_only_keys o) k ≡ true
    → (k == "tenant_id") ≡ false
    → Dict.get (layered_rule o c bundle cue r tenant) k ≡ Dict.get (base_rule o c bundle cue) k
unfolding layered_rule
get-layered_rule_admin o c bundle cue r tenant k h apart =
    let whole = unforced o c bundle cue r tenant in
    get-apply_force_other o whole k
      (has-forced o whole k (ground (arith, contains-append (admin_only_keys o) identity k, h)))
    ∙ get-unforced_admin o c bundle cue r tenant k h apart

pub force_apart : ◌==◌ {A = String} "force" "tenant_id" ≡ false
unfolding string_eq
force_apart = refl

-- The same `force`, the same forced keys.
pub forced-same :
    (o : RuleOptions) (rule other : Record)
    → Dict.get rule "force" ≡ Dict.get other "force"
    → forced o rule ≡ forced o other
forced-same o rule other e =
    ap (λ v. Dict.keep_keys (λ k. not (is_blocked o k)) (dict_fields (or_null v))) e

pub forced-layered_rule :
    (o : RuleOptions) (c : Conversions) (bundle cue : Record) (r : Option Record) (tenant : String)
    → contains (admin_only_keys o) "force" ≡ true
    → forced o (layered_rule o c bundle cue r tenant) ≡ forced o (base_rule o c bundle cue)
forced-layered_rule o c bundle cue r tenant h =
    forced-same o (layered_rule o c bundle cue r tenant) (base_rule o c bundle cue)
      (get-layered_rule_admin o c bundle cue r tenant "force" h force_apart)

-- A forced key of the layered rule is as `force` says.
pub get-layered_rule-forced :
    (o : RuleOptions) (c : Conversions) (bundle cue : Record) (r : Option Record)
    (tenant k : String)
    → contains (admin_only_keys o) "force" ≡ true
    → IsDict (dict_fields (value_at (base_rule o c bundle cue) "force"))
    → Dict.has (forced o (base_rule o c bundle cue)) k ≡ true
    → Dict.get (layered_rule o c bundle cue r tenant) k
      ≡ Dict.get (forced o (base_rule o c bundle cue)) k
unfolding layered_rule
get-layered_rule-forced o c bundle cue r tenant k h u m =
    let whole = unforced o c bundle cue r tenant in
    let e = get-unforced_admin o c bundle cue r tenant "force" h force_apart in
    let same = forced-same o whole (base_rule o c bundle cue) e in
    get-apply_force o whole k (rw (ap (λ v. dict_fields (or_null v)) e) u) ∙ rw (same, m) refl
