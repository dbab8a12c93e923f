-- ===== src/Rule/Identity.antt =====
-- The platform and the datasource of a layered rule.
use var_track.Prelude.{
  String, ◌≡◌, refl, sym, ap, ◌∙◌, inl, inr, true, false, not, ◌||◌, ◌&&◌, Option, none, some, List,
  [], ◌∷◌, contains, ◌==◌, string_eq, if◌then◌else◌, arith, Bool-cases, if-cases, any,
}
use var_track.Prelude.Dict
use var_track.Prelude.Dict.{
  Dict, IsDict, IsDict-pop, IsDict-put, IsDict-keep_keys, get-put, get-keep_keys, get-set_default,
  set_default,
}
use var_track.Value.{Value, null, bool, num, text, list, dict, Record, same}
use var_track.Rule.{RuleOptions}
use var_track.Rule.Renamed.{
  with_current_names, rename_all, rename_one, drop_removed, removed_options,
}
use var_track.Rule.Renaming.{IsRenaming, currents, get-with_current_names, earliest-none}
use var_track.Rule.Getters.{Conversions}
use var_track.Rule.Layers.{
  with_url, merge_child, is_blocked, admin_only_keys, base_rule, child_of, layered_rule,
}
use var_track.Rule.Merging.{get-merge_child}
use var_track.Rule.Protection.{same-text}
use var_track.Rule.Forcing.{get-apply_force_other, has-forced, unforced}

pub text-same : (s : String) (v : Value) → same v (text s) ≡ true → v ≡ text s
unfolding same
text-same s (text t) h = ground (arith, h)
text-same s null h = ground (arith, h)
text-same s (bool b) h = ground (arith, h)
text-same s (num n) h = ground (arith, h)
text-same s (list vs) h = ground (arith, h)
text-same s (dict fs) h = ground (arith, h)

same_refl : (s : String) → same (text s) (text s) ≡ true
unfolding same
same_refl s = ground arith

-- A value that is the same as another is the same text.
pub same-like : (v w : Value) (s : String) → same v w ≡ true → same v (text s) ≡ same w (text s)
same-like v w s h = elim (Bool-cases (same v (text s))) [
  | inl yes_v ↦
      let e = text-same s v yes_v in
      let f = same-text s w (rw e at h) in yes_v ∙ sym (rw f (same_refl s))
  | inr no_v ↦ elim (Bool-cases (same w (text s))) [
    | inr no_w ↦ no_v ∙ sym no_w
    | inl yes_w ↦ let e = text-same s w yes_w in absurd (ground (arith, no_v, rw e at h))
  ]
]

pub same-text_sym : (v : Value) (s : String) → same v (text s) ≡ same (text s) v
same-text_sym v s = elim (Bool-cases (same v (text s))) [
  | inl yes_v ↦ let e = text-same s v yes_v in rw e refl
  | inr no_v ↦ elim (Bool-cases (same (text s) v)) [
    | inr no_w ↦ no_v ∙ sym no_w
    | inl yes_w ↦
        let e = same-text s v yes_w in
        absurd (ground (arith, no_v, ap (λ u. same u (text s)) e, same_refl s))
  ]
]

set_default-IsDict : (d : Record) (k : String) (v : Value) → IsDict d → IsDict (set_default d k v)
set_default-IsDict d k v u =
    if-cases IsDict (Dict.has d k) d (Dict.put d k v) (λ h. u) (λ h. IsDict-put d k v u)

rename_if-IsDict :
    (old current : String) (d : Record) (found : Option Value)
    → IsDict d
    → IsDict {V = Value}
        (elim found as (λ o. Record) [ none ↦ d | some v ↦ set_default (Dict.pop d old) current v ])
rename_if-IsDict old current d none u = u
rename_if-IsDict old current d (some v) u =
    set_default-IsDict (Dict.pop d old) current v (IsDict-pop d old u)

rename_one-IsDict :
    (old current : String) (d : Record) → IsDict d → IsDict (rename_one old current d)
rename_one-IsDict old current d u = rename_if-IsDict old current d (Dict.get d old) u

rename_all-IsDict :
    (renamed : Dict String String) (d : Record) → IsDict d → IsDict (rename_all renamed d)
unfolding rename_all
rename_all-IsDict [] d u = u
rename_all-IsDict ((old, current) ∷ renamed) d u =
    rename_all-IsDict renamed (rename_one old current d) (rename_one-IsDict old current d u)

drop_removed-IsDict :
    (removed : List String) (d : Record) → IsDict d → IsDict (drop_removed removed d)
unfolding drop_removed
drop_removed-IsDict [] d u = u
drop_removed-IsDict (key ∷ removed) d u =
    if-cases IsDict (Dict.has d key) (drop_removed removed (Dict.pop d key))
      (drop_removed removed d)
      (λ h. drop_removed-IsDict removed (Dict.pop d key) (IsDict-pop d key u))
      (λ h. drop_removed-IsDict removed d u)

with_current_names-IsDict :
    (renamed : Dict String String) (d : Record) → IsDict d → IsDict (with_current_names renamed d)
unfolding with_current_names
with_current_names-IsDict renamed d u =
    if-cases IsDict (any (Dict.has d) (Dict.keys renamed) || any (Dict.has d) removed_options)
      (rename_all renamed (drop_removed removed_options d)) d
      (λ h.
        rename_all-IsDict renamed (drop_removed removed_options d)
          (drop_removed-IsDict removed_options d u))
      (λ h. u)

-- A key that no rename is about, that is not merged, and that a layer does not make
abbrev pub IsPlain : RuleOptions → String → Type 0
IsPlain o k =
    (Dict.has o.renamed k ≡ false)
    × (contains removed_options k ≡ false)
    × (contains (currents o.renamed) k ≡ false)
    × (contains o.mergeable k ≡ false)
    × (is_blocked o k ≡ true)
    × ((k == "tenant_id") ≡ false)
    × ((k == "repo_url") ≡ false)

get-plain :
    (o : RuleOptions) (d : Record) (k : String)
    → IsRenaming o.renamed
    → IsPlain o k
    → Dict.get (with_current_names o.renamed d) k ≡ Dict.get d k
get-plain o d k r (p, q, s, _, _, _, _) =
    ground (arith, get-with_current_names o.renamed d k r, earliest-none o.renamed d k s, p, q)

get-with_url :
    (rule : Record) (url k : String)
    → (k == "repo_url") ≡ false
    → Dict.get (with_url rule url) k ≡ Dict.get rule k
unfolding with_url
get-with_url rule url k h = ground (arith, get-put rule "repo_url" k (text url), h)

get-base_rule :
    (o : RuleOptions) (c : Conversions) (bundle cue : Record) (k : String)
    → IsRenaming o.renamed
    → IsPlain o k
    → Dict.get (base_rule o c bundle cue) k ≡ Dict.get cue k
unfolding base_rule
get-base_rule o c bundle cue k r plain =
    let (p, q, s, unmerged, blocked, apart, apart_url) = plain in
    get-with_url (with_current_names o.renamed cue) _ k apart_url ∙ get-plain o cue k r plain

get-child_of :
    (o : RuleOptions) (rule : Record) (k : String)
    → IsRenaming o.renamed
    → IsPlain o k
    → Dict.get (child_of o (some rule)) k
      ≡ (if contains (admin_only_keys o) k then none else Dict.get rule k)
unfolding child_of Dict.get
get-child_of o [] k r plain = ground arith
get-child_of o (f ∷ rule) k r plain = ground (
  arith,
  get-keep_keys (λ j. not (contains (admin_only_keys o) j))
      (with_current_names o.renamed (f ∷ rule)) k,
  get-plain o (f ∷ rule) k r plain,
)

child_of-IsDict : (o : RuleOptions) (rule : Record) → IsDict rule → IsDict (child_of o (some rule))
unfolding child_of
child_of-IsDict o [] u = tt
child_of-IsDict o (f ∷ rule) u =
    IsDict-keep_keys _ _ (with_current_names-IsDict o.renamed (f ∷ rule) u)

-- A plain key of a layered rule is the tenant's, if config.cue alone does not set it and the tenant's rule
-- has it, and else config.cue's.
pub get-layered_plain :
    (o : RuleOptions) (c : Conversions) (bundle cue rule : Record) (tenant k : String)
    → IsRenaming o.renamed
    → IsPlain o k
    → IsDict rule
    → Dict.get (layered_rule o c bundle cue (some rule) tenant) k ≡ (
        if not (contains (admin_only_keys o) k) && Dict.has rule k
        then Dict.get rule k
        else Dict.get cue k)
unfolding layered_rule
get-layered_plain o c bundle cue rule tenant k r plain u =
    let (p, q, s, unmerged, blocked, apart, apart_url) = plain in
    let whole = unforced o c bundle cue (some rule) tenant in
    let base = base_rule o c bundle cue in
    get-apply_force_other o whole k (has-forced o whole k blocked)
    ∙ ground (
      arith,
      get-set_default (merge_child o base (child_of o (some rule))) "tenant_id" k (text tenant),
      get-merge_child o base (child_of o (some rule)) k (child_of-IsDict o rule u),
      get-base_rule o c bundle cue k r plain,
      get-child_of o rule k r plain,
      unmerged,
      apart,
    )

pub get-bare_plain :
    (o : RuleOptions) (c : Conversions) (bundle cue : Record) (tenant k : String)
    → IsRenaming o.renamed
    → IsPlain o k
    → Dict.get (layered_rule o c bundle cue none tenant) k ≡ Dict.get cue k
unfolding layered_rule child_of Dict.get
get-bare_plain o c bundle cue tenant k r plain =
    let (p, q, s, unmerged, blocked, apart, apart_url) = plain in
    let whole = unforced o c bundle cue none tenant in
    let base = base_rule o c bundle cue in
    get-apply_force_other o whole k (has-forced o whole k blocked)
    ∙ ground (
      arith,
      get-set_default (merge_child o base (child_of o none)) "tenant_id" k (text tenant),
      get-merge_child o base (child_of o none) k tt,
      get-base_rule o c bundle cue k r plain,
      unmerged,
      apart,
    )
