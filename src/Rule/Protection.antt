-- ===== src/Rule/Protection.antt =====
-- The patterns of prune.protection add up.
use var_track.Prelude.{
  String, ◌≡◌, refl, ap, Bool, true, false, ◌||◌, Option, none, some, List, [], ◌∷◌, ◌++◌, contains,
  any-append, string_eq, if◌then◌else◌, arith, Bool-cases, inl, inr,
}
use var_track.Prelude.Dict
use var_track.Prelude.Dict.{Dict, IsDict, is_some, get-put, get-update}
use var_track.Value.{
  Value, null, bool, num, text, list, dict, Fields, Record, is_dict, or_null, list_items,
  dict_fields, to_dict, of_dict, to_list, of_list, unique, among, same,
}
use var_track.Rule.{RuleOptions}
use var_track.Rule.Getters.{value_at}
use var_track.Rule.Layers.{
  merge_child, merge_values, merge_dicts, merged_dicts, united, prune_object,
}
use var_track.Rule.Merging.{or_value, get-put_if, get-merge_child, merge_values-null}

to_list-of_list : (vs : List Value) → to_list (of_list vs) ≡ vs
unfolding to_list of_list
to_list-of_list [] = refl
to_list-of_list (v ∷ vs) = ap (λ ws. v ∷ ws) (to_list-of_list vs)

to_dict-of_dict : (d : Record) → to_dict (of_dict d) ≡ d
unfolding to_dict of_dict
to_dict-of_dict [] = refl
to_dict-of_dict ((k, v) ∷ d) = ap (λ e. (k, v) ∷ e) (to_dict-of_dict d)

pub same-text : (s : String) (v : Value) → same (text s) v ≡ true → v ≡ text s
unfolding same
same-text s (text t) h = ground (arith, h)
same-text s null h = ground (arith, h)
same-text s (bool b) h = ground (arith, h)
same-text s (num n) h = ground (arith, h)
same-text s (list vs) h = ground (arith, h)
same-text s (dict fs) h = ground (arith, h)

-- Nothing is lost where duplicates go.
among-unique :
    (seen vs : List Value) (s : String)
    → (among (unique seen vs) (text s) || among seen (text s))
      ≡ (among vs (text s) || among seen (text s))
unfolding unique
among-unique seen [] s = refl
among-unique seen (v ∷ vs) s = elim (Bool-cases (same (text s) v)) [
  | inl equal ↦
      let e : among seen v ≡ among seen (text s) = ap (among seen) (same-text s v equal) in
      ground (arith, e, equal)
  | inr other ↦ ground (arith, among-unique seen vs s, among-unique (v ∷ seen) vs s, other)
]

-- A value under "protection" that is a list, or none
abbrev pub is_patterns : Option Value → Bool
is_patterns none = true
is_patterns (some (list vs)) = true
is_patterns (some v) = false

-- A value under "prune" with which the patterns add up.
abbrev pub adds_up : Option Value → Bool
adds_up none = true
adds_up (some null) = false
adds_up (some (dict fs)) = is_patterns (Dict.get (to_dict fs) "protection")
adds_up (some v) = true

-- Whether a rule's `prune` protects by the pattern `s`.
abbrev pub protects_in : Value → String → Bool
protects_in v s = among (list_items (value_at (dict_fields v) "protection")) (text s)

abbrev pub protects : Record → String → Bool
protects rule s = protects_in (value_at rule "prune") s

-- The patterns of both under the united lists
united_lists :
    (p c : Option Value) (s : String)
    → is_patterns c ≡ true
    → among (list_items (or_null (or_value (united p c) (if is_some c then c else p)))) (text s)
      ≡ (among (list_items (or_null p)) (text s) || among (list_items (or_null c)) (text s))
unfolding united
united_lists p none s h = ground arith
united_lists none (some (list ws)) s h = refl
united_lists (some (list vs)) (some (list ws)) s h = ground (
  arith,
  ap (λ us. among us (text s)) (to_list-of_list (unique [] (to_list vs ++ to_list ws))),
  among-unique [] (to_list vs ++ to_list ws) s,
  any-append (same (text s)) (to_list vs) (to_list ws),
)
united_lists (some null) (some (list ws)) s h = refl
united_lists (some (bool b)) (some (list ws)) s h = refl
united_lists (some (num n)) (some (list ws)) s h = refl
united_lists (some (text t)) (some (list ws)) s h = refl
united_lists (some (dict fs)) (some (list ws)) s h = refl
united_lists p (some null) s h = absurd (ground (arith, h))
united_lists p (some (bool b)) s h = absurd (ground (arith, h))
united_lists p (some (num n)) s h = absurd (ground (arith, h))
united_lists p (some (text t)) s h = absurd (ground (arith, h))
united_lists p (some (dict fs)) s h = absurd (ground (arith, h))

protects_in-merged_dicts :
    (ps cs : Record) (s : String)
    → IsDict cs
    → is_patterns (Dict.get cs "protection") ≡ true
    → among (list_items (value_at (merged_dicts "prune" ps cs) "protection")) (text s) ≡ (
        among (list_items (value_at ps "protection")) (text s)
        || among (list_items (value_at cs "protection")) (text s))
unfolding merged_dicts Dict.get string_eq
protects_in-merged_dicts ps cs s u h =
    let p = Dict.get ps "protection" in
    let c = Dict.get cs "protection" in
    rw
      (
        get-put_if "protection" (united p c) (Dict.update ps cs) "protection",
        get-update ps cs "protection" u,
      )
      (united_lists p c s h)

protects_in-dicts :
    (ps cs : Fields) (s : String)
    → IsDict (to_dict cs)
    → is_patterns (Dict.get (to_dict cs) "protection") ≡ true
    → protects_in (or_null (merge_dicts "prune" (dict ps) (dict cs))) s
      ≡ (protects_in (dict ps) s || protects_in (dict cs) s)
unfolding merge_dicts
protects_in-dicts ps cs s u h =
    rw (to_dict-of_dict (merged_dicts "prune" (to_dict ps) (to_dict cs)))
      (protects_in-merged_dicts (to_dict ps) (to_dict cs) s u h)

-- Two values that are no dicts are not merged.
merge_values-neither :
    (p c : Value) → is_dict p ≡ false → is_dict c ≡ false → merge_values "prune" p c ≡ none
unfolding merge_values merge_dicts is_dict
merge_values-neither (dict fs) c h k = absurd (ground (arith, h))
merge_values-neither null c h k = ground (arith, k)
merge_values-neither (bool b) c h k = ground (arith, k)
merge_values-neither (num n) c h k = ground (arith, k)
merge_values-neither (text t) c h k = ground (arith, k)
merge_values-neither (list vs) c h k = ground (arith, k)

protects_in-none : (v : Value) (s : String) → is_dict v ≡ false → protects_in v s ≡ false
unfolding is_dict Dict.get
protects_in-none (dict fs) s h = absurd (ground (arith, h))
protects_in-none null s h = refl
protects_in-none (bool b) s h = refl
protects_in-none (num n) s h = refl
protects_in-none (text t) s h = refl
protects_in-none (list vs) s h = refl

protects_in-neither :
    (p v : Value) (s : String)
    → is_dict p ≡ false
    → is_dict v ≡ false
    → protects_in (or_null (or_value (merge_values "prune" p v) (some v))) s
      ≡ (protects_in p s || protects_in v s)
protects_in-neither p v s h k =
    rw (merge_values-neither p v h k) (ground (arith, protects_in-none p s h))

-- A child's `prune: true` or `false` over any parent's value
protects_in-flag :
    (p : Option Value) (v : Value) (s : String)
    → is_dict v ≡ false
    → ((ps : Fields)
        → protects_in (or_null (or_value (merge_values "prune" (dict ps) v) (some v))) s
          ≡ (protects_in (dict ps) s || protects_in v s))
    → protects_in (or_null (or_value (merge_values "prune" (or_null p) v) (some v))) s
      ≡ (protects_in (or_null p) s || protects_in v s)
unfolding is_dict
protects_in-flag (some (dict ps)) v s d h = h ps
protects_in-flag none v s d h = protects_in-neither null v s refl d
protects_in-flag (some null) v s d h = protects_in-neither null v s refl d
protects_in-flag (some (bool b)) v s d h = protects_in-neither (bool b) v s refl d
protects_in-flag (some (num n)) v s d h = protects_in-neither (num n) v s refl d
protects_in-flag (some (text t)) v s d h = protects_in-neither (text t) v s refl d
protects_in-flag (some (list vs)) v s d h = protects_in-neither (list vs) v s refl d

protects_in-values :
    (p c : Option Value) (s : String)
    → IsDict (dict_fields (or_null c))
    → adds_up c ≡ true
    → protects_in
        (or_null
          (or_value (merge_values "prune" (or_null p) (or_null c)) (if is_some c then c else p)))
        s
      ≡ (protects_in (or_null p) s || protects_in (or_null c) s)
unfolding merge_values merge_dicts prune_object is_dict to_dict Dict.get string_eq
protects_in-values p none s u h = ground (arith, merge_values-null "prune" (or_null p))
protects_in-values p (some null) s u h = absurd (ground (arith, h))
protects_in-values none (some (dict cs)) s u h = refl
protects_in-values (some null) (some (dict cs)) s u h = refl
protects_in-values (some (dict ps)) (some (dict cs)) s u h = protects_in-dicts ps cs s u h
protects_in-values (some (bool b)) (some (dict cs)) s u h =
    protects_in-dicts (prune_object (bool b)) cs s u h
protects_in-values (some (num n)) (some (dict cs)) s u h =
    protects_in-dicts (prune_object (num n)) cs s u h
protects_in-values (some (text t)) (some (dict cs)) s u h =
    protects_in-dicts (prune_object (text t)) cs s u h
protects_in-values (some (list t)) (some (dict cs)) s u h =
    protects_in-dicts (prune_object (list t)) cs s u h
protects_in-values p (some (bool b)) s u h =
    protects_in-flag p (bool b) s refl
      (λ ps. protects_in-dicts ps (prune_object (bool b)) s (refl, tt) refl)
protects_in-values p (some (num n)) s u h =
    protects_in-flag p (num n) s refl
      (λ ps. protects_in-dicts ps (prune_object (num n)) s (refl, tt) refl)
protects_in-values p (some (text t)) s u h =
    protects_in-flag p (text t) s refl
      (λ ps. protects_in-dicts ps (prune_object (text t)) s (refl, tt) refl)
protects_in-values p (some (list t)) s u h =
    protects_in-flag p (list t) s refl
      (λ ps. protects_in-dicts ps (prune_object (list t)) s (refl, tt) refl)

-- Every pattern of prune.protection of either layer is one of the merged rule, and it has no other; when
-- prune is merged key by key, the child's prune is not null, its protection is a list or absent, and each
-- key of the child and of its prune is there once.
pub protects-merge_child :
    (o : RuleOptions) (p c : Record) (s : String)
    → contains o.mergeable "prune" ≡ true
    → IsDict c
    → IsDict (dict_fields (value_at c "prune"))
    → adds_up (Dict.get c "prune") ≡ true
    → protects (merge_child o p c) s ≡ (protects p s || protects c s)
protects-merge_child o p c s m u w h =
    rw (get-merge_child o p c "prune" u, m)
      (protects_in-values (Dict.get p "prune") (Dict.get c "prune") s w h)
