-- ===== src/Rule/Merging.antt =====
-- What merge_child keeps.
use var_track.Prelude.{
  String, ◌≡◌, refl, false, Option, none, some, List, [], ◌∷◌, contains, ◌==◌, string_eq,
  if◌then◌else◌, arith,
}
use var_track.Prelude.Dict
use var_track.Prelude.Dict.{
  Dict, IsDict, IsDict-put, IsDict-update, get-put, get-update, get-update_other,
}
use var_track.Value.{Value, null, bool, num, text, list, dict, Record, is_dict}
use var_track.Rule.{RuleOptions}
use var_track.Rule.Getters.{value_at}
use var_track.Rule.Layers.{merge_child, merge_keys, put_if, merge_values, merge_dicts}

-- What a merge leaves under a key: the merged dicts, else the child's value, else the parent's.
abbrev pub or_value : Option Value → Option Value → Option Value
or_value (some v) o = some v
or_value none o = o

pub get-put_if :
    (key : String) (o : Option Value) (out : Record) (k : String)
    → Dict.get (put_if key o out) k
      ≡ (if k == key then or_value o (Dict.get out k) else Dict.get out k)
get-put_if key none out k = ground arith
get-put_if key (some v) out k = get-put out key k v

put_if-IsDict :
    (key : String) (o : Option Value) (out : Record) → IsDict out → IsDict (put_if key o out)
put_if-IsDict key none out u = u
put_if-IsDict key (some v) out u = IsDict-put out key v u

get-merge_keys :
    (keys : List String) (p c out : Record) (k : String)
    → Dict.get (merge_keys keys p c out) k ≡ (
        if contains keys k
        then or_value (merge_values k (value_at p k) (value_at c k)) (Dict.get out k)
        else Dict.get out k)
unfolding merge_keys
get-merge_keys [] p c out k = refl
get-merge_keys (key ∷ keys) p c out k =
    let o = merge_values key (value_at p key) (value_at c key) in
    ground (arith, get-merge_keys keys p c (put_if key o out) k, get-put_if key o out k)

pub merge_values-null : (key : String) (v : Value) → merge_values key v null ≡ none
unfolding merge_values merge_dicts is_dict
merge_values-null key (dict fs) = ground arith
merge_values-null key null = ground arith
merge_values-null key (bool b) = ground arith
merge_values-null key (num n) = ground arith
merge_values-null key (text s) = ground arith
merge_values-null key (list vs) = ground arith

-- A key that the child does not have is the parent's.
pub get-merge_child_other :
    (o : RuleOptions) (p c : Record) (k : String)
    → Dict.has c k ≡ false
    → Dict.get (merge_child o p c) k ≡ Dict.get p k
unfolding merge_child
get-merge_child_other o p c k h =
    let absent : Dict.get c k ≡ none = ground (arith, h) in
    ground (
      arith,
      get-merge_keys o.mergeable p c (Dict.update p c) k,
      get-update_other p c k h,
      merge_values-null k (value_at p k),
      absent,
    )

-- Under a key that is merged stands what the merge of the two values gives, if it gives one; else the
-- child's value goes before the parent's.
pub get-merge_child :
    (o : RuleOptions) (p c : Record) (k : String)
    → IsDict c
    → Dict.get (merge_child o p c) k ≡ (
        if contains o.mergeable k
        then or_value
            (merge_values k (value_at p k) (value_at c k))
            (if Dict.has c k then Dict.get c k else Dict.get p k)
        else if Dict.has c k
        then Dict.get c k
        else Dict.get p k)
unfolding merge_child
get-merge_child o p c k u =
    ground (arith, get-merge_keys o.mergeable p c (Dict.update p c) k, get-update p c k u)

merge_keys-IsDict :
    (keys : List String) (p c out : Record) → IsDict out → IsDict (merge_keys keys p c out)
unfolding merge_keys
merge_keys-IsDict [] p c out u = u
merge_keys-IsDict (key ∷ keys) p c out u =
    merge_keys-IsDict keys p c (put_if key (merge_values key (value_at p key) (value_at c key)) out)
      (put_if-IsDict key (merge_values key (value_at p key) (value_at c key)) out u)

pub merge_child-IsDict : (o : RuleOptions) (p c : Record) → IsDict p → IsDict (merge_child o p c)
unfolding merge_child
merge_child-IsDict o p c u =
    merge_keys-IsDict o.mergeable p c (Dict.update p c) (IsDict-update p c u)
